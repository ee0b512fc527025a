-- ===== src/Reader/Server.antt =====
-- The server's side of a save, `save_progress` of
-- apps/server/src/novel_platform/application/reader/service.py, for an edition whose progress row is
-- there (`open` creates it), together with the page of apps/web/src/pages/ReaderPage.tsx.
pub mod Sync
pub mod Conflicts
pub mod Lost
use novel_platform.Common.Text.{str_eq}
use novel_platform.Common.{
  ℕ, ◌+◌, String, Bool, true, false, ◌&&◌, Option, none, some, List, [], ◌∷◌, ◌==◌, if◌then◌else◌,
  any,
}
use novel_platform.Reader.State.{
  Arithmetic, ReadingStatus, not_started, reading, finished, Location, Progress, Section,
  Publication, Opened, SaveTask, Running, Reader,
}
use novel_platform.Reader.Saving.{Answer, saved, conflict, other_error, start_save, finish_save}

abbrev is_finished : ReadingStatus → Bool
is_finished finished = true
is_finished _ = false

abbrev is_last : String → List Section → Bool
is_last id [] = false
is_last id (s ∷ []) = str_eq s.id id
is_last id (s ∷ t ∷ ts) = is_last id (t ∷ ts)

-- The page and the row that it synchronises with.
pub record System (F : Type 0) : Type 0 where
  pub page : Reader F
  pub row : Progress F

module _ {F : Type 0} (nearly_done : F → Bool) where
  -- `nearly_done x` is `x >= 0.995`.
  unfoldable pub next_status :
      Option ReadingStatus → ReadingStatus → Location F → Publication → ReadingStatus
  next_status (some status) old l publication = status
  next_status none old l publication =
      if is_finished old
      then finished
      else if is_last l.section_id publication.sections && nearly_done l.overall_progress
      then finished
      else reading

  unfoldable pub save_progress : Publication → Running F → Progress F → Progress F × Answer F
  unfolding next_status
  save_progress publication run row =
      let l = run.task.snapshot in
      let row' = record row {
        version = row.version + 1;
        section_id = some l.section_id;
        block_id = l.block_id;
        section_progress = l.section_progress;
        overall_progress = l.overall_progress;
        edition_file_revision = some run.task.file_revision;
        status = next_status run.task.status row.status l publication;
      } in
      if run.task.file_revision == publication.file_revision
      then if any (λ s. str_eq s.id l.section_id) publication.sections
        then if row.version == run.expected_version
          then (row', saved row')
          else (row, conflict (some row.version) "另一台设备或标签页已更新阅读位置。已保留较新的服务端位置。")
        else (row, other_error)
      else (row, other_error)

  -- The running save reaches the server, and its answer the page. Nothing else that is modelled reads the
  -- row between the two; an answer that is lost on its way is `lose`.
  unfoldable pub deliver_running :
      Arithmetic F → Publication → Option (Running F) → System F → System F
  unfolding save_progress
  deliver_running ops publication none y = y
  deliver_running ops publication (some run) y =
      let (row', answer) = save_progress publication run y.row in
      record { page = finish_save ops answer y.page; row = row' }

  unfoldable pub deliver : Arithmetic F → Publication → System F → System F
  unfolding deliver_running
  deliver ops publication y = deliver_running ops publication y.page.running y

  unfoldable pub lose_running :
      Arithmetic F → Publication → Option (Running F) → System F → System F
  unfolding save_progress
  lose_running ops publication none y = y
  lose_running ops publication (some run) y = record {
    page = finish_save ops other_error y.page;
    row = (save_progress publication run y.row).0;
  }

  -- The running save reaches the server, and its answer is lost: the `catch` takes the failed request.
  unfoldable pub lose : Arithmetic F → Publication → System F → System F
  unfolding lose_running
  lose ops publication y = lose_running ops publication y.page.running y
