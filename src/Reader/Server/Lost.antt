-- ===== src/Reader/Server/Lost.antt =====
-- A save of apps/web/src/pages/ReaderPage.tsx that the server stores and whose answer is lost.
use novel_platform.Common.Text.{str_eq}
use novel_platform.Common.{◌+◌, Bool, true, none, some, List, ◌∷◌, ◌≡◌, arith, any}
use novel_platform.Reader.State.{Arithmetic, Progress, Publication, SaveTask, Running, nothing}
use novel_platform.Reader.Saving.{
  begin_task, take_task, start_unless, start_save, finish_running, finish_save, answered,
  continue_with,
}
use novel_platform.Reader.Server.{
  System, deliver, deliver_running, lose, lose_running, save_progress,
}
use novel_platform.Reader.Server.Conflicts.{stale_message}

module _ {F : Type 0} (ops : Arithmetic F) (nearly_done : F → Bool)
    (publication : Publication) where
  -- If the server stores a save and its answer is lost, the next save conflicts with that one: of a page
  -- whose version was the row's, with no other page that writes, where nothing follows the lost save, both
  -- saves are of known sections of the current file, and the next one overrides no version, the next save
  -- is refused, and the page shows the conflict with the version that it has stored itself.
  pub lose-deliver :
      (run : Running F) (p : Progress F) (t : SaveTask F) (ts : List (SaveTask F)) (y : System F)
      → y.page.running ≡ some run
      → y.page.progress_ref ≡ some p
      → y.page.queue ≡ t ∷ ts
      → run.expected_version ≡ y.row.version
      → p.version ≡ y.row.version
      → run.task.after ≡ nothing
      → t.override_version ≡ none
      → run.task.file_revision ≡ publication.file_revision
      → t.file_revision ≡ publication.file_revision
      → any (λ s. str_eq s.id run.task.snapshot.section_id) publication.sections ≡ true
      → any (λ s. str_eq s.id t.snapshot.section_id) publication.sections ≡ true
      → let lost = lose nearly_done ops publication y in
        let y' =
          deliver nearly_done ops publication
            (record { page = start_save ops lost.page; row = lost.row }) in
        (lost.row.version ≡ y.row.version + 1)
        × (y'.row ≡ lost.row)
        × (y'.page.conflict
            ≡ some (record { current_version = lost.row.version; message = stale_message }))
  unfolding lose lose_running deliver deliver_running save_progress start_save start_unless
      take_task begin_task finish_save finish_running answered continue_with
  lose-deliver run p t ts y a b c d e f g h i j k = ground arith
