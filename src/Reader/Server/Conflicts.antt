-- ===== src/Reader/Server/Conflicts.antt =====
-- What follows a write of another page: the conflict that apps/web/src/pages/ReaderPage.tsx shows, and
-- the button that overwrites the server's position.
use novel_platform.Common.{
  ℕ, ◌+◌, String, Bool, true, Option, none, some, [], ◌≡◌, ◌≢◌, refl, arith, any,
}
use novel_platform.Common.Text.{str_eq}
use novel_platform.Reader.State.{
  Arithmetic, Location, Progress, Publication, Opened, Conflict, Running, Reader, After,
}
use novel_platform.Reader.Saving.{
  conflict, begin_task, take_task, start_unless, start_save, finish_running, finish_save, answered,
  continue_with, persist, queue_save, enqueue,
}
use novel_platform.Reader.Navigation.{overwrite, overwrite_from}
use novel_platform.Reader.Server.{System, deliver, deliver_running, save_progress}

-- The text of `StaleProgress` in the server.
abbrev pub stale_message : String
stale_message = "另一台设备或标签页已更新阅读位置。已保留较新的服务端位置。"

module _ {F : Type 0} (ops : Arithmetic F) where
  continue_with-navigated :
      (a : After F) (r : Reader F)
      → r.conflict_ref ≢ none
      → (continue_with ops a r).navigated ≡ r.navigated
  unfolding continue_with
  continue_with-navigated a r h = ground arith

  finish_running-navigated :
      (run : Option (Running F)) (v : Option ℕ) (m : String) (r : Reader F)
      → (finish_running ops run (conflict v m) r).navigated ≡ r.navigated
  unfolding finish_running answered
  finish_running-navigated none v m r = refl
  finish_running-navigated (some run) v m r =
      continue_with-navigated run.task.after _ (ground arith)

  -- A save that is answered with a conflict does not let the page go: whatever it was to do next, it
  -- stays where it is.
  finish_save-navigated :
      (v : Option ℕ) (m : String) (r : Reader F)
      → (finish_save ops (conflict v m) r).navigated ≡ r.navigated
  unfolding finish_save
  finish_save-navigated v m r = finish_running-navigated r.running v m r

  module _ (nearly_done : F → Bool) (publication : Publication) where
    save_progress-stale :
        (run : Running F) (row : Progress F)
        → run.task.file_revision ≡ publication.file_revision
        → any (λ s. str_eq s.id run.task.snapshot.section_id) publication.sections ≡ true
        → row.version ≢ run.expected_version
        → save_progress nearly_done publication run row
          ≡ (row, conflict (some row.version) stale_message)
    unfolding save_progress
    save_progress-stale run row a b c = ground arith

    continue_with-conflict :
        (a : After F) (r : Reader F) → (continue_with ops a r).conflict ≡ r.conflict
    unfolding continue_with
    continue_with-conflict a r = ground arith

    -- A save of a known section that names another version than the row's leaves the row as it is, and
    -- the page shows a conflict with the row's version.
    pub deliver-conflict :
        (run : Running F) (y : System F)
        → y.page.running ≡ some run
        → run.task.file_revision ≡ publication.file_revision
        → any (λ s. str_eq s.id run.task.snapshot.section_id) publication.sections ≡ true
        → y.row.version ≢ run.expected_version
        → let y' = deliver nearly_done ops publication y in
          (y'.row ≡ y.row)
          × (y'.page.conflict
              ≡ some (record { current_version = y.row.version; message = stale_message }))
    unfolding deliver deliver_running finish_save finish_running answered
    deliver-conflict run y h a b c =
        rw (h, save_progress-stale run y.row a b c, continue_with-conflict) (refl, refl)

    -- After a conflict with the version that the row still has, the button overwrites the row: the
    -- next save carries the page's location and is accepted, and the conflict is over.
    pub overwrite-accepted :
        (o : Opened F) (p : Progress F) (l : Location F) (c : Conflict) (r : Reader F)
        (row : Progress F)
        → r.opened ≡ some o
        → r.progress_ref ≡ some p
        → r.location_ref ≡ some l
        → r.conflict ≡ some c
        → r.running ≡ none
        → r.queue ≡ []
        → c.current_version ≡ row.version
        → o.publication.file_revision ≡ publication.file_revision
        → any (λ s. str_eq s.id l.section_id) publication.sections ≡ true
        → let y =
            deliver nearly_done ops publication
              (record { page = start_save ops (overwrite ops r); row = row }) in
          (y.page.conflict ≡ none)
          × (y.row.version ≡ row.version + 1)
          × (y.row.section_id ≡ some l.section_id)
          × (y.row.block_id ≡ l.block_id)
          × (y.page.progress_ref ≡ some y.row)
    unfolding deliver deliver_running finish_save finish_running answered start_save start_unless
        take_task begin_task overwrite overwrite_from persist queue_save enqueue save_progress
        continue_with
    overwrite-accepted o p l c r row a b d e f g h i j = ground arith
