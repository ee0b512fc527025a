-- ===== src/Reader/Saving.antt =====
-- `persist` of apps/web/src/pages/ReaderPage.tsx: a queue of saves, each checked against the version
-- that the server holds. Its promise chain is the list `queue` with the one save that is `running`.
pub mod Calm
use novel_platform.Common.Text.{◌⧺◌}
use novel_platform.Common.{
  ℕ, String, Bool, true, false, Option, none, some, List, [], ◌∷◌, ◌++◌, or_else, is_some,
  if◌then◌else◌,
}
use novel_platform.Reader.State.{
  Arithmetic, ReadingStatus, Location, Progress, Opened, Conflict, SyncState, syncing, synced,
  conflicting, failed, After, nothing, to_section, to_edition, to_book, marked_finished, restarted,
  SaveTask, Running, Reader,
}

-- The answer to `api.saveReadingProgress`, as the `try` and the `catch` tell it apart; the version
-- is `caught.details.current_version` if that is a number.
pub data Answer (F : Type 0) : Type 0 where
  saved : Progress F → Answer F
  conflict : Option ℕ → String → Answer F
  other_error : Answer F

module _ {F : Type 0} (ops : Arithmetic F) where
  open ops use {of_nat}

  -- What follows `await persist()` in the caller.
  unfoldable pub continue_with : After F → Reader F → Reader F
  continue_with nothing r = r
  continue_with (to_section i location) r = record r {
    location_ref = some location;
    restore_ref = none;
    visual_progress = location.overall_progress;
    section = none;
    section_index = i;
    toc_open = false;
  }
  continue_with (to_edition id) r =
      if is_some r.conflict_ref then r else record r { navigated = some ("/read/" ⧺ id) }
  continue_with (to_book id) r =
      if is_some r.conflict_ref then r else record r { navigated = some ("/books/" ⧺ id) }
  continue_with marked_finished r = record r { visual_progress = of_nat 1 }
  continue_with restarted r = record r {
    section = none;
    section_index = 0;
    visual_progress = of_nat 0;
  }

  unfoldable pub enqueue :
      Bool → Option ReadingStatus → Option ℕ → After F → Opened F → Location F → Reader F → Reader F
  enqueue keepalive status override_version after o snapshot r = record r {
    queue = r.queue ++ task ∷ [];
  }
    where
      task : SaveTask F
      task = record {
        edition_id = r.edition_id;
        file_revision = o.publication.file_revision;
        keepalive = keepalive;
        status = status;
        override_version = override_version;
        snapshot = snapshot;
        after = after;
      }

  abbrev first_some : Option (Location F) → Option (Location F) → Option (Location F)
  first_some none b = b
  first_some (some a) b = some a

  unfoldable pub queue_save :
      Option (Opened F)
      → Option (Location F)
      → Bool
      → Option ReadingStatus
      → Option ℕ
      → After F
      → Reader F
      → Reader F
  unfolding continue_with enqueue
  queue_save none location keepalive status override_version after r = continue_with after r
  queue_save (some o) none keepalive status override_version after r = continue_with after r
  queue_save (some o) (some snapshot) keepalive status override_version after r =
      enqueue keepalive status override_version after o snapshot r

  -- `persist(keepalive, status, overrideVersion, overrideLocation)` and what its caller does next.
  unfoldable pub persist :
      Bool → Option ReadingStatus → Option ℕ → Option (Location F) → After F → Reader F → Reader F
  unfolding queue_save
  persist keepalive status override_version override_location after r =
      queue_save r.opened (first_some override_location r.location_ref) keepalive status
        override_version after r

  -- The first half of `task`, up to its request; without a progress it returns.
  unfoldable pub begin_task : SaveTask F → Option (Progress F) → Reader F → Reader F
  unfolding continue_with
  begin_task t none r = continue_with t.after r
  begin_task t (some progress) r = record r {
    sync_state = syncing;
    running = some (record {
      task = t;
      progress = progress;
      expected_version = or_else t.override_version progress.version;
    });
  }

  -- The queue's next task starts when the one before it has settled.
  unfoldable pub take_task : List (SaveTask F) → Reader F → Reader F
  unfolding begin_task
  take_task [] r = r
  take_task (t ∷ ts) r = begin_task t r.progress_ref (record r { queue = ts })

  unfoldable pub start_unless : Option (Running F) → Reader F → Reader F
  unfolding take_task
  start_unless none r = take_task r.queue r
  start_unless (some run) r = r

  unfoldable pub start_save : Reader F → Reader F
  unfolding start_unless
  start_save r = start_unless r.running r

  abbrev with_progress : Progress F → Option (Opened F) → Option (Opened F)
  with_progress p none = none
  with_progress p (some o) = some (record o { progress = p })

  -- The second half of `task`.
  unfoldable pub answered : Running F → Answer F → Reader F → Reader F
  answered run (saved p) r = record r {
    progress_ref = some p;
    opened = with_progress p r.opened;
    conflict = none;
    conflict_ref = none;
    sync_state = synced;
  }
  answered run (conflict version message) r =
      let next : Conflict = record {
        current_version = or_else version run.progress.version;
        message = message;
      } in
      record r { conflict_ref = some next; conflict = some next; sync_state = conflicting }
  answered run other_error r = record r { sync_state = failed }

  unfoldable pub finish_running : Option (Running F) → Answer F → Reader F → Reader F
  unfolding answered continue_with
  finish_running none a r = r
  finish_running (some run) a r =
      continue_with run.task.after (answered run a (record r { running = none }))

  unfoldable pub finish_save : Answer F → Reader F → Reader F
  unfolding finish_running
  finish_save a r = finish_running r.running a r
