-- ===== src/Reader/Navigation.antt =====
-- The handlers of apps/web/src/pages/ReaderPage.tsx that open an edition and move in it. A handler
-- that awaits `persist` runs up to there; what follows is its task's `after`.
pub mod Handlers
pub mod Answers
use novel_platform.Common.Text.{str_eq, ◌⧺◌}
use novel_platform.Common.{
  ℕ, String, Bool, true, false, Option, none, some, List, [], ◌∷◌, get_elem?, length, if◌then◌else◌,
  ltb,
}
use novel_platform.Reader.State.{
  Arithmetic, ReadingStatus, reading, finished, Location, Section, Opened, Conflict, SyncState,
  restored, After, nothing, to_section, to_edition, to_book, marked_finished, restarted, Reader,
}
use novel_platform.Reader.Position.{initial_section_index, restored_location}
use novel_platform.Reader.Saving.{persist}

module _ {F : Type 0} (ops : Arithmetic F) where
  open ops use {of_nat, div}

  -- `loadReader`, up to its `await`.
  unfoldable pub load_reader : Reader F → Reader F
  load_reader r = record r {
    is_opening = true;
    error = none;
    opened = none;
    section = none;
    conflict = none;
    conflict_ref = none;
    progress_ref = none;
    location_ref = none;
    restore_ref = none;
  }

  unfoldable pub load_at : Opened F → ℕ → Section → Reader F → Reader F
  load_at o index selected r =
      let location = restored_location ops o selected in
      record r {
        progress_ref = some o.progress;
        location_ref = some location;
        restore_ref = some location;
        opened = some o;
        section_index = index;
        visual_progress = o.progress.overall_progress;
        sync_state = restored;
        is_opening = false;
      }

  abbrev pub section_at : List Section → Option ℕ → Option (ℕ × Section)
  section_at ss none = none
  section_at ss (some i) = elim (get_elem? ss i) [ none ↦ none | some s ↦ some (i, s) ]

  -- The message of reading `id` of `undefined` is the engine's.
  unfoldable pub load_selected : String → Opened F → Option (ℕ × Section) → Reader F → Reader F
  unfolding load_at
  load_selected type_error o none r = record r { error = some type_error; is_opening = false }
  load_selected type_error o (some (index, selected)) r = load_at o index selected r

  -- The rest of `loadReader`, with the opened edition.
  unfoldable pub loaded : String → Opened F → Reader F → Reader F
  unfolding load_selected
  loaded type_error o r =
      load_selected type_error o (section_at o.publication.sections (initial_section_index ops o)) r

  -- The rest of `loadReader`, with an error.
  unfoldable pub load_failed : String → Reader F → Reader F
  load_failed message r = record r { error = some message; is_opening = false }

  unfoldable pub go_to : Option (Opened F) → ℕ → Option Section → Reader F → Reader F
  go_to none i descriptor r = r
  go_to (some o) i none r = r
  go_to (some o) i (some descriptor) r =
      persist ops false none none none
        (to_section i (record {
          section_id = descriptor.id;
          block_id = none;
          section_progress = of_nat 0;
          overall_progress = div (of_nat i) (of_nat (length o.publication.sections));
        }))
        (record r { save_timer = false })

  abbrev pub descriptor_of : Option (Opened F) → ℕ → Option Section
  descriptor_of none i = none
  descriptor_of (some o) i = get_elem? o.publication.sections i

  -- The index is `sectionIndex ± 1` or that of `findIndex`; `none` is one below 0.
  unfoldable pub go_to_section : Option ℕ → Reader F → Reader F
  unfolding go_to
  go_to_section none r = r
  go_to_section (some i) r = go_to r.opened i (descriptor_of r.opened i) r

  abbrev is_current : String → Option (Opened F) → Bool
  is_current id none = false
  is_current id (some o) = str_eq id o.edition_id

  unfoldable pub switch_edition : String → Reader F → Reader F
  switch_edition id r =
      if is_current id r.opened
      then r
      else persist ops false none none none (to_edition id) (record r { save_timer = false })

  -- `if (conflictRef.current === null && opened) navigate(...)`
  abbrev to_book_of : Option (Opened F) → After F
  to_book_of none = nothing
  to_book_of (some o) = to_book o.book_id

  unfoldable pub leave_reader : Reader F → Reader F
  leave_reader r =
      persist ops false none none none (to_book_of r.opened) (record r { save_timer = false })

  unfoldable pub mark_from : Option (Location F) → Reader F → Reader F
  mark_from none r = r
  mark_from (some current) r =
      let done = record current { overall_progress = of_nat 1 } in
      persist ops false (some finished) none (some done) marked_finished
        (record r { location_ref = some done })

  unfoldable pub mark_finished : Reader F → Reader F
  unfolding mark_from
  mark_finished r = mark_from r.location_ref r

  -- Without a first section the handler throws before it changes anything.
  unfoldable pub restart_from : Option Section → Reader F → Reader F
  restart_from none r = r
  restart_from (some first) r =
      let start : Location F = record {
        section_id = first.id;
        block_id = none;
        section_progress = of_nat 0;
        overall_progress = of_nat 0;
      } in
      persist ops false (some reading) none (some start) restarted
        (record r { location_ref = some start; restore_ref = some start })

  unfoldable pub restart_reading : Reader F → Reader F
  unfolding restart_from
  restart_reading r = restart_from (descriptor_of r.opened 0) r

  -- The timer of `handleScroll` fires.
  unfoldable pub timer_fires : Reader F → Reader F
  timer_fires r =
      if r.save_timer
      then persist ops false none none none nothing (record r { save_timer = false })
      else r

  -- `saveWhenHidden`, `saveBeforeUnload`, and the clean-up when the edition changes.
  unfoldable pub save_keepalive : Reader F → Reader F
  save_keepalive r = persist ops true none none none nothing r

  unfoldable pub overwrite_from : Option Conflict → Reader F → Reader F
  overwrite_from none r = r
  overwrite_from (some c) r = persist ops false none (some c.current_version) none nothing r

  -- The button that overwrites the server's position.
  unfoldable pub overwrite : Reader F → Reader F
  unfolding overwrite_from
  overwrite r = overwrite_from r.conflict r
