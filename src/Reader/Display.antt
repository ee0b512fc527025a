-- ===== src/Reader/Display.antt =====
-- The effects of apps/web/src/pages/ReaderPage.tsx that fetch the section on display and move the
-- scroller to where it is to be read. An effect is run again when the objects it depends on change, so
-- the state says which object `opened` and `section` are. The scroller is mounted while a section is.
pub mod Commit
pub mod Restoring
pub mod Events
pub mod Current
pub mod Kept
pub mod Requests
mod Tests
use Prim.Native.Nat.{suc}
use novel_platform.Common.Text.{str_eq}
use novel_platform.Common.{
  ℕ, String, Bool, true, false, not, ◌&&◌, Option, none, some, is_some, if◌then◌else◌, ◌==◌,
  get_elem?,
}
use novel_platform.Reader.State.{Arithmetic, Location, Section, Opened, Reader}
use novel_platform.Reader.Position.{initial_section_index}
use novel_platform.Reader.Saving.{Answer, saved, conflict, other_error, start_save, finish_save}
use novel_platform.Reader.Navigation.{load_reader, loaded, section_at, save_keepalive}
use novel_platform.Reader.Navigation.Handlers.{Action, scrolls, act}

-- A run of the effect that fetches the section, until it is cancelled.
pub record Fetch : Type 0 where
  pub run : ℕ
  pub edition_id : String
  pub section_id : String

-- `frame` is the section whose animation frame is requested.
pub record Display (F : Type 0) : Type 0 where
  pub reader : Reader F
  pub opened_object : Option ℕ
  pub section_object : Option ℕ
  pub section_attempt : ℕ
  pub fresh : ℕ
  pub fetch : Option Fetch
  pub is_loading_section : Bool
  pub section_error : Option String
  pub frame : Option String
  pub scroll_top : F

-- What the browser has laid out: by how much the section overflows the scroller, and where the scroller
-- stands once the block with an identifier is scrolled into view.
pub record Layout (F : Type 0) : Type 0 where
  pub overflow : F
  pub block_top : String → Option F

abbrev pub same_object : Option ℕ → Option ℕ → Bool
same_object none none = true
same_object none (some n) = false
same_object (some m) none = false
same_object (some m) (some n) = m == n

abbrev pub kept : Option ℕ → Option String → Option ℕ
kept old none = none
kept old (some id) = old

module _ {F : Type 0} where
  -- `opened.publication.sections[sectionIndex]`
  abbrev pub selected : Option (Opened F) → ℕ → Option Section
  selected none i = none
  selected (some o) i = get_elem? o.publication.sections i

  unfoldable pub start_fetch : Option Section → Display F → Display F
  start_fetch none d = record d { fetch = none }
  start_fetch (some s) d = record d {
    fetch = some (record { run = d.fresh; edition_id = d.reader.edition_id; section_id = s.id });
    fresh = suc d.fresh;
    is_loading_section = true;
    section_error = none;
  }

  -- The effect on `[editionId, opened, sectionAttempt, sectionIndex]`, its clean-up included.
  unfoldable pub section_effect : Display F → Display F
  unfolding start_fetch
  section_effect d = start_fetch (selected d.reader.opened d.reader.section_index) d

  -- The effect on `[editionId, section]`, up to its animation frame.
  unfoldable pub restore_effect : Display F → Display F
  restore_effect d = record d { frame = d.reader.section }

  unfoldable pub same_section_deps : Display F → Display F → Bool
  same_section_deps d d' =
      str_eq d.reader.edition_id d'.reader.edition_id
      && (same_object d.opened_object d'.opened_object
          && ((d.section_attempt == d'.section_attempt)
              && (d.reader.section_index == d'.reader.section_index)))

  unfoldable pub same_restore_deps : Display F → Display F → Bool
  same_restore_deps d d' =
      str_eq d.reader.edition_id d'.reader.edition_id
      && same_object d.section_object d'.section_object

  -- The effects that run once the state is `d'` where it was `d`.
  unfoldable pub commit : Display F → Display F → Display F
  unfolding section_effect restore_effect same_section_deps same_restore_deps
  commit d d' =
      let fetched = if same_section_deps d d' then d' else section_effect d' in
      if same_restore_deps d d' then fetched else restore_effect fetched

  abbrev pub object_of : Bool → Option ℕ → ℕ → Option (Opened F) → Option ℕ
  object_of renewed old n none = none
  object_of true old n (some o) = some n
  object_of false old n (some o) = old

  -- The reader's state becomes `r`, with a new object `opened` if `renewed`.
  unfoldable pub becomes : Bool → Reader F → Display F → Display F
  unfolding commit
  becomes renewed r d = commit d (record d {
    reader = r;
    opened_object = object_of renewed d.opened_object d.fresh r.opened;
    section_object = kept d.section_object r.section;
    fresh = suc d.fresh;
  })

  unfoldable pub section_arrives : Option Fetch → ℕ → String → Display F → Display F
  unfolding commit
  section_arrives none run id d = d
  section_arrives (some f) run id d =
      if f.run == run
      then commit d (record d {
        reader = record d.reader { section = some id };
        section_object = some d.fresh;
        fresh = suc d.fresh;
        is_loading_section = false;
      })
      else d

  -- `api.getReaderSection` answers a run with the section `id`.
  unfoldable pub section_answers : ℕ → String → Display F → Display F
  unfolding section_arrives
  section_answers run id d = section_arrives d.fetch run id d

  unfoldable pub section_breaks : Option Fetch → ℕ → String → Display F → Display F
  section_breaks none run message d = d
  section_breaks (some f) run message d =
      if f.run == run
      then record d { section_error = some message; is_loading_section = false }
      else d

  unfoldable pub section_fails : ℕ → String → Display F → Display F
  unfolding section_breaks
  section_fails run message d = section_breaks d.fetch run message d

  -- `setSectionAttempt((value) => value + 1)`
  unfoldable pub retry_section : Display F → Display F
  unfolding commit
  retry_section d = commit d (record d { section_attempt = suc d.section_attempt })

  abbrev pub is_saved : Answer F → Bool
  is_saved (saved p) = true
  is_saved (conflict v m) = false
  is_saved other_error = false

module _ {F : Type 0} (ops : Arithmetic F) where
  open ops use {of_nat, mul, max}

  -- `loadReader`'s answer.
  unfoldable pub opens : String → Opened F → Display F → Display F
  unfolding becomes
  opens type_error o d =
      becomes (is_some (section_at ops o.publication.sections (initial_section_index ops o)))
        (loaded ops type_error o d.reader) d

  -- `loadReader`, up to its `await`.
  unfoldable pub starts_opening : Display F → Display F
  unfolding becomes
  starts_opening d = becomes false (load_reader ops d.reader) d

  -- The address names another edition: the clean-up on `[editionId]` saves for the old one, the effects on
  -- `editionId` run with what is still on display, and `loadReader` takes that away.
  unfoldable pub changes_edition : String → Display F → Display F
  unfolding becomes starts_opening
  changes_edition id d =
      let r = save_keepalive ops (record d.reader { save_timer = false }) in
      starts_opening (becomes false (record r { edition_id = id }) d)

  -- The first save of the queue starts; without a progress its caller goes on at once.
  unfoldable pub starts_save : Display F → Display F
  unfolding becomes
  starts_save d = becomes false (start_save ops d.reader) d

  -- The answer to the save that is running.
  unfoldable pub save_answers : Answer F → Display F → Display F
  unfolding becomes
  save_answers a d = becomes (is_saved a && is_some d.reader.running) (finish_save ops a d.reader) d

  abbrev pub scrolled : Action F → F → F
  scrolled (scrolls top overflow visible) old = top
  scrolled a old = old

  -- A handler of the page; the scroller has moved before `handleScroll` is called.
  unfoldable pub handles : Action F → Display F → Display F
  unfolding becomes
  handles a d =
      becomes false (act ops a d.reader) (record d { scroll_top = scrolled a d.scroll_top })

  abbrev pub restoring : String → Option (Location F) → Option (Location F)
  restoring id none = none
  restoring id (some l) = if str_eq l.section_id id then some l else none

  abbrev pub target : Layout F → Option String → F → F
  target layout none fraction = mul (max (of_nat 0) layout.overflow) fraction
  target layout (some block) fraction = elim (layout.block_top block) [
    | none ↦ mul (max (of_nat 0) layout.overflow) fraction
    | some top ↦ top
  ]

  unfoldable pub scroll_to : Layout F → Option (Location F) → Display F → Display F
  scroll_to layout none d = record d { scroll_top = of_nat 0 }
  scroll_to layout (some l) d = record d {
    scroll_top = target layout l.block_id l.section_progress;
    reader = record d.reader { restore_ref = none };
  }

  unfoldable pub paint_frame : Layout F → Option String → Display F → Display F
  unfolding scroll_to
  paint_frame layout none d = d
  paint_frame layout (some id) d =
      scroll_to layout (restoring id d.reader.restore_ref) (record d { frame = none })

  -- The browser's next animation frame.
  unfoldable pub paint : Layout F → Display F → Display F
  unfolding paint_frame
  paint layout d = paint_frame layout d.frame d
