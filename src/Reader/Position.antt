-- ===== src/Reader/Position.antt =====
-- apps/web/src/pages/ReaderPage.tsx: where reading starts, and the position that scrolling reports.
pub mod Bounds
use novel_platform.Common.Text.{str_eq}
use novel_platform.Common.{
  ℕ, suc, ◌-◌, ◌+◌, Bool, true, false, ◌&&◌, Option, none, some, String, List, [], ◌∷◌, ◌==◌,
  length, if◌then◌else◌, is_some, get_elem?,
}
use Prim.Native.Nat.{min}
use novel_platform.Reader.State.{
  Arithmetic, Location, Progress, Section, Publication, Opened, Reader,
}

-- `section.id === id`, where `id` may be `null`
abbrev pub is_id : Option String → String → Bool
is_id none id = false
is_id (some wanted) id = str_eq id wanted

-- `sections.findIndex`; `none` is -1.
unfoldable pub find_index : Option String → List Section → Option ℕ
find_index wanted [] = none
find_index wanted (s ∷ ss) =
    let rest = find_index wanted ss in
    if is_id wanted s.id then some 0 else elim rest [ none ↦ none | some i ↦ some (suc i) ]

abbrev opt_eq : Option ℕ → ℕ → Bool
opt_eq none n = false
opt_eq (some m) n = m == n

module _ {F : Type 0} (ops : Arithmetic F) where
  open ops use {of_nat, add, mul, div, max, floor_index}

  -- Without a section found; `none` is the index -1, which a publication without sections gives.
  abbrev pub estimated_index : (count : ℕ) → F → Option ℕ
  estimated_index count overall =
      if count == 0 then none else some (min (count - 1) (floor_index (mul overall (of_nat count))))

  unfoldable pub index_from : Option ℕ → Opened F → Option ℕ
  index_from (some i) o = some i
  index_from none o = estimated_index (length o.publication.sections) o.progress.overall_progress

  unfoldable pub initial_section_index : Opened F → Option ℕ
  unfolding index_from
  initial_section_index o = index_from (find_index o.progress.section_id o.publication.sections) o

  -- `exactLocation`: the saved position lies in this section of this revision of the file.
  unfoldable pub is_exact : Opened F → Section → Bool
  is_exact o selected =
      opt_eq o.progress.edition_file_revision o.publication.file_revision
      && is_id o.progress.section_id selected.id

  unfoldable pub restored_location : Opened F → Section → Location F
  unfolding is_exact
  restored_location o selected = record {
    section_id = selected.id;
    block_id = if is_exact o selected then o.progress.block_id else none;
    section_progress = o.progress.section_progress;
    overall_progress = o.progress.overall_progress;
  }

  -- `Math.min(1, Math.max(0, x))`
  unfoldable pub clamp : F → F
  clamp x = ops.min (of_nat 1) (max (of_nat 0) x)

  -- The position of `handleScroll`, from the measures of the scroller and the first visible block.
  unfoldable pub scrolled_location :
      (count index : ℕ) (id : String) (scroll_top overflow : F) (visible : Option String)
      → Location F
  unfolding clamp
  scrolled_location count index id scroll_top overflow visible =
      let section_progress = clamp (div scroll_top (max (of_nat 1) overflow)) in
      record {
        section_id = id;
        block_id = visible;
        section_progress = section_progress;
        overall_progress = clamp (div (add (of_nat index) section_progress) (of_nat count));
      }

  unfoldable pub scroll_in :
      Option (Opened F) → Option String → F → F → Option String → Reader F → Reader F
  scroll_in none id scroll_top overflow visible r = r
  scroll_in (some o) none scroll_top overflow visible r = r
  scroll_in (some o) (some id) scroll_top overflow visible r =
      let location =
        scrolled_location (length o.publication.sections) r.section_index id scroll_top overflow
          visible in
      record r {
        location_ref = some location;
        visual_progress = location.overall_progress;
        save_timer = true;
      }

  unfoldable pub handle_scroll : F → F → Option String → Reader F → Reader F
  unfolding scroll_in
  handle_scroll scroll_top overflow visible r =
      scroll_in r.opened r.section scroll_top overflow visible r
