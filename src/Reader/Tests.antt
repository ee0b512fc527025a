-- ===== src/Reader/Tests.antt =====
-- The page of apps/web/src/pages/ReaderPage.tsx at concrete inputs, with progress in thousandths.
use Prim.Native.Nat.{min, max}
use novel_platform.Common.{
  ℕ, ◌+◌, ◌*◌, ◌/◌, Bool, true, false, none, some, [], ◌∷◌, ◌≡◌, ◌≢◌, refl, arith, leb, get_elem?,
  ◌⊎◌,
}
use novel_platform.Reader.State.{
  nothing, Arithmetic, ReadingStatus, Location, Progress, Section, Publication, Opened, Conflict,
  SaveTask, Running, Reader, restored, to_book,
}
use novel_platform.Reader.Saving.{start_save}
use novel_platform.Reader.Position.{initial_section_index, is_id, find_index}
use novel_platform.Reader.Position.Bounds.{initial_section_index-get_elem?}
use novel_platform.Reader.Navigation.{loaded, overwrite}
use novel_platform.Reader.Navigation.Handlers.{Action, act}
use novel_platform.Reader.Server.{deliver, lose}
use novel_platform.Reader.Server.Lost.{lose-deliver}
use novel_platform.Reader.Server.Sync.{Step, Reach, here, next, never_conflicts}
use novel_platform.Reader.Server.Conflicts.{deliver-conflict, overwrite-accepted, stale_message}

abbrev pub thousandths : Arithmetic ℕ
thousandths = record {
  of_nat = λ n. 1000 * n;
  add = λ x y. x + y;
  mul = λ x y. x * y / 1000;
  div = λ x y. 1000 * x / y;
  min = min;
  max = max;
  floor_index = λ x. x / 1000;
}

abbrev nearly_done : ℕ → Bool
nearly_done x = leb 995 x

abbrev publication : Publication
publication = record {
  file_revision = 2;
  sections = record { id = "a"; title = "A" } ∷ record { id = "b"; title = "B" } ∷ [];
}

abbrev pub row : Progress ℕ
row = record {
  version = 7;
  section_id = some "b";
  block_id = some "b3";
  section_progress = 400;
  overall_progress = 700;
  edition_file_revision = some 2;
  status = ReadingStatus.reading;
}

abbrev pub opened : Opened ℕ
opened = record { book_id = "bk"; edition_id = "ed"; publication = publication; progress = row }

abbrev pub blank : Reader ℕ
blank = record {
  edition_id = "ed";
  opened = none;
  section = none;
  section_index = 0;
  is_opening = true;
  error = none;
  visual_progress = 0;
  sync_state = restored;
  conflict = none;
  conflict_ref = none;
  progress_ref = none;
  location_ref = none;
  restore_ref = none;
  save_timer = false;
  toc_open = false;
  queue = [];
  running = none;
  navigated = none;
}

abbrev place : Location ℕ
place = record {
  section_id = "b";
  block_id = some "b4";
  section_progress = 500;
  overall_progress = 750;
}

-- The page with its edition, at `place`.
abbrev pub page : Reader ℕ
page = record blank { opened = some opened; progress_ref = some row; location_ref = some place }

pub initial_section_index_at_b : initial_section_index thousandths opened ≡ some 1
unfolding initial_section_index find_index
initial_section_index_at_b = refl

initial_section_index-get_elem?_example :
    (i : ℕ) × (s : Section) × (initial_section_index thousandths opened ≡ some i)
    × (get_elem? opened.publication.sections i ≡ some s)
    × ((is_id opened.progress.section_id s.id ≡ true)
        ⊎ ((j : ℕ) (t : Section)
            → get_elem? opened.publication.sections j ≡ some t
            → is_id opened.progress.section_id t.id ≢ true))
initial_section_index-get_elem?_example =
    initial_section_index-get_elem? thousandths opened (omega arith)

-- The edition is opened, the reader goes to the first section, and the save is sent and answered.
abbrev sent : Reader ℕ
sent =
    start_save thousandths
      (act thousandths (Action.goes (some 0)) (loaded thousandths "" opened blank))

abbrev journey :
    Reach thousandths nearly_done publication
      (record { page = blank; row = row })
      (deliver nearly_done thousandths publication (record { page = sent; row = row }))
journey =
    next
      (next (next (next here (Step.opens "" opened _ refl)) (Step.acts (Action.goes (some 0)) _))
        (Step.starts _))
      (Step.delivers _)

never_conflicts_example :
    let y = deliver nearly_done thousandths publication (record { page = sent; row = row }) in
    (y.page.conflict ≡ none) × (y.page.conflict_ref ≡ none)
never_conflicts_example =
    never_conflicts thousandths nearly_done publication blank row
      (deliver nearly_done thousandths publication (record { page = sent; row = row })) refl refl
      refl refl refl journey

abbrev pub task : SaveTask ℕ
task = record {
  edition_id = "ed";
  file_revision = 2;
  keepalive = false;
  status = none;
  override_version = none;
  snapshot = place;
  after = to_book "bk";
}

abbrev pub running : Running ℕ
running = record { task = task; progress = row; expected_version = 7 }

abbrev waiting_page : Reader ℕ
waiting_page = record page { running = some running }

abbrev ahead : Progress ℕ
ahead = record row { version = 9 }

deliver-conflict_example :
    let y' =
      deliver nearly_done thousandths publication (record { page = waiting_page; row = ahead }) in
    (y'.row ≡ ahead)
    × (y'.page.conflict ≡ some (record { current_version = 9; message = stale_message }))
deliver-conflict_example =
    deliver-conflict thousandths nearly_done publication running
      (record { page = waiting_page; row = ahead }) refl refl refl (omega arith)

abbrev shown : Conflict
shown = record { current_version = 9; message = stale_message }

overwrite-accepted_example :
    let y = deliver nearly_done thousandths publication (record {
      page = start_save thousandths (
          overwrite thousandths (record page { conflict = some shown; conflict_ref = some shown }));
      row = ahead;
    }) in
    (y.page.conflict ≡ none)
    × (y.row.version ≡ 10)
    × (y.row.section_id ≡ some "b")
    × (y.row.block_id ≡ some "b4")
    × (y.page.progress_ref ≡ some y.row)
overwrite-accepted_example =
    overwrite-accepted thousandths nearly_done publication opened row place shown
      (record page { conflict = some shown; conflict_ref = some shown }) ahead refl refl refl refl
      refl refl refl refl refl

-- A save is under way and another one queued.
abbrev two_saves : Reader ℕ
two_saves = record page {
  running = some (record running { task = record task { after = nothing } });
  queue = task ∷ [];
}

lose-deliver_example :
    let lost = lose nearly_done thousandths publication (record { page = two_saves; row = row }) in
    let y' =
      deliver nearly_done thousandths publication
        (record { page = start_save thousandths lost.page; row = lost.row }) in
    (lost.row.version ≡ 8)
    × (y'.row ≡ lost.row)
    × (y'.page.conflict
        ≡ some (record { current_version = lost.row.version; message = stale_message }))
lose-deliver_example =
    lose-deliver thousandths nearly_done publication
      (record running { task = record task { after = nothing } }) row task []
      (record { page = two_saves; row = row }) refl refl refl refl refl refl refl refl refl refl
      refl
