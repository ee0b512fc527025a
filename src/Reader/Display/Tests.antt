-- ===== src/Reader/Display/Tests.antt =====
-- The display of apps/web/src/pages/ReaderPage.tsx at concrete inputs, with positions in thousandths.
use novel_platform.Common.{[], ◌∷◌, ◌++◌, List, false, ℕ, none, some, ◌≡◌, refl, arith}
use novel_platform.Reader.State.{nothing}
use novel_platform.Reader.Position.{restored_location, initial_section_index, find_index}
use novel_platform.Reader.Saving.{saved, persist, start_save, finish_save}
use novel_platform.Reader.Tests.{
  initial_section_index_at_b, thousandths, row, opened, blank, task, running, page,
}
use novel_platform.Reader.Display.{
  Fetch, Display, Layout, target, opens, section_answers, save_answers, paint, selected,
}
use novel_platform.Reader.Navigation.{load_reader, loaded, go_to_section}
use novel_platform.Reader.Navigation.Handlers.{goes, act}
use novel_platform.Reader.Display.Events.{
  Event, edition_awaited, edition_changes, edition_opens, reader_acts, section_comes, save_starts,
  save_ends, section_retried, happens,
}
use novel_platform.Reader.Display.Current.{Asks}
use novel_platform.Reader.Display.Requests.{happen_all, happen_all-Asks}
use novel_platform.Reader.Display.Restoring.{save_answers-scroll_top, opens-scroll_top}

-- No block is found.
abbrev layout : Layout ℕ
layout = record { overflow = 2000; block_top = λ b. none }

abbrev empty : Display ℕ
empty = record {
  reader = blank;
  opened_object = none;
  section_object = none;
  section_attempt = 0;
  fresh = 0;
  fetch = none;
  is_loading_section = false;
  section_error = none;
  frame = none;
  scroll_top = 0;
}

opens-scroll_top_example :
    let f : Fetch = record { run = 1; edition_id = "ed"; section_id = "b" } in
    let d' = opens thousandths "" opened empty in
    let d'' = paint thousandths layout (section_answers f.run f.section_id d') in
    let l = restored_location thousandths opened (record { id = "b"; title = "B" }) in
    (d'.fetch ≡ some f)
    × (d''.scroll_top ≡ target thousandths layout l.block_id opened.progress.section_progress)
    × (d''.reader.restore_ref ≡ none)
opens-scroll_top_example =
    opens-scroll_top thousandths "" opened 1 (record { id = "b"; title = "B" }) layout empty
      initial_section_index_at_b refl refl refl refl

-- The second section is read at 1000 while its location is saved.
abbrev shown : Display ℕ
shown = record empty {
  reader = record page {
    section = some "b";
    section_index = 1;
    running = some (record running { task = record task { after = nothing } });
  };
  opened_object = some 0;
  section_object = some 2;
  fresh = 4;
  scroll_top = 1000;
}

save_answers-scroll_top_example :
    let f : Fetch = record { run = 5; edition_id = "ed"; section_id = "b" } in
    let d' = save_answers thousandths (saved row) shown in
    let d'' = paint thousandths layout (section_answers f.run f.section_id d') in
    (d'.fetch ≡ some f) × (d''.scroll_top ≡ 0) × (d''.reader.location_ref ≡ page.location_ref)
save_answers-scroll_top_example =
    save_answers-scroll_top thousandths (record running { task = record task { after = nothing } })
      row opened (record { id = "b"; title = "B" }) layout shown
      (record {
        opened = refl;
        descriptor = refl;
        section = refl;
        opened_object = omega arith;
        section_object = omega arith;
      })
      refl refl refl

-- The edition is opened, the reader goes to the first section, and the answers come late and twice.
abbrev events : List (Event ℕ)
events =
    edition_awaited
    ∷ edition_opens "" opened
    ∷ reader_acts (goes (some 0))
    ∷ section_comes 2 "b"
    ∷ save_starts
    ∷ save_ends (saved row)
    ∷ section_comes 2 "b"
    ∷ section_retried
    ∷ []

-- Then the address changes to another edition, which is opened.
abbrev changed : List (Event ℕ)
changed = edition_changes "ed2" ∷ save_starts ∷ edition_opens "" opened ∷ save_ends (saved row) ∷ []

happen_all-Asks_example :
    let d' = happen_all thousandths (events ++ changed) empty in
    Asks d'.reader.edition_id d'.fetch (selected d'.reader.opened d'.reader.section_index)
happen_all-Asks_example = happen_all-Asks thousandths (events ++ changed) empty refl refl refl refl

-- The page has gone to the first section, and awaits that.
gone :
    let d' = happen_all thousandths events empty in
    (d'.reader.section_index ≡ 0)
    × (d'.fetch ≡ some (record { run = 8; edition_id = "ed"; section_id = "a" }))
unfolding happen_all happens load_reader loaded act go_to_section persist start_save finish_save
    initial_section_index find_index
gone = (refl, refl)
