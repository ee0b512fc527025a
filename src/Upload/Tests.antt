-- ===== src/Upload/Tests.antt =====
-- The page of apps/web/src/pages/UploadPage.tsx at concrete inputs.
use novel_platform.Common.Text.{str_eq, ◌⧺◌}
use novel_platform.Common.{
  String, true, false, none, some, List, [], ◌∷◌, ◌≡◌, ◌↔◌, refl, if◌then◌else◌,
}
use novel_platform.Upload.Import.{
  Strings, replace_edition_file, File, PreviewValue, ImportRecord, FailedImport, Selection,
  CommitPayload, replacing, Form, initial_form, choose_file, forget_inspection,
}
use novel_platform.Upload.Import.Inspecting.{inspect, inspect_file, selection_of, inspected}
use novel_platform.Upload.Import.Committing.{commit, commit_payload}
use novel_platform.Upload.Import.Choices.{Choice, choose, Edit, edit}
use novel_platform.Upload.Import.Fresh.{Fresh, Step, Reach, here, next, Reach-Fresh, commit-stale}
use novel_platform.Upload.Import.Payload.{Complete, commit-committing_iff}

abbrev strings : Strings
strings = record { trim = λ s. s; without_extension = λ s. s }

abbrev novel : File
novel = record { name = "novel.epub"; size = 5000 }

abbrev preview : String → PreviewValue
preview key = if str_eq key "title" then PreviewValue.text "Novel" else PreviewValue.other

abbrev answer : Selection → ImportRecord
answer s = record { id = "i-" ⧺ s.file.name; metadata_preview = preview; cover_available = true }

abbrev empty : Form
empty = initial_form none none none

abbrev chosen : Form
chosen = choose (Choice.file (some novel)) empty

abbrev asked : Form
asked = inspect 100000 "too large" chosen

abbrev sent : Selection
sent = selection_of novel chosen

abbrev shown : Form
shown = inspected strings sent (answer sent) asked

asked_inspecting : asked.inspecting ≡ some sent
unfolding inspect inspect_file choose choose_file initial_form forget_inspection
asked_inspecting = refl

start_Fresh : Fresh 100000 "too large" strings answer empty
unfolding initial_form
start_Fresh = record { shown = tt; under_way = tt }

chosen_nothing_under_way : empty.inspecting ≡ none
unfolding initial_form
chosen_nothing_under_way = refl

journey : Reach 100000 "too large" strings answer empty shown
journey =
    next
      (next (next here (Step.chooses (Choice.file (some novel)) empty chosen_nothing_under_way))
        (Step.inspects chosen))
      (Step.answers sent asked asked_inspecting)

Reach-Fresh_example : Fresh 100000 "too large" strings answer shown
Reach-Fresh_example = Reach-Fresh 100000 "too large" strings answer empty shown start_Fresh journey

abbrev second : File
second = record { name = "second.txt"; size = 10 }

abbrev replacement : Form
replacement = record empty {
  mode = replace_edition_file;
  file = some novel;
  book_id = "b1";
  edition_id = "ed1";
}

commit-stale_example :
    let f' =
      inspected strings
        (selection_of novel replacement)
        (answer (selection_of novel replacement))
        (choose (Choice.file (some second)) (inspect 100000 "too large" replacement)) in
    ((inspect 100000 "too large" replacement).inspecting ≡ some (selection_of novel replacement))
    × (f'.inspection ≡ some (answer (selection_of novel replacement)))
    × (f'.file ≡ some second)
    × ((commit strings true f').committing
        ≡ some ((answer (selection_of novel replacement)).id, replacing))
commit-stale_example =
    commit-stale 100000 "too large" strings answer novel second replacement refl refl refl refl refl

abbrev ready : Form
ready = edit (Edit.language "ja") shown

ready_committing : ready.committing ≡ none
unfolding edit inspected inspect inspect_file choose choose_file initial_form
ready_committing = refl

abbrev sent_payload : String × CommitPayload
sent_payload = ("i-novel.epub", commit_payload strings ready)

commit-committing_iff_example : ((commit strings false ready).committing ≡ some sent_payload) ↔ (
    (r : ImportRecord) × (ready.inspection ≡ some r)
    × Complete strings false ready
    × (sent_payload ≡ (r.id, commit_payload strings ready)))
commit-committing_iff_example =
    commit-committing_iff strings false ready sent_payload ready_committing

abbrev failed : List FailedImport
failed = record { id = "x"; filename = "a.epub" } ∷ record { id = "y"; filename = "b.epub" } ∷ []
