-- ===== src/Upload/Series/Tests.antt =====
-- The page of apps/web/src/pages/SeriesUploadPage.tsx at three files, of which one fails and one is too
-- large.
use novel_platform.Common.{false, none, List, [], ◌∷◌, map, ◌≡◌, ◌⊎◌}
use novel_platform.Upload.Import.{Strings, File, PreviewValue, ImportRecord}
use novel_platform.Upload.Series.{
  Reply, inspection_error, inspection, book, Batch, choose_files, upload, succeeded, failed,
}
use novel_platform.Upload.Series.Independent.{outcome, file_of, upload-results, outcome-status}

abbrev strings : Strings
strings = record { trim = λ s. s; without_extension = λ s. s }

abbrev inspected : ImportRecord
inspected = record {
  id = "i";
  metadata_preview = λ key. PreviewValue.other;
  cover_available = false;
}

abbrev first : File × Reply
first = (record { name = "a.epub"; size = 10 }, inspection (50 ∷ 100 ∷ []) inspected (book "b1"))

abbrev others : List (File × Reply)
others =
    (record { name = "b.txt"; size = 10 }, inspection_error (30 ∷ []) "unreadable")
    ∷ (record { name = "c.txt"; size = 1000 }, inspection_error [] "never sent")
    ∷ []

abbrev blank : Batch
blank = record { files = []; results = []; is_uploading = false; error = none; sent = [] }

upload-results_example :
    let b' =
      upload strings 100 "too large" "s"
        (first ∷ others)
        (choose_files (map file_of (first ∷ others)) blank) in
    (b'.results ≡ map (outcome 100 "too large") (first ∷ others)) × (b'.is_uploading ≡ false)
upload-results_example = upload-results strings 100 "too large" "s" first others blank

outcome-status_example :
    ((outcome 100 "too large" first).status ≡ succeeded)
    ⊎ ((outcome 100 "too large" first).status ≡ failed)
outcome-status_example = outcome-status 100 "too large" first
