-- ===== src/Upload/Series/Independent.antt =====
-- The results of apps/web/src/pages/SeriesUploadPage.tsx, each against its own file.
use novel_platform.Common.{
  ℕ, suc, String, Bool, true, false, none, some, List, [], ◌∷◌, ◌++◌, map, modify, length, ltb, ◌≡◌,
  refl, arith, ap, ◌∙◌, sym, if◌then◌else◌, length-append, ◌⊎◌, get_elem?,
}
use novel_platform.Upload.Import.{Strings, File}
use novel_platform.Upload.Series.{
  UploadResult, CommitReply, book, commit_error, Reply, inspection_error, inspection, Batch,
  waiting_result, choose_files, update, progressed, inspecting_result, committing_result,
  succeeded_result, failed_result, report, commit_file, send_file, upload_file, upload_files,
  upload, series_payload, succeeded, failed,
}

-- What becomes of one result, whatever the others are.
abbrev pub reported : List ℕ → UploadResult → UploadResult
reported [] r = r
reported (n ∷ ns) r = reported ns (progressed n r)

abbrev pub committed_result : CommitReply → UploadResult → UploadResult
committed_result (book id) r = succeeded_result id r
committed_result (commit_error message) r = failed_result message r

abbrev pub settled : Reply → UploadResult → UploadResult
settled (inspection_error ns message) r = failed_result message (reported ns (inspecting_result r))
settled (inspection ns i reply) r =
    committed_result reply (committing_result (reported ns (inspecting_result r)))

module _ {ℓ} {A : Type ℓ} where
  modify-append :
      (pre : List A) (x : A) (rest : List A) (f : A → A) (i : ℕ)
      → i ≡ length pre
      → modify (pre ++ x ∷ rest) i f ≡ pre ++ f x ∷ rest
  modify-append [] x rest f i h = rw h
  modify-append (y ∷ pre) x rest f i h = rw h (ap (λ l. y ∷ l) (modify-append pre x rest f _ refl))

  append-snoc : (pre : List A) (x : A) (rest : List A) → (pre ++ x ∷ []) ++ rest ≡ pre ++ x ∷ rest
  append-snoc [] x rest = refl
  append-snoc (y ∷ pre) x rest = ap (λ l. y ∷ l) (append-snoc pre x rest)

-- The result at `i` is `x`, between the others.
abbrev Holds : List UploadResult → UploadResult → List UploadResult → Batch → Type 0
Holds pre x rest b = b.results ≡ pre ++ x ∷ rest

module _ (pre rest : List UploadResult) (i : ℕ) (at : i ≡ length pre) where
  update-Holds :
      (f : UploadResult → UploadResult) (x : UploadResult) (b : Batch)
      → Holds pre x rest b
      → Holds pre (f x) rest (update i f b)
  unfolding update
  update-Holds f x b h = rw h (modify-append pre x rest f i at)

  report-Holds :
      (ns : List ℕ) (x : UploadResult) (b : Batch)
      → Holds pre x rest b
      → Holds pre (reported ns x) rest (report i ns b)
  unfolding report
  report-Holds [] x b h = h
  report-Holds (n ∷ ns) x b h =
      report-Holds ns (progressed n x) (update i (progressed n) b)
        (update-Holds (progressed n) x b h)

  inspecting-Holds :
      (ns : List ℕ) (x : UploadResult) (b : Batch)
      → Holds pre x rest b
      → Holds pre
          (reported ns (inspecting_result x))
          rest
          (report i ns (update i inspecting_result b))
  inspecting-Holds ns x b h =
      report-Holds ns (inspecting_result x) (update i inspecting_result b)
        (update-Holds inspecting_result x b h)

  committed-Holds :
      (reply : CommitReply) (x : UploadResult) (b : Batch) (strings : Strings) (max : ℕ)
      (limit series : String)
      → Holds pre x rest b
      → Holds pre (committed_result reply x) rest (commit_file strings max limit series i reply b)
  unfolding commit_file
  committed-Holds (book id) x b strings max limit series h =
      update-Holds (succeeded_result id) x b h
  committed-Holds (commit_error m) x b strings max limit series h =
      update-Holds (failed_result m) x b h

  module _ (strings : Strings) (max_upload_bytes : ℕ) (limit_message series_id : String) where
    send-Holds :
        (file : File) (reply : Reply) (x : UploadResult) (b : Batch)
        → Holds pre x rest b
        → Holds pre
            (settled reply x)
            rest
            (send_file strings max_upload_bytes limit_message series_id i file reply b)
    unfolding send_file
    send-Holds file (inspection_error ns m) x b h =
        update-Holds (failed_result m) (reported ns (inspecting_result x))
          (report i ns (update i inspecting_result b)) (inspecting-Holds ns x b h)
    send-Holds file (inspection ns r reply) x b h =
        let b' = report i ns (update i inspecting_result b) in
        let b'' = record b' {
          sent =
              b'.sent
              ++ series_payload strings max_upload_bytes limit_message series_id file r ∷ [];
        } in
        committed-Holds reply (committing_result (reported ns (inspecting_result x)))
          (update i committing_result b'') strings max_upload_bytes limit_message series_id
          (update-Holds committing_result (reported ns (inspecting_result x)) b''
            (inspecting-Holds ns x b h))

-- The result of a file: that of its own size and replies.
abbrev pub outcome : ℕ → String → File × Reply → UploadResult
outcome max_upload_bytes limit_message (file, reply) =
    if ltb max_upload_bytes file.size
    then failed_result limit_message (waiting_result file)
    else settled reply (waiting_result file)

abbrev pub file_of : File × Reply → File
file_of (file, reply) = file

-- No result is left waiting or under way.
pub outcome-status :
    (max_upload_bytes : ℕ) (limit_message : String) (x : File × Reply)
    → ((outcome max_upload_bytes limit_message x).status ≡ succeeded)
      ⊎ ((outcome max_upload_bytes limit_message x).status ≡ failed)
outcome-status max_upload_bytes limit_message x = ground arith

get_elem?-map :
    (files : List File) (i : ℕ) (file : File)
    → get_elem? files i ≡ some file
    → get_elem? (map waiting_result files) i ≡ some (waiting_result file)
get_elem?-map [] i file h = ground arith
get_elem?-map (f ∷ files) ℕ.zero file h = ground arith
get_elem?-map (f ∷ files) (suc i) file h = get_elem?-map files i file h

module _ (strings : Strings) (max_upload_bytes : ℕ) (limit_message series_id : String) where
  if-Holds :
      (c : Bool) (pre rest : List UploadResult) (x y : UploadResult) (b d : Batch)
      → Holds pre x rest b
      → Holds pre y rest d
      → Holds pre (if c then x else y) rest (if c then b else d)
  if-Holds true pre rest x y b d h k = h
  if-Holds false pre rest x y b d h k = k

  upload_file-Holds :
      (pre rest : List UploadResult) (i : ℕ) (file : File) (reply : Reply) (b : Batch)
      → i ≡ length pre
      → Holds pre (waiting_result file) rest b
      → Holds pre
          (outcome max_upload_bytes limit_message (file, reply))
          rest
          (upload_file strings max_upload_bytes limit_message series_id i file reply b)
  unfolding upload_file
  upload_file-Holds pre rest i file reply b at h =
      if-Holds (ltb max_upload_bytes file.size) pre rest _ _ _ _
        (update-Holds pre rest i at (failed_result limit_message) (waiting_result file) b h)
        (send-Holds pre rest i at strings max_upload_bytes limit_message series_id file reply
          (waiting_result file) b h)

  upload_files-results :
      (pre : List UploadResult) (i : ℕ) (xs : List (File × Reply)) (b : Batch)
      → i ≡ length pre
      → b.results ≡ pre ++ map waiting_result (map file_of xs)
      → (upload_files strings max_upload_bytes limit_message series_id i xs b).results
        ≡ pre ++ map (outcome max_upload_bytes limit_message) xs
  unfolding upload_files
  upload_files-results pre i [] b at h = h
  upload_files-results pre i ((file, reply) ∷ xs) b at h =
      upload_files-results (pre ++ outcome max_upload_bytes limit_message (file, reply) ∷ [])
        (suc i) xs _
        (omega
          (arith, length-append pre (outcome max_upload_bytes limit_message (file, reply) ∷ [])))
        (upload_file-Holds pre _ i file reply b at h
          ∙ sym (
              append-snoc pre (outcome max_upload_bytes limit_message (file, reply))
                (map waiting_result (map file_of xs))))
      ∙ append-snoc pre (outcome max_upload_bytes limit_message (file, reply))
          (map (outcome max_upload_bytes limit_message) xs)

  -- Chosen files that are then uploaded end with one result each, which its own size and replies
  -- determine, whatever happens to the others; and the upload is over.
  pub upload-results :
      (x : File × Reply) (xs : List (File × Reply)) (b : Batch)
      → let b' =
          upload strings max_upload_bytes limit_message series_id
            (x ∷ xs)
            (choose_files (map file_of (x ∷ xs)) b) in
        (b'.results ≡ map (outcome max_upload_bytes limit_message) (x ∷ xs))
        × (b'.is_uploading ≡ false)
  unfolding upload choose_files
  upload-results x xs b = (
    upload_files-results [] 0 (x ∷ xs)
        (record (choose_files (map file_of (x ∷ xs)) b) { is_uploading = true; error = none }) refl
        refl,
    refl,
  )
