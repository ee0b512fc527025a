-- ===== src/Upload/Series.antt =====
-- `SeriesUploadPage` (apps/web/src/pages/SeriesUploadPage.tsx): files are uploaded one after another,
-- and each has its own result.
pub mod Independent
mod Tests
use novel_platform.Common.Text.{str_eq, ◌⧺◌}
use novel_platform.Common.{
  ℕ, suc, String, Bool, true, false, Option, none, some, List, [], ◌∷◌, ◌++◌, map, modify, ltb,
  if◌then◌else◌,
}
use novel_platform.Upload.Import.{Strings, File, PreviewValue, ImportRecord}
use novel_platform.Upload.Import.Inspecting.{preview_string, or_text}

pub data Status : Type 0 where
  waiting inspecting committing succeeded failed : Status

-- `UploadResult`
pub record UploadResult : Type 0 where
  pub filename : String
  pub status : Status
  pub progress : ℕ
  pub message : String
  pub book_id : Option String

-- What is sent to create a book in the series; the other members are constants.
pub record SeriesPayload : Type 0 where
  pub import_id : String
  pub series_id : String
  pub canonical_title : String
  pub edition_title : String
  pub language : String
  pub use_extracted_cover : Bool

-- How the server answers the commit of a file: with the book, or with an error's message.
pub data CommitReply : Type 0 where
  book : String → CommitReply
  commit_error : String → CommitReply

-- How the two requests for a file go, the progress that is reported meanwhile included.
pub data Reply : Type 0 where
  inspection_error : List ℕ → String → Reply
  inspection : List ℕ → ImportRecord → CommitReply → Reply

pub record Batch : Type 0 where
  pub files : List File
  pub results : List UploadResult
  pub is_uploading : Bool
  pub error : Option String
  pub sent : List SeriesPayload

abbrev pub waiting_result : File → UploadResult
waiting_result file = record {
  filename = file.name;
  status = waiting;
  progress = 0;
  message = "等待上传";
  book_id = none;
}

unfoldable pub choose_files : List File → Batch → Batch
choose_files selected b = record b {
  files = selected;
  results = map waiting_result selected;
  error = none;
}

-- `update(index, changes)`
unfoldable pub update : ℕ → (UploadResult → UploadResult) → Batch → Batch
update index changes b = record b { results = modify b.results index changes }

abbrev pub progressed : ℕ → UploadResult → UploadResult
progressed n r = record r { progress = n }

abbrev pub inspecting_result : UploadResult → UploadResult
inspecting_result r = record r { status = inspecting; message = "正在上传并安全解析" }

abbrev pub committing_result : UploadResult → UploadResult
committing_result r = record r {
  status = committing;
  progress = 100;
  message = "正在创建 Book 与 Edition";
}

abbrev pub succeeded_result : String → UploadResult → UploadResult
succeeded_result id r = record r { status = succeeded; message = "已上传并加入系列"; book_id = some id }

abbrev pub failed_result : String → UploadResult → UploadResult
failed_result message r = record r { status = failed; message = message }

-- The calls of `onProgress`.
unfoldable pub report : ℕ → List ℕ → Batch → Batch
unfolding update
report index [] b = b
report index (n ∷ ns) b = report index ns (update index (progressed n) b)

module _ (strings : Strings) (max_upload_bytes : ℕ) (limit_message series_id : String) where
  unfoldable pub inferred_title : String → String
  inferred_title filename = or_text (strings.trim (strings.without_extension filename)) filename

  unfoldable pub series_payload : File → ImportRecord → SeriesPayload
  unfolding inferred_title preview_string
  series_payload file r =
      let title = or_text (preview_string r.metadata_preview "title") (inferred_title file.name) in
      record {
        import_id = r.id;
        series_id = series_id;
        canonical_title = title;
        edition_title = title;
        language = or_text (preview_string r.metadata_preview "language") "und";
        use_extracted_cover = r.cover_available;
      }

  unfoldable pub commit_file : ℕ → CommitReply → Batch → Batch
  unfolding update
  commit_file index (book id) b = update index (succeeded_result id) b
  commit_file index (commit_error message) b = update index (failed_result message) b

  -- The `try` and the `catch` of the loop's body.
  unfoldable pub send_file : ℕ → File → Reply → Batch → Batch
  unfolding update report commit_file series_payload
  send_file index file (inspection_error reported message) b =
      update index (failed_result message)
        (report index reported (update index inspecting_result b))
  send_file index file (inspection reported r reply) b =
      let b' = report index reported (update index inspecting_result b) in
      commit_file index reply (
        update index committing_result (record b' { sent = b'.sent ++ series_payload file r ∷ [] }))

  unfoldable pub upload_file : ℕ → File → Reply → Batch → Batch
  unfolding update send_file
  upload_file index file reply b =
      if ltb max_upload_bytes file.size
      then update index (failed_result limit_message) b
      else send_file index file reply b

  -- The loop from `index` on; the replies stand with their files.
  unfoldable pub upload_files : ℕ → List (File × Reply) → Batch → Batch
  unfolding upload_file
  upload_files index [] b = b
  upload_files index ((file, reply) ∷ rest) b =
      upload_files (suc index) rest (upload_file index file reply b)

  unfoldable pub upload : List (File × Reply) → Batch → Batch
  unfolding upload_files
  upload [] b = record b { error = some "请至少选择一个 EPUB 或 TXT 文件。" }
  upload (x ∷ rest) b =
      record (upload_files 0 (x ∷ rest) (record b { is_uploading = true; error = none })) {
        is_uploading = false;
      }
