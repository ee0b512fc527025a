-- ===== src/Upload/Import/Inspecting.antt =====
-- `inspect` and `deleteFailedImport` of apps/web/src/pages/UploadPage.tsx.
use novel_platform.Common.Text.{str_eq, ◌⧺◌}
use novel_platform.Common.{
  ℕ, String, Bool, not, ◌&&◌, Option, none, some, List, [], ◌∷◌, ◌++◌, if◌then◌else◌, ltb, any,
}
use novel_platform.Upload.Import.{
  Strings, File, PreviewValue, text, list, other, ImportRecord, FailedImport, Selection, Form,
  is_create, is_replace, is_empty, nonempty,
}

unfoldable pub preview_string : (String → PreviewValue) → String → String
preview_string preview key = elim (preview key) [ text s ↦ s | list xs ↦ "" | other ↦ "" ]

-- `xs.filter((item) => typeof item === "string").join("、")`
abbrev pub join_after : String → List (Option String) → String
join_after s [] = s
join_after s (none ∷ xs) = join_after s xs
join_after s (some t ∷ xs) = join_after (s ⧺ "、" ⧺ t) xs

abbrev pub join : List (Option String) → String
join [] = ""
join (none ∷ xs) = join xs
join (some s ∷ xs) = join_after s xs

unfoldable pub creators_of : (String → PreviewValue) → String
creators_of preview = elim (preview "creators") [ text s ↦ "" | list xs ↦ join xs | other ↦ "" ]

-- `a || b`
abbrev pub or_text : String → String → String
or_text a b = if is_empty a then b else a

unfoldable pub selection_of : File → Form → Selection
selection_of file f = record {
  file = file;
  operation = f.mode;
  text_encoding = f.encoding;
  target_book_id = nonempty f.book_id;
  target_edition_id = nonempty f.edition_id;
}

module _ (max_upload_bytes : ℕ) (limit_message : String) where
  unfoldable pub inspect_file : Option File → Form → Form
  unfolding selection_of
  inspect_file none f = record f { error = some "请先选择 EPUB 或 TXT 文件。" }
  inspect_file (some file) f =
      if ltb max_upload_bytes file.size
      then record f { error = some limit_message }
      else if not (is_create f.mode) && is_empty f.book_id
      then record f { error = some "请先选择目标 Book。" }
      else if is_replace f.mode && is_empty f.edition_id
      then record f { error = some "请先选择要替换文件的 Edition。" }
      else record f {
        inspecting = some (selection_of file f);
        error = none;
        cleanup_notice = none;
        upload_progress = 0;
      }

  -- `inspect`, up to its request.
  unfoldable pub inspect : Form → Form
  unfolding inspect_file
  inspect f = inspect_file f.file f

-- The rest of `inspect`, with an answer; `sent` is what its closure has captured.
unfoldable pub inspected : Strings → Selection → ImportRecord → Form → Form
unfolding preview_string creators_of
inspected strings sent result f =
    let title = preview_string result.metadata_preview "title" in
    record f {
      inspection = some result;
      book_title = or_text f.book_title (or_text title (strings.without_extension sent.file.name));
      author = or_text f.author (creators_of result.metadata_preview);
      description = or_text f.description (preview_string result.metadata_preview "description");
      edition_title = or_text f.edition_title (or_text title sent.file.name);
      language = or_text f.language (preview_string result.metadata_preview "language");
      use_cover = is_create sent.operation && result.cover_available;
      inspecting = none;
    }

abbrev pub has_id : String → FailedImport → Bool
has_id id item = str_eq item.id id

unfoldable pub add_failed : Option String → String → List FailedImport → List FailedImport
add_failed none filename items = items
add_failed (some id) filename items =
    if any (has_id id) items then items else items ++ record { id = id; filename = filename } ∷ []

-- The rest of `inspect`, with an error; `import_id` is that of an `ApiError`'s details.
unfoldable pub inspect_failed : Selection → String → Option String → Form → Form
unfolding add_failed
inspect_failed sent message import_id f = record f {
  error = some message;
  failed_imports = add_failed import_id sent.file.name f.failed_imports;
  inspecting = none;
}

-- `items.filter((item) => item.id !== id)`
unfoldable pub without_id : String → List FailedImport → List FailedImport
without_id id [] = []
without_id id (item ∷ items) =
    let rest = without_id id items in if has_id id item then rest else item ∷ rest

unfoldable pub delete_failed_import : FailedImport → Form → Form
delete_failed_import item f = record f {
  deleting_import_id = some item.id;
  error = none;
  cleanup_notice = none;
}

unfoldable pub deleted : FailedImport → Form → Form
unfolding without_id
deleted item f = record f {
  failed_imports = without_id item.id f.failed_imports;
  cleanup_notice = some ("已删除 " ⧺ item.filename ⧺ " 的失败上传记录和临时文件。");
  deleting_import_id = none;
}

unfoldable pub delete_rejected : String → Form → Form
delete_rejected message f = record f { error = some message; deleting_import_id = none }
