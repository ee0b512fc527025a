-- ===== src/Upload/Import/Committing.antt =====
-- `commit` of apps/web/src/pages/UploadPage.tsx.
use novel_platform.Common.{
  ℕ, String, Bool, true, false, not, ◌&&◌, ◌||◌, Option, none, some, if◌then◌else◌, is_some,
}
use novel_platform.Upload.Import.{
  Strings, EditionPreset, source, ImportRecord, EditionPayload, CommitPayload, replacing, importing,
  Form, is_create, is_replace, is_add, is_empty, nonempty,
}

abbrev pub is_source : EditionPreset → Bool
is_source source = true
is_source _ = false

module _ (strings : Strings) where
  open strings use {trim}

  unfoldable pub edition_payload : Form → EditionPayload
  edition_payload f = record {
    canonical_title = if is_create f.mode then some f.book_title else none;
    canonical_author = if is_create f.mode then nonempty (trim f.author) else none;
    description = if is_create f.mode then nonempty (trim f.description) else none;
    edition_title = f.edition_title;
    language = f.language;
    is_translation = not (is_source f.preset);
    translation_origin = if is_source f.preset then none else some f.preset;
    source_edition_id = if not (is_source f.preset) then nonempty f.source_id else none;
    supersedes_edition_id = if is_add f.mode then nonempty f.supersedes_id else none;
    set_preferred = f.set_preferred;
    use_extracted_cover = f.use_cover;
  }

  unfoldable pub commit_payload : Form → CommitPayload
  unfolding edition_payload
  commit_payload f = if is_replace f.mode then replacing else importing (edition_payload f)

  unfoldable pub commit_inspection : Option ImportRecord → Bool → Form → Form
  unfolding commit_payload
  commit_inspection none confirmed f = f
  commit_inspection (some inspection) confirmed f =
      if is_create f.mode && is_empty (trim f.book_title)
      then record f { error = some "请填写书名后再导入。" }
      else if not (is_replace f.mode)
          && (is_empty (trim f.edition_title) || is_empty (trim f.language))
      then record f { error = some "请填写 Edition 名称和语言后再导入。" }
      else if is_replace f.mode && not confirmed
      then record f { replacement_confirm_open = true }
      else record f { committing = some (inspection.id, commit_payload f); error = none }

  -- `commit`, up to its request.
  unfoldable pub commit : Bool → Form → Form
  unfolding commit_inspection
  commit confirmed f = commit_inspection f.inspection confirmed f

-- The rest of `commit`, with the answer's book or with an error.
unfoldable pub committed : String → Form → Form
committed book_id f = record f {
  replacement_confirm_open = false;
  navigated = some book_id;
  committing = none;
}

unfoldable pub commit_failed : String → Form → Form
commit_failed message f = record f { error = some message; committing = none }

unfoldable pub current_step : Form → ℕ
current_step f =
    if is_some f.committing
    then 3
    else if is_some f.inspection
    then 2
    else if is_some f.inspecting
    then 1
    else 0
