-- ===== src/Upload/Import.antt =====
-- The state of `UploadPage` (apps/web/src/pages/UploadPage.tsx) and the handlers that choose what to
-- upload. `Strings` holds the two string functions of JavaScript that the page uses.
pub mod Inspecting
pub mod Committing
pub mod Choices
pub mod Fresh
pub mod Payload
pub mod Failures
use novel_platform.Common.Text.{str_eq}
use novel_platform.Common.{
  ℕ, String, Bool, true, false, Option, none, some, List, [], ◌∷◌, not, ◌&&◌, if◌then◌else◌,
}

-- `trim`, and `replace(/\.[^.]+$/, "")`.
pub record Strings : Type 0 where
  pub trim : String → String
  pub without_extension : String → String

-- `ImportOperation`
pub data ImportOperation : Type 0 where
  create_book add_edition replace_edition_file : ImportOperation

-- `EditionPreset`
pub data EditionPreset : Type 0 where
  source ai human mixed unknown : EditionPreset

pub record File : Type 0 where
  pub name : String
  pub size : ℕ

-- A value of `metadata_preview`, by the kinds that are told apart; `none` is an item of a list that is
-- no string.
pub data PreviewValue : Type 0 where
  text : String → PreviewValue
  list : List (Option String) → PreviewValue
  other : PreviewValue

-- `ImportRecord`, by the members that are read.
pub record ImportRecord : Type 0 where
  pub id : String
  pub metadata_preview : String → PreviewValue
  pub cover_available : Bool

pub record FailedImport : Type 0 where
  pub id : String
  pub filename : String

-- What `inspect` sends: the choices of the form.
pub record Selection : Type 0 where
  pub file : File
  pub operation : ImportOperation
  pub text_encoding : String
  pub target_book_id : Option String
  pub target_edition_id : Option String

-- What `commit` sends for a new edition.
pub record EditionPayload : Type 0 where
  pub canonical_title : Option String
  pub canonical_author : Option String
  pub description : Option String
  pub edition_title : String
  pub language : String
  pub is_translation : Bool
  pub translation_origin : Option EditionPreset
  pub source_edition_id : Option String
  pub supersedes_edition_id : Option String
  pub set_preferred : Bool
  pub use_extracted_cover : Bool

pub data CommitPayload : Type 0 where
  replacing : CommitPayload
  importing : EditionPayload → CommitPayload

-- `inspecting` and `committing` hold the requests under way, so that `isInspecting` is that the first
-- is there; `navigated` is the book that the page was left for.
pub record Form : Type 0 where
  pub mode : ImportOperation
  pub book_id : String
  pub edition_id : String
  pub file : Option File
  pub encoding : String
  pub upload_progress : ℕ
  pub inspection : Option ImportRecord
  pub book_title : String
  pub author : String
  pub description : String
  pub edition_title : String
  pub language : String
  pub preset : EditionPreset
  pub source_id : String
  pub supersedes_id : String
  pub set_preferred : Bool
  pub use_cover : Bool
  pub inspecting : Option Selection
  pub committing : Option (String × CommitPayload)
  pub failed_imports : List FailedImport
  pub deleting_import_id : Option String
  pub cleanup_notice : Option String
  pub error : Option String
  pub replacement_confirm_open : Bool
  pub navigated : Option String

abbrev pub is_create : ImportOperation → Bool
is_create create_book = true
is_create _ = false

abbrev pub is_replace : ImportOperation → Bool
is_replace replace_edition_file = true
is_replace _ = false

abbrev pub is_add : ImportOperation → Bool
is_add add_edition = true
is_add _ = false

abbrev pub is_empty : String → Bool
is_empty s = str_eq s ""

-- `s || null`, `s || undefined`
abbrev pub nonempty : String → Option String
nonempty s = if is_empty s then none else some s

abbrev pub initial_mode : Option String → ImportOperation
initial_mode none = create_book
initial_mode (some value) =
    if str_eq value "add_edition"
    then add_edition
    else if str_eq value "replace_edition_file"
    then replace_edition_file
    else create_book

-- The page as it is opened with the parameters `mode`, `bookId` and `editionId`.
unfoldable pub initial_form : Option String → Option String → Option String → Form
initial_form mode book_id edition_id = record {
  mode = initial_mode mode;
  book_id = elim book_id [ none ↦ "" | some id ↦ id ];
  edition_id = elim edition_id [ none ↦ "" | some id ↦ id ];
  file = none;
  encoding = "auto";
  upload_progress = 0;
  inspection = none;
  book_title = "";
  author = "";
  description = "";
  edition_title = "";
  language = "";
  preset = source;
  source_id = "";
  supersedes_id = "";
  set_preferred = is_create (initial_mode mode);
  use_cover = is_create (initial_mode mode);
  inspecting = none;
  committing = none;
  failed_imports = [];
  deleting_import_id = none;
  cleanup_notice = none;
  error = none;
  replacement_confirm_open = false;
  navigated = none;
}

-- What the choosers have in common.
unfoldable pub forget_inspection : Form → Form
forget_inspection f = record f { inspection = none; upload_progress = 0; error = none }

unfoldable pub choose_mode : ImportOperation → Form → Form
unfolding forget_inspection
choose_mode next f = record (forget_inspection f) {
  mode = next;
  supersedes_id = "";
  set_preferred = is_create next;
  use_cover = is_create next;
  book_id = if is_create next then "" else f.book_id;
  edition_id = if is_create next then "" else f.edition_id;
  source_id = if is_create next && not (is_empty f.book_id) then "" else f.source_id;
}

unfoldable pub choose_file : Option File → Form → Form
unfolding forget_inspection
choose_file next f = record (forget_inspection f) { file = next }

-- The effect on `bookId` resets the other two when the book is another.
unfoldable pub choose_target_book : String → Form → Form
unfolding forget_inspection
choose_target_book next f =
    let f' = record (forget_inspection f) { book_id = next; edition_id = "" } in
    if str_eq next f.book_id then f' else record f' { source_id = ""; supersedes_id = "" }

unfoldable pub choose_target_edition : String → Form → Form
unfolding forget_inspection
choose_target_edition next f = record (forget_inspection f) { edition_id = next }

unfoldable pub choose_encoding : String → Form → Form
unfolding forget_inspection
choose_encoding next f = record (forget_inspection f) { encoding = next }

unfoldable pub choose_preset : EditionPreset → Form → Form
choose_preset next f = record f {
  preset = next;
  source_id = elim next [ source ↦ "" | _ ↦ f.source_id ];
}
