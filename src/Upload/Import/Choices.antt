-- ===== src/Upload/Import/Choices.antt =====
-- What the form of apps/web/src/pages/UploadPage.tsx lets its user do, as data.
use novel_platform.Common.{ℕ, String, Bool, Option}
use novel_platform.Upload.Import.{
  ImportOperation, File, EditionPreset, Form, choose_mode, choose_file, choose_target_book,
  choose_target_edition, choose_encoding, choose_preset,
}

-- The choices that `inspect` sends.
pub data Choice : Type 0 where
  mode : ImportOperation → Choice
  file : Option File → Choice
  target_book target_edition encoding : String → Choice

unfoldable pub choose : Choice → Form → Form
unfolding choose_mode choose_file choose_target_book choose_target_edition choose_encoding
choose (Choice.mode m) f = choose_mode m f
choose (Choice.file x) f = choose_file x f
choose (Choice.target_book id) f = choose_target_book id f
choose (Choice.target_edition id) f = choose_target_edition id f
choose (Choice.encoding e) f = choose_encoding e f

-- The metadata, which `commit` sends.
pub data Edit : Type 0 where
  book_title author description edition_title language source_id supersedes_id : String → Edit
  preset : EditionPreset → Edit
  set_preferred use_cover : Bool → Edit
  upload_progress : ℕ → Edit
  close_confirm : Edit

unfoldable pub edit : Edit → Form → Form
unfolding choose_preset
edit (Edit.book_title s) f = record f { book_title = s }
edit (Edit.author s) f = record f { author = s }
edit (Edit.description s) f = record f { description = s }
edit (Edit.edition_title s) f = record f { edition_title = s }
edit (Edit.language s) f = record f { language = s }
edit (Edit.source_id s) f = record f { source_id = s }
edit (Edit.supersedes_id s) f = record f { supersedes_id = s }
edit (Edit.preset p) f = choose_preset p f
edit (Edit.set_preferred b) f = record f { set_preferred = b }
edit (Edit.use_cover b) f = record f { use_cover = b }
edit (Edit.upload_progress n) f = record f { upload_progress = n }
edit Edit.close_confirm f = record f { replacement_confirm_open = Bool.false }
