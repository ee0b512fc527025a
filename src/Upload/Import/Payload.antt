-- ===== src/Upload/Import/Payload.antt =====
-- What `commit` of apps/web/src/pages/UploadPage.tsx sends.
use novel_platform.Common.{String, Bool, true, false, none, some, ◌≡◌, ◌≢◌, arith, ◌↔◌}
use novel_platform.Upload.Import.{
  Strings, create_book, add_edition, replace_edition_file, ImportRecord, CommitPayload, Form,
  is_empty,
}
use novel_platform.Upload.Import.Committing.{
  commit, commit_inspection, commit_payload, edition_payload,
}

-- What the page asks of the metadata before it sends them.
abbrev pub Complete : Strings → Bool → Form → Type 0
Complete strings confirmed f =
    (f.mode ≡ create_book → is_empty (strings.trim f.book_title) ≡ false)
    × (f.mode ≢ replace_edition_file
        → (is_empty (strings.trim f.edition_title) ≡ false)
          × (is_empty (strings.trim f.language) ≡ false))
    × (f.mode ≡ replace_edition_file → confirmed ≡ true)

module _ (strings : Strings) where
  -- A page with nothing under way sends a commit exactly if an inspection is there, the titles and the
  -- language are given as far as the operation needs them, and a replacement is confirmed.
  pub commit-committing_iff :
      (confirmed : Bool) (f : Form) (p : String × CommitPayload)
      → f.committing ≡ none
      → ((commit strings confirmed f).committing ≡ some p) ↔ (
          (r : ImportRecord) × (f.inspection ≡ some r)
          × Complete strings confirmed f
          × (p ≡ (r.id, commit_payload strings f)))
  unfolding commit commit_inspection
  commit-committing_iff confirmed f p h = ground arith

  -- The payload names an origin exactly if it says that the edition is a translation, and only then a
  -- source; it names a superseded edition only when an edition is added, and a title exactly when a
  -- book is created.
  edition_payload-consistent :
      (f : Form)
      → let p = edition_payload strings f in
        ((p.translation_origin ≡ none) ↔ (p.is_translation ≡ false))
        × (p.is_translation ≡ false → p.source_edition_id ≡ none)
        × (p.supersedes_edition_id ≢ none → f.mode ≡ add_edition)
        × ((p.canonical_title ≢ none) ↔ (f.mode ≡ create_book))
  unfolding edition_payload
  edition_payload-consistent f = ground arith
