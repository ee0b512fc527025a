-- ===== src/Upload/Import/Fresh.antt =====
-- Whether the inspection that apps/web/src/pages/UploadPage.tsx shows is the one of what its form holds.
use novel_platform.Common.{
  ℕ, String, Bool, true, false, ltb, Option, none, some, ◌≡◌, refl, arith, sym, ◌∙◌, ◌⊎◌, inl, inr,
}
use novel_platform.Upload.Import.{
  Strings, ImportOperation, replace_edition_file, replacing, is_empty, File, nonempty, ImportRecord,
  FailedImport, Selection, Form, choose_mode, choose_file, choose_target_book,
  choose_target_edition, choose_encoding, forget_inspection, choose_preset,
}
use novel_platform.Upload.Import.Inspecting.{
  inspect, inspect_file, selection_of, inspected, inspect_failed, delete_failed_import, deleted,
  delete_rejected,
}
use novel_platform.Upload.Import.Committing.{commit, commit_inspection, committed, commit_failed}
use novel_platform.Upload.Import.Choices.{Choice, choose, Edit, edit}

abbrev selection_with : ImportOperation → String → String → String → Option File → Option Selection
selection_with mode encoding book_id edition_id none = none
selection_with mode encoding book_id edition_id (some file) = some (record {
  file = file;
  operation = mode;
  text_encoding = encoding;
  target_book_id = nonempty book_id;
  target_edition_id = nonempty edition_id;
})

-- What the form would send now.
abbrev pub selected : Form → Option Selection
selected f = selection_with f.mode f.encoding f.book_id f.edition_id f.file

-- Every choice takes away the inspection and its error.
pub choose-inspection :
    (c : Choice) (f : Form)
    → ((choose c f).inspection ≡ none)
      × ((choose c f).upload_progress ≡ 0)
      × ((choose c f).error ≡ none)
      × ((choose c f).inspecting ≡ f.inspecting)
unfolding choose choose_mode choose_file choose_target_book choose_target_edition choose_encoding
    forget_inspection
choose-inspection c f = ground arith

module _ (max_upload_bytes : ℕ) (limit_message : String) (strings : Strings)
    (answer : Selection → ImportRecord) where
  -- The page between its requests and their answers; the server answers a selection with `answer`.
  -- A choice is made while no inspection is under way.
  pub data Step : Form → Form → Type 0 where
    chooses : (c : Choice) (f : Form) → f.inspecting ≡ none → Step f (choose c f)
    edits : (e : Edit) (f : Form) → Step f (edit e f)
    inspects : (f : Form) → Step f (inspect max_upload_bytes limit_message f)
    answers :
        (sent : Selection) (f : Form)
        → f.inspecting ≡ some sent
        → Step f (inspected strings sent (answer sent) f)
    fails :
        (sent : Selection) (message : String) (id : Option String) (f : Form)
        → f.inspecting ≡ some sent
        → Step f (inspect_failed sent message id f)
    deletes : (item : FailedImport) (f : Form) → Step f (delete_failed_import item f)
    deletion_answers : (item : FailedImport) (f : Form) → Step f (deleted item f)
    deletion_fails : (message : String) (f : Form) → Step f (delete_rejected message f)
    commits : (confirmed : Bool) (f : Form) → Step f (commit strings confirmed f)
    commit_answers : (book_id : String) (f : Form) → Step f (committed book_id f)
    commit_fails : (message : String) (f : Form) → Step f (commit_failed message f)

  pub data Reach (start : Form) : Form → Type 0 where
    here : Reach start start
    next : {f f' : Form} → Reach start f → Step f f' → Reach start f'

  abbrev pub Shown : Option Selection → Option ImportRecord → Type 0
  Shown now none = Unit
  Shown now (some r) = (s : Selection) × (now ≡ some s) × (r ≡ answer s)

  abbrev pub UnderWay : Option Selection → Option Selection → Type 0
  UnderWay now none = Unit
  UnderWay now (some s) = now ≡ some s

  -- The inspection shown and the one under way are those of what the form holds.
  pub record Fresh (f : Form) : Type 0 where
    pub shown : Shown (selected f) f.inspection
    pub under_way : UnderWay (selected f) f.inspecting

  Fresh-same :
      (f f' : Form)
      → selected f' ≡ selected f
      → f'.inspection ≡ f.inspection
      → (f'.inspecting ≡ f.inspecting) ⊎ (f'.inspecting ≡ none)
      → Fresh f
      → Fresh f'
  Fresh-same f f' a b (inl c) h = record {
    shown = rw (a, b) h.shown;
    under_way = rw (a, c) h.under_way;
  }
  Fresh-same f f' a b (inr c) h = record { shown = rw (a, b) h.shown; under_way = rw c tt }

  edit-selected :
      (e : Edit) (f : Form)
      → (selected (edit e f) ≡ selected f)
        × ((edit e f).inspection ≡ f.inspection)
        × ((edit e f).inspecting ≡ f.inspecting)
  unfolding edit choose_preset
  edit-selected e f = ground arith

  commit-selected :
      (confirmed : Bool) (f : Form)
      → (selected (commit strings confirmed f) ≡ selected f)
        × ((commit strings confirmed f).inspection ≡ f.inspection)
        × ((commit strings confirmed f).inspecting ≡ f.inspecting)
  unfolding commit commit_inspection
  commit-selected confirmed f = ground arith

  inspect-selected :
      (f : Form)
      → (selected (inspect max_upload_bytes limit_message f) ≡ selected f)
        × ((inspect max_upload_bytes limit_message f).inspection ≡ f.inspection)
        × (((inspect max_upload_bytes limit_message f).inspecting ≡ f.inspecting)
            ⊎ ((inspect max_upload_bytes limit_message f).inspecting ≡ selected f))
  unfolding inspect inspect_file selection_of
  inspect-selected f = ground arith

  Shown-none : (now : Option Selection) (i : Option ImportRecord) → i ≡ none → Shown now i
  Shown-none now none h = tt
  Shown-none now (some r) h = ground arith

  UnderWay-none : (now : Option Selection) (w : Option Selection) → w ≡ none → UnderWay now w
  UnderWay-none now none h = tt
  UnderWay-none now (some r) h = ground arith

  UnderWay-refl : (now w : Option Selection) → w ≡ now → UnderWay now w
  UnderWay-refl now none h = tt
  UnderWay-refl now (some r) h = sym h

  UnderWay-some :
      (now w : Option Selection) (s : Selection) → UnderWay now w → w ≡ some s → now ≡ some s
  UnderWay-some now none s u h = ground arith
  UnderWay-some now (some t) s u h = u ∙ h

  Step-Fresh : (f f' : Form) → Step f f' → Fresh f → Fresh f'
  unfolding inspected inspect_failed delete_failed_import deleted delete_rejected committed
      commit_failed
  Step-Fresh f _ (chooses c _ e) h =
      let (a, _, _, b) = choose-inspection c f in
      record { shown = Shown-none _ _ a; under_way = UnderWay-none _ _ (b ∙ e) }
  Step-Fresh f _ (edits e _) h = let (a, b, c) = edit-selected e f in Fresh-same f _ a b (inl c) h
  Step-Fresh f _ (inspects _) h =
      let (a, b, c) = inspect-selected f in
      elim c [
        | inl c ↦ Fresh-same f _ a b (inl c) h
        | inr c ↦ record { shown = rw (a, b) h.shown; under_way = UnderWay-refl _ _ (c ∙ sym a) }
      ]
  Step-Fresh f _ (answers s _ e) h = record {
    shown = (s, UnderWay-some (selected f) f.inspecting s h.under_way e, refl);
    under_way = tt;
  }
  Step-Fresh f _ (fails s m id _ e) h = Fresh-same f _ refl refl (inr refl) h
  Step-Fresh f _ (deletes item _) h = Fresh-same f _ refl refl (inl refl) h
  Step-Fresh f _ (deletion_answers item _) h = Fresh-same f _ refl refl (inl refl) h
  Step-Fresh f _ (deletion_fails m _) h = Fresh-same f _ refl refl (inl refl) h
  Step-Fresh f _ (commits c _) h =
      let (a, b, c) = commit-selected c f in Fresh-same f _ a b (inl c) h
  Step-Fresh f _ (commit_answers b _) h = Fresh-same f _ refl refl (inl refl) h
  Step-Fresh f _ (commit_fails m _) h = Fresh-same f _ refl refl (inl refl) h

  -- As long as nothing is chosen while an inspection is under way, the inspection that the page shows
  -- is always the server's answer to what the form holds.
  pub Reach-Fresh : (start f : Form) → Fresh start → Reach start f → Fresh f
  Reach-Fresh start _ h here = h
  Reach-Fresh start _ h (next {f} {f'} r k) = Step-Fresh f f' k (Reach-Fresh start f h r)

  -- If another file is chosen while the inspection of a replacement file is under way, the answer is still
  -- taken: the form then holds the second file and shows the inspection of the first, and a confirmed
  -- commit sends the request for the inspection of the first.
  pub commit-stale :
      (first second : File) (f : Form)
      → f.mode ≡ replace_edition_file
      → f.file ≡ some first
      → ltb max_upload_bytes first.size ≡ false
      → is_empty f.book_id ≡ false
      → is_empty f.edition_id ≡ false
      → let sent = selection_of first f in
        let f' =
          inspected strings sent
            (answer sent)
            (choose (Choice.file (some second)) (inspect max_upload_bytes limit_message f)) in
        ((inspect max_upload_bytes limit_message f).inspecting ≡ some sent)
        × (f'.inspection ≡ some (answer sent))
        × (f'.file ≡ some second)
        × ((commit strings true f').committing ≡ some ((answer sent).id, replacing))
  unfolding inspected inspect inspect_file choose choose_file commit commit_inspection
      forget_inspection
  commit-stale first second f m k n b e = rw (k, n) (ground (arith, m, b, e))
