-- ===== src/Admin/Issuing/Selecting.antt =====
-- Which reader of apps/web/src/pages/AdminReadersPage.tsx is selected once one is created.
use novel_platform.Common.Text.{str_eq_iff}
use novel_platform.Common.{
  ℕ, String, Bool, true, false, Option, some, List, ◌∷◌, any, length, ◌==◌, ◌≡◌, ◌≢◌, refl, ◌∙◌,
  arith,
}
use novel_platform.Admin.ReaderDetail.{Zone, ReaderIdentity}
use novel_platform.Admin.ReaderList.{
  Texts, ReaderPage, filtered_readers, is_selected, first_unless, select_visible,
}
use novel_platform.Admin.ReaderList.Selection.{filter-nonempty}
use novel_platform.Admin.Issuing.{
  Issued, Issuing, settle, readers_listed, start_load, show_issued, reset_create_form, created,
  create_listed,
}

module _ (texts : Texts) where
  readers-nonempty :
      (l : ReaderPage) (r : ReaderIdentity) (rs : List ReaderIdentity)
      → filtered_readers texts l ≡ r ∷ rs
      → (length l.readers == 0) ≡ false
  unfolding filtered_readers
  readers-nonempty l r rs h = filter-nonempty _ l.readers r rs h

  selects :
      (l : ReaderPage) (b : Bool) (r : ReaderIdentity) (rs : List ReaderIdentity)
      → filtered_readers texts l ≡ r ∷ rs
      → any (is_selected l.selected_reader_id) (r ∷ rs) ≡ b
      → select_visible texts l
        ≡ record l { selected_reader_id = first_unless b (r ∷ rs) l.selected_reader_id }
  unfolding select_visible
  selects l b r rs h a = rw (readers-nonempty l r rs h, h, a)

  same_filter :
      (l : ReaderPage) (id : Option String)
      → filtered_readers texts (record l { selected_reader_id = id }) ≡ filtered_readers texts l
  unfolding filtered_readers
  same_filter l id = refl

  created-list :
      (z : Zone) (now : ℕ) (new : Issued) (p : Issuing)
      → (created texts z now new p).list
        ≡ select_visible texts (record p.list { selected_reader_id = some new.reader.id })
  unfolding settle created start_load reset_create_form show_issued
  created-list z now new p = ground arith

  create_listed-list :
      (rows : List ReaderIdentity) (p : Issuing)
      → (create_listed texts rows p).list ≡ select_visible texts (record p.list { readers = rows })
  unfolding settle create_listed readers_listed
  create_listed-list rows p = ground arith

  -- If the list shows readers while one is created, the first of them is selected in place of the new
  -- one, and stays selected once the list has been loaded again with both.
  pub created-selected_reader_id :
      (z : Zone) (now : ℕ) (new : Issued) (p : Issuing) (r : ReaderIdentity)
      (rs : List ReaderIdentity) (rows : List ReaderIdentity) (s : ReaderIdentity)
      (ss : List ReaderIdentity)
      → filtered_readers texts p.list ≡ r ∷ rs
      → any (is_selected (some new.reader.id)) (r ∷ rs) ≡ false
      → filtered_readers texts (record p.list { readers = rows }) ≡ s ∷ ss
      → any (is_selected (some r.id)) (s ∷ ss) ≡ true
      → let p' = create_listed texts rows (created texts z now new p) in
        (p'.list.selected_reader_id ≡ some r.id) × (r.id ≢ new.reader.id)
  created-selected_reader_id z now new p r rs rows s ss h a k b =
      let l : ReaderPage = record p.list { selected_reader_id = some new.reader.id } in
      let l' : ReaderPage = record p.list { selected_reader_id = some r.id; readers = rows } in
      let first : select_visible texts l ≡ record p.list { selected_reader_id = some r.id } =
        selects l false r rs (same_filter p.list (some new.reader.id) ∙ h) a in
      let second : select_visible texts l' ≡ l' =
        selects l' true s ss (same_filter (record p.list { readers = rows }) (some r.id) ∙ k) b in
      (
        rw
            (
              create_listed-list rows (created texts z now new p),
              created-list z now new p,
              first,
              second,
            )
            refl,
        λ e. ground (arith, a, (str_eq_iff r.id new.reader.id).1 e),
      )
