-- ===== src/Admin/ReaderList/Selection.antt =====
-- The selection and the counts of apps/web/src/pages/AdminReadersPage.tsx.
use novel_platform.Common.Text.{str_eq_iff}
use novel_platform.Common.{
  ◌+◌, String, Bool, true, false, not, Option, none, some, List, [], ◌∷◌, length, any, ◌==◌, ◌≡◌,
  ◌≢◌, refl, arith,
}
use novel_platform.Admin.ReaderDetail.{ReaderIdentity}
use novel_platform.Admin.ReaderList.{
  Texts, ReaderPage, is_active_reader, filter, counts_active, counts_restricted, filtered_readers,
  is_selected, first_unless, select_visible, find_selected, selected_reader,
}

filter-total :
    (p : ReaderIdentity → Bool) (rs : List ReaderIdentity)
    → length (filter p rs) + length (filter (λ r. not (p r)) rs) ≡ length rs
unfolding filter
filter-total p [] = refl
filter-total p (r ∷ rs) = ground (arith, filter-total p rs)

-- Each reader counts as active or as restricted, and none as both.
counts-total : (rs : List ReaderIdentity) → counts_active rs + counts_restricted rs ≡ length rs
unfolding counts_active counts_restricted
counts-total rs = filter-total is_active_reader rs

find_selected-any :
    (id : Option String) (rs : List ReaderIdentity)
    → any (is_selected id) rs ≡ true
    → find_selected id rs ≢ none
unfolding find_selected
find_selected-any id [] h = ground arith
find_selected-any id (r ∷ rs) h = ground (arith, find_selected-any id rs)

is_selected_self : (r : ReaderIdentity) → is_selected (some r.id) r ≡ true
is_selected_self r = ground (arith, str_eq_iff r.id r.id)

first_unless-shown :
    (b : Bool) (r : ReaderIdentity) (rs : List ReaderIdentity) (id : Option String)
    → any (is_selected id) (r ∷ rs) ≡ b
    → any (is_selected (first_unless b (r ∷ rs) id)) (r ∷ rs) ≡ true
first_unless-shown true r rs id h = h
first_unless-shown false r rs id h = ground (arith, is_selected_self r)

find_selected-first_unless :
    (shown : List ReaderIdentity) (id : Option String) (r : ReaderIdentity)
    (rs : List ReaderIdentity)
    → shown ≡ r ∷ rs
    → find_selected (first_unless (any (is_selected id) shown) shown id) shown ≢ none
find_selected-first_unless shown id r rs h = rw h (
    find_selected-any (first_unless (any (is_selected id) (r ∷ rs)) (r ∷ rs) id) (r ∷ rs)
      (first_unless-shown (any (is_selected id) (r ∷ rs)) r rs id refl))

pub filter-nonempty :
    (p : ReaderIdentity → Bool) (xs : List ReaderIdentity) (r : ReaderIdentity)
    (rs : List ReaderIdentity)
    → filter p xs ≡ r ∷ rs
    → (length xs == 0) ≡ false
unfolding filter
filter-nonempty p [] r rs h = ground arith
filter-nonempty p (x ∷ xs) r rs h = ground arith

-- As long as the query and the filter leave a reader, one of those that they leave is selected.
selected_reader-select_visible :
    (texts : Texts) (p : ReaderPage) (r : ReaderIdentity) (rs : List ReaderIdentity)
    → filtered_readers texts p ≡ r ∷ rs
    → selected_reader texts (select_visible texts p) ≢ none
unfolding selected_reader select_visible filtered_readers
selected_reader-select_visible texts p r rs h =
    rw (filter-nonempty _ p.readers r rs h)
      (find_selected-first_unless (filtered_readers texts p) p.selected_reader_id r rs h)
