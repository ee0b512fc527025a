-- ===== src/Library/Applied.antt =====
-- The applied filters of apps/web/src/pages/LibraryPage.tsx, and the request that they make.
use novel_platform.Common.Text.{str_eq}
use novel_platform.Common.{
  ℕ, String, Bool, true, false, Option, none, some, List, [], ◌∷◌, ◌++◌, map, if◌then◌else◌, ◌≡◌,
  refl, ap, sym, arith,
}
use mathlib.Core.List.{append-nil, append_assoc}
use novel_platform.Api.Endpoints.{Platform, search_set}
use novel_platform.Api.Endpoints.Library.{BookFilters, book_search}
use novel_platform.Library.{
  AppliedFilter, by_query, by_format, by_language, by_edition_type, LibraryPage, push_if,
  applied_filters, load_books, set_filters, remove_filter,
}

-- The name of the filter's query parameter.
abbrev pub parameter : AppliedFilter → String
parameter by_query = "query"
parameter by_format = "format"
parameter by_language = "language"
parameter by_edition_type = "edition_type"

abbrev pub same : AppliedFilter → AppliedFilter → Bool
same by_query by_query = true
same by_format by_format = true
same by_language by_language = true
same by_edition_type by_edition_type = true
same j k = false

abbrev pub without : AppliedFilter → List AppliedFilter → List AppliedFilter
without k [] = []
without k (j ∷ js) = if same k j then without k js else j ∷ without k js

abbrev pub keys : List (String × String) → List String
keys pairs = map (λ pair. pair.0) pairs

without-push_if :
    (k : AppliedFilter) (o : Option String) (j : AppliedFilter) (js : List AppliedFilter)
    → without k (push_if o j js) ≡ (if same k j then without k js else push_if o j (without k js))
unfolding push_if
without-push_if k none j js = ground arith
without-push_if k (some v) j js = ground arith

-- Removing an applied filter applies just the others that were applied.
remove_filter-applied :
    {B R : Type 0} (k : AppliedFilter) (p : LibraryPage B R)
    → applied_filters (remove_filter k p).filters ≡ without k (applied_filters p.filters)
unfolding remove_filter set_filters load_books applied_filters
remove_filter-applied by_query p = simp without-push_if
remove_filter-applied by_format p = simp without-push_if
remove_filter-applied by_language p = simp without-push_if
remove_filter-applied by_edition_type p = simp without-push_if

keys-append : (xs ys : List (String × String)) → keys (xs ++ ys) ≡ keys xs ++ keys ys
keys-append [] ys = refl
keys-append (x ∷ xs) ys = ap (λ l. x.0 ∷ l) (keys-append xs ys)

keys-if :
    (b : Bool) (key v : String) (search : List (String × String))
    → keys (if b then search else search ++ (key, v) ∷ [])
      ≡ keys search ++ (if b then [] else key ∷ [])
keys-if true key v search = sym (append-nil (keys search))
keys-if false key v search = keys-append search ((key, v) ∷ [])

keys-search_set :
    (key : String) (o : Option String) (search : List (String × String))
    → keys (search_set key o search) ≡ keys search ++ push_if o key []
unfolding search_set push_if
keys-search_set key none search = sym (append-nil (keys search))
keys-search_set key (some v) search = keys-if (str_eq v "") key v search

push_if-append :
    {A : Type 0} (o : Option String) (a : A) (rest : List A)
    → push_if o a rest ≡ push_if o a [] ++ rest
unfolding push_if
push_if-append none a rest = refl
push_if-append (some v) a rest = ground arith

map-push_if :
    {A A' : Type 0} (g : A → A') (o : Option String) (a : A) (rest : List A)
    → map g (push_if o a rest) ≡ push_if o (g a) (map g rest)
unfolding push_if
map-push_if g none a rest = refl
map-push_if g (some v) a rest = ground arith

-- The request for the books has the parameters of the applied filters, in their order, between those
-- of the page and that of the order.
book_search-keys :
    (platform : Platform) (f : BookFilters) (limit offset : ℕ)
    → keys (book_search platform f limit offset)
      ≡ "limit" ∷ "offset" ∷ map parameter (applied_filters f) ++ push_if f.sort "sort" []
unfolding book_search applied_filters
book_search-keys platform f limit offset =
    let last = push_if f.edition_type "edition_type" [] in
    let third = push_if-append f.language "language" last in
    let second = push_if-append f.format "format" (push_if f.language "language" last) in
    let first =
      push_if-append f.query "query"
        (push_if f.format "format" (push_if f.language "language" last)) in
    let sorted = push_if f.sort "sort" [] in
    let pushed : push_if f.query "query" []
          ++ (push_if f.format "format" []
              ++ (push_if f.language "language" [] ++ (last ++ sorted)))
        ≡ push_if f.query "query" (push_if f.format "format" (push_if f.language "language" last))
          ++ sorted =
      rw (first, second, third) (simp append_assoc) in
    simp (keys-search_set, map-push_if, append_assoc) (ap (λ l. "limit" ∷ "offset" ∷ l) pushed)
