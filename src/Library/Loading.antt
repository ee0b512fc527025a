-- ===== src/Library/Loading.antt =====
-- The answers to the loads of apps/web/src/pages/LibraryPage.tsx, in the order of the loads and in another.
use novel_platform.Common.{false, none, List, [], ◌∷◌, ◌++◌, ◌≡◌, refl, ◌∙◌}
use novel_platform.Api.Endpoints.Library.{BookFilters}
use novel_platform.Library.{
  Answer, listed, refused, LibraryPage, take_answer, answer_load, load_answers, load_books,
  set_filters,
}

module _ {B R : Type 0} (serve : BookFilters → Answer B R) where
  -- The server answers the loads in the order of their start.
  abbrev pub settle : List BookFilters → LibraryPage B R → LibraryPage B R
  settle [] p = p
  settle (f ∷ fs) p = settle fs (load_answers 0 (serve f) p)

  -- The page shows what the server lists for the filters and no error, and awaits nothing.
  pub record Settled (f : BookFilters) (rows : List B) (recents : List R) (p : LibraryPage B R)
      : Type 0 where
    pub filters : p.filters ≡ f
    pub books : p.books ≡ rows
    pub recent : p.recent ≡ recents
    pub is_loading : p.is_loading ≡ false
    pub error : p.error ≡ none
    pub loads : p.loads ≡ []

  keeps_filters : (a : Answer B R) (p : LibraryPage B R) → (take_answer a p).filters ≡ p.filters
  unfolding take_answer
  keeps_filters (listed b r) p = refl
  keeps_filters (refused m) p = refl

  keeps_loads : (a : Answer B R) (p : LibraryPage B R) → (take_answer a p).loads ≡ p.loads
  unfolding take_answer
  keeps_loads (listed b r) p = refl
  keeps_loads (refused m) p = refl

  first_answer :
      (f : BookFilters) (fs : List BookFilters) (a : Answer B R) (p : LibraryPage B R)
      → p.loads ≡ f ∷ fs
      → load_answers 0 a p ≡ take_answer a (record p { loads = fs })
  unfolding load_answers answer_load
  first_answer f fs a p e = rw e

  module _ (books : BookFilters → List B) (recent : BookFilters → List R)
      (lists : (f : BookFilters) → serve f ≡ listed (books f) (recent f)) where
    keeps_error :
        (f : BookFilters) (p : LibraryPage B R) → (take_answer (serve f) p).error ≡ p.error
    unfolding take_answer
    keeps_error f p = rw (lists f) refl

    settle-Settled :
        (fs : List BookFilters) (f : BookFilters) (p : LibraryPage B R)
        → p.filters ≡ f
        → p.error ≡ none
        → p.loads ≡ fs ++ f ∷ []
        → Settled f (books f) (recent f) (settle (fs ++ f ∷ []) p)
    unfolding take_answer
    settle-Settled [] f p a e b =
        rw (first_answer f [] (serve f) p b, lists f)
          (record {
            filters = a;
            books = refl;
            recent = refl;
            is_loading = refl;
            error = e;
            loads = refl;
          })
    settle-Settled (x ∷ fs) f p a e b =
        let k = first_answer x (fs ++ f ∷ []) (serve x) p b in
        settle-Settled fs f (load_answers 0 (serve x) p) (rw k (keeps_filters (serve x) _ ∙ a))
          (rw k (keeps_error x _ ∙ e)) (rw k (keeps_loads (serve x) _))

    -- If the server lists books and recent ones for all filters: once filters are set, on a page in any
    -- state, and the loads, those under way before included, are answered in the order of their start, the
    -- page shows the books of these filters and no error, and awaits nothing.
    pub set_filters-settle :
        (f : BookFilters) (p : LibraryPage B R)
        → let p' = set_filters f p in Settled f (books f) (recent f) (settle p'.loads p')
    unfolding set_filters load_books
    set_filters-settle f p = settle-Settled p.loads f _ refl refl refl

module _ {B R : Type 0} where
  -- If the load of earlier filters is answered after that of the filters set since, the page shows the
  -- books of the earlier ones, and awaits nothing that would mend it.
  pub overtaken-books :
      (f old : BookFilters) (books mine : List B) (recent r : List R) (p : LibraryPage B R)
      → p.loads ≡ old ∷ []
      → let p' =
          load_answers 0 (listed books recent) (load_answers 1 (listed mine r) (set_filters f p)) in
        (p'.filters ≡ f)
        × (p'.books ≡ books)
        × (p'.is_loading ≡ false)
        × (p'.error ≡ none)
        × (p'.loads ≡ [])
  unfolding set_filters load_books load_answers answer_load take_answer
  overtaken-books f old books mine recent r p e = rw e (refl, refl, refl, refl, refl)
