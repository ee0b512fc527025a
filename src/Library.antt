-- ===== src/Library.antt =====
-- `LibraryPage` (apps/web/src/pages/LibraryPage.tsx): the drafts of the filters, those applied, and the
-- loads of the books. `B` and `R` are the rows of the lists.
pub mod Applied
pub mod Loading
mod Tests
use Prim.Native.Nat.{zero, suc}
use novel_platform.Common.Text.{str_eq, ◌⧺◌}
use novel_platform.Common.{
  ℕ, String, Bool, true, false, Option, none, some, List, [], ◌∷◌, ◌++◌, get_elem?, erase_at,
  if◌then◌else◌,
}
use novel_platform.Api.Endpoints.Library.{BookFilters}

-- `AppliedFilter`
pub data AppliedFilter : Type 0 where
  by_query by_format by_language by_edition_type : AppliedFilter

-- `Promise.all` of `api.listBooks(filters)` and `api.recentReading(8)`, whose error is an empty list.
pub data Answer (B R : Type 0) : Type 0 where
  listed : List B → List R → Answer B R
  refused : String → Answer B R

-- `loads` holds the filters of each load that awaits its answer, in the order of their start.
pub record LibraryPage (B R : Type 0) : Type 0 where
  pub books : List B
  pub recent : List R
  pub is_loading : Bool
  pub error : Option String
  pub query : String
  pub file_format : String
  pub language : String
  pub edition_type : String
  pub sort : String
  pub filters : BookFilters
  pub filter_open : Bool
  pub loads : List BookFilters

-- `if (filters.x) next.push(...)`
unfoldable pub push_if : {A : Type 0} → Option String → A → List A → List A
push_if none a rest = rest
push_if (some value) a rest = if str_eq value "" then rest else a ∷ rest

-- The keys of `appliedFilters`.
unfoldable pub applied_filters : BookFilters → List AppliedFilter
unfolding push_if
applied_filters f = push_if f.query by_query (
    push_if f.format by_format
      (push_if f.language by_language (push_if f.edition_type by_edition_type [])))

abbrev pub only_sorted : BookFilters
only_sorted = record {
  query = none;
  format = none;
  language = none;
  edition_type = none;
  sort = some "updated_desc";
}

module _ {B R : Type 0} where
  -- `loadBooks`, up to its `await`.
  unfoldable pub load_books : LibraryPage B R → LibraryPage B R
  load_books p = record p { is_loading = true; error = none; loads = p.loads ++ p.filters ∷ [] }

  -- `setFilters` with a new object runs the effect on `loadBooks`.
  unfoldable pub set_filters : BookFilters → LibraryPage B R → LibraryPage B R
  unfolding load_books
  set_filters f p = load_books (record p { filters = f })

  unfoldable pub submit_search : (String → String) → LibraryPage B R → LibraryPage B R
  unfolding set_filters
  submit_search trim p =
      record (set_filters
        (record {
          query = some (trim p.query);
          format = some p.file_format;
          language = some (trim p.language);
          edition_type = some p.edition_type;
          sort = some p.sort;
        })
        p) { filter_open = false }

  unfoldable pub reset_search : LibraryPage B R → LibraryPage B R
  unfolding set_filters
  reset_search p = set_filters only_sorted (record p {
    query = "";
    file_format = "";
    language = "";
    edition_type = "";
    sort = "updated_desc";
    filter_open = false;
  })

  unfoldable pub remove_filter : AppliedFilter → LibraryPage B R → LibraryPage B R
  unfolding set_filters
  remove_filter by_query p =
      set_filters (record p.filters { query = some "" }) (record p { query = "" })
  remove_filter by_format p =
      set_filters (record p.filters { format = some "" }) (record p { file_format = "" })
  remove_filter by_language p =
      set_filters (record p.filters { language = some "" }) (record p { language = "" })
  remove_filter by_edition_type p =
      set_filters (record p.filters { edition_type = some "" }) (record p { edition_type = "" })

  take_answer : Answer B R → LibraryPage B R → LibraryPage B R
  take_answer (listed books recent) p = record p {
    books = books;
    recent = recent;
    is_loading = false;
  }
  take_answer (refused message) p = record p { error = some message; is_loading = false }

  answer_load : Option BookFilters → ℕ → Answer B R → LibraryPage B R → LibraryPage B R
  answer_load none i a p = p
  answer_load (some f) i a p = take_answer a (record p { loads = erase_at p.loads i })

  -- The load at `i` among those under way is answered.
  unfoldable pub load_answers : ℕ → Answer B R → LibraryPage B R → LibraryPage B R
  unfolding answer_load take_answer
  load_answers i a p = answer_load (get_elem? p.loads i) i a p
