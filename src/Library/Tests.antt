-- ===== src/Library/Tests.antt =====
-- The page of apps/web/src/pages/LibraryPage.tsx at concrete filters.
use novel_platform.Common.{String, true, false, Option, none, some, List, [], ◌∷◌, ◌≡◌, refl}
use novel_platform.Api.Endpoints.{Platform}
use novel_platform.Api.Endpoints.Library.{BookFilters}
use novel_platform.Library.{
  Answer, listed, by_query, by_language, LibraryPage, push_if, applied_filters, set_filters,
  load_answers, only_sorted,
}
use novel_platform.Library.Loading.{settle, Settled, set_filters-settle, overtaken-books}

abbrev searched : BookFilters
searched = record only_sorted { query = some "moon"; language = some "zh" }

-- The books of no filter are under way.
abbrev page : LibraryPage String String
page = record {
  books = [];
  recent = [];
  is_loading = true;
  error = none;
  query = "moon";
  file_format = "";
  language = "zh";
  edition_type = "";
  sort = "updated_desc";
  filters = only_sorted;
  filter_open = false;
  loads = only_sorted ∷ [];
}

searched_page : applied_filters searched ≡ by_query ∷ by_language ∷ []
unfolding applied_filters push_if
searched_page = refl

abbrev platform : Platform
platform = record { encode_component = λ t. t; number_text = λ n. "8"; query_text = λ pairs. "" }

-- The books of the language that is asked for, or all.
abbrev titles : Option String → List String
titles none = "Sun" ∷ "Moon" ∷ []
titles (some language) = "Moon" ∷ []

abbrev serve : BookFilters → Answer String String
serve f = listed (titles f.language) []

set_filters-settle_example :
    let p' = set_filters searched page in
    Settled serve searched ("Moon" ∷ []) [] (settle serve p'.loads p')
set_filters-settle_example =
    set_filters-settle serve (λ f. titles f.language) (λ f. []) (λ f. refl) searched page

overtaken-books_example :
    let p' =
      load_answers 0
        (listed ("Sun" ∷ "Moon" ∷ []) [])
        (load_answers 1 (listed ("Moon" ∷ []) []) (set_filters searched page)) in
    (p'.filters ≡ searched)
    × (p'.books ≡ "Sun" ∷ "Moon" ∷ [])
    × (p'.is_loading ≡ false)
    × (p'.error ≡ none)
    × (p'.loads ≡ [])
overtaken-books_example =
    overtaken-books searched only_sorted ("Sun" ∷ "Moon" ∷ []) ("Moon" ∷ []) [] [] page refl
