-- ===== src/Api/Endpoints/Library.antt =====
-- The methods of `api` (apps/web/src/api/client.ts) for books, editions, imports and series.
use novel_platform.Common.{ℕ, String, true, false, Option, List, [], ◌∷◌}
use novel_platform.Common.Text.{◌⧺◌}
use novel_platform.Api.Types.{get, post, patch, delete, form, nothing, Endpoint}
use novel_platform.Api.Endpoints.{Platform, request, search_set}

pub record BookFilters : Type 0 where
  pub query : Option String
  pub format : Option String
  pub language : Option String
  pub edition_type : Option String
  pub sort : Option String

pub data LibraryCall : Type 0 where
  list_books : BookFilters → ℕ → ℕ → LibraryCall
  create_book : LibraryCall
  get_book patch_book delete_book create_edition : String → LibraryCall
  patch_edition delete_edition : String → String → LibraryCall
  get_preferences patch_preferences : String → LibraryCall
  inspect_import : LibraryCall
  get_import commit_import delete_import : String → LibraryCall
  list_series create_series : LibraryCall
  get_series patch_series delete_series : String → LibraryCall
  add_book_to_series remove_book_from_series : String → String → LibraryCall

module _ (p : Platform) where
  open p use {number_text, query_text}

  unfoldable pub book_search : BookFilters → ℕ → ℕ → List (String × String)
  unfolding search_set
  book_search f limit offset = search_set "sort" f.sort (
      search_set "edition_type" f.edition_type (
        search_set "language" f.language (
          search_set "format" f.format (
            search_set "query" f.query
              (("limit", number_text limit) ∷ ("offset", number_text offset) ∷ [])))))

  unfoldable pub library : LibraryCall → Endpoint
  library (list_books f limit offset) =
      request get ("/api/v1/books?" ⧺ query_text (book_search f limit offset)) false
  library create_book = request post "/api/v1/books" true
  library (get_book book) = request get ("/api/v1/books/" ⧺ book) false
  library (patch_book book) = request patch ("/api/v1/books/" ⧺ book) true
  library (delete_book book) = request delete ("/api/v1/books/" ⧺ book) false
  library (create_edition book) = request post ("/api/v1/books/" ⧺ (book ⧺ "/editions")) true
  library (patch_edition book edition) =
      request patch ("/api/v1/books/" ⧺ (book ⧺ ("/editions/" ⧺ edition))) true
  library (delete_edition book edition) =
      request delete ("/api/v1/books/" ⧺ (book ⧺ ("/editions/" ⧺ edition))) false
  library (get_preferences book) = request get ("/api/v1/books/" ⧺ (book ⧺ "/preferences")) false
  library (patch_preferences book) = request patch ("/api/v1/books/" ⧺ (book ⧺ "/preferences")) true
  library inspect_import = record {
    transport = form;
    method = post;
    path = "/api/v1/imports/inspect";
    has_body = true;
    after = nothing;
  }
  library (get_import id) = request get ("/api/v1/imports/" ⧺ id) false
  library (commit_import id) = request post ("/api/v1/imports/" ⧺ (id ⧺ "/commit")) true
  library (delete_import id) = request delete ("/api/v1/imports/" ⧺ id) false
  library list_series = request get "/api/v1/series" false
  library create_series = request post "/api/v1/series" true
  library (get_series id) = request get ("/api/v1/series/" ⧺ id) false
  library (patch_series id) = request patch ("/api/v1/series/" ⧺ id) true
  library (delete_series id) = request delete ("/api/v1/series/" ⧺ id) false
  library (add_book_to_series id book) =
      request post ("/api/v1/series/" ⧺ (id ⧺ ("/books/" ⧺ book))) false
  library (remove_book_from_series id book) =
      request delete ("/api/v1/series/" ⧺ (id ⧺ ("/books/" ⧺ book))) false
