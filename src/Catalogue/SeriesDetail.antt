-- ===== src/Catalogue/SeriesDetail.antt =====
-- `SeriesDetailPage` (apps/web/src/pages/SeriesDetailPage.tsx), as a page of Pages. The route gives
-- `seriesId`, which is not empty. `trim` is JavaScript's.
pub mod Kept
mod Tests
use mathlib.Core.Option.{map as option_map}
use novel_platform.Common.Text.{str_eq, or_null, or_empty}
use novel_platform.Common.{
  String, Bool, true, false, Option, none, some, List, [], ◌∷◌, ◌≡◌, if◌then◌else◌,
}
use novel_platform.Pages.{Outcome, ok, both, Page}

-- `BookListItem`
pub record Book : Type 0 where
  pub id : String
  pub series_id : Option String

pub record SeriesDetail : Type 0 where
  pub id : String
  pub name : String
  pub description : Option String
  pub books : List String

-- What `load` reads: the series, and the books of the library.
abbrev pub View : Type 0
View = SeriesDetail × List Book

pub record SeriesDetailPage : Type 0 where
  pub series : Option SeriesDetail
  pub library : List Book
  pub name : String
  pub description : String
  pub book_id : String
  pub is_loading : Bool
  pub is_saving : Bool
  pub error : Option String

-- The fields, and the buttons with the form.
pub data Edit : Type 0 where
  writes_name writes_description picks_book : String → Edit

pub data Action : Type 0 where
  save add_book delete_series : Action
  remove_book : String → Action

-- The requests, with their payloads.
pub data Request : Type 0 where
  patches : String → Option String → Request
  adds removes : String → Request
  deletes : Request

unfoldable pub mounted : SeriesDetailPage
mounted = record {
  series = none;
  library = [];
  name = "";
  description = "";
  book_id = "";
  is_loading = true;
  is_saving = false;
  error = none;
}

edit : Edit → SeriesDetailPage → SeriesDetailPage
edit (writes_name t) p = record p { name = t }
edit (writes_description t) p = record p { description = t }
edit (picks_book t) p = record p { book_id = t }

-- `load`, up to its `await`.
start_load : SeriesDetailPage → SeriesDetailPage
start_load p = record p { is_loading = true; error = none }

loaded : View → SeriesDetailPage → SeriesDetailPage
loaded (series, books) p = record p {
  series = some series;
  library = books;
  name = series.name;
  description = or_empty series.description;
  is_loading = false;
}

load_failed : String → SeriesDetailPage → SeriesDetailPage
load_failed message p = record p { error = some message; is_loading = false }

module _ (trim : String → String) where
  -- The handlers, up to their first `await`; `addBook` does nothing while no book is picked.
  begin : Action → SeriesDetailPage → Option (Request × SeriesDetailPage)
  begin save p =
      some
        (patches p.name (or_null (trim p.description)), record p { is_saving = true; error = none })
  begin add_book p =
      if str_eq p.book_id "" then none else some (adds p.book_id, record p { error = none })
  begin (remove_book id) p = some (removes id, record p { error = none })
  begin delete_series p = some (deletes, record p { error = none })

-- The handlers between the answer and the load.
accepted : Request → SeriesDetailPage → SeriesDetailPage
accepted (adds id) p = record p { book_id = "" }
accepted r p = p

-- The `finally` of `save`; the other handlers have none.
ended : Request → SeriesDetailPage → SeriesDetailPage
ended (patches name description) p = record p { is_saving = false }
ended r p = p

failed : Request → String → SeriesDetailPage → SeriesDetailPage
unfolding ended
failed r message p = ended r (record p { error = some message })

-- `navigate("/series")`
leaves : Request → Bool
leaves deletes = true
leaves r = false

saves : Request → Bool
saves (patches name description) = true
saves r = false

shown : SeriesDetailPage → Option View
shown p = option_map (λ series. (series, p.library)) p.series

unfoldable pub series_page :
    (String → String) → Page View Action Edit Request Unit SeriesDetailPage Unit
unfolding edit start_load loaded load_failed begin accepted ended failed leaves saves shown
series_page trim = record {
  edit = edit;
  begin = begin trim;
  start_load = start_load;
  loaded = loaded;
  load_failed = load_failed;
  accepted = λ r b p. accepted r p;
  failed = failed;
  ended = ended;
  leaves = leaves;
  shown = shown;
  error = λ p. p.error;
  is_loading = λ p. p.is_loading;
  busy = λ f p. p.is_saving;
  holds = λ f r. saves r;
}

-- `Promise.all` of `api.getSeries` and of `canManage ? api.listBooks({}, 100, 0) : Promise.resolve([])`, with
-- both answers of one moment.
unfoldable pub read_series :
    {S : Type 0} → Bool → (S → Outcome SeriesDetail) → (S → Outcome (List Book)) → S → Outcome View
unfolding both
read_series can_manage get_series list_books s =
    both (get_series s) (if can_manage then list_books s else ok [])

-- `availableBooks`
unfoldable pub available_books : List Book → List Book
available_books [] = []
available_books (b ∷ bs) = elim b.series_id [
  | none ↦ b ∷ available_books bs
  | some id ↦ available_books bs
]
