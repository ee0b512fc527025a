-- ===== src/Catalogue/BookDetail.antt =====
-- `BookDetailPage` (apps/web/src/pages/BookDetailPage.tsx), as a page of Pages: its form and its deletion. The
-- route gives `bookId`, which is not empty. `trim` is JavaScript's.
pub mod Kept
mod Tests
use mathlib.Core.Option.{map as option_map}
use novel_platform.Common.Text.{or_null, or_empty}
use novel_platform.Common.{String, Bool, true, false, Option, none, some, List}
use novel_platform.Pages.{Outcome, both, Page}

pub record BookDetail : Type 0 where
  pub id : String
  pub canonical_title : String
  pub canonical_author : Option String
  pub description : Option String
  pub editions : List String

-- `preferred_edition_id` of `BookPreference`.
abbrev pub Preference : Type 0
Preference = Option String

-- What `loadBook` reads.
abbrev pub View : Type 0
View = BookDetail × Preference

pub record BookDetailPage : Type 0 where
  pub book : Option BookDetail
  pub preference : Option Preference
  pub is_loading : Bool
  pub error : Option String
  pub title : String
  pub author : String
  pub description : String
  pub is_saving : Bool
  pub action_error : Option String

pub data Edit : Type 0 where
  writes_title writes_author writes_description : String → Edit

pub data Action : Type 0 where
  save_book delete_book : Action

pub data Request : Type 0 where
  patches : String → Option String → Option String → Request
  deletes : Request

unfoldable pub mounted : BookDetailPage
mounted = record {
  book = none;
  preference = none;
  is_loading = true;
  error = none;
  title = "";
  author = "";
  description = "";
  is_saving = false;
  action_error = none;
}

edit : Edit → BookDetailPage → BookDetailPage
edit (writes_title t) p = record p { title = t }
edit (writes_author t) p = record p { author = t }
edit (writes_description t) p = record p { description = t }

-- `loadBook`, up to its `await`.
start_load : BookDetailPage → BookDetailPage
start_load p = record p { is_loading = true; error = none }

loaded : View → BookDetailPage → BookDetailPage
loaded (book, preference) p = record p {
  book = some book;
  preference = some preference;
  title = book.canonical_title;
  author = or_empty book.canonical_author;
  description = or_empty book.description;
  is_loading = false;
}

load_failed : String → BookDetailPage → BookDetailPage
load_failed message p = record p { error = some message; is_loading = false }

-- `saveBook` and `deleteBook`, up to their `await`.
begin : (String → String) → Action → BookDetailPage → Request × BookDetailPage
begin trim save_book p = (
  patches p.title (or_null (trim p.author)) (or_null (trim p.description)),
  record p { is_saving = true; action_error = none },
)
begin trim delete_book p = (deletes, record p { action_error = none })

-- The `finally` of `saveBook`; `deleteBook` has none.
ended : Request → BookDetailPage → BookDetailPage
ended (patches title author description) p = record p { is_saving = false }
ended deletes p = p

failed : Request → String → BookDetailPage → BookDetailPage
unfolding ended
failed r message p = ended r (record p { action_error = some message })

-- `navigate("/")`
leaves : Request → Bool
leaves deletes = true
leaves r = false

saves : Request → Bool
saves deletes = false
saves r = true

shown : BookDetailPage → Option View
shown p = elim p.preference [
  | none ↦ none
  | some preference ↦ option_map (λ book. (book, preference)) p.book
]

-- The error that the page tells, of a load or of a handler.
told : Option String → Option String → Option String
told none o = o
told (some message) o = some message

unfoldable pub book_page :
    (String → String) → Page View Action Edit Request Unit BookDetailPage Unit
unfolding edit start_load loaded load_failed begin ended failed leaves saves shown told
book_page trim = record {
  edit = edit;
  begin = λ a p. some (begin trim a p);
  start_load = start_load;
  loaded = loaded;
  load_failed = load_failed;
  accepted = λ r b p. p;
  failed = failed;
  ended = ended;
  leaves = leaves;
  shown = shown;
  error = λ p. told p.error p.action_error;
  is_loading = λ p. p.is_loading;
  busy = λ f p. p.is_saving;
  holds = λ f r. saves r;
}

-- `Promise.all([api.getBook(bookId), api.getPreferences(bookId)])`, with both answers of one moment.
unfoldable pub read_book :
    {S : Type 0} → (S → Outcome BookDetail) → (S → Outcome Preference) → S → Outcome View
unfolding both
read_book get_book get_preferences s = both (get_book s) (get_preferences s)
