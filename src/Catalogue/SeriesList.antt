-- ===== src/Catalogue/SeriesList.antt =====
-- `SeriesPage` (apps/web/src/pages/SeriesPage.tsx), as a page of Pages. `trim` is JavaScript's.
pub mod Kept
mod Tests
use novel_platform.Common.Text.{or_null}
use novel_platform.Common.{String, Bool, true, false, Option, none, some, List, []}
use novel_platform.Pages.{Page}

pub record Series : Type 0 where
  pub id : String
  pub name : String

pub record SeriesPage : Type 0 where
  pub series : List Series
  pub name : String
  pub description : String
  pub is_loading : Bool
  pub is_creating : Bool
  pub error : Option String

pub data Edit : Type 0 where
  writes_name writes_description : String → Edit

-- The form, and its request.
pub data Action : Type 0 where
  create : Action

pub data Request : Type 0 where
  creates : String → Option String → Request

unfoldable pub mounted : SeriesPage
mounted = record {
  series = [];
  name = "";
  description = "";
  is_loading = true;
  is_creating = false;
  error = none;
}

edit : Edit → SeriesPage → SeriesPage
edit (writes_name t) p = record p { name = t }
edit (writes_description t) p = record p { description = t }

-- `load`, up to its `await`.
start_load : SeriesPage → SeriesPage
start_load p = record p { is_loading = true; error = none }

loaded : List Series → SeriesPage → SeriesPage
loaded rows p = record p { series = rows; is_loading = false }

load_failed : String → SeriesPage → SeriesPage
load_failed message p = record p { error = some message; is_loading = false }

-- `create`, up to its `await`.
begin : (String → String) → SeriesPage → Request × SeriesPage
begin trim p =
    (creates p.name (or_null (trim p.description)), record p { is_creating = true; error = none })

-- `create` between the answer and the load.
accepted : SeriesPage → SeriesPage
accepted p = record p { name = ""; description = "" }

-- The `finally` of `create`.
ended : SeriesPage → SeriesPage
ended p = record p { is_creating = false }

failed : String → SeriesPage → SeriesPage
unfolding ended
failed message p = ended (record p { error = some message })

unfoldable pub series_list_page :
    (String → String) → Page (List Series) Action Edit Request Unit SeriesPage Unit
unfolding edit start_load loaded load_failed begin accepted ended failed
series_list_page trim = record {
  edit = edit;
  begin = λ a p. some (begin trim p);
  start_load = start_load;
  loaded = loaded;
  load_failed = load_failed;
  accepted = λ r b p. accepted p;
  failed = λ r message p. failed message p;
  ended = λ r p. ended p;
  leaves = λ r. false;
  shown = λ p. some p.series;
  error = λ p. p.error;
  is_loading = λ p. p.is_loading;
  busy = λ f p. p.is_creating;
  holds = λ f r. true;
}
