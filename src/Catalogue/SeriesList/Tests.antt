-- ===== src/Catalogue/SeriesList/Tests.antt =====
-- The page of apps/web/src/pages/SeriesPage.tsx with a server that holds the series and refuses an empty name.
use novel_platform.Common.{
  String, true, false, none, is_some, ◌⊎◌, List, [], ◌∷◌, ◌++◌, ◌≡◌, refl, if◌then◌else◌,
}
use novel_platform.Common.Text.{str_eq}
use novel_platform.Pages.{
  ok, refused, Server, Event, edits, acts, serves, delivers, opened, happens, happen_all,
}
use novel_platform.Pages.Current.{Displays}
use novel_platform.Catalogue.SeriesList.Kept.{series_list_page-Displays}
use novel_platform.Catalogue.SeriesList.{
  Series, Action, create, Edit, writes_name, Request, creates, mounted, series_list_page,
}

abbrev server : Server (List Series) (List Series) Request Unit
server = record {
  read = ok;
  apply = elim [
    | creates name description ↦ λ ss.
        if str_eq name ""
        then refused "name"
        else ok (ss ++ record { id = name; name = name } ∷ [], _)
  ];
}

-- A series is created while the first load is on its way; an empty name is refused before.
abbrev events : List (Event Action Edit)
events =
    acts create
    ∷ serves 1
    ∷ edits (writes_name "Saga")
    ∷ acts create
    ∷ serves 0
    ∷ serves 0
    ∷ delivers 0
    ∷ delivers 0
    ∷ delivers 0
    ∷ serves 0
    ∷ delivers 0
    ∷ []

abbrev keep : String → String
keep t = t

series_list_page-Displays_example :
    let w = happen_all (series_list_page keep) server events (opened mounted []) in
    (w.page.is_loading ≡ false)
    × (w.page.is_creating ≡ false)
    × ((is_some w.page.error ≡ true) ⊎ Displays (series_list_page keep) server w)
unfolding series_list_page mounted opened happens happen_all
series_list_page-Displays_example =
    series_list_page-Displays keep server [] events refl
      (record { stays = refl; no_task = refl; no_answer = refl })

-- No error is left, and the series that was created is listed.
listed :
    let w = happen_all (series_list_page keep) server events (opened mounted []) in
    (w.page.error ≡ none) × (w.page.series ≡ record { id = "Saga"; name = "Saga" } ∷ [])
unfolding series_list_page mounted opened happens happen_all
listed = (refl, refl)
