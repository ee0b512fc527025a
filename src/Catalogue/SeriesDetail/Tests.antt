-- ===== src/Catalogue/SeriesDetail/Tests.antt =====
-- The page of apps/web/src/pages/SeriesDetailPage.tsx with a server that holds one series and two books.
use novel_platform.Common.{
  String, true, Option, none, some, List, [], ◌∷◌, ◌++◌, ◌≡◌, refl, map, if◌then◌else◌,
}
use novel_platform.Common.Text.{str_eq}
use novel_platform.Pages.{
  Outcome, ok, refused, Server, Event, edits, acts, serves, loses, delivers, opened, happens,
  happen_all,
}
use novel_platform.Catalogue.SeriesDetail.{
  Book, SeriesDetail, View, Edit, writes_description, picks_book, Action, save, add_book,
  remove_book, Request, patches, adds, removes, deletes, mounted, series_page, read_series,
  available_books,
}

abbrev saga : SeriesDetail
saga = record { id = "x"; name = "Saga"; description = none; books = "b1" ∷ [] }

abbrev library : List Book
library = record { id = "b1"; series_id = some "x" } ∷ record { id = "b2"; series_id = none } ∷ []

abbrev place : String → Option String → List Book → List Book
place id o [] = []
place id o (b ∷ bs) =
    if str_eq id b.id then record b { series_id = o } ∷ place id o bs else b ∷ place id o bs

abbrev without : String → List String → List String
without id [] = []
without id (b ∷ bs) = if str_eq id b then without id bs else b ∷ without id bs

abbrev apply : Request → View → Outcome (View × Unit)
apply (patches name description) (s, bs) =
    ok ((record s { name = name; description = description }, bs), _)
apply (adds id) (s, bs) = ok ((record s { books = s.books ++ id ∷ [] }, place id (some s.id) bs), _)
apply (removes id) (s, bs) = ok ((record s { books = without id s.books }, place id none bs), _)
apply deletes (s, bs) = refused "deleted"

abbrev server : Server View View Request Unit
server = record { read = read_series true (λ s. ok s.0) (λ s. ok s.1); apply = apply }

-- A book is removed while another is added; the series is saved, but the answer is lost, and the reader
-- loads again.
abbrev events : List (Event Action Edit)
events =
    serves 0
    ∷ delivers 0
    ∷ edits (picks_book "b2")
    ∷ acts add_book
    ∷ acts (remove_book "b1")
    ∷ serves 0
    ∷ serves 0
    ∷ delivers 0
    ∷ delivers 0
    ∷ serves 0
    ∷ serves 0
    ∷ delivers 0
    ∷ delivers 0
    ∷ edits (writes_description "Two parts")
    ∷ acts save
    ∷ loses 0 true "offline"
    ∷ delivers 0
    ∷ Event.loads_again
    ∷ serves 0
    ∷ delivers 0
    ∷ []

abbrev keep : String → String
keep t = t

-- The book removed can be picked.
picked :
    let w = happen_all (series_page keep) server events (opened mounted (saga, library)) in
    map (λ b. b.id) (available_books w.page.library) ≡ "b1" ∷ []
unfolding series_page mounted opened happens happen_all read_series available_books
picked = refl

-- The first of two changes is loaded before the second is made, and its load arrives last: the page awaits
-- nothing and tells no error, and lists the book that has been removed.
abbrev crossing : List (Event Action Edit)
crossing =
    serves 0
    ∷ delivers 0
    ∷ edits (picks_book "b2")
    ∷ acts add_book
    ∷ acts (remove_book "b1")
    ∷ serves 0
    ∷ delivers 0
    ∷ serves 1
    ∷ serves 0
    ∷ delivers 1
    ∷ serves 0
    ∷ delivers 1
    ∷ delivers 0
    ∷ []

crossed :
    let w = happen_all (series_page keep) server crossing (opened mounted (saga, library)) in
    (w.waiting ≡ [])
    × (w.answers ≡ [])
    × (w.page.error ≡ none)
    × (w.store.0.books ≡ "b2" ∷ [])
    × (w.page.library ≡ place "b2" (some "x") library)
unfolding series_page mounted opened happens happen_all read_series
crossed = (refl, refl, refl, refl, refl)
