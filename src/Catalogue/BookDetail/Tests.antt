-- ===== src/Catalogue/BookDetail/Tests.antt =====
-- The page of apps/web/src/pages/BookDetailPage.tsx with a server that holds one book.
use novel_platform.Common.{String, false, none, some, List, [], ◌∷◌, ◌≡◌, refl}
use novel_platform.Pages.{
  Outcome, ok, refused, Server, Event, edits, acts, serves, delivers, opened, happens, happen_all,
}
use novel_platform.Catalogue.BookDetail.{
  BookDetail, View, Edit, writes_title, Action, save_book, delete_book, Request, patches, deletes,
  mounted, book_page, read_book,
}

abbrev moon : BookDetail
moon = record {
  id = "b1";
  canonical_title = "Moon";
  canonical_author = none;
  description = none;
  editions = "e1" ∷ [];
}

abbrev apply : Request → View → Outcome (View × Unit)
apply (patches title author description) (b, o) = ok (
  (record b { canonical_title = title; canonical_author = author; description = description }, o),
  _,
)
apply deletes v = refused "in use"

abbrev server : Server View View Request Unit
server = record { read = read_book (λ v. ok v.0) (λ v. ok v.1); apply = apply }

-- The title is saved, and a deletion is on its way that the server refuses.
abbrev begun : List (Event Action Edit)
begun =
    serves 0
    ∷ delivers 0
    ∷ edits (writes_title "Full moon")
    ∷ acts save_book
    ∷ serves 0
    ∷ acts delete_book
    ∷ []

abbrev keep : String → String
keep t = t

-- The title saved is shown, and the refusal is told.
told_then :
    let w =
      happen_all
        (book_page keep)
        server
        (delivers 0 ∷ serves 0 ∷ delivers 0 ∷ serves 0 ∷ delivers 0 ∷ [])
        (happen_all (book_page keep) server begun (opened mounted (moon, none))) in
    (w.page.title ≡ "Full moon")
    × (w.page.action_error ≡ some "in use")
    × (w.page.is_saving ≡ false)
    × (w.waiting ≡ [])
unfolding book_page mounted opened happens happen_all read_book
told_then = (refl, refl, refl, refl)
