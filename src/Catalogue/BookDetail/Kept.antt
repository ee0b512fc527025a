-- ===== src/Catalogue/BookDetail/Kept.antt =====
-- What the form and the deletion of apps/web/src/pages/BookDetailPage.tsx lead to.
use novel_platform.Common.{
  String, true, false, Option, none, some, is_some, List, all, ◌≡◌, refl, ◌⊎◌, inl, inr, arith,
}
use novel_platform.Pages.{Server, Event, opened, happen_all}
use novel_platform.Pages.Drain.{only_answers}
use novel_platform.Pages.Fresh.{in_order}
use novel_platform.Pages.Laws.{ShowsLaws, FlagLaws}
use novel_platform.Pages.Settling.{Settled, happen_all_settles}
use novel_platform.Catalogue.BookDetail.{
  View, BookDetailPage, Edit, writes_title, writes_author, writes_description, Action, save_book,
  delete_book, Request, patches, deletes, mounted, edit, start_load, loaded, load_failed, begin,
  ended, failed, saves, shown, told, book_page,
}

-- The parts of the page that neither a field nor the end of a handler changes.
record Same (p q : BookDetailPage) : Type 0 where
  same_shown : shown p ≡ shown q
  same_error : told p.error p.action_error ≡ told q.error q.action_error
  same_loading : p.is_loading ≡ q.is_loading

edit-Same : (e : Edit) (p : BookDetailPage) → Same (edit e p) p
unfolding edit shown
edit-Same (writes_title t) p = record { same_shown = refl; same_error = refl; same_loading = refl }
edit-Same (writes_author t) p = record { same_shown = refl; same_error = refl; same_loading = refl }
edit-Same (writes_description t) p = record {
  same_shown = refl;
  same_error = refl;
  same_loading = refl;
}

ended-Same : (r : Request) (p : BookDetailPage) → Same (ended r p) p
unfolding ended shown
ended-Same (patches t a d) p = record { same_shown = refl; same_error = refl; same_loading = refl }
ended-Same deletes p = record { same_shown = refl; same_error = refl; same_loading = refl }

edit_saving : (e : Edit) (p : BookDetailPage) → (edit e p).is_saving ≡ p.is_saving
unfolding edit
edit_saving (writes_title t) p = refl
edit_saving (writes_author t) p = refl
edit_saving (writes_description t) p = refl

ended_saving :
    (r : Request) (p : BookDetailPage)
    → (ended r p).is_saving ≡ true
    → (p.is_saving ≡ true) × (saves r ≡ false)
unfolding ended saves
ended_saving (patches t a d) p h = absurd (ground arith)
ended_saving deletes p h = (h, refl)

told-some : (o : Option String) (m : String) → is_some (told o (some m)) ≡ true
unfolding told
told-some none m = refl
told-some (some n) m = refl

module _ (trim : String → String) where
  begin_loading : (a : Action) (p : BookDetailPage) → (begin trim a p).1.is_loading ≡ p.is_loading
  unfolding begin
  begin_loading save_book p = refl
  begin_loading delete_book p = refl

  begin_saving :
      (a : Action) (p : BookDetailPage)
      → (begin trim a p).1.is_saving ≡ true
      → (p.is_saving ≡ true) ⊎ (saves (begin trim a p).0 ≡ true)
  unfolding begin saves
  begin_saving save_book p h = inr refl
  begin_saving delete_book p h = inl h

  shows_laws : ShowsLaws (book_page trim)
  unfolding book_page loaded load_failed failed shown told
  shows_laws = record {
    shown-edit = λ e p. (edit-Same e p).same_shown;
    error-edit = λ e p. (edit-Same e p).same_error;
    shown-loaded = λ v p. refl;
    error-load_failed = λ m p. refl;
    error-failed = λ r m p.
        rw (ended-Same r (record p { action_error = some m })).same_error (told-some p.error m);
    shown-ended = λ r p. (ended-Same r p).same_shown;
    error-ended = λ r p. (ended-Same r p).same_error;
  }

  flag_laws : FlagLaws (book_page trim)
  unfolding book_page start_load loaded load_failed failed
  flag_laws = record {
    is_loading-edit = λ e p. (edit-Same e p).same_loading;
    is_loading-begin = begin_loading;
    is_loading-loaded = λ v p. refl;
    is_loading-load_failed = λ m p. refl;
    is_loading-failed = λ r m p. (ended-Same r (record p { action_error = some m })).same_loading;
    is_loading-ended = λ r p. (ended-Same r p).same_loading;
    busy-edit = λ f e p. edit_saving e p;
    busy-begin = λ f a p. begin_saving a p;
    busy-start_load = λ f p. refl;
    busy-loaded = λ f v p. refl;
    busy-load_failed = λ f m p. refl;
    busy-accepted = λ f r b p. refl;
    busy-failed = λ f r m p h. ended_saving r (record p { action_error = some m }) h;
    busy-ended = λ f r p h. ended_saving r p h;
  }

  -- If the two requests of a load are answered at one moment: whatever has been written, saved or deleted,
  -- if the answers have arrived in the order in which the server gave them and only this form and deletion
  -- change the book: once the server goes on to answer, and the page to take its answers in that order,
  -- nothing is awaited, and the page has been left, or it shows neither that it loads nor that it saves,
  -- and tells an error or shows the book and the preference as the server reads them.
  book_page_settles :
      {S : Type 0} (server : Server S View Request Unit) (s : S) (es : List (Event Action Edit))
      → all in_order es ≡ true
      → (ds : List (Event Action Edit)) × (all only_answers ds ≡ true)
        × Settled (book_page trim) server (
            happen_all
              (book_page trim)
              server
              ds
              (happen_all (book_page trim) server es (opened mounted s)))
  unfolding book_page mounted
  book_page_settles server s es h =
      happen_all_settles (book_page trim) server shows_laws flag_laws mounted s es (λ f. refl) h
