-- ===== src/Catalogue/SeriesDetail/Kept.antt =====
-- What apps/web/src/pages/SeriesDetailPage.tsx shows once its requests have been answered, where the two
-- requests of a load are answered together.
use novel_platform.Common.Text.{str_eq}
use novel_platform.Common.{
  String, true, false, some, List, all, ◌≡◌, refl, ◌⊎◌, inl, inr, arith, Bool-cases,
}
use novel_platform.Pages.{Server, Event, opened, happen_all}
use novel_platform.Pages.Current.{Quiet, Displays, happen_all-Quiet}
use novel_platform.Pages.Fresh.{in_order}
use novel_platform.Pages.Drain.{only_answers}
use novel_platform.Pages.Settling.{Settled, happen_all_settles}
use novel_platform.Pages.Laws.{ShowsLaws, FlagLaws, Given}
use novel_platform.Catalogue.SeriesDetail.{
  View, SeriesDetailPage, Edit, writes_name, writes_description, picks_book, Action, save, add_book,
  delete_series, remove_book, Request, patches, adds, removes, deletes, mounted, edit, start_load,
  loaded, load_failed, begin, accepted, ended, failed, saves, shown, series_page,
}

-- The parts of the page that neither a field nor the end of a handler changes.
record Same (p q : SeriesDetailPage) : Type 0 where
  same_shown : shown p ≡ shown q
  same_error : p.error ≡ q.error
  same_loading : p.is_loading ≡ q.is_loading

edit-Same : (e : Edit) (p : SeriesDetailPage) → Same (edit e p) p
unfolding edit shown
edit-Same (writes_name t) p = record { same_shown = refl; same_error = refl; same_loading = refl }
edit-Same (writes_description t) p = record {
  same_shown = refl;
  same_error = refl;
  same_loading = refl;
}
edit-Same (picks_book t) p = record { same_shown = refl; same_error = refl; same_loading = refl }

ended-Same : (r : Request) (p : SeriesDetailPage) → Same (ended r p) p
unfolding ended shown
ended-Same (patches n d) p = record { same_shown = refl; same_error = refl; same_loading = refl }
ended-Same (adds id) p = record { same_shown = refl; same_error = refl; same_loading = refl }
ended-Same (removes id) p = record { same_shown = refl; same_error = refl; same_loading = refl }
ended-Same deletes p = record { same_shown = refl; same_error = refl; same_loading = refl }

edit_saving : (e : Edit) (p : SeriesDetailPage) → (edit e p).is_saving ≡ p.is_saving
unfolding edit
edit_saving (writes_name t) p = refl
edit_saving (writes_description t) p = refl
edit_saving (picks_book t) p = refl

accepted_saving : (r : Request) (p : SeriesDetailPage) → (accepted r p).is_saving ≡ p.is_saving
unfolding accepted
accepted_saving (patches n d) p = refl
accepted_saving (adds id) p = refl
accepted_saving (removes id) p = refl
accepted_saving deletes p = refl

ended_saving :
    (r : Request) (p : SeriesDetailPage)
    → (ended r p).is_saving ≡ true
    → (p.is_saving ≡ true) × (saves r ≡ false)
unfolding ended saves
ended_saving (patches n d) p h = absurd (ground arith)
ended_saving (adds id) p h = (h, refl)
ended_saving (removes id) p h = (h, refl)
ended_saving deletes p h = (h, refl)

module _ (trim : String → String) where
  begin_loading :
      (a : Action) (p : SeriesDetailPage)
      → Given (λ r q. q.is_loading ≡ p.is_loading) (begin trim a p)
  unfolding begin
  begin_loading save p = refl
  begin_loading add_book p = elim (Bool-cases (str_eq p.book_id "")) [
    | inl e ↦ rw e _
    | inr e ↦ rw e refl
  ]
  begin_loading (remove_book id) p = refl
  begin_loading delete_series p = refl

  begin_saving :
      (a : Action) (p : SeriesDetailPage)
      → Given (λ r q. q.is_saving ≡ true → (p.is_saving ≡ true) ⊎ (saves r ≡ true)) (begin trim a p)
  unfolding begin saves
  begin_saving save p = λ h. inr refl
  begin_saving add_book p = elim (Bool-cases (str_eq p.book_id "")) [
    | inl e ↦ rw e _
    | inr e ↦ rw e (λ h. inl h)
  ]
  begin_saving (remove_book id) p = λ h. inl h
  begin_saving delete_series p = λ h. inl h

  shows_laws : ShowsLaws (series_page trim)
  unfolding series_page loaded load_failed failed shown
  shows_laws = record {
    shown-edit = λ e p. (edit-Same e p).same_shown;
    error-edit = λ e p. (edit-Same e p).same_error;
    shown-loaded = λ v p. refl;
    error-load_failed = λ m p. refl;
    error-failed = λ r m p. rw (ended-Same r (record p { error = some m })).same_error refl;
    shown-ended = λ r p. (ended-Same r p).same_shown;
    error-ended = λ r p. (ended-Same r p).same_error;
  }

  flag_laws : FlagLaws (series_page trim)
  unfolding series_page start_load loaded load_failed failed
  flag_laws = record {
    is_loading-edit = λ e p. (edit-Same e p).same_loading;
    is_loading-begin = begin_loading;
    is_loading-loaded = λ v p. refl;
    is_loading-load_failed = λ m p. refl;
    is_loading-failed = λ r m p. (ended-Same r (record p { error = some m })).same_loading;
    is_loading-ended = λ r p. (ended-Same r p).same_loading;
    busy-edit = λ f e p. edit_saving e p;
    busy-begin = λ f a p. begin_saving a p;
    busy-start_load = λ f p. refl;
    busy-loaded = λ f v p. refl;
    busy-load_failed = λ f m p. refl;
    busy-accepted = λ f r b p. accepted_saving r p;
    busy-failed = λ f r m p h. ended_saving r (record p { error = some m }) h;
    busy-ended = λ f r p h. ended_saving r p h;
  }

  module _ {S : Type 0} (server : Server S View Request Unit) (s : S)
      (es : List (Event Action Edit)) where
    -- If the two requests of a load are answered at one moment: whatever is written, saved, added or
    -- removed, whichever requests overlap, are refused or are lost: if the answers arrive in the order in
    -- which the server gave them, then once nothing is awaited and no error is told, the page shows the
    -- series and the library as the server reads them, unless the series has been deleted.
    series_page-Displays :
        all in_order es ≡ true
        → Quiet
            (series_page trim)
            server
            (happen_all (series_page trim) server es (opened mounted s))
        → Displays
            (series_page trim)
            server
            (happen_all (series_page trim) server es (opened mounted s))
    series_page-Displays h = happen_all-Quiet (series_page trim) server shows_laws mounted s es h

    -- If the two requests of a load are answered at one moment: whatever has happened, if the answers have
    -- arrived in the order in which the server gave them: once the server goes on to answer, and the page
    -- to take its answers in that order, nothing is awaited, and the page has been left, or it shows
    -- neither that it loads nor that it saves, and tells an error or shows the series and the library as
    -- the server reads them.
    series_page_settles :
        all in_order es ≡ true
        → (ds : List (Event Action Edit)) × (all only_answers ds ≡ true)
          × Settled (series_page trim) server (
              happen_all
                (series_page trim)
                server
                ds
                (happen_all (series_page trim) server es (opened mounted s)))
    unfolding series_page mounted
    series_page_settles h =
        happen_all_settles (series_page trim) server shows_laws flag_laws mounted s es (λ f. refl) h
