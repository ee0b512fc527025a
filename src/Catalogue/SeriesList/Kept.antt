-- ===== src/Catalogue/SeriesList/Kept.antt =====
-- What apps/web/src/pages/SeriesPage.tsx shows once its requests have been answered.
use novel_platform.Common.{
  String, true, false, is_some, List, [], all, ◌≡◌, refl, ◌⊎◌, inl, inr, arith, Bool-cases,
}
use novel_platform.Pages.{Server, World, Event, opened, happen_all}
use novel_platform.Pages.Current.{Displays, happen_all-Quiet}
use novel_platform.Pages.Fresh.{in_order}
use novel_platform.Pages.Idle.{happen_all_idle}
use novel_platform.Pages.Laws.{ShowsLaws, FlagLaws, none_of}
use novel_platform.Catalogue.SeriesList.{
  Series, Edit, writes_name, writes_description, Action, Request, mounted, edit, start_load, loaded,
  load_failed, begin, accepted, ended, failed, series_list_page,
}

-- The page is still there, and awaits nothing.
pub record Over {V R B P S : Type 0} (w : World V R B P S) : Type 0 where
  pub stays : w.left ≡ false
  pub no_task : w.waiting ≡ []
  pub no_answer : w.answers ≡ []

module _ (trim : String → String) where
  shows_laws : ShowsLaws (series_list_page trim)
  unfolding series_list_page edit loaded load_failed failed ended
  shows_laws = record {
    shown-edit = elim [ writes_name t ↦ λ p. refl | writes_description t ↦ λ p. refl ];
    error-edit = elim [ writes_name t ↦ λ p. refl | writes_description t ↦ λ p. refl ];
    shown-loaded = λ v p. refl;
    error-load_failed = λ m p. refl;
    error-failed = λ r m p. refl;
    shown-ended = λ r p. refl;
    error-ended = λ r p. refl;
  }

  flag_laws : FlagLaws (series_list_page trim)
  unfolding series_list_page edit start_load loaded load_failed begin accepted failed ended
  flag_laws = record {
    is_loading-edit = elim [ writes_name t ↦ λ p. refl | writes_description t ↦ λ p. refl ];
    is_loading-begin = λ a p. refl;
    is_loading-loaded = λ v p. refl;
    is_loading-load_failed = λ m p. refl;
    is_loading-failed = λ r m p. refl;
    is_loading-ended = λ r p. refl;
    busy-edit = λ f. elim [ writes_name t ↦ λ p. refl | writes_description t ↦ λ p. refl ];
    busy-begin = λ f a p h. inr refl;
    busy-start_load = λ f p. refl;
    busy-loaded = λ f v p. refl;
    busy-load_failed = λ f m p. refl;
    busy-accepted = λ f r b p. refl;
    busy-failed = λ f r m p h. absurd (ground (arith, h));
    busy-ended = λ f r p h. absurd (ground (arith, h));
  }

  module _ {S : Type 0} (server : Server S (List Series) Request Unit) (s : S)
      (es : List (Event Action Edit)) where
    -- If only this page changes the series: whatever is written and created, whichever requests overlap,
    -- are refused or are lost, if the answers arrive in the order in which the server gave them, then once
    -- nothing is awaited, the page shows neither a load nor a creation as running, and it tells an error
    -- or lists the series that the server lists.
    pub series_list_page-Displays :
        all in_order es ≡ true
        → Over (happen_all (series_list_page trim) server es (opened mounted s))
        → let w = happen_all (series_list_page trim) server es (opened mounted s) in
          (w.page.is_loading ≡ false)
          × (w.page.is_creating ≡ false)
          × ((is_some w.page.error ≡ true) ⊎ Displays (series_list_page trim) server w)
    unfolding series_list_page mounted
    series_list_page-Displays h o =
        let hooks = series_list_page trim in
        let idle =
          happen_all_idle hooks server flag_laws mounted s es (λ f. refl) o.stays o.no_task
            o.no_answer in
        let w = happen_all hooks server es (opened mounted s) in
        (
          idle.0,
          idle.1 _,
          elim (Bool-cases (is_some w.page.error)) [
            | inl told ↦ inl told
            | inr quiet ↦ inr (
                happen_all-Quiet hooks server shows_laws mounted s es h (record {
                  stays = o.stays;
                  no_task = o.no_task;
                  no_answer = o.no_answer;
                  no_error = none_of quiet;
                }))
          ],
        )
