-- ===== src/Pages/Settling.antt =====
-- Where a page of Pages ends up when the server answers and the reader only watches.
use Prim.Native.Nat.{zero, suc}
use novel_platform.Common.{
  true, false, is_some, List, [], ◌∷◌, ◌++◌, all, ◌≡◌, refl, ◌∙◌, ap, subst, ◌⊎◌, inl, inr, arith,
  Bool-cases,
}
use novel_platform.Pages.Current.{Displays, happen_all-Quiet}
use novel_platform.Pages.Drain.{only_answers, Drained, all-Drained}
use novel_platform.Pages.Fresh.{in_order}
use novel_platform.Pages.Idle.{happen_all_idle}
use novel_platform.Pages.Laws.{ShowsLaws, FlagLaws, none_of}
use novel_platform.Pages.{
  Page, Server, World, Event, edits, acts, loads_again, serves, loses, delivers, opened, happens,
  happen_all,
}

module _ {A E : Type 0} where
  answers_in_order : (e : Event A E) → only_answers e ≡ true → in_order e ≡ true
  answers_in_order (edits e) h = refl
  answers_in_order (acts a) h = refl
  answers_in_order loads_again h = refl
  answers_in_order (serves i) h = refl
  answers_in_order (loses i b m) h = refl
  answers_in_order (delivers zero) h = refl
  answers_in_order (delivers (suc i)) h = h

  all-in_order :
      (es ds : List (Event A E))
      → all in_order es ≡ true
      → all only_answers ds ≡ true
      → all in_order (es ++ ds) ≡ true
  all-in_order [] [] h k = refl
  all-in_order [] (d ∷ ds) h k =
      ground (arith, k, answers_in_order d, all-in_order [] ds h (ground (arith, k)))
  all-in_order (e ∷ es) ds h k = ground (arith, h, all-in_order es ds (ground (arith, h)) k)

module _ {V A E R B P F S : Type 0} (hooks : Page V A E R B P F) (server : Server S V R B) where
  happen_all-append :
      (es ds : List (Event A E)) (w : World V R B P S)
      → happen_all hooks server (es ++ ds) w
        ≡ happen_all hooks server ds (happen_all hooks server es w)
  unfolding happen_all
  happen_all-append [] ds w = refl
  happen_all-append (e ∷ es) ds w = happen_all-append es ds (happens hooks server e w)

  -- Nothing is awaited; the page has been left, or it shows nothing as running, and it tells an error or
  -- shows what the server holds.
  pub record Settled (w : World V R B P S) : Type 0 where
    pub no_task : w.waiting ≡ []
    pub no_answer : w.answers ≡ []
    pub outcome :
        (w.left ≡ true)
        ⊎ ((hooks.is_loading w.page ≡ false)
            × ((f : F) → hooks.busy f w.page ≡ false)
            × ((is_some (hooks.error w.page) ≡ true) ⊎ Displays hooks server w))

  module _ (shows_laws : ShowsLaws hooks) (flag_laws : FlagLaws hooks) (p : P) (s : S) where
    settled :
        (es : List (Event A E))
        → ((f : F) → hooks.busy f p ≡ false)
        → all in_order es ≡ true
        → let w = happen_all hooks server es (opened p s) in
          w.waiting ≡ [] → w.answers ≡ [] → Settled w
    settled es n o a b =
        let w = happen_all hooks server es (opened p s) in
        record {
          no_task = a;
          no_answer = b;
          outcome = elim (Bool-cases w.left) [
            | inl gone ↦ inl gone
            | inr stays ↦
                let c = happen_all_idle hooks server flag_laws p s es n stays a b in
                inr (
                  c.0,
                  c.1,
                  elim (Bool-cases (is_some (hooks.error w.page))) [
                    | inl told ↦ inl told
                    | inr quiet ↦ inr (
                        happen_all-Quiet hooks server shows_laws p s es o (record {
                          stays = stays;
                          no_task = a;
                          no_answer = b;
                          no_error = none_of quiet;
                        }))
                  ],
                )
          ];
        }

    -- Whatever has happened, if the answers have arrived in the order in which the server gave them: once the
    -- server goes on to answer, and the page to take its answers in that order, the page settles.
    pub happen_all_settles :
        (es : List (Event A E))
        → ((f : F) → hooks.busy f p ≡ false)
        → all in_order es ≡ true
        → (ds : List (Event A E)) × (all only_answers ds ≡ true)
          × Settled (happen_all hooks server ds (happen_all hooks server es (opened p s)))
    unfolding Drained
    happen_all_settles es n o =
        let d = all-Drained hooks server (happen_all hooks server es (opened p s)) in
        let same = happen_all-append es d.0 (opened p s) in
        (
          d.0,
          d.1,
          subst Settled same (
              settled (es ++ d.0) n (all-in_order es d.0 o d.1) (ap (λ w. w.waiting) same ∙ d.2)
                (ap (λ w. w.answers) same ∙ d.3)),
        )
