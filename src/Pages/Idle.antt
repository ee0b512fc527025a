-- ===== src/Pages/Idle.antt =====
-- When a page of Pages shows that it loads, or that a request runs.
use novel_platform.Common.{
  ℕ, String, Bool, true, false, Option, none, some, List, [], ◌∷◌, get_elem?, erase_at, ◌≡◌, refl,
  sym, ◌∙◌, inl, inr, arith, Bool-cases, ap, subst,
}
use novel_platform.Pages.InFlight.{
  origin, is_load, runs, InFlight, asked, asking, taken, Answers, serve-Answers, lose-Answers,
  Answers-InFlight, unset,
}
use novel_platform.Pages.Laws.{FlagLaws, Given}
use novel_platform.Pages.{
  Page, Server, Task, loads, requests, Reply, shows, load_refused, accepts, refuses, World, Event,
  edits, acts, loads_again, serves, loses, delivers, opened, end_load, go_on, take_reply, begun,
  served, lost, delivered, happens, happen_all,
}

module _ {V A E R B P F S : Type 0} (hooks : Page V A E R B P F) (server : Server S V R B) where
  -- As long as the reader stays, what shows as loading or as busy is in flight.
  record Awaited (w : World V R B P S) : Type 0 where
    loading : w.left ≡ false → hooks.is_loading w.page ≡ true → InFlight is_load w
    busy : (f : F) → w.left ≡ false → hooks.busy f w.page ≡ true → InFlight (runs (hooks.holds f)) w

  Answers-Awaited :
      (t : Task R) (i : ℕ) (w w' : World V R B P S)
      → get_elem? w.waiting i ≡ some t
      → Answers server t i w w'
      → Awaited w
      → Awaited w'
  Answers-Awaited t i w w' e a h = record {
    loading = λ l b.
        Answers-InFlight server is_load t i w w' e a
          (h.loading (sym a.left ∙ l) (sym (ap hooks.is_loading a.page) ∙ b));
    busy = λ f l b.
        Answers-InFlight server (runs (hooks.holds f)) t i w w' e a
          (h.busy f (sym a.left ∙ l) (sym (ap (hooks.busy f) a.page) ∙ b));
  }

  served-Awaited :
      (o : Option (Task R)) (i : ℕ) (w : World V R B P S)
      → get_elem? w.waiting i ≡ o
      → Awaited w
      → Awaited (served server o i w)
  unfolding served
  served-Awaited none i w e h = h
  served-Awaited (some t) i w e h = Answers-Awaited t i w _ e (serve-Answers server t i w) h

  lost-Awaited :
      (o : Option (Task R)) (i : ℕ) (b : Bool) (m : String) (w : World V R B P S)
      → get_elem? w.waiting i ≡ o
      → Awaited w
      → Awaited (lost server o i b m w)
  unfolding lost
  lost-Awaited none i b m w e h = h
  lost-Awaited (some t) i b m w e h = Answers-Awaited t i w _ e (lose-Answers server t i b m w) h

  module _ (laws : FlagLaws hooks) where
    end_load-Awaited :
        (o : Option R) (i : ℕ) (x : Reply V R B) (p : P) (w : World V R B P S)
        → get_elem? w.answers i ≡ some x
        → origin x ≡ loads o
        → hooks.is_loading p ≡ false
        → ((f : F) → hooks.busy f p ≡ hooks.busy f w.page)
        → Awaited w
        → Awaited (record w { answers = erase_at w.answers i; page = end_load hooks o p })
    unfolding end_load InFlight
    end_load-Awaited none i x p w e k n same h = record {
      loading = λ l b. absurd (ground (arith, n));
      busy = λ f l b. taken _ i x w e (ap (runs (hooks.holds f)) k) (h.busy f l (sym (same f) ∙ b));
    }
    end_load-Awaited (some r) i x p w e k n same h = record {
      loading = λ l b. absurd (ground (arith, laws.is_loading-ended r p, n));
      busy = λ f l b.
          let c = laws.busy-ended f r p b in
          taken _ i x w e (ap (runs (hooks.holds f)) k ∙ c.1) (h.busy f l (sym (same f) ∙ c.0));
    }

    go_on-Awaited :
        (b : Bool) (r : R) (c : B) (i : ℕ) (w : World V R B P S)
        → get_elem? w.answers i ≡ some (accepts r c)
        → Awaited w
        → Awaited (go_on hooks b r c (record w { answers = erase_at w.answers i }))
    unfolding go_on InFlight
    go_on-Awaited true r c i w e h = record {
      loading = λ l b. absurd (ground arith);
      busy = λ f l b. absurd (ground arith);
    }
    go_on-Awaited false r c i w e h = record {
      loading =
          λ l b. asking is_load (loads (some r)) (record w { answers = erase_at w.answers i }) refl;
      busy = λ f l b.
          let w' = record w { answers = erase_at w.answers i } in
          let awaited = h.busy f l (
            sym
              (laws.busy-start_load f (hooks.accepted r c w.page) ∙ laws.busy-accepted f r c w.page)
            ∙ b) in
          elim (Bool-cases (hooks.holds f r)) [
            | inl k ↦ asking (runs (hooks.holds f)) (loads (some r)) w' k
            | inr k ↦
                asked (runs (hooks.holds f)) (loads (some r)) w'
                  (taken (runs (hooks.holds f)) i (accepts r c) w e k awaited)
          ];
    }

    take_reply-Awaited :
        (x : Reply V R B) (i : ℕ) (w : World V R B P S)
        → get_elem? w.answers i ≡ some x
        → Awaited w
        → Awaited (take_reply hooks x (record w { answers = erase_at w.answers i }))
    unfolding take_reply InFlight
    take_reply-Awaited (shows o v) i w e h =
        end_load-Awaited o i (shows o v) (hooks.loaded v w.page) w e refl
          (laws.is_loading-loaded v w.page) (λ f. laws.busy-loaded f v w.page) h
    take_reply-Awaited (load_refused o m) i w e h =
        end_load-Awaited o i (load_refused o m) (hooks.load_failed m w.page) w e refl
          (laws.is_loading-load_failed m w.page) (λ f. laws.busy-load_failed f m w.page) h
    take_reply-Awaited (accepts r b) i w e h = go_on-Awaited (hooks.leaves r) r b i w e h
    take_reply-Awaited (refuses r m) i w e h = record {
      loading = λ l b.
          taken is_load i (refuses r m) w e refl
            (h.loading l (sym (laws.is_loading-failed r m w.page) ∙ b));
      busy = λ f l b.
          let c = laws.busy-failed f r m w.page b in
          taken (runs (hooks.holds f)) i (refuses r m) w e c.1 (h.busy f l c.0);
    }

    delivered-Awaited :
        (o : Option (Reply V R B)) (i : ℕ) (w : World V R B P S)
        → get_elem? w.answers i ≡ o
        → Awaited w
        → Awaited (delivered hooks o i w)
    unfolding delivered
    delivered-Awaited none i w e h = h
    delivered-Awaited (some x) i w e h = take_reply-Awaited x i w e h

    begun-Awaited :
        (a : A) (o : Option (R × P)) (w : World V R B P S)
        → hooks.begin a w.page ≡ o
        → Awaited w
        → Awaited (begun o w)
    unfolding begun InFlight
    begun-Awaited a none w e h = h
    begun-Awaited a (some (r, q)) w e h = record {
      loading = λ l b.
          asked is_load (requests r) w
            (h.loading l (sym (subst (Given _) e (laws.is_loading-begin a w.page)) ∙ b));
      busy = λ f l b. elim (subst (Given _) e (laws.busy-begin f a w.page) b) [
        | inl k ↦ asked (runs (hooks.holds f)) (requests r) w (h.busy f l k)
        | inr k ↦ asking (runs (hooks.holds f)) (requests r) w k
      ];
    }

    happens-Awaited :
        (e : Event A E) (w : World V R B P S) → Awaited w → Awaited (happens hooks server e w)
    unfolding happens InFlight
    happens-Awaited (edits e) w h = record {
      loading = λ l b. h.loading l (sym (laws.is_loading-edit e w.page) ∙ b);
      busy = λ f l b. h.busy f l (sym (laws.busy-edit f e w.page) ∙ b);
    }
    happens-Awaited (acts a) w h = begun-Awaited a (hooks.begin a w.page) w refl h
    happens-Awaited loads_again w h = record {
      loading = λ l b. asking is_load (loads none) w refl;
      busy = λ f l b.
          asked (runs (hooks.holds f)) (loads none) w
            (h.busy f l (sym (laws.busy-start_load f w.page) ∙ b));
    }
    happens-Awaited (serves i) w h = served-Awaited (get_elem? w.waiting i) i w refl h
    happens-Awaited (loses i b m) w h = lost-Awaited (get_elem? w.waiting i) i b m w refl h
    happens-Awaited (delivers i) w h = delivered-Awaited (get_elem? w.answers i) i w refl h

    all-Awaited :
        (es : List (Event A E)) (w : World V R B P S)
        → Awaited w
        → Awaited (happen_all hooks server es w)
    unfolding happen_all
    all-Awaited [] w h = h
    all-Awaited (e ∷ es) w h = all-Awaited es (happens hooks server e w) (happens-Awaited e w h)

    -- Once nothing is awaited, a page that the reader has not left shows no load and no request as running,
    -- in whichever order the answers arrived.
    pub happen_all_idle :
        (p : P) (s : S) (es : List (Event A E))
        → ((f : F) → hooks.busy f p ≡ false)
        → let w = happen_all hooks server es (opened p s) in
          w.left ≡ false
          → w.waiting ≡ []
          → w.answers ≡ []
          → (hooks.is_loading w.page ≡ false) × ((f : F) → hooks.busy f w.page ≡ false)
    unfolding opened InFlight
    happen_all_idle p s es n l a b =
        let w = happen_all hooks server es (opened p s) in
        let h =
          all-Awaited es (opened p s)
            (record { loading = λ l b. inl refl; busy = λ f l b. absurd (ground (arith, n f)) }) in
        (
          unset is_load w _ a b (h.loading l),
          λ f. unset (runs (hooks.holds f)) w _ a b (h.busy f l),
        )
