-- ===== src/Pages/Current.antt =====
-- What a page that loads shows when nothing is awaited, for any page in the shape of Pages.
use Prim.Native.Nat.{zero, suc}
use novel_platform.Common.{
  ℕ, Bool, true, false, Option, none, some, is_some, List, [], ◌∷◌, all, is_cons, is_cons-last,
  get_elem?, erase_at, String, ◌≡◌, refl, ◌∙◌, inl, inr, arith, ap, subst,
}
use novel_platform.Pages.Fresh.{in_order, speaks, Fresh, Fresh-last, Fresh-load}
use novel_platform.Pages.Laws.{ShowsLaws, shown-end_load, error-end_load}
use novel_platform.Pages.{
  Outcome, ok, refused, Page, Server, Task, loads, requests, Reply, shows, load_refused, accepts,
  refuses, World, Event, edits, acts, loads_again, serves, loses, delivers, opened, reply_to_load,
  answer, applied, serve, stored, lose, go_on, take_reply, begun, served, lost, delivered, happens,
  happen_all,
}

is_cons-nil : {A : Type 0} {xs : List A} → xs ≡ [] → is_cons xs ≡ false
is_cons-nil e = rw e refl

cut : {b : Bool} → b ≡ false → b ≡ true → ⊥
cut e h = ground (arith, e, h)

module _ {V A E R B P F S : Type 0} (hooks : Page V A E R B P F) (server : Server S V R B) where
  -- The page shows what the server answers to a load.
  pub record Displays (w : World V R B P S) : Type 0 where
    pub view : V
    pub is_read : server.read w.store ≡ ok view
    pub is_shown : hooks.shown w.page ≡ some view

  data Current (w : World V R B P S) : Type 0 where
    has_left : w.left ≡ true → Current w
    waits : is_cons w.waiting ≡ true → Current w
    answered : is_cons w.answers ≡ true → Current w
    tells : is_some (hooks.error w.page) ≡ true → Current w
    displays : Displays w → Current w

  record Held (w : World V R B P S) : Type 0 where
    fresh : Fresh server w.store w.answers
    current : Current w

  said :
      (s : S) (x : Reply V R B) (w : World V R B P S)
      → speaks x ≡ true
      → Held (answer x (record w { store = s }))
  unfolding answer
  said s x w h = record {
    fresh = Fresh-last server s w.answers x h;
    current = answered (is_cons-last w.answers x);
  }

  serve_load-Held :
      (o : Option R) (a : Outcome V) (w : World V R B P S)
      → server.read w.store ≡ a
      → Fresh server w.store w.answers
      → Held (answer (reply_to_load o a) w)
  unfolding answer reply_to_load
  serve_load-Held o (ok v) w e h = record {
    fresh = Fresh-load server w.store w.answers o v e h;
    current = answered (is_cons-last w.answers (shows o v));
  }
  serve_load-Held o (refused m) w e h = said w.store (load_refused o m) w refl

  applied-Held : (r : R) (a : Outcome (S × B)) (w : World V R B P S) → Held (applied r a w)
  unfolding applied
  applied-Held r (ok (s, b)) w = said s (accepts r b) w refl
  applied-Held r (refused m) w = said w.store (refuses r m) w refl

  serve-Held :
      (t : Task R) (w : World V R B P S) → Fresh server w.store w.answers → Held (serve server t w)
  unfolding serve
  serve-Held (loads o) w h = serve_load-Held o (server.read w.store) w refl h
  serve-Held (requests r) w h = applied-Held r (server.apply r w.store) w

  lose-Held :
      (t : Task R) (b : Bool) (m : String) (w : World V R B P S) → Held (lose server t b m w)
  unfolding lose
  lose-Held (loads o) b m w = said w.store (load_refused o m) w refl
  lose-Held (requests r) false m w = said w.store (refuses r m) w refl
  lose-Held (requests r) true m w =
      said (stored (server.apply r w.store) w.store) (refuses r m) w refl

  -- Nothing is awaited, no error is told, and the reader is still there.
  pub record Quiet (w : World V R B P S) : Type 0 where
    pub stays : w.left ≡ false
    pub no_task : w.waiting ≡ []
    pub no_answer : w.answers ≡ []
    pub no_error : hooks.error w.page ≡ none

  module _ (laws : ShowsLaws hooks) where
    -- A load that nothing follows shows the store.
    last-Current :
        (o : Option R) (v : V) (q : List (Reply V R B)) (w : World V R B P S)
        → Fresh server w.store (shows o v ∷ q)
        → w.answers ≡ q
        → Current (take_reply hooks (shows o v) w)
    unfolding Fresh take_reply
    last-Current o v [] w (inl e, h) a = displays (record {
      view = v;
      is_read = e;
      is_shown = shown-end_load hooks laws o _ ∙ laws.shown-loaded v w.page;
    })
    last-Current o v [] w (inr e, h) a = absurd (ground arith)
    last-Current o v (y ∷ q) w h a = answered (rw a refl)

    go_on-Current : (b : Bool) (r : R) (c : B) (w : World V R B P S) → Current (go_on hooks b r c w)
    unfolding go_on
    go_on-Current true r c w = has_left refl
    go_on-Current false r c w = waits (is_cons-last w.waiting (loads (some r)))

    go_on-Fresh :
        (b : Bool) (r : R) (c : B) (w : World V R B P S)
        → Fresh server w.store w.answers
        → Fresh server (go_on hooks b r c w).store (go_on hooks b r c w).answers
    unfolding go_on
    go_on-Fresh true r c w h = h
    go_on-Fresh false r c w h = h

    take_reply-Held :
        (x : Reply V R B) (w : World V R B P S)
        → Fresh server w.store (x ∷ w.answers)
        → Held (take_reply hooks x w)
    unfolding take_reply Fresh
    take_reply-Held (shows o v) w h = record {
      fresh = h.1;
      current = last-Current o v w.answers w h refl;
    }
    take_reply-Held (load_refused o m) w h = record {
      fresh = h;
      current = tells (
          rw (error-end_load hooks laws o (hooks.load_failed m w.page))
            (laws.error-load_failed m w.page));
    }
    take_reply-Held (accepts r b) w h = record {
      fresh = go_on-Fresh (hooks.leaves r) r b w h;
      current = go_on-Current (hooks.leaves r) r b w;
    }
    take_reply-Held (refuses r m) w h = record {
      fresh = h;
      current = tells (laws.error-failed r m w.page);
    }

    begun-Held : (o : Option (R × P)) (w : World V R B P S) → Held w → Held (begun o w)
    unfolding begun
    begun-Held none w h = h
    begun-Held (some (r, p)) w h = record {
      fresh = h.fresh;
      current = waits (is_cons-last w.waiting (requests r));
    }

    served-Held :
        (o : Option (Task R)) (i : ℕ) (w : World V R B P S) → Held w → Held (served server o i w)
    unfolding served
    served-Held none i w h = h
    served-Held (some t) i w h = serve-Held t _ h.fresh

    lost-Held :
        (o : Option (Task R)) (i : ℕ) (b : Bool) (m : String) (w : World V R B P S)
        → Held w
        → Held (lost server o i b m w)
    unfolding lost
    lost-Held none i b m w h = h
    lost-Held (some t) i b m w h = lose-Held t b m _

    delivered-Held :
        (q : List (Reply V R B)) (w : World V R B P S)
        → w.answers ≡ q
        → Held w
        → Held (delivered hooks (get_elem? q 0) 0 w)
    unfolding delivered
    delivered-Held [] w e h = h
    delivered-Held (x ∷ q) w e h =
        take_reply-Held x (record w { answers = erase_at w.answers 0 })
          (rw e (subst (Fresh server w.store) e h.fresh))

    edit-Current :
        (e : E) (w : World V R B P S) → Current w → Current (happens hooks server (edits e) w)
    unfolding happens
    edit-Current e w (has_left h) = has_left h
    edit-Current e w (waits h) = waits h
    edit-Current e w (answered h) = answered h
    edit-Current e w (tells h) = tells (rw (laws.error-edit e w.page) h)
    edit-Current e w (displays h) = displays (record {
      view = h.view;
      is_read = h.is_read;
      is_shown = laws.shown-edit e w.page ∙ h.is_shown;
    })

    happens-Held :
        (e : Event A E) (w : World V R B P S)
        → in_order e ≡ true
        → Held w
        → Held (happens hooks server e w)
    unfolding happens
    happens-Held (edits e) w o h = record { fresh = h.fresh; current = edit-Current e w h.current }
    happens-Held (acts a) w o h = begun-Held (hooks.begin a w.page) w h
    happens-Held loads_again w o h = record {
      fresh = h.fresh;
      current = waits (is_cons-last w.waiting (loads none));
    }
    happens-Held (serves i) w o h = served-Held (get_elem? w.waiting i) i w h
    happens-Held (loses i b m) w o h = lost-Held (get_elem? w.waiting i) i b m w h
    happens-Held (delivers zero) w o h = delivered-Held w.answers w refl h
    happens-Held (delivers (suc i)) w o h = absurd (ground arith)

    all-Held :
        (es : List (Event A E)) (w : World V R B P S)
        → all in_order es ≡ true
        → Held w
        → Held (happen_all hooks server es w)
    unfolding happen_all
    all-Held [] w o h = h
    all-Held (e ∷ es) w o h =
        all-Held es (happens hooks server e w) (ground (arith, o))
          (happens-Held e w (ground (arith, o)) h)

    Quiet-Current : (w : World V R B P S) → Current w → Quiet w → Displays w
    Quiet-Current w (has_left h) k = absurd (ground (arith, k.stays))
    Quiet-Current w (waits h) k = absurd (cut (is_cons-nil k.no_task) h)
    Quiet-Current w (answered h) k = absurd (cut (is_cons-nil k.no_answer) h)
    Quiet-Current w (tells h) k = absurd (cut (ap is_some k.no_error) h)
    Quiet-Current w (displays h) k = h

    -- Whatever the reader does, whichever requests overlap, are refused or are lost: if the answers arrive
    -- in the order in which the server gave them, a page that is quiet shows what the server holds.
    pub happen_all-Quiet :
        (p : P) (s : S) (es : List (Event A E))
        → all in_order es ≡ true
        → let w = happen_all hooks server es (opened p s) in Quiet w → Displays w
    unfolding opened Fresh
    happen_all-Quiet p s es o =
        Quiet-Current _
          (all-Held es (opened p s) o (record { fresh = _; current = waits refl })).current
