-- ===== src/Pages/InFlight.antt =====
-- The tasks of a page of Pages that are awaited, or whose answers are on their way.
use novel_platform.Common.{
  ℕ, String, Bool, true, false, Option, none, some, [], ◌∷◌, ◌++◌, any, any-last, any-more,
  any-erase_at, get_elem?, erase_at, ◌≡◌, refl, sym, ◌∙◌, ◌⊎◌, inl, inr, arith, Bool-cases, ap,
}
use novel_platform.Pages.{
  Outcome, ok, refused, Server, Task, loads, requests, Reply, shows, load_refused, accepts, refuses,
  World, reply_to_load, answer, applied, serve, lose,
}

false-true : false ≡ true → ⊥
false-true e = ground (arith, e)

-- What the reply answers.
abbrev pub origin : {V R B : Type 0} → Reply V R B → Task R
origin (shows o v) = loads o
origin (load_refused o m) = loads o
origin (accepts r b) = requests r
origin (refuses r m) = requests r

abbrev pub is_load : {R : Type 0} → Task R → Bool
is_load (loads o) = true
is_load (requests r) = false

-- The handler that awaits the task is that of a request which satisfies the test.
abbrev pub runs : {R : Type 0} → (R → Bool) → Task R → Bool
runs f (loads none) = false
runs f (loads (some r)) = f r
runs f (requests r) = f r

module _ {V R B P S : Type 0} (g : Task R → Bool) where
  -- A task that satisfies the test is awaited, or its answer is on its way.
  unfoldable pub InFlight : World V R B P S → Type 0
  InFlight w = (any g w.waiting ≡ true) ⊎ (any (λ x. g (origin x)) w.answers ≡ true)

  pub asked :
      (t : Task R) (w : World V R B P S)
      → InFlight w
      → InFlight (record w { waiting = w.waiting ++ t ∷ [] })
  unfolding InFlight
  asked t w (inl h) = inl (any-more g w.waiting t h)
  asked t w (inr h) = inr h

  pub asking :
      (t : Task R) (w : World V R B P S)
      → g t ≡ true
      → InFlight (record w { waiting = w.waiting ++ t ∷ [] })
  unfolding InFlight
  asking t w h = inl (any-last g w.waiting t h)

  pub moved :
      (t : Task R) (i : ℕ) (x : Reply V R B) (w : World V R B P S)
      → get_elem? w.waiting i ≡ some t
      → origin x ≡ t
      → InFlight w
      → InFlight (record w { waiting = erase_at w.waiting i; answers = w.answers ++ x ∷ [] })
  unfolding InFlight
  moved t i x w e o h = elim (Bool-cases (g t)) [
    | inl k ↦ inr (any-last _ w.answers x (ap g o ∙ k))
    | inr k ↦ elim h [
      | inl l ↦ inl (any-erase_at g w.waiting i t e k l)
      | inr l ↦ inr (any-more _ w.answers x l)
    ]
  ]

  pub taken :
      (i : ℕ) (x : Reply V R B) (w : World V R B P S)
      → get_elem? w.answers i ≡ some x
      → g (origin x) ≡ false
      → InFlight w
      → InFlight (record w { answers = erase_at w.answers i })
  unfolding InFlight
  taken i x w e k (inl l) = inl l
  taken i x w e k (inr l) = inr (any-erase_at _ w.answers i x e k l)

nothing-InFlight :
    {V R B P S : Type 0} (g : Task R → Bool) (w : World V R B P S)
    → w.waiting ≡ []
    → w.answers ≡ []
    → InFlight g w
    → ⊥
unfolding InFlight
nothing-InFlight g w a b (inl h) = false-true (sym (ap (any g) a) ∙ h)
nothing-InFlight g w a b (inr h) = false-true (sym (ap (any (λ x. g (origin x))) b) ∙ h)

-- A flag that would be in flight is not set.
pub unset :
    {V R B P S : Type 0} (g : Task R → Bool) (w : World V R B P S) (flag : Bool)
    → w.waiting ≡ []
    → w.answers ≡ []
    → (flag ≡ true → InFlight g w)
    → flag ≡ false
unset g w true a b h = absurd (nothing-InFlight g w a b (h refl))
unset g w false a b h = refl

origin-reply_to_load :
    {V R : Type 0} (B : Type 0) (o : Option R) (a : Outcome V)
    → origin {B = B} (reply_to_load o a) ≡ loads o
unfolding reply_to_load
origin-reply_to_load B o (ok v) = refl
origin-reply_to_load B o (refused m) = refl

module _ {V R B P S : Type 0} (server : Server S V R B) where
  -- `w'` is `w` but for the store, and for the task at `i`, which is answered.
  pub record Answers (t : Task R) (i : ℕ) (w w' : World V R B P S) : Type 0 where
    pub reply : Reply V R B
    pub same_origin : origin reply ≡ t
    pub page : w'.page ≡ w.page
    pub left : w'.left ≡ w.left
    pub waiting : w'.waiting ≡ erase_at w.waiting i
    pub answers : w'.answers ≡ w.answers ++ reply ∷ []

  applied-Answers :
      (r : R) (a : Outcome (S × B)) (i : ℕ) (w : World V R B P S)
      → Answers (requests r) i w (applied r a (record w { waiting = erase_at w.waiting i }))
  unfolding applied answer
  applied-Answers r (ok (s, b)) i w = record {
    reply = accepts r b;
    same_origin = refl;
    page = refl;
    left = refl;
    waiting = refl;
    answers = refl;
  }
  applied-Answers r (refused m) i w = record {
    reply = refuses r m;
    same_origin = refl;
    page = refl;
    left = refl;
    waiting = refl;
    answers = refl;
  }

  pub serve-Answers :
      (t : Task R) (i : ℕ) (w : World V R B P S)
      → Answers t i w (serve server t (record w { waiting = erase_at w.waiting i }))
  unfolding serve answer
  serve-Answers (loads o) i w = record {
    reply = reply_to_load o (server.read w.store);
    same_origin = origin-reply_to_load B o (server.read w.store);
    page = refl;
    left = refl;
    waiting = refl;
    answers = refl;
  }
  serve-Answers (requests r) i w = applied-Answers r (server.apply r w.store) i w

  pub lose-Answers :
      (t : Task R) (i : ℕ) (b : Bool) (m : String) (w : World V R B P S)
      → Answers t i w (lose server t b m (record w { waiting = erase_at w.waiting i }))
  unfolding lose answer
  lose-Answers (loads o) i b m w = record {
    reply = load_refused o m;
    same_origin = refl;
    page = refl;
    left = refl;
    waiting = refl;
    answers = refl;
  }
  lose-Answers (requests r) i false m w = record {
    reply = refuses r m;
    same_origin = refl;
    page = refl;
    left = refl;
    waiting = refl;
    answers = refl;
  }
  lose-Answers (requests r) i true m w = record {
    reply = refuses r m;
    same_origin = refl;
    page = refl;
    left = refl;
    waiting = refl;
    answers = refl;
  }

  pub Answers-InFlight :
      (g : Task R → Bool) (t : Task R) (i : ℕ) (w w' : World V R B P S)
      → get_elem? w.waiting i ≡ some t
      → Answers t i w w'
      → InFlight g w
      → InFlight g w'
  unfolding InFlight
  Answers-InFlight g t i w w' e a h =
      rw (a.waiting, a.answers) (moved g t i a.reply w e a.same_origin h)
