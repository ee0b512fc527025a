-- ===== src/Pages/Drain.antt =====
-- That the answers to what a page of Pages awaits come to an end.
use Prim.Native.Nat.{zero, suc}
use novel_platform.Common.{
  ℕ, ◌+◌, ◌≤◌, ◌<◌, Bool, true, false, some, List, [], ◌∷◌, ◌++◌, all, ◌≡◌, refl, subst, arith,
}
use novel_platform.Pages.InFlight.{origin, serve-Answers}
use novel_platform.Pages.{
  Page, Server, Task, loads, requests, Reply, shows, load_refused, accepts, refuses, World, Event,
  serves, delivers, go_on, take_reply, serve, served, delivered, happens, happen_all,
}

-- The server answers a request, or the page takes the first answer.
abbrev pub only_answers : {A E : Type 0} → Event A E → Bool
only_answers (serves i) = true
only_answers (delivers zero) = true
only_answers e = false

-- How many steps a task or an answer can still lead to.
abbrev task_steps : {R : Type 0} → Task R → ℕ
task_steps (loads o) = 2
task_steps (requests r) = 4

abbrev reply_steps : {V R B : Type 0} → Reply V R B → ℕ
reply_steps (accepts r b) = 3
reply_steps x = 1

abbrev sum : {X : Type 0} → (X → ℕ) → List X → ℕ
sum f [] = 0
sum f (x ∷ xs) = f x + sum f xs

sum-last : {X : Type 0} (f : X → ℕ) (xs : List X) (x : X) → sum f (xs ++ x ∷ []) ≡ sum f xs + f x
sum-last f [] x = omega arith
sum-last f (y ∷ xs) x = omega (arith, sum-last f xs x)

reply_less : {V R B : Type 0} (x : Reply V R B) → reply_steps x < task_steps (origin x)
reply_less (shows o v) = omega arith
reply_less (load_refused o m) = omega arith
reply_less (accepts r b) = omega arith
reply_less (refuses r m) = omega arith

module _ {V A E R B P F S : Type 0} (hooks : Page V A E R B P F) (server : Server S V R B) where
  steps : World V R B P S → ℕ
  steps w = sum task_steps w.waiting + sum reply_steps w.answers

  steps-go_on :
      (b : Bool) (r : R) (c : B) (w : World V R B P S) → steps (go_on hooks b r c w) ≤ steps w + 2
  unfolding steps go_on
  steps-go_on true r c w = omega arith
  steps-go_on false r c w = omega (arith, sum-last task_steps w.waiting (loads (some r)))

  steps-take_reply :
      (x : Reply V R B) (w : World V R B P S)
      → steps (take_reply hooks x w) < steps w + reply_steps x
  unfolding take_reply steps
  steps-take_reply (shows o v) w = omega arith
  steps-take_reply (load_refused o m) w = omega arith
  steps-take_reply (accepts r b) w = omega (arith, steps-go_on (hooks.leaves r) r b w)
  steps-take_reply (refuses r m) w = omega arith

  steps-delivers :
      (x : Reply V R B) (q : List (Reply V R B)) (w : World V R B P S)
      → w.answers ≡ x ∷ q
      → steps (happens hooks server (delivers 0) w) < steps w
  unfolding happens delivered steps
  steps-delivers x q w e = rw e (omega (arith, steps-take_reply x (record w { answers = q })))

  steps-serve :
      (t : Task R) (w : World V R B P S) → steps (serve server t w) < steps w + task_steps t
  unfolding steps
  steps-serve t w =
      let a = serve-Answers server t 0 (record w { waiting = t ∷ w.waiting }) in
      let less =
        subst (λ u. reply_steps a.reply < task_steps u) a.same_origin (reply_less a.reply) in
      rw (a.waiting, a.answers) (omega (arith, sum-last reply_steps w.answers a.reply, less))

  steps-serves :
      (t : Task R) (ts : List (Task R)) (w : World V R B P S)
      → w.waiting ≡ t ∷ ts
      → steps (happens hooks server (serves 0) w) < steps w
  unfolding happens served steps
  steps-serves t ts w e = rw e (omega (arith, steps-serve t (record w { waiting = ts })))

  -- Answers that leave nothing awaited.
  unfoldable pub Drained : World V R B P S → Type 0
  Drained w =
      (es : List (Event A E)) × (all only_answers es ≡ true)
      × ((happen_all hooks server es w).waiting ≡ [])
      × ((happen_all hooks server es w).answers ≡ [])

  goes_on :
      (e : Event A E) (w : World V R B P S)
      → only_answers e ≡ true
      → Drained (happens hooks server e w)
      → Drained w
  unfolding Drained happen_all
  goes_on e w o (es, os, a, b) = (e ∷ es, ground (arith, o, os), a, b)

  drains :
      (n : ℕ) (w : World V R B P S) (ts : List (Task R)) (q : List (Reply V R B))
      → w.waiting ≡ ts
      → w.answers ≡ q
      → steps w ≤ n
      → Drained w
  unfolding Drained happen_all
  drains n w [] [] a b h = ([], refl, a, b)
  drains zero w ts (x ∷ q) a b h = absurd (omega (arith, h, steps-delivers x q w b))
  drains zero w (t ∷ ts) [] a b h = absurd (omega (arith, h, steps-serves t ts w a))
  drains (suc n) w ts (x ∷ q) a b h = goes_on (delivers 0) w refl (
      drains n (happens hooks server (delivers 0) w) _ _ refl refl
        (omega (arith, steps-delivers x q w b)))
  drains (suc n) w (t ∷ ts) [] a b h = goes_on (serves 0) w refl (
      drains n (happens hooks server (serves 0) w) _ _ refl refl
        (omega (arith, steps-serves t ts w a)))

  pub all-Drained : (w : World V R B P S) → Drained w
  all-Drained w = drains (steps w) w w.waiting w.answers refl refl (omega arith)
