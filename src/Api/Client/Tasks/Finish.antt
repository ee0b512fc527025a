-- ===== src/Api/Client/Tasks/Finish.antt =====
-- How the calls of apps/web/src/api/client.ts come to an end together.
use novel_platform.Common.{
  ℕ, zero, suc, ◌<◌, Bool, all, true, false, some, List, [], ◌∷◌, ◌≡◌, refl, ◌⊎◌, inl, inr, arith,
  get_elem?, Bool-cases,
}
use novel_platform.Api.Client.{
  Shared, Flight, requesting, reading_refresh, Phase, fetching, reading, waiting, resuming,
  finished,
}
use novel_platform.Api.Client.Tasks.{
  Task, Client, Event, call, arrival, refresh, refresh_arrival, settle, set_token, step, run,
}
use novel_platform.Api.Client.Tasks.Live.{is_finished, IsLive, step-IsLive, run-IsLive}
use novel_platform.Api.Client.Tasks.Progress.{measure, owed, owed-measure}

abbrev pub AllFinished : List Task → Type 0
AllFinished [] = Unit
AllFinished (t ∷ ts) = (is_finished t.phase ≡ true) × AllFinished ts

-- What the network and the event loop bring: no new call, no new refresh by the provider, no new token.
abbrev pub is_answer : Event → Bool
is_answer (call e) = false
is_answer (arrival i a) = true
is_answer refresh = false
is_answer (refresh_arrival a) = true
is_answer settle = true
is_answer (set_token t) = false

abbrev Unfinished : List Task → Type 0
Unfinished ts = (i : ℕ) × (t : Task) × (get_elem? ts i ≡ some t) × (is_finished t.phase ≡ false)

Finished-cases : (ts : List Task) → AllFinished ts ⊎ Unfinished ts
Finished-cases [] = inl tt
Finished-cases (t ∷ ts) = elim (Bool-cases (is_finished t.phase)) [
  | inr pending ↦ inr (zero, t, refl, pending)
  | inl done ↦ elim (Finished-cases ts) [
    | inl rest ↦ inl (done, rest)
    | inr (i, u, at, pending) ↦ inr (suc i, u, at, pending)
  ]
]

owed_answer : (f : Flight) (i : ℕ) (p : Phase) → is_answer (owed f i p) ≡ true
unfolding owed
owed_answer f i (fetching u b) = refl
owed_answer f i (reading u status) = refl
owed_answer requesting i waiting = refl
owed_answer (reading_refresh status) i waiting = refl
owed_answer f i waiting = refl
owed_answer f i (resuming o) = refl
owed_answer f i (finished o) = refl

finishes_within :
    (fuel : ℕ) (c : Client)
    → measure c < fuel
    → IsLive c
    → (es : List Event) × (all is_answer es ≡ true) × AllFinished (run c es).tasks
unfolding run
finishes_within zero c h l = elim h [ ]
finishes_within (suc fuel) c h l = elim (Finished-cases c.tasks) [
  | inl done ↦ ([], refl, done)
  | inr (i, t, at, pending) ↦
      let e = owed c.shared.refresh_flight i t.phase in
      let near = owed-measure c i t l at pending in
      let (es, answers, done) = finishes_within fuel (step c e) (omega arith) (step-IsLive c e l) in
      (e ∷ es, rw (owed_answer c.shared.refresh_flight i t.phase) answers, done)
]

-- From every state that any run reaches, from any state of the module with no call under way, there is a
-- sequence of nothing but answers to the calls, answers to the refresh under way and turns of the event
-- loop, with no new call, refresh or token among them, after which every call has settled: no interleaving
-- leaves a call waiting for something that nobody owes it.
pub run_finishes :
    (s : Shared) (es : List Event)
    → (more : List Event) × (all is_answer more ≡ true)
      × AllFinished (run (run (record { shared = s; tasks = [] }) es) more).tasks
run_finishes s es =
    let c = run (record { shared = s; tasks = [] }) es in
    finishes_within (suc (measure c)) c (omega arith) (run-IsLive _ es tt)
