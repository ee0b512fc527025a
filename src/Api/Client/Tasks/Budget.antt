-- ===== src/Api/Client/Tasks/Budget.antt =====
-- How many requests a run of the client in apps/web/src/api/client.ts sends.
use novel_platform.Common.{
  ℕ, zero, suc, ◌+◌, ◌*◌, ◌≤◌, true, false, Option, none, some, List, [], ◌∷◌, ◌++◌, ◌≡◌, refl, ap,
  inl, inr, arith, length, get_elem?, modify,
}
use novel_platform.Api.Types.{Outcome, Endpoint, After}
use novel_platform.Api.Client.{
  Flight, idle, settled, Shared, Phase, fetching, reading, waiting, resuming, finished, begin,
  finish, expire, refresh_access_token,
}
use novel_platform.Api.Client.Tasks.{
  Arrival, arrive, Task, Client, Event, call, arrival, refresh, refresh_arrival, settle, set_token,
  set_phase, arrive_at, arrive_refresh, settle_flight, start, step, run, wake_all,
}
use novel_platform.Api.Client.Tasks.Moves.{
  Moves, stays, reads, ends, expires, refreshes, resends, arrive-Moves,
}

-- The requests that a call may still send.
abbrev pub left : Phase → ℕ
left (fetching _ true) = 1
left (fetching _ false) = 0
left (reading _ _) = 0
left waiting = 1
left (resuming _) = 1
left (finished _) = 0

abbrev pub left_all : List Task → ℕ
left_all [] = 0
left_all (t ∷ ts) = left t.phase + left_all ts

pub finish_sent :
    (a : After) (o : Outcome) (s : Shared)
    → ((finish a o s).0.sent ≡ s.sent) × (left (finish a o s).1 ≡ 0)
unfolding finish
finish_sent a o s = ground arith

expire_sent : (s : Shared) → (expire s).sent ≡ s.sent
unfolding expire
expire_sent s = ground arith

-- No arrival at a call adds to what it has sent and may still send.
Moves-budget :
    {e : Endpoint} {s : Shared} {p : Phase} {r : Shared × Phase}
    → Moves e s p r
    → length r.0.sent + left r.1 ≤ length s.sent + left p
unfolding begin refresh_access_token
Moves-budget (stays q) = ground arith
Moves-budget (reads u b status q f k) = ground arith
Moves-budget {e} {s} (ends o a k) = ground (arith, finish_sent e.after o s)
Moves-budget {e} {s} (expires thrown a k) =
    ground (arith, finish_sent e.after (Outcome.rejected thrown) (expire s), expire_sent s)
Moves-budget (refreshes u q h k t m) = ground arith
Moves-budget (resends (inl q) m) = ground arith
Moves-budget (resends (inr (o, q)) m) = ground arith

left_all-modify :
    (ts : List Task) (i : ℕ) (t : Task) (p : Phase)
    → get_elem? ts i ≡ some t
    → left_all (modify ts i (λ u. record u { phase = p })) + left t.phase ≡ left_all ts + left p
left_all-modify [] i t p h = cc
left_all-modify (u ∷ ts) zero t p h = ground arith
left_all-modify (u ∷ ts) (suc i) t p h = omega (arith, left_all-modify ts i t p h)

left_all-append : (ts : List Task) (t : Task) → left_all (ts ++ t ∷ []) ≡ left_all ts + left t.phase
left_all-append [] t = omega arith
left_all-append (u ∷ ts) t = omega (arith, left_all-append ts t)

left_all-wake : (o : Outcome) (ts : List Task) → left_all (wake_all o ts) ≡ left_all ts
left_all-wake o [] = refl
left_all-wake o (t ∷ ts) = ground (arith, left_all-wake o ts)

abbrev pub calls : List Event → ℕ
calls [] = 0
calls (call e ∷ es) = suc (calls es)
calls (_ ∷ es) = calls es

calls-cons : (e : Event) (es : List Event) → calls (e ∷ es) ≡ calls (e ∷ []) + calls es
calls-cons (call e) es = omega arith
calls-cons refresh es = omega arith
calls-cons e es = omega arith

abbrev total : Client → ℕ
total c = length c.shared.sent + left_all c.tasks

total-arrive_at :
    (i : ℕ) (a : Arrival) (c : Client) (o : Option Task)
    → get_elem? c.tasks i ≡ o
    → total (arrive_at i a c o) ≤ total c
unfolding arrive_at set_phase
total-arrive_at i a c none h = omega arith
total-arrive_at i a c (some t) h =
    let r = arrive t.endpoint t.endpoint.transport t.phase a c.shared in
    omega (
      arith,
      Moves-budget (arrive-Moves t.endpoint t.endpoint.transport t.phase a c.shared refl),
      left_all-modify c.tasks i t r.1 h,
    )

arrive_refresh_sent : (f : Flight) (a : Arrival) (s : Shared) → (arrive_refresh f a s).sent ≡ s.sent
unfolding arrive_refresh
arrive_refresh_sent f a s = ground arith

total-settle_flight : (f : Flight) (c : Client) → total (settle_flight f c) ≡ total c
unfolding settle_flight
total-settle_flight (settled o) c = omega (arith, left_all-wake o c.tasks)
total-settle_flight idle c = refl
total-settle_flight f c = refl

total-step : (c : Client) (e : Event) → total (step c e) ≤ total c + 2 * calls (e ∷ [])
unfolding step start begin
total-step c (call e) = omega (
  arith,
  left_all-append c.tasks (record { endpoint = e; phase = fetching c.shared.access_token true }),
)
total-step c (arrival i a) = omega (arith, total-arrive_at i a c (get_elem? c.tasks i) refl)
total-step c refresh = ground arith
total-step c (refresh_arrival a) =
    omega (arith, ap length (arrive_refresh_sent c.shared.refresh_flight a c.shared))
total-step c settle = omega (arith, total-settle_flight c.shared.refresh_flight c)
total-step c (set_token token) = omega arith

total-run : (c : Client) (es : List Event) → total (run c es) ≤ total c + 2 * calls es
unfolding run
total-run c [] = omega arith
total-run c (e ∷ es) = omega (arith, total-step c e, total-run (step c e) es, calls-cons e es)

-- However the network answers, and however the calls interleave, a run sends at most two requests
-- for each call, the refresh requests not counted, and what calls already under way may still send.
pub run_sent :
    (c : Client) (es : List Event)
    → length (run c es).shared.sent ≤ length c.shared.sent + left_all c.tasks + 2 * calls es
run_sent c es = omega (arith, total-run c es)
