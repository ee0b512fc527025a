-- ===== src/Api/Client/Tasks/Progress.antt =====
-- How one call of apps/web/src/api/client.ts is brought to its end, by the state that it is in.
use novel_platform.Common.{
  ℕ, zero, suc, ◌+◌, ◌≤◌, ◌<◌, Bool, true, false, Option, none, some, List, [], ◌∷◌, ◌≡◌, ◌≢◌, refl,
  inl, inr, arith, get_elem?, modify, if◌then◌else◌, Bool-cases, ◌∙◌,
}
use novel_platform.Api.Types.{
  Token, Outcome, Endpoint, Transport, json, binary, form, After, rejected,
}
use novel_platform.Api.Client.{
  Flight, idle, requesting, reading_refresh, settled, Shared, Phase, fetching, reading, waiting,
  resuming, finished, begin, finish, expire, is_ok, refresh_content,
}
use novel_platform.Api.Client.Tasks.{
  Arrival, content, failure, continued, arrive, Task, Client, Event, arrival, refresh_arrival,
  settle, set_phase, arrive_at, arrive_refresh, settle_flight, step, wake_all, request_content,
  request_blob_content,
}
use novel_platform.Api.Client.Tasks.Live.{
  is_finished, IsLive, IsLiveTask, AllLive-at, expire_flight,
}

-- How far a call, and the shared refresh, are from their ends.
abbrev pub rank : Phase → ℕ
rank (fetching _ true) = 10
rank (fetching _ false) = 3
rank (reading _ _) = 2
rank waiting = 5
rank (resuming _) = 4
rank (finished _) = 0

abbrev pub flight_rank : Flight → ℕ
flight_rank idle = 0
flight_rank requesting = 3
flight_rank (reading_refresh _) = 2
flight_rank (settled _) = 1

abbrev rank_all : List Task → ℕ
rank_all [] = 0
rank_all (t ∷ ts) = rank t.phase + rank_all ts

abbrev pub measure : Client → ℕ
measure c = flight_rank c.shared.refresh_flight + rank_all c.tasks

-- An event that the network or the event loop owes to a call in this phase: the failure of its
-- request, an empty body, its turn, or a step of the refresh that it waits for.
unfoldable pub owed : Flight → ℕ → Phase → Event
owed f i (fetching _ _) = arrival i failure
owed f i (reading _ _) = arrival i (content none)
owed requesting i waiting = refresh_arrival failure
owed (reading_refresh _) i waiting = refresh_arrival (content none)
owed f i waiting = settle
owed f i (resuming _) = arrival i continued
owed f i (finished _) = settle

rank_all-modify :
    (ts : List Task) (i : ℕ) (t : Task) (p : Phase)
    → get_elem? ts i ≡ some t
    → rank_all (modify ts i (λ u. record u { phase = p })) + rank t.phase ≡ rank_all ts + rank p
rank_all-modify [] i t p h = cc
rank_all-modify (u ∷ ts) zero t p h = ground arith
rank_all-modify (u ∷ ts) (suc i) t p h = omega (arith, rank_all-modify ts i t p h)

rank_all-wake : (o : Outcome) (ts : List Task) → rank_all (wake_all o ts) ≤ rank_all ts
rank_all-wake o [] = omega arith
rank_all-wake o (t ∷ ts) = ground (arith, rank_all-wake o ts)

rank-finish :
    (a : After) (o : Outcome) (s : Shared)
    → ((finish a o s).0.refresh_flight ≡ s.refresh_flight) × (rank (finish a o s).1 ≡ 0)
unfolding finish
rank-finish a o s = ground arith

-- The refresh is left alone, and the call ends up below the bound.
abbrev Nearer : ℕ → Shared → Shared × Phase → Type 0
Nearer n s r = (r.0.refresh_flight ≡ s.refresh_flight) × (rank r.1 < n)

finish_near : (a : After) (o : Outcome) (s : Shared) → Nearer 1 s (finish a o s)
finish_near a o s = ((rank-finish a o s).0, omega (arith, (rank-finish a o s).1))

finish_expired :
    (b : Bool) (a : After) (o : Outcome) (s : Shared)
    → Nearer 1 s (finish a o (if b then expire s else s))
finish_expired true a o s = let (f, k) = finish_near a o (expire s) in (f ∙ expire_flight s, k)
finish_expired false a o s = finish_near a o s

-- A failure, an empty body or its turn bring a call nearer to its end, and leave the refresh alone.
module _ (e : Endpoint) (s : Shared) where
  fails_near :
      (t : Transport) (u : Option Token) (b : Bool)
      → Nearer 1 s (arrive e t (fetching u b) failure s)
  unfolding arrive
  fails_near json u b = finish_near e.after _ s
  fails_near binary u b = finish_near e.after _ s
  fails_near form u b = finish_near e.after _ s

  content_near :
      (t : Transport) (u : Option Token) (status : ℕ)
      → t ≢ form
      → Nearer 1 s (arrive e t (reading u status) (content none) s)
  unfolding arrive request_content request_blob_content
  content_near json u status h = elim (Bool-cases (is_ok status)) [
    | inl k ↦ rw k (finish_near e.after _ s)
    | inr k ↦ rw k (finish_expired _ e.after _ s)
  ]
  content_near binary u status h = elim (Bool-cases (is_ok status)) [
    | inl k ↦ rw k (finish_near e.after _ s)
    | inr k ↦ rw k (finish_expired _ e.after _ s)
  ]
  content_near form u status h = absurd (h refl)

  continued_near : (t : Transport) (o : Outcome) → Nearer 4 s (arrive e t (resuming o) continued s)
  unfolding arrive begin
  continued_near json (rejected thrown) =
      ((finish_near e.after _ s).0, omega (arith, (finish_near e.after (rejected thrown) s).1))
  continued_near binary (rejected thrown) =
      ((finish_near e.after _ s).0, omega (arith, (finish_near e.after (rejected thrown) s).1))
  continued_near form (rejected thrown) =
      ((finish_near e.after _ s).0, omega (arith, (finish_near e.after (rejected thrown) s).1))
  continued_near json o = (refl, omega arith)
  continued_near binary o = (refl, omega arith)
  continued_near form o = (refl, omega arith)

measure-set_phase :
    (c : Client) (i n : ℕ) (t : Task) (r : Shared × Phase)
    → get_elem? c.tasks i ≡ some t
    → Nearer n c.shared r
    → n ≤ rank t.phase
    → measure (set_phase i c r) < measure c
unfolding set_phase
measure-set_phase c i n t (s, p) h (f, k) m = rw f (omega (arith, rank_all-modify c.tasks i t p h))

measure-arrive_at :
    (c : Client) (i n : ℕ) (t : Task) (a : Arrival)
    → get_elem? c.tasks i ≡ some t
    → Nearer n c.shared (arrive t.endpoint t.endpoint.transport t.phase a c.shared)
    → n ≤ rank t.phase
    → measure (arrive_at i a c (get_elem? c.tasks i)) < measure c
unfolding arrive_at
measure-arrive_at c i n t a h k m =
    rw (h, arrive_at)
      (measure-set_phase c i n t (arrive t.endpoint t.endpoint.transport t.phase a c.shared) h k m)

measure-wake :
    (o : Outcome) (ts : List Task) (i : ℕ) (t : Task)
    → get_elem? ts i ≡ some t
    → t.phase ≡ waiting
    → rank_all (wake_all o ts) < rank_all ts
measure-wake o [] i t h w = cc
measure-wake o (u ∷ ts) zero t h w = ground (arith, rank_all-wake o ts)
measure-wake o (u ∷ ts) (suc i) t h w = ground (arith, measure-wake o ts i t h w)

-- The refresh that a call waits for comes nearer to its end.
measure_waiting :
    (c : Client) (f : Flight) (i : ℕ) (t : Task)
    → c.shared.refresh_flight ≡ f
    → f ≢ idle
    → get_elem? c.tasks i ≡ some t
    → t.phase ≡ waiting
    → measure (step c (owed f i waiting)) < measure c
unfolding step owed arrive_refresh settle_flight refresh_content expire
measure_waiting c idle i t e b h w = absurd (b refl)
measure_waiting c requesting i t e b h w = rw (e, arrive_refresh) (omega arith)
measure_waiting c (reading_refresh status) i t e b h w = ground arith
measure_waiting c (settled o) i t e b h w =
    rw (e, settle_flight) (omega (arith, measure-wake o c.tasks i t h w))

fetching_rank : (p : Phase) (v : Option Token) (b : Bool) → p ≡ fetching v b → 1 ≤ rank p
fetching_rank p v true e = rw e (omega arith)
fetching_rank p v false e = rw e (omega arith)

-- In a live state the event that is owed to an unfinished call brings the whole client nearer to
-- its end.
pub owed-measure :
    (c : Client) (i : ℕ) (t : Task)
    → IsLive c
    → get_elem? c.tasks i ≡ some t
    → is_finished t.phase ≡ false
    → measure (step c (owed c.shared.refresh_flight i t.phase)) < measure c
unfolding step owed
owed-measure c i t l h u = go t.phase refl
  where
    live : IsLiveTask c.shared.refresh_flight t.endpoint t.phase
    live = AllLive-at c.tasks i t h l

    go : (p : Phase) → t.phase ≡ p → measure (step c (owed c.shared.refresh_flight i p)) < measure c
    go (fetching v b) e =
        measure-arrive_at c i 1 t failure h (rw e (fails_near t.endpoint c.shared _ v b))
          (fetching_rank t.phase v b e)
    go (reading v status) e =
        measure-arrive_at c i 1 t (content none) h
          (rw e (content_near t.endpoint c.shared _ v status (λ g. cc (live.1 g, e))))
          (rw e (omega arith))
    go (resuming o) e =
        measure-arrive_at c i 4 t continued h
          (rw e (continued_near t.endpoint c.shared t.endpoint.transport o)) (rw e (omega arith))
    go (finished o) e = cc (u, e)
    go waiting e = measure_waiting c c.shared.refresh_flight i t refl (live.0 (rw e refl)) h e
