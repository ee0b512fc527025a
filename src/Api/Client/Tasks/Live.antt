-- ===== src/Api/Client/Tasks/Live.antt =====
-- The calls of apps/web/src/api/client.ts that wait for the shared refresh.
use mathlib.Core.Option.{some-injective}
use novel_platform.Common.{
  subst, sym, ℕ, zero, suc, Bool, true, false, Option, none, some, List, [], ◌∷◌, ◌++◌, ◌≡◌, ◌≢◌,
  refl, arith, get_elem?, modify,
}
use novel_platform.Api.Types.{Outcome, Endpoint, form, After, rejected}
use novel_platform.Api.Client.{
  Flight, idle, requesting, settled, Shared, Phase, reading, waiting, finished, begin, finish,
  expire, refresh_access_token, set_access_token, refresh_headers, refresh_content,
}
use novel_platform.Api.Client.Tasks.{
  Arrival, headers, Task, Client, Event, call, arrival, refresh, refresh_arrival, settle, set_token,
  set_phase, arrive_at, arrive_refresh, settle_flight, start, step, run, wake, wake_all,
}
use novel_platform.Api.Client.Tasks.Moves.{
  Moves, stays, reads, ends, expires, refreshes, resends, arrive-Moves,
}

abbrev pub is_waiting : Phase → Bool
is_waiting waiting = true
is_waiting _ = false

abbrev pub is_reading : Phase → Bool
is_reading (reading _ _) = true
is_reading _ = false

-- A call that waits has a refresh to wait for, and an upload never waits for a body alone.
abbrev pub IsLiveTask : Flight → Endpoint → Phase → Type 0
IsLiveTask f e p = (is_waiting p ≡ true → f ≢ idle) × (e.transport ≡ form → is_reading p ≡ false)

abbrev pub AllLive : Flight → List Task → Type 0
AllLive f [] = Unit
AllLive f (t ∷ ts) = IsLiveTask f t.endpoint t.phase × AllLive f ts

abbrev pub IsLive : Client → Type 0
IsLive c = AllLive c.shared.refresh_flight c.tasks

abbrev pub is_finished : Phase → Bool
is_finished (finished _) = true
is_finished _ = false

pub finish_live :
    (a : After) (o : Outcome) (s : Shared)
    → ((finish a o s).0.refresh_flight ≡ s.refresh_flight) × (is_finished (finish a o s).1 ≡ true)
unfolding finish
finish_live a o s = ground arith

pub expire_flight : (s : Shared) → (expire s).refresh_flight ≡ s.refresh_flight
unfolding expire
expire_flight s = ground arith

refresh_access_token-busy : (s : Shared) → (refresh_access_token s).refresh_flight ≢ idle
unfolding refresh_access_token
refresh_access_token-busy s = ground arith

IsLiveTask-of_finished :
    (f : Flight) (e : Endpoint) (p : Phase) → is_finished p ≡ true → IsLiveTask f e p
IsLiveTask-of_finished f e p h = (λ k. cc (clash p h k), λ _. apart p h)
  where
    clash : (q : Phase) → is_finished q ≡ true → is_waiting q ≡ true → false ≡ true
    clash q a b = ground arith

    apart : (q : Phase) → is_finished q ≡ true → is_reading q ≡ false
    apart q a = ground arith

module _ {e : Endpoint} {s : Shared} {p : Phase} {r : Shared × Phase} where
  Moves-live : Moves e s p r → IsLiveTask s.refresh_flight e p → IsLiveTask r.0.refresh_flight e r.1
  unfolding begin
  Moves-live (stays q) l = rw q l
  Moves-live (reads u b status q f k) l = rw k (λ h. cc, λ h. absurd (f h))
  Moves-live (ends o a k) l = rw k (IsLiveTask-of_finished _ e _ (finish_live e.after o s).1)
  Moves-live (expires thrown a k) l =
      rw k (IsLiveTask-of_finished _ e _ (finish_live e.after (rejected thrown) (expire s)).1)
  Moves-live (refreshes u q h k t m) l = rw m (λ _. refresh_access_token-busy s, λ _. refl)
  Moves-live (resends q m) l = rw m (λ h. cc, λ _. refl)

  Moves-busy : Moves e s p r → s.refresh_flight ≢ idle → r.0.refresh_flight ≢ idle
  unfolding begin
  Moves-busy (stays q) b = rw q b
  Moves-busy (reads u c status q f k) b = rw k b
  Moves-busy (ends o a k) b = rw (k, (finish_live e.after o s).0) b
  Moves-busy (expires thrown a k) b =
      rw (k, (finish_live e.after (rejected thrown) (expire s)).0, expire_flight s) b
  Moves-busy (refreshes u q h k t m) b = rw m (refresh_access_token-busy s)
  Moves-busy (resends q m) b = rw m b

AllLive-mono : {f g : Flight} (ts : List Task) → (f ≢ idle → g ≢ idle) → AllLive f ts → AllLive g ts
AllLive-mono [] h l = tt
AllLive-mono (t ∷ ts) h ((w, r), l) = ((λ k. h (w k), r), AllLive-mono ts h l)

pub AllLive-at :
    {f : Flight} (ts : List Task) (i : ℕ) (t : Task)
    → get_elem? ts i ≡ some t
    → AllLive f ts
    → IsLiveTask f t.endpoint t.phase
AllLive-at [] i t h l = cc
AllLive-at {f} (u ∷ ts) zero t h l =
    subst (λ (v : Task). IsLiveTask f v.endpoint v.phase) (some-injective _ _ h) l.0
AllLive-at (u ∷ ts) (suc i) t h l = AllLive-at ts i t h l.1

AllLive-modify :
    {f : Flight} (ts : List Task) (i : ℕ) (t : Task) (p : Phase)
    → get_elem? ts i ≡ some t
    → IsLiveTask f t.endpoint p
    → AllLive f ts
    → AllLive f (modify ts i (λ u. record u { phase = p }))
AllLive-modify [] i t p h k l = tt
AllLive-modify {f} (u ∷ ts) zero t p h k l =
    (subst (λ (v : Task). IsLiveTask f v.endpoint p) (sym (some-injective _ _ h)) k, l.1)
AllLive-modify (u ∷ ts) (suc i) t p h k l = (l.0, AllLive-modify ts i t p h k l.1)

AllLive-append :
    {f : Flight} (ts : List Task) (t : Task)
    → AllLive f ts
    → IsLiveTask f t.endpoint t.phase
    → AllLive f (ts ++ t ∷ [])
AllLive-append [] t l k = (k, tt)
AllLive-append (u ∷ ts) t l k = (l.0, AllLive-append ts t l.1 k)

AllLive-wake :
    (f g : Flight) (o : Outcome) (ts : List Task) → AllLive f ts → AllLive g (wake_all o ts)
AllLive-wake f g o [] l = tt
AllLive-wake f g o (t ∷ ts) (k, l) =
    ((λ h. absurd (woken t.phase h), λ h. same t.phase (k.1 h)), AllLive-wake f g o ts l)
  where
    woken : (p : Phase) → is_waiting (wake o p) ≡ true → ⊥
    woken p h = ground arith

    same : (p : Phase) → is_reading p ≡ false → is_reading (wake o p) ≡ false
    same p h = ground arith

arrive_at-IsLive :
    (i : ℕ) (a : Arrival) (c : Client) (o : Option Task)
    → get_elem? c.tasks i ≡ o
    → IsLive c
    → IsLive (arrive_at i a c o)
unfolding arrive_at set_phase
arrive_at-IsLive i a c none h l = l
arrive_at-IsLive i a c (some t) h l =
    let m = arrive-Moves t.endpoint t.endpoint.transport t.phase a c.shared refl in
    AllLive-modify c.tasks i t _ h (Moves-live m (AllLive-at c.tasks i t h l))
      (AllLive-mono c.tasks (Moves-busy m) l)

arrive_refresh-busy :
    (f : Flight) (a : Arrival) (s : Shared)
    → s.refresh_flight ≡ f
    → f ≢ idle
    → (arrive_refresh f a s).refresh_flight ≢ idle
unfolding arrive_refresh refresh_headers refresh_content
arrive_refresh-busy requesting (headers status) s h b = ground arith
arrive_refresh-busy f a s h b = ground arith

settle_flight-IsLive : (f : Flight) (c : Client) → IsLive c → IsLive (settle_flight f c)
unfolding settle_flight
settle_flight-IsLive (settled o) c l = AllLive-wake c.shared.refresh_flight idle o c.tasks l
settle_flight-IsLive idle c l = l
settle_flight-IsLive f c l = l

-- Every event keeps each waiting call with a refresh under way, and keeps uploads out of the phase
-- in which a body is awaited.
pub step-IsLive : (c : Client) (e : Event) → IsLive c → IsLive (step c e)
unfolding step start begin set_access_token
step-IsLive c (call e) l = AllLive-append c.tasks _ l (λ h. cc, λ _. refl)
step-IsLive c (arrival i a) l = arrive_at-IsLive i a c (get_elem? c.tasks i) refl l
step-IsLive c refresh l = AllLive-mono c.tasks (λ _. refresh_access_token-busy c.shared) l
step-IsLive c (refresh_arrival a) l =
    AllLive-mono c.tasks (arrive_refresh-busy c.shared.refresh_flight a c.shared refl) l
step-IsLive c settle l = settle_flight-IsLive c.shared.refresh_flight c l
step-IsLive c (set_token token) l = l

pub run-IsLive : (c : Client) (es : List Event) → IsLive c → IsLive (run c es)
unfolding run
run-IsLive c [] l = l
run-IsLive c (e ∷ es) l = run-IsLive (step c e) es (step-IsLive c e l)
