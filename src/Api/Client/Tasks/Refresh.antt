-- ===== src/Api/Client/Tasks/Refresh.antt =====
-- When the shared refresh of apps/web/src/api/client.ts starts.
use novel_platform.Common.{
  ℕ, ◌+◌, true, Option, none, some, ◌≡◌, ◌≢◌, refl, ap, ◌∙◌, ◌⊎◌, inl, inr, arith, get_elem?,
  is_some,
}
use novel_platform.Api.Types.{Token, Outcome, form, After, rejected}
use novel_platform.Api.Client.{
  Flight, idle, settled, Shared, Phase, fetching, begin, finish, expire, can_refresh, token_eq,
  refresh_access_token, set_access_token, refresh_headers, refresh_content,
}
use novel_platform.Api.Client.Tasks.{
  Arrival, Task, Client, Event, call, arrival, refresh, refresh_arrival, settle, set_token,
  set_phase, arrive_at, arrive_refresh, settle_flight, start, step,
}
use novel_platform.Api.Client.Tasks.Moves.{
  Moves, stays, reads, ends, expires, refreshes, resends, arrive-Moves,
}

finish_refreshes : (a : After) (o : Outcome) (s : Shared) → (finish a o s).0.refreshes ≡ s.refreshes
unfolding finish
finish_refreshes a o s = ground arith

expire_refreshes : (s : Shared) → (expire s).refreshes ≡ s.refreshes
unfolding expire
expire_refreshes s = ground arith

-- Why a refresh was started on behalf of a call: it is that call's first attempt, it had sent a
-- token, the token is still the current one, its path may refresh (or it is an upload), and no
-- refresh was under way.
pub record Warranted (c : Client) (t : Task) : Type 0 where
  pub token_used : Option Token
  pub first_attempt : t.phase ≡ fetching token_used true
  pub had_token : is_some token_used ≡ true
  pub still_current : token_eq c.shared.access_token token_used ≡ true
  pub refreshable : (t.endpoint.transport ≡ form) ⊎ (can_refresh t.endpoint.path ≡ true)
  pub none_under_way : c.shared.refresh_flight ≡ idle

refresh_access_token_cases :
    (s : Shared)
    → ((refresh_access_token s).refreshes ≡ s.refreshes)
      ⊎ (((refresh_access_token s).refreshes ≡ s.refreshes + 1) × (s.refresh_flight ≡ idle))
unfolding refresh_access_token
refresh_access_token_cases s = ground arith

Moves-refreshes :
    (c : Client) (t : Task) (r : Shared × Phase)
    → Moves t.endpoint c.shared t.phase r
    → (r.0.refreshes ≡ c.shared.refreshes)
      ⊎ ((r.0.refreshes ≡ c.shared.refreshes + 1) × Warranted c t)
unfolding begin
Moves-refreshes c t r (stays q) = inl (ap (λ (z : Shared × Phase). z.0.refreshes) q)
Moves-refreshes c t r (reads u b status q f k) = inl (ap (λ (z : Shared × Phase). z.0.refreshes) k)
Moves-refreshes c t r (ends o a k) = inl (rw k (finish_refreshes t.endpoint.after o c.shared))
Moves-refreshes c t r (expires thrown a k) = inl (
    rw k (
      finish_refreshes t.endpoint.after (rejected thrown) (expire c.shared)
      ∙ expire_refreshes c.shared))
Moves-refreshes c t r (resends q m) = inl (ap (λ (z : Shared × Phase). z.0.refreshes) m)
Moves-refreshes c t r (refreshes u q h k same m) = elim (refresh_access_token_cases c.shared) [
  | inl e ↦ inl (rw m e)
  | inr (e, i) ↦ inr (
    rw m e,
    record {
      token_used = u;
      first_attempt = q;
      had_token = h;
      still_current = same;
      refreshable = k;
      none_under_way = i;
    },
  )
]

arrive_at_refreshes :
    (i : ℕ) (a : Arrival) (c : Client) (o : Option Task)
    → get_elem? c.tasks i ≡ o
    → ((arrive_at i a c o).shared.refreshes ≡ c.shared.refreshes)
      ⊎ (((arrive_at i a c o).shared.refreshes ≡ c.shared.refreshes + 1)
          × ((t : Task) × (get_elem? c.tasks i ≡ some t) × Warranted c t))
unfolding arrive_at set_phase
arrive_at_refreshes i a c none h = inl refl
arrive_at_refreshes i a c (some t) h =
    elim (Moves-refreshes c t _
      (arrive-Moves t.endpoint t.endpoint.transport t.phase a c.shared refl)) [
        | inl e ↦ inl e
        | inr (e, w) ↦ inr (e, (t, h, w))
      ]

-- An arrival at a call starts at most one refresh request, and only a warranted one.
arrival_refreshes :
    (c : Client) (i : ℕ) (a : Arrival)
    → ((step c (arrival i a)).shared.refreshes ≡ c.shared.refreshes)
      ⊎ (((step c (arrival i a)).shared.refreshes ≡ c.shared.refreshes + 1)
          × ((t : Task) × (get_elem? c.tasks i ≡ some t) × Warranted c t))
unfolding step
arrival_refreshes c i a = arrive_at_refreshes i a c (get_elem? c.tasks i) refl

arrive_refresh_refreshes :
    (f : Flight) (a : Arrival) (s : Shared) → (arrive_refresh f a s).refreshes ≡ s.refreshes
unfolding arrive_refresh refresh_headers refresh_content expire
arrive_refresh_refreshes f a s = ground arith

settle_flight_refreshes :
    (f : Flight) (c : Client) → (settle_flight f c).shared.refreshes ≡ c.shared.refreshes
unfolding settle_flight
settle_flight_refreshes (settled o) c = refl
settle_flight_refreshes idle c = refl
settle_flight_refreshes f c = refl

-- While a refresh is under way no event sends another refresh request: not a call of `refresh`, and
-- no 401, however many calls receive one.
pub step_single_flight :
    (c : Client) (e : Event)
    → c.shared.refresh_flight ≢ idle
    → (step c e).shared.refreshes ≡ c.shared.refreshes
unfolding step start begin set_access_token refresh_access_token
step_single_flight c (call e) h = refl
step_single_flight c (arrival i a) h = elim (arrive_at_refreshes i a c (get_elem? c.tasks i) refl) [
  | inl e ↦ e
  | inr (e, (t, at, w)) ↦ absurd (h w.none_under_way)
]
step_single_flight c refresh h = ground arith
step_single_flight c (refresh_arrival a) h =
    arrive_refresh_refreshes c.shared.refresh_flight a c.shared
step_single_flight c settle h = settle_flight_refreshes c.shared.refresh_flight c
step_single_flight c (set_token token) h = refl
