-- ===== src/Api/Client/Tasks/Expiry.antt =====
-- When the client of apps/web/src/api/client.ts ends an authentication.
use novel_platform.Common.{
  ℕ, ◌+◌, true, false, Option, none, some, ◌≡◌, refl, ◌∙◌, ap, ◌⊎◌, inl, inr, arith, get_elem?,
  is_some,
}
use novel_platform.Api.Types.{
  Thrown, Body, Outcome, Transport, Endpoint, form, json, binary, After, rejected, fulfilled,
}
use novel_platform.Api.Client.{
  Flight, idle, reading_refresh, settled, Shared, Phase, fetching, reading, resuming, begin, finish,
  expire, can_refresh, refresh_access_token, set_access_token, refresh_headers, refresh_content,
  api_error_of, is_ok,
}
use novel_platform.Api.Client.Tasks.{
  Arrival, headers, content, failure, continued, request_headers, arrive, Task, Client, Event, call,
  arrival, request_content, refresh, refresh_arrival, settle, set_token, set_phase, arrive_at,
  arrive_refresh, settle_flight, start, step,
}
use novel_platform.Api.Client.Tasks.Live.{finish_live}
use novel_platform.Api.Client.Tasks.Moves.{
  Moves, stays, reads, ends, expires, refreshes, resends, arrive-Moves, token_sent,
}

-- The authentication was ended: the handler was there and called once, and no token is left.
abbrev pub Ended : Shared → Shared → Type 0
Ended s s' =
    (s'.auth_failures ≡ s.auth_failures + 1) × (s'.access_token ≡ none) × (s.handler ≡ true)

abbrev pub Untouched : Shared → Shared → Type 0
Untouched s s' = s'.auth_failures ≡ s.auth_failures

pub finish_failures : (a : After) (o : Outcome) (s : Shared) → Untouched s (finish a o s).0
unfolding finish
finish_failures a o s = ground arith

finish_rejected :
    (a : After) (o : Outcome) (s : Shared) (thrown : Thrown)
    → o ≡ rejected thrown
    → s.access_token ≡ none
    → (finish a o s).0.access_token ≡ none
unfolding finish
finish_rejected a o s thrown e h = ground arith

expire-Ended : (s : Shared) → Untouched s (expire s) ⊎ Ended s (expire s)
unfolding expire
expire-Ended s = ground arith

expire_token : (s : Shared) → (expire s).access_token ≡ none
unfolding expire
expire_token s = ground arith

Moves-Ended :
    {e : Endpoint} {s : Shared} {p : Phase} {r : Shared × Phase}
    → Moves e s p r
    → Untouched s r.0 ⊎ (Ended s r.0 × (is_some (token_sent p) ≡ true))
unfolding begin refresh_access_token
Moves-Ended (stays q) = inl (ground arith)
Moves-Ended (reads u b status q f k) = inl (ground arith)
Moves-Ended {e} {s} (ends o a k) = inl (rw k (finish_failures e.after o s))
Moves-Ended (refreshes u q h k same m) = inl (ground arith)
Moves-Ended (resends q m) = inl (ground arith)
Moves-Ended {e} {s} (expires thrown h k) =
    let kept = finish_failures e.after (rejected thrown) (expire s) in
    elim (expire-Ended s) [
      | inl same ↦ inl (rw k (kept ∙ same))
      | inr (more, gone, there) ↦ inr (
        (
          rw k (kept ∙ more),
          rw k (finish_rejected e.after (rejected thrown) (expire s) thrown refl (expire_token s)),
          there,
        ),
        h,
      )
    ]

-- What an event that ends the authentication must be: an arrival at a call that had sent a token,
-- or the body of a refusal of the refresh.
abbrev pub EndCause : Client → Event → Type 0
EndCause c e =
    ((i : ℕ) × (a : Arrival) × (t : Task) × (e ≡ arrival i a)
      × (get_elem? c.tasks i ≡ some t)
      × (is_some (token_sent t.phase) ≡ true))
    ⊎ ((status : ℕ) × (body : Option Body) × (e ≡ refresh_arrival (content body))
        × (c.shared.refresh_flight ≡ reading_refresh status)
        × (is_ok status ≡ false))

arrive_at-Ended :
    (i : ℕ) (a : Arrival) (c : Client) (o : Option Task)
    → get_elem? c.tasks i ≡ o
    → Untouched c.shared (arrive_at i a c o).shared
      ⊎ (Ended c.shared (arrive_at i a c o).shared × EndCause c (arrival i a))
unfolding arrive_at set_phase
arrive_at-Ended i a c none h = inl refl
arrive_at-Ended i a c (some t) h =
    elim (Moves-Ended (arrive-Moves t.endpoint t.endpoint.transport t.phase a c.shared refl)) [
      | inl u ↦ inl u
      | inr (ended, sent) ↦ inr (ended, inl (i, a, t, refl, h, sent))
    ]

refresh_content-Ended :
    (status : ℕ) (body : Option Body) (s : Shared)
    → Untouched s (refresh_content status body s)
      ⊎ (Ended s (refresh_content status body s) × (is_ok status ≡ false))
unfolding refresh_content expire
refresh_content-Ended status none s = ground arith
refresh_content-Ended status (some b) s = ground arith

arrive_refresh-Ended :
    (f : Flight) (a : Arrival) (s : Shared)
    → Untouched s (arrive_refresh f a s)
      ⊎ (Ended s (arrive_refresh f a s)
          × ((status : ℕ) × (body : Option Body) × (a ≡ content body)
              × (f ≡ reading_refresh status)
              × (is_ok status ≡ false)))
unfolding arrive_refresh refresh_headers
arrive_refresh-Ended (reading_refresh status) (content body) s =
    elim (refresh_content-Ended status body s) [
      | inl u ↦ inl u
      | inr (ended, bad) ↦ inr (ended, (status, body, refl, refl, bad))
    ]
arrive_refresh-Ended f a s = inl (ground arith)

settle_flight_failures : (f : Flight) (c : Client) → Untouched c.shared (settle_flight f c).shared
unfolding settle_flight
settle_flight_failures (settled o) c = refl
settle_flight_failures idle c = refl
settle_flight_failures f c = refl

-- An event either leaves the number of authentication failures alone, or the handler is there and is
-- called once, no token is left behind, and the event is an arrival at a call that had sent a token or the
-- body of a refused refresh.
pub step-Ended :
    (c : Client) (e : Event)
    → ((step c e).shared.auth_failures ≡ c.shared.auth_failures)
      ⊎ (Ended c.shared (step c e).shared × EndCause c e)
unfolding step start begin set_access_token refresh_access_token
step-Ended c (call e) = inl refl
step-Ended c (arrival i a) = arrive_at-Ended i a c (get_elem? c.tasks i) refl
step-Ended c refresh = inl (ground arith)
step-Ended c (refresh_arrival a) = elim (arrive_refresh-Ended c.shared.refresh_flight a c.shared) [
  | inl u ↦ inl u
  | inr (ended, (status, body, at, under_way, bad)) ↦
      inr (ended, inr (status, body, ap refresh_arrival at, under_way, bad))
]
step-Ended c settle = inl (settle_flight_failures c.shared.refresh_flight c)
step-Ended c (set_token token) = inl refl

finish_harmless :
    (a : After) (o : Outcome) (s : Shared)
    → ((finish a o s).0.auth_failures ≡ s.auth_failures)
      × ((finish a o s).0.refresh_flight ≡ s.refresh_flight)
finish_harmless a o s = (finish_failures a o s, (finish_live a o s).0)

harmless :
    (e : Endpoint) (t : Transport) (p : Phase) (a : Arrival) (s : Shared)
    → t ≡ json
    → can_refresh e.path ≡ false
    → ((arrive e t p a s).0.auth_failures ≡ s.auth_failures)
      × ((arrive e t p a s).0.refresh_flight ≡ s.refresh_flight)
unfolding arrive request_headers request_content begin
harmless e json (fetching u b) (headers status) s j h =
    ground (arith, finish_harmless e.after (fulfilled none) s)
harmless e json (fetching u b) failure s j h = finish_harmless e.after _ s
harmless e json (reading u status) (content body) s j h = ground (
  arith,
  finish_harmless e.after (rejected (api_error_of body status)) s,
  finish_harmless e.after (fulfilled body) s,
)
harmless e json (resuming (rejected thrown)) continued s j h = finish_harmless e.after _ s
harmless e json (resuming o) continued s j h = (refl, refl)
harmless e json p a s j h = (refl, refl)
harmless e binary p a s j h = cc
harmless e form p a s j h = cc

-- A JSON call whose path may not refresh, such as a sign-in, ends no authentication and starts no
-- refresh, whatever is answered, also while a token is held.
sign_in_harmless :
    (c : Client) (i : ℕ) (a : Arrival) (t : Task)
    → get_elem? c.tasks i ≡ some t
    → t.endpoint.transport ≡ json
    → can_refresh t.endpoint.path ≡ false
    → ((step c (arrival i a)).shared.auth_failures ≡ c.shared.auth_failures)
      × ((step c (arrival i a)).shared.refresh_flight ≡ c.shared.refresh_flight)
unfolding step arrive_at set_phase
sign_in_harmless c i a t h j k =
    rw (h, arrive_at) (harmless t.endpoint t.endpoint.transport t.phase a c.shared j k)
