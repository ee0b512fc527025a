-- ===== src/Auth/Joint/Sound.antt =====
-- The provider of apps/web/src/auth/AuthProvider.tsx with the client of apps/web/src/api/client.ts, whatever
-- arrives.
use novel_platform.Common.{
  ℕ, true, false, Option, none, some, is_some, List, [], ◌∷◌, ◌++◌, get_elem?, get_elem?-modify,
  ◌≡◌, refl, ◌∙◌, ap, ◌⊎◌, inl, inr, arith, Bool-cases,
}
use novel_platform.Api.Types.{
  Body, token_body, registration_body, error_body, other_body, Outcome, fulfilled, blob, rejected,
}
use novel_platform.Auth.Provider.{
  Startup, fetching_site, refreshing, started, Provider, Event, site_answer, fails, refresh_answer,
  refreshes_bare, provide, unmounts, renames, site_refreshed,
}
use novel_platform.Auth.Provider.Consistent.{authenticates}
use novel_platform.Api.Client.{Shared, Flight, idle, requesting, reading_refresh, settled, begin}
use novel_platform.Api.Client.Tasks.{
  Arrival, Task, Client, refresh_arrival, settle, step, arrive, arrive_at, settle_flight, set_phase,
  start,
}
use novel_platform.Api.Client.Tasks.Moves.{arrive-Moves}
use novel_platform.Auth.Joint.{
  Joint, follow, deliver, failures, refreshed, refreshed_by, put, arrived, refresh_arrived,
  Happening, site_arrives, calls, arrives, refresh_arrives, leaves, name_arrives, settings_arrive,
  site_arrived, deliver_to, happens, happen_all,
}
use novel_platform.Auth.Joint.Refreshing.{
  Refreshing, ignores, waits, breaks, stores, refuses, arrive_refresh-Refreshing,
}
use novel_platform.Auth.Joint.Signed.{Signed, follow-Signed, fails-Signed}
use novel_platform.Auth.Joint.Held.{
  moved-Signed, nothing_failed, something_failed, expire_handler, expire_failures, refresh_same,
}

settle_same :
    (f : Flight) (c : Client)
    → ((settle_flight f c).shared.access_token ≡ c.shared.access_token)
      × ((settle_flight f c).shared.handler ≡ c.shared.handler)
unfolding settle_flight
settle_same idle c = (refl, refl)
settle_same requesting c = (refl, refl)
settle_same (reading_refresh n) c = (refl, refl)
settle_same (settled o) c = (refl, refl)

module _ {S : Type 0} where
  abbrev pub both_of : Joint S → Shared × Provider S
  both_of j = (j.client.shared, j.provider)

  put-Signed : (c : Client) (x : Shared × Provider S) → Signed x → Signed (both_of (put c x))
  unfolding put
  put-Signed c (s, p) h = record { handler = h.handler; held = h.held }

  arrived-Signed :
      (i : ℕ) (a : Arrival) (c : Client) (p : Provider S) (o : Option Task)
      → get_elem? c.tasks i ≡ o
      → Signed (c.shared, p)
      → let c' = arrive_at i a c o in Signed (both_of (arrived o (get_elem? c'.tasks i) c c' p))
  unfolding arrived arrive_at set_phase put
  arrived-Signed i a c p none e h = h
  arrived-Signed i a c p (some t) e h =
      let r = arrive t.endpoint t.endpoint.transport t.phase a c.shared in
      rw (get_elem?-modify c.tasks i t (λ t. record t { phase = r.1 }) e) (
        put-Signed (set_phase i c r) _ (
          moved-Signed t.endpoint t.phase c.shared p h r
            (arrive-Moves t.endpoint t.endpoint.transport t.phase a c.shared refl)))

  -- The provider after the refresh has settled.
  refreshed-Signed :
      (o : Outcome) (s : Shared) (p : Provider S)
      → ((b : Body) → o ≡ fulfilled (some b) → is_some s.access_token ≡ true)
      → Signed (s, p)
      → Signed (deliver (refreshed o) (s, p))
  unfolding deliver refreshed
  refreshed-Signed (fulfilled (some (token_body r))) s p k h =
      follow-Signed (refresh_answer (some r)) p s (λ e. k _ refl) h
  refreshed-Signed (fulfilled (some (registration_body t))) s p k h =
      follow-Signed refreshes_bare p s (λ e. k _ refl) h
  refreshed-Signed (fulfilled (some (error_body i))) s p k h =
      follow-Signed refreshes_bare p s (λ e. k _ refl) h
  refreshed-Signed (fulfilled (some other_body)) s p k h =
      follow-Signed refreshes_bare p s (λ e. k _ refl) h
  refreshed-Signed (fulfilled none) s p k h =
      follow-Signed (refresh_answer none) p s (λ e. absurd (ground arith)) h
  refreshed-Signed blob s p k h =
      follow-Signed (refresh_answer none) p s (λ e. absurd (ground arith)) h
  refreshed-Signed (rejected th) s p k h =
      follow-Signed (refresh_answer none) p s (λ e. absurd (ground arith)) h

  refreshed_by_cases :
      (st : Startup) (f : Flight) (o : Outcome)
      → (refreshed_by {S = S} st f (settled o) ≡ [])
        ⊎ (refreshed_by {S = S} st f (settled o) ≡ refreshed o)
  unfolding refreshed_by
  refreshed_by_cases st f o = ground arith

  settled-Signed :
      (st : Startup) (f : Flight) (o : Outcome) (s : Shared) (p : Provider S)
      → ((b : Body) → o ≡ fulfilled (some b) → is_some s.access_token ≡ true)
      → Signed (s, p)
      → Signed (deliver (refreshed_by st f (settled o)) (s, p))
  unfolding deliver
  settled-Signed st f o s p k h = elim (refreshed_by_cases st f o) [
    | inl e ↦ rw e h
    | inr e ↦ rw e (refreshed-Signed o s p k h)
  ]

  refreshed_by_same : (st : Startup) (f : Flight) → refreshed_by {S = S} st f f ≡ []
  unfolding refreshed_by
  refreshed_by_same st f = ground arith

  refreshed_by_reading :
      (st : Startup) (f : Flight) (n : ℕ) → refreshed_by {S = S} st f (reading_refresh n) ≡ []
  unfolding refreshed_by
  refreshed_by_reading st f n = ground arith

  same-Signed :
      (s s' : Shared) (p : Provider S)
      → s'.access_token ≡ s.access_token
      → s'.handler ≡ s.handler
      → Signed (s, p)
      → Signed (s', p)
  same-Signed s s' p t k h = record { handler = k ∙ h.handler; held = λ a b. rw t (h.held a b) }

  refresh_arrived-Signed :
      (st : Startup) (f : Flight) (s s1 s2 : Shared) (p : Provider S)
      → s.refresh_flight ≡ f
      → s2.access_token ≡ s1.access_token
      → s2.handler ≡ s1.handler
      → Refreshing f s s1
      → Signed (s, p)
      → Signed (deliver (failures s s1 ++ refreshed_by st f s1.refresh_flight) (s2, p))
  unfolding deliver
  refresh_arrived-Signed st f s s1 s2 p e t k (ignores q) h =
      let kept =
        same-Signed s s2 p (t ∙ ap (λ x. x.access_token) q) (k ∙ ap (λ x. x.handler) q) h in
      rw (q, nothing_failed s s refl, e, refreshed_by_same st f) kept
  refresh_arrived-Signed st f s s1 s2 p e t k (waits n q) h =
      let kept =
        same-Signed s s2 p (t ∙ ap (λ x. x.access_token) q) (k ∙ ap (λ x. x.handler) q) h in
      rw (nothing_failed s s1 (ap (λ x. x.auth_failures) q), q, refreshed_by_reading st f n) kept
  refresh_arrived-Signed st f s s1 s2 p e t k (breaks th q) h =
      let kept =
        same-Signed s s2 p (t ∙ ap (λ x. x.access_token) q) (k ∙ ap (λ x. x.handler) q) h in
      rw (nothing_failed s s1 (ap (λ x. x.auth_failures) q), q)
        (settled-Signed st f (rejected th) s2 p (λ r e. absurd (ground (arith, e))) kept)
  refresh_arrived-Signed st f s s1 s2 p e t k (stores u b i q) h =
      let token = ap is_some (t ∙ ap (λ x. x.access_token) q) ∙ i in
      rw (nothing_failed s s1 (ap (λ x. x.auth_failures) q), q)
        (settled-Signed st f (fulfilled (some b)) s2 p (λ r e. token)
          (record { handler = k ∙ ap (λ x. x.handler) q ∙ h.handler; held = λ x y. token }))
  refresh_arrived-Signed st f s s1 s2 p e t k (refuses th q) h =
      let same = k ∙ ap (λ x. x.handler) q ∙ expire_handler s ∙ h.handler in
      let failed = ap (λ x. x.auth_failures) q in
      elim (Bool-cases s.handler) [
        | inl on ↦
            rw (something_failed s s1 (failed ∙ (expire_failures s).0 on), q)
              (settled-Signed st f (rejected th) (follow fails p s2) (provide fails p)
                (λ r e. absurd (ground (arith, e))) (fails-Signed p s2 same))
        | inr off ↦
            rw (nothing_failed s s1 (failed ∙ (expire_failures s).1 off), q)
              (settled-Signed st f (rejected th) s2 p (λ r e. absurd (ground (arith, e)))
                (record {
                  handler = same;
                  held = λ a b. absurd (ground (arith, a, off, h.handler));
                }))
      ]

  one_more :
      (e : Event S) (j : Joint S)
      → authenticates e ≡ false
      → Signed (both_of j)
      → Signed (deliver (e ∷ []) (both_of j))
  unfolding deliver
  one_more e j n h =
      follow-Signed e j.provider j.client.shared (λ k. absurd (ground (arith, k, n))) h

  site_arrived-Signed :
      (st : Startup) (a : Option S) (j : Joint S)
      → Signed (both_of j)
      → Signed (both_of (site_arrived st a j))
  unfolding site_arrived step follow provide
  site_arrived-Signed fetching_site a j h =
      let c = refresh_same j.client.shared in
      same-Signed j.client.shared _ _ c.1 c.2 (
        follow-Signed (site_answer a) j.provider j.client.shared (λ k. absurd (ground (arith, k)))
          h)
  site_arrived-Signed refreshing a j h = h
  site_arrived-Signed started a j h = h

  -- The client and the provider fit together in every state.
  happens-Signed :
      (x : Happening S) (j : Joint S) → Signed (both_of j) → Signed (both_of (happens x j))
  unfolding happens refresh_arrived deliver_to step start begin
  happens-Signed (site_arrives a) j h = site_arrived-Signed j.provider.startup a j h
  happens-Signed (calls e) j h = record { handler = h.handler; held = h.held }
  happens-Signed (arrives i a) j h =
      arrived-Signed i a j.client j.provider (get_elem? j.client.tasks i) refl h
  happens-Signed (refresh_arrives a) j h =
      let c1 = step j.client (refresh_arrival a) in
      let same = settle_same c1.shared.refresh_flight c1 in
      put-Signed (step c1 settle) _ (
        refresh_arrived-Signed j.provider.startup j.client.shared.refresh_flight j.client.shared
          c1.shared (step c1 settle).shared j.provider refl same.0 same.1
          (arrive_refresh-Refreshing j.client.shared.refresh_flight a j.client.shared) h)
  happens-Signed leaves j h = put-Signed j.client _ (one_more unmounts j refl h)
  happens-Signed (name_arrives u) j h = put-Signed j.client _ (one_more (renames u) j refl h)
  happens-Signed (settings_arrive a) j h =
      put-Signed j.client _ (one_more (site_refreshed a) j refl h)

  pub all-Signed :
      (xs : List (Happening S)) (j : Joint S)
      → Signed (both_of j)
      → Signed (both_of (happen_all xs j))
  unfolding happen_all
  all-Signed [] j h = h
  all-Signed (x ∷ xs) j h = all-Signed xs (happens x j) (happens-Signed x j h)
