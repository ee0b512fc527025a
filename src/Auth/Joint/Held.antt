-- ===== src/Auth/Joint/Held.antt =====
-- What an arrival does to the provider of apps/web/src/auth/AuthProvider.tsx and the token of
-- apps/web/src/api/client.ts.
use novel_platform.Common.{
  ◌+◌, Bool, true, false, Option, is_some, [], ◌∷◌, ◌++◌, ◌≡◌, refl, ◌∙◌, inl, inr, arith,
  Bool-cases,
}
use novel_platform.Api.Types.{
  Outcome, rejected, After, nothing, store_token, store_authentication, clear_token, Endpoint,
  Thrown,
}
use novel_platform.Api.Types.{Token}
use novel_platform.Auth.Provider.{Provider, signs_out, fails}
use novel_platform.Api.Client.{
  Shared, Phase, fetching, reading, waiting, resuming, finished, begin, finish, expire,
  call_auth_failure, set_access_token, refresh_access_token,
}
use novel_platform.Api.Client.Tasks.Moves.{
  Moves, stays, reads, ends, expires, refreshes, resends, is_active, token_sent,
}
use novel_platform.Api.Client.Tasks.Expiry.{finish_failures}
use novel_platform.Auth.Joint.{deliver, failures, resumed, resumed_by}
use novel_platform.Auth.Joint.Signed.{Signed, follow-Signed, fails-Signed, finished-Signed}

sent_active : (ph : Phase) → is_some (token_sent ph) ≡ true → is_active ph ≡ true
sent_active (fetching u b) h = refl
sent_active (reading u n) h = refl
sent_active (resuming o) h = refl
sent_active waiting h = absurd (ground arith)
sent_active (finished o) h = absurd (ground arith)

finish_handler : (a : After) (o : Outcome) (s : Shared) → (finish a o s).0.handler ≡ s.handler
unfolding finish set_access_token
finish_handler a o s = ground arith

pub expire_handler : (s : Shared) → (expire s).handler ≡ s.handler
unfolding expire set_access_token call_auth_failure
expire_handler s = ground arith

pub expire_failures :
    (s : Shared)
    → (s.handler ≡ true → (expire s).auth_failures ≡ s.auth_failures + 1)
      × (s.handler ≡ false → (expire s).auth_failures ≡ s.auth_failures)
unfolding expire set_access_token call_auth_failure
expire_failures s = ground arith

pub refresh_same :
    (s : Shared)
    → ((refresh_access_token s).auth_failures ≡ s.auth_failures)
      × ((refresh_access_token s).access_token ≡ s.access_token)
      × ((refresh_access_token s).handler ≡ s.handler)
unfolding refresh_access_token
refresh_same s = ground arith

finish_rejected_phase :
    (a : After) (th : Thrown) (s : Shared) → (finish a (rejected th) s).1 ≡ finished (rejected th)
unfolding finish
finish_rejected_phase nothing th s = refl
finish_rejected_phase store_token th s = refl
finish_rejected_phase store_authentication th s = refl
finish_rejected_phase clear_token th s = refl

module _ {S : Type 0} where
  pub nothing_failed :
      (s s' : Shared) → s'.auth_failures ≡ s.auth_failures → failures {S = S} s s' ≡ []
  unfolding failures
  nothing_failed s s' e = ground (arith, e)

  pub something_failed :
      (s s' : Shared) → s'.auth_failures ≡ s.auth_failures + 1 → failures {S = S} s s' ≡ fails ∷ []
  unfolding failures
  something_failed s s' e = ground (arith, e)

  active_resumes :
      (ph : Phase) (a : After) (o : Outcome)
      → is_active ph ≡ true
      → resumed_by {S = S} ph (finished o) a ≡ resumed a o
  unfolding resumed_by
  active_resumes (fetching u b) a o k = refl
  active_resumes (reading u n) a o k = refl
  active_resumes (resuming o') a o k = refl
  active_resumes waiting a o k = absurd (ground arith)
  active_resumes (finished o') a o k = absurd (ground arith)

  same_phase : (ph : Phase) (a : After) → resumed_by {S = S} ph ph a ≡ []
  unfolding resumed_by
  same_phase (fetching u b) a = refl
  same_phase (reading u n) a = refl
  same_phase (resuming o') a = refl
  same_phase waiting a = refl
  same_phase (finished o') a = refl

  sent_again :
      (ph : Phase) (u : Option Token) (b : Bool) (a : After)
      → resumed_by {S = S} ph (fetching u b) a ≡ []
  unfolding resumed_by
  sent_again (fetching v c) u b a = refl
  sent_again (reading v n) u b a = refl
  sent_again (resuming o) u b a = refl
  sent_again waiting u b a = refl
  sent_again (finished o) u b a = refl

  rejected-Signed :
      (a : After) (th : Thrown) (s : Shared) (p : Provider S)
      → Signed (s, p)
      → Signed (deliver (resumed a (rejected th)) (s, p))
  unfolding deliver resumed
  rejected-Signed nothing th s p h = h
  rejected-Signed store_token th s p h = h
  rejected-Signed store_authentication th s p h = h
  rejected-Signed clear_token th s p h = follow-Signed signs_out p s (λ k. absurd (ground arith)) h

  -- The provider after what an arrival for a call has led to.
  module _ (e : Endpoint) (ph : Phase) (s : Shared) (p : Provider S) (h : Signed (s, p)) where
    abbrev pub after_move : Shared × Phase → Shared × Provider S
    after_move r = deliver (failures s r.0 ++ resumed_by ph r.1 e.after) (r.0, p)

    quiet_move :
        (s' : Shared) (q : Phase)
        → s'.auth_failures ≡ s.auth_failures
        → s'.access_token ≡ s.access_token
        → s'.handler ≡ s.handler
        → resumed_by {S = S} ph q e.after ≡ []
        → Signed (after_move (s', q))
    unfolding deliver
    quiet_move s' q a t k n =
        rw (nothing_failed s s' a, n)
          (record { handler = k ∙ h.handler; held = λ b c. rw t (h.held b c) })

    expired :
        (th : Thrown)
        → is_active ph ≡ true
        → Signed (after_move (finish e.after (rejected th) (expire s)))
    unfolding deliver
    expired th k =
        let r = finish e.after (rejected th) (expire s) in
        let same = finish_handler e.after (rejected th) (expire s) ∙ expire_handler s in
        let kept = finish_failures e.after (rejected th) (expire s) in
        rw (finish_rejected_phase e.after th (expire s), active_resumes ph e.after (rejected th) k)
          (elim (Bool-cases s.handler) [
            | inl on ↦
                rw (something_failed s r.0 (kept ∙ (expire_failures s).0 on))
                  (rejected-Signed e.after th _ _ (fails-Signed p r.0 (same ∙ h.handler)))
            | inr off ↦ rw (nothing_failed s r.0 (kept ∙ (expire_failures s).1 off)) (
                rejected-Signed e.after th r.0 p (record {
                  handler = same ∙ h.handler;
                  held = λ on c. absurd (ground (arith, on, off, h.handler));
                }))
          ])

    pub moved-Signed : (r : Shared × Phase) → Moves e s ph r → Signed (after_move r)
    unfolding resumed_by begin
    moved-Signed r (stays q) = rw q (quiet_move s ph refl refl refl (same_phase ph e.after))
    moved-Signed r (reads u b n q f k) =
        rw k (quiet_move s (reading u n) refl refl refl (rw q refl))
    moved-Signed r (ends o a k) =
        rw (k, nothing_failed s (finish e.after o s).0 (finish_failures e.after o s))
          (finished-Signed p s h ph e.after o (λ o'. active_resumes ph e.after o' a))
    moved-Signed r (expires th u k) = rw k (expired th (sent_active ph u))
    moved-Signed r (refreshes u q i j m k) =
        let c = refresh_same s in
        rw k (quiet_move (refresh_access_token s) waiting c.0 c.1 c.2 (rw q refl))
    moved-Signed r (resends q k) =
        rw k (quiet_move (begin e false s).0 _ refl refl refl (sent_again ph _ _ e.after))
