-- ===== src/Auth/Joint/Signed.antt =====
-- That the provider of apps/web/src/auth/AuthProvider.tsx is authenticated only while the `accessToken` of
-- apps/web/src/api/client.ts is not `null`.
use novel_platform.Common.{true, Option, none, some, is_some, [], ◌∷◌, ◌≡◌, refl, arith}
use novel_platform.Api.Types.{
  token_body, registration_body, error_body, other_body, Body, Token, Outcome, fulfilled, blob,
  rejected, After, nothing, store_token, store_authentication, clear_token,
}
use novel_platform.Auth.Routes.{authenticated}
use novel_platform.Auth.Provider.{
  Startup, fetching_site, refreshing, started, Provider, mounted, Event, site_answer,
  refresh_answer, signs_in, signs_in_bare, refreshes_bare, login_bare, refresh_answered_bare,
  apply_bare_response, registers, signs_out, fails, unmounts, renames, site_refreshed, provide,
  provide_all, site_answered, refresh_answered, login, register_passkey, logout, auth_failed,
  unmount, update_display_name, refresh_site, clear_auth, apply_token_response,
}
use novel_platform.Auth.Provider.Consistent.{authenticates}
use novel_platform.Api.Client.{Shared, Phase, finished, finish, set_access_token}
use novel_platform.Auth.Joint.{follow, deliver, resumed, resumed_by}

module _ {S : Type 0} where
  -- The client has its handler as long as the effect is there, and then its token is not `null` where the
  -- provider is authenticated.
  pub record Signed (r : Shared × Provider S) : Type 0 where
    pub handler : r.0.handler ≡ r.1.active
    pub held : r.1.active ≡ true → r.1.phase ≡ authenticated → is_some r.0.access_token ≡ true

  pub follow_handler :
      (e : Event S) (p : Provider S) (s : Shared)
      → s.handler ≡ p.active
      → (follow e p s).handler ≡ (provide e p).active
  unfolding follow provide set_access_token site_answered refresh_answered login login_bare
      refresh_answered_bare apply_bare_response register_passkey logout auth_failed unmount
      update_display_name refresh_site clear_auth apply_token_response
      novel_platform.Auth.Provider.store_token
  follow_handler e p s h = ground (arith, h)

  pub follow-Signed :
      (e : Event S) (p : Provider S) (s : Shared)
      → (authenticates e ≡ true → is_some s.access_token ≡ true)
      → Signed (s, p)
      → Signed (follow e p s, provide e p)
  unfolding follow provide set_access_token site_answered refresh_answered login login_bare
      refresh_answered_bare apply_bare_response register_passkey logout auth_failed unmount
      update_display_name refresh_site clear_auth apply_token_response
      novel_platform.Auth.Provider.store_token
  follow-Signed e p s k h =
      let i = h.held in
      record { handler = follow_handler e p s h.handler; held = ground (arith, k) }

  -- What holds before the failure handler runs need not hold of the token.
  pub fails-Signed :
      (p : Provider S) (s : Shared)
      → s.handler ≡ p.active
      → Signed (follow fails p s, provide fails p)
  unfolding follow provide set_access_token auth_failed clear_auth
  fails-Signed p s h = record { handler = follow_handler fails p s h; held = ground (arith, h) }

  pub token-Signed :
      (t : Option Token) (p : Provider S) (s : Shared)
      → is_some t ≡ true
      → Signed (s, p)
      → Signed (set_access_token t s, p)
  unfolding set_access_token
  token-Signed t p s k h = record { handler = h.handler; held = λ a b. k }

  module _ (p : Provider S) (s : Shared) (h : Signed (s, p)) where
    pub stored_token :
        (b : Body) (t : Option Token)
        → is_some t ≡ true
        → Signed (deliver (resumed store_token (fulfilled (some b))) (set_access_token t s, p))
    unfolding deliver resumed set_access_token
    stored_token (token_body r) t k =
        follow-Signed (signs_in r) p _ (λ e. k) (token-Signed t p s k h)
    stored_token (registration_body o) t k =
        follow-Signed signs_in_bare p _ (λ e. k) (token-Signed t p s k h)
    stored_token (error_body i) t k =
        follow-Signed signs_in_bare p _ (λ e. k) (token-Signed t p s k h)
    stored_token other_body t k = follow-Signed signs_in_bare p _ (λ e. k) (token-Signed t p s k h)

    pub signs_out-Signed :
        (t : Option Token) → Signed (deliver (signs_out ∷ []) (set_access_token t s, p))
    unfolding deliver follow set_access_token provide logout clear_auth
    signs_out-Signed t = record { handler = h.handler; held = ground arith }

    module _ (ph : Phase) where
      pub finished-Signed :
          (a : After) (o : Outcome)
          → ((o' : Outcome) → resumed_by {S = S} ph (finished o') a ≡ resumed a o')
          → Signed (deliver (resumed_by ph (finish a o s).1 a) ((finish a o s).0, p))
      unfolding finish resumed deliver set_access_token
      finished-Signed nothing o k = rw (k _) h
      finished-Signed store_token (fulfilled (some b)) k = rw (k _) (stored_token b _ refl)
      finished-Signed store_token (fulfilled none) k = rw (k _) h
      finished-Signed store_token blob k = rw (k _) h
      finished-Signed store_token (rejected th) k = rw (k _) h
      finished-Signed store_authentication (fulfilled (some (registration_body (some t)))) k =
          rw (k _) (follow-Signed (registers (some t)) p _ (λ e. refl) (token-Signed _ p s refl h))
      finished-Signed store_authentication (fulfilled (some (registration_body none))) k =
          rw (k _) (follow-Signed (registers none) p s (λ e. absurd (ground arith)) h)
      finished-Signed store_authentication (fulfilled (some (token_body r))) k = rw (k _) h
      finished-Signed store_authentication (fulfilled (some (error_body i))) k = rw (k _) h
      finished-Signed store_authentication (fulfilled (some other_body)) k = rw (k _) h
      finished-Signed store_authentication (fulfilled none) k = rw (k _) h
      finished-Signed store_authentication blob k = rw (k _) h
      finished-Signed store_authentication (rejected th) k = rw (k _) h
      finished-Signed clear_token o k = rw (k _) (signs_out-Signed none)
