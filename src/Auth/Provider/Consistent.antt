-- ===== src/Auth/Provider/Consistent.antt =====
-- The states of `AuthProvider` (apps/web/src/auth/AuthProvider.tsx), and the guard of its routes.
use novel_platform.Common.{
  any, Bool, true, false, Option, none, some, List, [], ◌∷◌, ◌≡◌, ◌≢◌, refl, arith,
}
use novel_platform.Api.Types.{TokenResponse}
use novel_platform.Auth.Routes.{
  loading, anonymous, authenticated, AuthView, children, protected_route,
}
use novel_platform.Auth.Provider.{
  Provider, mounted, clear_auth, apply_token_response, store_token, refresh_site, site_answered,
  refresh_answered, login, register_passkey, logout, update_display_name, unmount, auth_failed,
  apply_bare_response, login_bare, refresh_answered_bare, signs_in_bare, refreshes_bare, view,
  Event, site_answer, refresh_answer, signs_in, registers, signs_out, provide, provide_all,
}

guard-anonymous :
    (admin recovery : Bool) (v : AuthView)
    → v.phase ≡ anonymous
    → protected_route admin recovery v ≢ children
unfolding protected_route
guard-anonymous admin recovery v h = ground arith

module _ {S : Type 0} where
  -- An authenticated phase has a user, a device and a session; another has no device and no session.
  pub record Consistent (p : Provider S) : Type 0 where
    pub present : p.phase ≡ authenticated → (p.user ≢ none) × (p.device ≢ none) × (p.session ≢ none)
    pub absent : p.phase ≢ authenticated → (p.device ≡ none) × (p.session ≡ none)

  -- An answer that authenticates without the members of a token response.
  abbrev pub is_bare_answer : Event S → Bool
  is_bare_answer signs_in_bare = true
  is_bare_answer refreshes_bare = true
  is_bare_answer _ = false

  provide-Consistent :
      (e : Event S) (p : Provider S)
      → is_bare_answer e ≡ false
      → Consistent p
      → Consistent (provide e p)
  unfolding provide site_answered refresh_answered login login_bare refresh_answered_bare
      apply_bare_response register_passkey logout auth_failed unmount update_display_name
      refresh_site clear_auth apply_token_response store_token
  provide-Consistent e p b c =
      let h = c.present in
      let k = c.absent in record { present = ground arith; absent = ground arith }

  mounted-Consistent : Consistent (mounted {S = S})
  unfolding mounted
  mounted-Consistent = record { present = ground arith; absent = ground arith }

  all-Consistent :
      (es : List (Event S)) (p : Provider S)
      → any is_bare_answer es ≡ false
      → Consistent p
      → Consistent (provide_all es p)
  unfolding provide_all
  all-Consistent [] p b h = h
  all-Consistent (e ∷ es) p b h =
      all-Consistent es (provide e p) (ground (arith, b))
        (provide-Consistent e p (ground (arith, b)) h)

  -- In every state of a mounted provider the phase, the user, the device and the session fit together,
  -- whatever order the answers come in, unless one that authenticates was no token response.
  pub provide_all-Consistent :
      (es : List (Event S)) → any is_bare_answer es ≡ false → Consistent (provide_all es mounted)
  provide_all-Consistent es b = all-Consistent es mounted b mounted-Consistent

  -- The events that can authenticate.
  abbrev pub authenticates : Event S → Bool
  authenticates (refresh_answer (some r)) = true
  authenticates (signs_in r) = true
  authenticates signs_in_bare = true
  authenticates refreshes_bare = true
  authenticates (registers (some r)) = true
  authenticates _ = false

  abbrev pub NoneAuthenticates : List (Event S) → Type 0
  NoneAuthenticates [] = Unit
  NoneAuthenticates (e ∷ es) = (authenticates e ≡ false) × NoneAuthenticates es

  provide-anonymous :
      (e : Event S) (p : Provider S)
      → authenticates e ≡ false
      → p.phase ≡ anonymous
      → (provide e p).phase ≡ anonymous
  unfolding provide site_answered refresh_answered login login_bare refresh_answered_bare
      apply_bare_response register_passkey logout auth_failed unmount update_display_name
      refresh_site clear_auth apply_token_response store_token
  provide-anonymous e p h k = ground arith

  all-anonymous :
      (es : List (Event S)) (p : Provider S)
      → NoneAuthenticates es
      → p.phase ≡ anonymous
      → (provide_all es p).phase ≡ anonymous
  unfolding provide_all
  all-anonymous [] p h k = k
  all-anonymous (e ∷ es) p (a, h) k = all-anonymous es (provide e p) h (provide-anonymous e p a k)

  -- After a logout no protected page is shown until an answer authenticates again, whatever else is
  -- still answered, such as the change of a name.
  pub logout-protected_route :
      (p : Provider S) (es : List (Event S)) (admin recovery : Bool)
      → NoneAuthenticates es
      → protected_route admin recovery (view (provide_all es (provide signs_out p))) ≢ children
  unfolding provide logout clear_auth
  logout-protected_route p es admin recovery h =
      guard-anonymous admin recovery (view (provide_all es (provide signs_out p)))
        (all-anonymous es (provide signs_out p) h refl)

  -- Once the two requests of a mounted provider are answered, it no longer shows that it loads, and it
  -- is authenticated exactly if the second was answered with a token.
  provide_all-startup :
      (site : Option S) (answer : Option TokenResponse)
      → let p = provide_all (site_answer site ∷ refresh_answer answer ∷ []) mounted in
        (p.phase ≢ loading)
        × (p.phase ≡ authenticated → answer ≢ none)
        × (answer ≢ none → p.phase ≡ authenticated)
  unfolding provide_all provide mounted site_answered refresh_answered refresh_site clear_auth
      apply_token_response store_token
  provide_all-startup site answer = ground arith
