-- ===== src/Admin/Security/Recovery.antt =====
-- The end of a recovery on apps/web/src/pages/AdminSecurityPage.tsx.
use novel_platform.Common.{true, false, some, ◌≡◌, refl, arith}
use novel_platform.Api.Types.{UserRole, User, TokenResponse}
use novel_platform.Auth.Routes.{
  AuthView, authenticated, Page, recovery_mode, element, children, protected_route, app,
}
use novel_platform.Auth.Provider.{
  Provider, view, register_passkey, login, apply_token_response, store_token,
}
use novel_platform.Admin.Security.{
  SecurityPage, Loaded, listed, failed, load, load_answered, registered, rerender,
  registration_answered,
}

open_to_admins :
    (auth : AuthView) (user : User) (page : Page)
    → auth.phase ≡ authenticated
    → auth.user ≡ some user
    → user.role ≡ UserRole.admin
    → recovery_mode auth.session ≡ false
    → app page auth ≡ children
unfolding app element protected_route
open_to_admins auth user page a b c e = ground arith

module _ {S : Type 0} where
  load_answered-is_loading :
      (rows : Loaded S) (p : SecurityPage S) → (load_answered rows p).is_loading ≡ false
  unfolding load_answered
  load_answered-is_loading (listed passkeys sessions site) p = refl
  load_answered-is_loading (failed message) p = refl

  -- Once the passkey that is registered in a recovery session is answered with an administrator's session
  -- that recovers nothing, every page is open; the security page is not busy, loads its lists, and
  -- ceases to show that it does when they are answered.
  pub registration_answered-recovery :
      (result : TokenResponse) (p : SecurityPage S) (auth : Provider S) (rows : Loaded S)
      → recovery_mode auth.session ≡ true
      → result.session.recovery_mode ≡ false
      → result.user.role ≡ UserRole.admin
      → let (p', auth') = registration_answered (some result) (p, auth) in
        (p'.busy ≡ false)
        × (p'.is_loading ≡ true)
        × ((load_answered rows p').is_loading ≡ false)
        × ((page : Page) → app page (view auth') ≡ children)
  unfolding registration_answered registered rerender load register_passkey login
      apply_token_response store_token
  registration_answered-recovery result p auth rows a b c =
      rw (a, b)
        (
          refl,
          refl,
          load_answered-is_loading rows _,
          λ page. open_to_admins _ result.user page refl refl c refl,
        )
