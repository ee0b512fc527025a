-- ===== src/Auth/Login/Landing.antt =====
-- Where apps/web/src/pages/LoginPage.tsx leads, against the guard of the routes.
use novel_platform.Common.{
  String, Bool, true, false, none, some, ◌≡◌, refl, arith, Bool-cases, inl, inr,
}
use novel_platform.Api.Types.{UserRole, User, TokenResponse}
use novel_platform.Auth.Routes.{
  authenticated, navigate, children, AuthView, is_admin, recovery_mode, Page, library,
  admin_dashboard, admin_security, element, protected_route, app,
}
use novel_platform.Auth.Shell.{route_path}
use novel_platform.Auth.Provider.{Provider, login, apply_token_response, store_token, view}
use novel_platform.Auth.Login.{
  LoginPage, signed_in, home, login_page, landing, credential_answered, provider_answered,
}

-- The address is that of a page that the visitor is shown.
abbrev pub Lands : AuthView → String → Type 0
Lands auth to = (page : Page) × (route_path page ≡ to) × (app page auth ≡ children)

decided_by :
    (auth : AuthView) (user : User) (r m : Bool)
    → auth.phase ≡ authenticated
    → auth.user ≡ some user
    → recovery_mode auth.session ≡ r
    → is_admin user.role ≡ m
    → (r ≡ true → m ≡ true)
    → (to : String) × (login_page auth ≡ navigate to) × Lands auth to
unfolding login_page home route_path element app protected_route
decided_by auth user true m a b r i c =
    ("/admin/security", ground arith, (admin_security, refl, ground (arith, c refl)))
decided_by auth user false true a b r i c =
    ("/admin", ground arith, (admin_dashboard, refl, ground arith))
decided_by auth user false false a b r i c = ("/", ground arith, (library, refl, ground arith))

-- A visitor who is signed in is sent on from the sign-in page to a page that the guard shows, if a
-- recovery session is an administrator's.
login_page-Lands :
    (auth : AuthView) (user : User)
    → auth.phase ≡ authenticated
    → auth.user ≡ some user
    → (recovery_mode auth.session ≡ true → user.role ≡ UserRole.admin)
    → (to : String) × (login_page auth ≡ navigate to) × Lands auth to
login_page-Lands auth user a b c =
    decided_by auth user (recovery_mode auth.session) (is_admin user.role) a b refl refl
      (λ r. ground (arith, c r))

-- A sign-in that succeeds signs the user in and leads to a page that the guard shows, if the user came
-- from no other and the session does not recover an account; no secret stays in the form.
pub credential_answered-Lands :
    {S : Type 0} (result : TokenResponse) (p : LoginPage) (auth : Provider S)
    → result.session.recovery_mode ≡ false
    → let p' = credential_answered none (signed_in result) p in
      let auth' = provider_answered (signed_in result) auth in
      (p'.credential ≡ "") × ((to : String) × (p'.navigated ≡ some to) × Lands (view auth') to)
unfolding credential_answered landing provider_answered login apply_token_response store_token
    route_path element app protected_route
credential_answered-Lands result p auth r = elim (Bool-cases (is_admin result.user.role)) [
  | inl m ↦ (refl, ("/admin", ground (arith, m), (admin_dashboard, refl, ground (arith, m, r))))
  | inr m ↦ (refl, ("/", ground (arith, m), (library, refl, ground (arith, m, r))))
]
