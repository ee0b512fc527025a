-- ===== src/Auth/Routes/Redirects.antt =====
-- Where the redirects of the guard (apps/web/src/auth/ProtectedRoute.tsx) and of the sign-in page
-- (apps/web/src/pages/LoginPage.tsx) end.
use novel_platform.Common.Text.{str_eq}
use novel_platform.Common.{
  if◌then◌else◌, Option-cases, inl, inr, ℕ, zero, suc, true, false, some, none, Option, String, ◌≡◌,
  ◌≢◌, ◌⊎◌, arith,
}
use novel_platform.Api.Types.{UserRole, User}
use novel_platform.Auth.Routes.{
  AuthPhase, authenticated, loading, Rendered, loading_block, navigate, children, AuthView,
  recovery_mode, Page, login, library, admin_dashboard, admin_security, element, protected_route,
  app,
}
use novel_platform.Auth.Login.{home, login_page}

-- The page at an address that the guard or the sign-in page redirects to.
page_at : String → Page
page_at to =
    if str_eq to "/"
    then library
    else if str_eq to "/login"
    then login
    else if str_eq to "/admin"
    then admin_dashboard
    else admin_security

-- What a matched route renders: `LoginPage` redirects by itself.
unfoldable pub rendered : Page → AuthView → Rendered
unfolding app
rendered login auth = login_page auth
rendered page auth = app page auth

-- The page that the visitor ends on, after so many redirects at most.
pub follow : ℕ → Page → AuthView → Option Page
follow zero page auth = none
follow (suc fuel) page auth = elim (rendered page auth) [
  | loading_block ↦ none
  | children ↦ some page
  | navigate to ↦ follow fuel (page_at to) auth
]

module _ (auth : AuthView) where
  shown : (n : ℕ) (page : Page) → rendered page auth ≡ children → follow (suc n) page auth ≢ none
  unfolding follow
  shown n page e = rw (e, follow) (λ h. cc)

  sent_on :
      (n : ℕ) (page : Page) (to : String)
      → rendered page auth ≡ navigate to
      → follow n (page_at to) auth ≢ none
      → follow (suc n) page auth ≢ none
  unfolding follow
  sent_on n page to e h = rw (e, follow) h

  login_shown : auth.phase ≢ loading → auth.phase ≢ authenticated → rendered login auth ≡ children
  unfolding rendered login_page
  login_shown p q = ground arith

  strangers :
      (page : Page)
      → auth.phase ≢ loading
      → auth.phase ≢ authenticated
      → (rendered page auth ≡ children) ⊎ (rendered page auth ≡ navigate "/login")
  unfolding rendered login_page app element protected_route
  strangers page p q = ground arith

  module _ (user : User) (there : auth.user ≡ some user) (known : auth.phase ≡ authenticated) where
    members :
        (page : Page)
        → (rendered page auth ≡ children)
          ⊎ (((rendered page auth ≡ navigate "/")
                × ((recovery_mode auth.session ≡ false) ⊎ (user.role ≢ UserRole.admin)))
              ⊎ (((rendered page auth ≡ navigate "/admin/security")
                    × (recovery_mode auth.session ≡ true))
                  ⊎ ((rendered page auth ≡ navigate "/admin")
                      × (user.role ≡ UserRole.admin)
                      × (recovery_mode auth.session ≡ false))))
    unfolding rendered login_page home app element protected_route
    members page = ground arith

    security_shown : user.role ≡ UserRole.admin → rendered admin_security auth ≡ children
    unfolding rendered app element protected_route
    security_shown a = ground arith

    home_shown : recovery_mode auth.session ≡ false → rendered library auth ≡ children
    unfolding rendered app element protected_route
    home_shown r = ground arith

    dashboard_shown :
        user.role ≡ UserRole.admin
        → recovery_mode auth.session ≡ false
        → rendered admin_dashboard auth ≡ children
    unfolding rendered app element protected_route
    dashboard_shown a r = ground arith

    settles :
        (page : Page)
        → (recovery_mode auth.session ≡ true → user.role ≡ UserRole.admin)
        → follow 3 page auth ≢ none
    unfolding page_at
    settles page h = elim (members page) [
      | inl e ↦ shown 2 page e
      | inr (inl (e, r)) ↦
          sent_on 2 page "/" e (shown 1 library (home_shown (ground (arith, h, r))))
      | inr (inr (inl (e, r))) ↦
          sent_on 2 page "/admin/security" e (shown 1 admin_security (security_shown (h r)))
      | inr (inr (inr (e, a, r))) ↦
          sent_on 2 page "/admin" e (shown 1 admin_dashboard (dashboard_shown a r))
    ]

phase_cases : (p : AuthPhase) → (p ≡ authenticated) ⊎ (p ≢ authenticated)
phase_cases p = ground arith

-- Once the phase is known, where an authenticated phase has a user and a recovery session is an
-- administrator's: from every page the visitor is shown a page after at most two redirects of the guard
-- and of the sign-in page.
pub follow_settles :
    (page : Page) (auth : AuthView)
    → auth.phase ≢ loading
    → (auth.phase ≡ authenticated → auth.user ≢ none)
    → ((user : User)
        → auth.user ≡ some user
        → recovery_mode auth.session ≡ true
        → user.role ≡ UserRole.admin)
    → follow 3 page auth ≢ none
unfolding page_at
follow_settles page auth p u h = elim (phase_cases auth.phase) [
  | inr q ↦ elim (strangers auth page p q) [
    | inl e ↦ shown auth 2 page e
    | inr e ↦ sent_on auth 2 page "/login" e (shown auth 1 login (login_shown auth p q))
  ]
  | inl known ↦ elim (Option-cases auth.user) [
    | inl e ↦ absurd (u known e)
    | inr (user, e) ↦ settles auth user e known page (h user e)
  ]
]
