-- ===== src/Auth/Routes/Guard.antt =====
-- Who gets past `ProtectedRoute` (apps/web/src/auth/ProtectedRoute.tsx).
use novel_platform.Common.{Bool, true, none, some, ◌≡◌, ◌↔◌, ◌⊎◌, inl, inr, arith, Option-cases}
use novel_platform.Api.Types.{UserRole, User}
use novel_platform.Auth.Routes.{
  authenticated, children, AuthView, recovery_mode, protected_route, Page, login, not_found,
  admin_security, element, app,
}

-- What a visitor must be for the guarded children to be shown.
abbrev pub Admitted : Bool → Bool → AuthView → Type 0
Admitted admin recovery auth =
    (auth.phase ≡ authenticated)
    × ((user : User) × (auth.user ≡ some user) × (admin ≡ true → user.role ≡ UserRole.admin))
    × (recovery_mode auth.session ≡ true → recovery ≡ true)

-- The guard shows its children exactly to an authenticated visitor with a user, who is an
-- administrator where the route is an administrator's, and whose session is no recovery session
-- unless the route allows one.
pub protected_route-children_iff :
    (admin recovery : Bool) (auth : AuthView)
    → (protected_route admin recovery auth ≡ children) ↔ Admitted admin recovery auth
unfolding protected_route
protected_route-children_iff admin recovery auth = (forward (Option-cases auth.user), backward)
  where
    forward :
        (auth.user ≡ none) ⊎ ((user : User) × (auth.user ≡ some user))
        → protected_route admin recovery auth ≡ children
        → Admitted admin recovery auth
    forward (inl e) h = absurd (ground arith)
    forward (inr (user, e)) h = (ground arith, (user, e, ground arith), ground arith)

    backward : Admitted admin recovery auth → protected_route admin recovery auth ≡ children
    backward (p, (user, e, a), r) = ground arith

-- A recovery session is shown no page but the sign-in page, the security page and the page for an
-- unknown address.
app-recovery :
    (page : Page) (auth : AuthView)
    → recovery_mode auth.session ≡ true
    → app page auth ≡ children
    → (page ≡ login) ⊎ ((page ≡ admin_security) ⊎ (page ≡ not_found))
unfolding app element protected_route
app-recovery page auth h e = ground arith
