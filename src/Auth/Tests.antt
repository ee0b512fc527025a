-- ===== src/Auth/Tests.antt =====
-- The route guard of apps/web/src/auth/ProtectedRoute.tsx at concrete visitors.
use novel_platform.Common.{true, some, none, ◌≡◌, ◌≢◌, ◌↔◌, refl}
use novel_platform.Api.Types.{UserRole, User}
use novel_platform.Auth.Routes.{
  authenticated, navigate, children, AuthView, protected_route, element, app, library, upload,
}
use novel_platform.Auth.Routes.Guard.{Admitted, protected_route-children_iff}
use novel_platform.Auth.Routes.Redirects.{follow, follow_settles}

abbrev owner : User
owner = record { id = "u1"; display_name = "站点管理员"; role = UserRole.admin }

-- An administrator who signed in with a recovery credential.
abbrev recovering : AuthView
recovering = record {
  phase = authenticated;
  user = some owner;
  session = some (record { id = "s1"; recovery_mode = true });
}

sent_to_security : app library recovering ≡ navigate "/admin/security"
unfolding app element protected_route
sent_to_security = refl

protected_route-children_iff_example :
    (protected_route true true recovering ≡ children) ↔ Admitted true true recovering
protected_route-children_iff_example = protected_route-children_iff true true recovering

follow_settles_example : follow 3 upload recovering ≢ none
follow_settles_example =
    follow_settles upload recovering (λ e. cc) (λ e k. cc)
      (λ user e r. role_of user (some_injective e))
  where
    some_injective : {u : User} → some owner ≡ some u → owner ≡ u
    some_injective e = cc

    role_of : (u : User) → owner ≡ u → u.role ≡ UserRole.admin
    role_of u e = rw (← e) refl
