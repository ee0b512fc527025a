-- ===== src/Auth/SessionTests.antt =====
-- The provider and the identifier of apps/web/src/auth/AuthProvider.tsx at concrete inputs.
use novel_platform.Common.{
  ℕ, ◌+◌, ◌*◌, String, true, false, none, some, List, [], ◌∷◌, ◌≡◌, ◌≢◌, refl,
}
use novel_platform.Api.Types.{UserRole, User, TokenResponse}
use novel_platform.Auth.Routes.{AuthView, authenticated, children, protected_route}
use novel_platform.Auth.Provider.{
  mounted, view, Event, site_answer, refresh_answer, signs_in, signs_out, renames, fails, provide,
  provide_all,
}
use novel_platform.Auth.Provider.Consistent.{logout-protected_route}
use novel_platform.Auth.Login.{
  LoginPage, signed_in as accepted, credential_answered, provider_answered,
}
use novel_platform.Auth.Login.Landing.{Lands, credential_answered-Lands}
use novel_platform.Auth.ClientInstance.{Browser}

abbrev owner : User
owner = record { id = "u1"; display_name = "Owner"; role = UserRole.admin }

abbrev tokens : TokenResponse
tokens = record {
  access_token = "t1";
  user = owner;
  device = record { id = "d1"; name = "desk" };
  session = record { id = "s1"; recovery_mode = false };
}

-- The site answers, the refresh fails, the user signs in, and the session then ends.
abbrev answers : List (Event String)
answers =
    site_answer (some "site") ∷ refresh_answer none ∷ signs_in tokens ∷ fails ∷ signs_in tokens ∷ []

logout-protected_route_example :
    protected_route true false (
      view (
        provide_all
          (renames owner ∷ site_answer (some "site") ∷ [])
          (provide signs_out (provide_all answers mounted))))
    ≢ children
logout-protected_route_example =
    logout-protected_route (provide_all answers mounted)
      (renames owner ∷ site_answer (some "site") ∷ []) true false (refl, (refl, tt))

abbrev drawn : ℕ → ℕ
drawn i = 7 * i + 3

abbrev fresh : Browser
fresh = record {
  in_memory = none;
  stored = some (110 ∷ []);
  can_get = true;
  can_remove = true;
  can_set = true;
}

abbrev signed_in : AuthView
signed_in = record { phase = authenticated; user = some owner; session = some (tokens.session) }

abbrev form : LoginPage
form = record {
  credential = "secret";
  device_name = "desk";
  is_submitting = true;
  is_passkey_submitting = false;
  error = none;
  navigated = none;
}

credential_answered-Lands_example :
    let p' = credential_answered none (accepted tokens) form in
    let auth' = provider_answered (accepted tokens) (mounted {S = String}) in
    (p'.credential ≡ "") × ((to : String) × (p'.navigated ≡ some to) × Lands (view auth') to)
credential_answered-Lands_example = credential_answered-Lands tokens form mounted refl
