-- ===== src/Auth/Login.antt =====
-- `LoginPage` (apps/web/src/pages/LoginPage.tsx), with the provider that its handlers sign in with.
-- Errors are the texts that `userFacingError` gives.
pub mod Landing
use novel_platform.Common.{String, Bool, true, false, Option, none, some, if◌then◌else◌, or_else}
use novel_platform.Api.Types.{User, TokenResponse}
use novel_platform.Auth.Routes.{
  AuthPhase, loading, anonymous, authenticated, Rendered, loading_block, navigate, children,
  AuthView, is_admin, recovery_mode,
}
use novel_platform.Auth.Shell.{is_admin_user}
use novel_platform.Auth.Provider as Providers
use novel_platform.Auth.Provider.{Provider}

pub record LoginPage : Type 0 where
  pub credential : String
  pub device_name : String
  pub is_submitting : Bool
  pub is_passkey_submitting : Bool
  pub error : Option String
  pub navigated : Option String

-- The answer to the requests of a sign-in, or what makes them fail.
pub data Answer : Type 0 where
  signed_in : TokenResponse → Answer
  failed : String → Answer

unfoldable pub home : Option User → String
home user = if is_admin_user user then "/admin" else "/"

-- The returns of the page before its form, which stands for `children`.
unfoldable pub login_page : AuthView → Rendered
unfolding home
login_page auth = elim auth.phase [
  | loading ↦ loading_block
  | authenticated ↦
      if recovery_mode auth.session then navigate "/admin/security" else navigate (home auth.user)
  | anonymous ↦ children
]

-- `submitCredential`, up to its `await`.
unfoldable pub submit_credential : LoginPage → LoginPage
submit_credential p = record p { is_submitting = true; error = none }

-- Where `submitCredential` goes; `from` is that of the location's state.
unfoldable pub landing : Option String → User → String
landing from user = if is_admin user.role then "/admin" else or_else from "/"

unfoldable pub credential_answered : Option String → Answer → LoginPage → LoginPage
unfolding landing
credential_answered from (signed_in result) p = record p {
  credential = "";
  navigated = some (landing from result.user);
  is_submitting = false;
}
credential_answered from (failed message) p = record p {
  error = some message;
  is_submitting = false;
}

-- `submitPasskey`, up to its `await`.
unfoldable pub submit_passkey : LoginPage → LoginPage
submit_passkey p = record p { is_passkey_submitting = true; error = none }

unfoldable pub passkey_answered : Answer → LoginPage → LoginPage
passkey_answered (signed_in result) p = record p {
  navigated = some "/admin";
  is_passkey_submitting = false;
}
passkey_answered (failed message) p = record p {
  error = some message;
  is_passkey_submitting = false;
}

-- `auth.login` and `auth.loginWithPasskey`.
unfoldable pub provider_answered : {S : Type 0} → Answer → Provider S → Provider S
provider_answered (signed_in result) auth = Providers.login result auth
provider_answered (failed message) auth = auth
