-- ===== src/Api/Endpoints/Account.antt =====
-- The methods of `api` (apps/web/src/api/client.ts) for the site, sign-in, sessions and devices.
use novel_platform.Common.{String, true, false}
use novel_platform.Common.Text.{◌⧺◌}
use novel_platform.Api.Types.{
  get, post, patch, delete, After, store_token, store_authentication, clear_token, Endpoint,
}
use novel_platform.Api.Endpoints.{request}

pub data AccountCall : Type 0 where
  live ready public_site : AccountCall
  login passkey_authentication_options verify_passkey_authentication : AccountCall
  passkey_registration_options verify_passkey_registration list_passkeys : AccountCall
  rename_passkey revoke_passkey : String → AccountCall
  me logout list_sessions : AccountCall
  revoke_session : String → AccountCall
  revoke_other_sessions list_devices : AccountCall
  rename_device revoke_device : String → AccountCall
  update_profile : AccountCall

abbrev followed_by : Endpoint → After → Endpoint
followed_by e after = record e { after = after }

unfoldable pub account : AccountCall → Endpoint
account live = request get "/api/v1/health/live" false
account ready = request get "/api/v1/health/ready" false
account public_site = request get "/api/v1/site" false
account login = followed_by (request post "/api/v1/auth/login" true) store_token
account passkey_authentication_options =
    request post "/api/v1/auth/passkeys/authentication/options" false
account verify_passkey_authentication =
    followed_by (request post "/api/v1/auth/passkeys/authentication/verify" true) store_token
account passkey_registration_options =
    request post "/api/v1/auth/passkeys/registration/options" false
account verify_passkey_registration =
    followed_by (request post "/api/v1/auth/passkeys/registration/verify" true) store_authentication
account list_passkeys = request get "/api/v1/auth/passkeys" false
account (rename_passkey id) = request patch ("/api/v1/auth/passkeys/" ⧺ id) true
account (revoke_passkey id) = request delete ("/api/v1/auth/passkeys/" ⧺ id) false
account me = request get "/api/v1/auth/me" false
account logout = followed_by (request post "/api/v1/auth/logout" false) clear_token
account list_sessions = request get "/api/v1/auth/sessions" false
account (revoke_session id) = request delete ("/api/v1/auth/sessions/" ⧺ id) false
account revoke_other_sessions = request post "/api/v1/auth/sessions/revoke-others" false
account list_devices = request get "/api/v1/devices" false
account (rename_device id) = request patch ("/api/v1/devices/" ⧺ id) true
account (revoke_device id) = request post ("/api/v1/devices/" ⧺ (id ⧺ "/revoke")) false
account update_profile = request patch "/api/v1/users/me" true
