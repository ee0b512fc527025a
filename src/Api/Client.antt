-- ===== src/Api/Client.antt =====
-- apps/web/src/api/client.ts: the access token, the shared refresh, and the three ways a request is
-- carried. A call is a task; what arrives from the network is an event, in any order. The browser's
-- `fetch`, `XMLHttpRequest` and JSON parser are the environment that chooses the events: response
-- headers and bodies are separate events, because the code awaits them separately.
pub mod Tasks
use novel_platform.Common.Text.{str_eq}
use novel_platform.Common.{
  ℕ, suc, String, ◌+◌, Bool, true, false, not, ◌&&◌, ◌||◌, Option, none, some, List, [], ◌∷◌,
  if◌then◌else◌, ltb, leb, ◌==◌, is_some,
}
use novel_platform.Api.Types.{
  Token, text, undefined, TokenResponse, Details, ErrorInfo, Body, token_body, registration_body,
  error_body, other_body, Thrown, api_error, type_error, fetch_failed, Outcome, fulfilled, blob,
  rejected, Method, Transport, json, binary, form, After, nothing, store_token,
  store_authentication, clear_token, Endpoint,
}

-- `refreshFlight`: the refresh is `null`, waits for its response, reads the body, or has settled
-- and waits for its `finally`.
pub data Flight : Type 0 where
  idle requesting : Flight
  reading_refresh : ℕ → Flight
  settled : Outcome → Flight

-- One call of `fetch` or `xhr.send`, by what it sends after `API_BASE_URL`.
pub record Sent : Type 0 where
  pub method : Method
  pub path : String
  pub json_content : Bool
  pub authorization : Option Token

-- The variables of the module, and what it has done to the world: `handler` is
-- `authFailureHandler !== null`, `auth_failures` counts its calls, `refreshes` and `sent` the
-- requests that went out.
pub record Shared : Type 0 where
  pub access_token : Option Token
  pub refresh_flight : Flight
  pub handler : Bool
  pub auth_failures : ℕ
  pub refreshes : ℕ
  pub sent : List Sent

unfoldable pub set_access_token : Option Token → Shared → Shared
set_access_token token s = record s { access_token = token }

-- `authFailureHandler?.()`
unfoldable pub call_auth_failure : Shared → Shared
call_auth_failure s = if s.handler then record s { auth_failures = s.auth_failures + 1 } else s

-- The two lines that end an authentication.
unfoldable pub expire : Shared → Shared
unfolding set_access_token call_auth_failure
expire s = call_auth_failure (set_access_token none s)

abbrev no_details : Details
no_details = record { current_version = none; import_id = none }

-- `apiError(body, status)`: the body's `error` is read unless the body is `null`, so a body that has
-- none throws a `TypeError` instead.
unfoldable pub api_error_of : Option Body → ℕ → Thrown
api_error_of none status =
    api_error (record { message = "请求失败，请稍后重试。"; code = "request_failed"; details = no_details })
      status
api_error_of (some (error_body info)) status = api_error info status
api_error_of (some _) status = type_error

-- `response.ok`
abbrev pub is_ok : ℕ → Bool
is_ok status = leb 200 status && ltb status 300

-- `body.access_token`
abbrev body_token : Body → Token
body_token (token_body response) = text response.access_token
body_token _ = undefined

-- The first half of `refreshAccessToken`: join the flight, or start one.
unfoldable pub refresh_access_token : Shared → Shared
refresh_access_token s = elim s.refresh_flight [
  | idle ↦ record s { refresh_flight = requesting; refreshes = s.refreshes + 1 }
  | _ ↦ s
]

-- The flight's `await fetch`: without a body to read it fails at once on `body.access_token`.
unfoldable pub refresh_headers : ℕ → Shared → Shared
refresh_headers status s = record s {
  refresh_flight = if status == 204 then settled (rejected type_error) else reading_refresh status;
}

abbrev refreshed : Option Body → Shared → Shared
refreshed none s = record s { refresh_flight = settled (rejected type_error) }
refreshed (some b) s = record s {
  access_token = some (body_token b);
  refresh_flight = settled (fulfilled (some b));
}

-- The rest of the flight, once the body is there.
unfoldable pub refresh_content : ℕ → Option Body → Shared → Shared
unfolding expire api_error_of
refresh_content status body s =
    if is_ok status
    then refreshed body s
    else record (expire s) { refresh_flight = settled (rejected (api_error_of body status)) }

unfoldable pub can_refresh : String → Bool
can_refresh path = not (
    str_eq path "/api/v1/auth/login"
    || str_eq path "/api/v1/auth/refresh"
    || str_eq path "/api/v1/auth/passkeys/authentication/options"
    || str_eq path "/api/v1/auth/passkeys/authentication/verify")

-- `===` on tokens and `null`.
abbrev pub token_eq : Option Token → Option Token → Bool
token_eq none none = true
token_eq (some (text a)) (some (text b)) = str_eq a b
token_eq (some undefined) (some undefined) = true
token_eq _ _ = false

-- Where a call stands: it awaits its response with the token it sent, reads the body of one, awaits
-- the refresh, has its continuation queued behind the refresh, or has settled.
pub data Phase : Type 0 where
  fetching : Option Token → Bool → Phase
  reading : Option Token → ℕ → Phase
  waiting : Phase
  resuming : Outcome → Phase
  finished : Outcome → Phase

abbrev is_json : Transport → Bool
is_json json = true
is_json _ = false

-- A transport up to its `await fetch`, or to `xhr.send`: `tokenUsed` is read and sent.
unfoldable pub begin : Endpoint → Bool → Shared → Shared × Phase
begin e allow_retry s = (record s { sent = request ∷ s.sent }, fetching s.access_token allow_retry)
  where
    request : Sent
    request = record {
      method = e.method;
      path = e.path;
      json_content = is_json e.transport && e.has_body;
      authorization = s.access_token;
    }

-- A 401 that may be repaired: refresh, unless another call has changed the token meanwhile; then
-- the request goes out again, with no further retry.
unfoldable pub retry : Endpoint → Option Token → Shared → Shared × Phase
unfolding refresh_access_token begin
retry e token_used s =
    if token_eq s.access_token token_used
    then (refresh_access_token s, waiting)
    else begin e false s

-- What the method of `api` does with the settled request. Reading a member of `undefined` throws.
unfoldable pub finish : After → Outcome → Shared → Shared × Phase
unfolding set_access_token
finish store_token (fulfilled (some b)) s =
    (set_access_token (some (body_token b)) s, finished (fulfilled (some b)))
finish store_token (fulfilled none) s = (s, finished (rejected type_error))
finish store_authentication (fulfilled (some (registration_body (some t)))) s = (
  set_access_token (some (text t.access_token)) s,
  finished (fulfilled (some (registration_body (some t)))),
)
finish store_authentication (fulfilled none) s = (s, finished (rejected type_error))
finish clear_token outcome s = (set_access_token none s, finished outcome)
finish _ outcome s = (s, finished outcome)
