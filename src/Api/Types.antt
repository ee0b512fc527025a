-- ===== src/Api/Types.antt =====
-- The parts of the API's answers that the modelled code reads (apps/web/src/api/types.ts), the
-- errors of apps/web/src/api/client.ts, and the requests that its methods describe.
use novel_platform.Common.{ℕ, String, Bool, Option}

pub data UserRole : Type 0 where
  admin reader : UserRole

pub record User : Type 0 where
  pub id : String
  pub display_name : String
  pub role : UserRole

pub record LoginDevice : Type 0 where
  pub id : String
  pub name : String

pub record LoginSession : Type 0 where
  pub id : String
  pub recovery_mode : Bool

pub record TokenResponse : Type 0 where
  pub access_token : String
  pub user : User
  pub device : LoginDevice
  pub session : LoginSession

-- What `accessToken` holds when it is not `null`. A body that is no token response has no
-- `access_token`, and then the variable holds `undefined`.
pub data Token : Type 0 where
  text : String → Token
  undefined : Token

-- The members of `error.details` that the pages read.
pub record Details : Type 0 where
  pub current_version : Option ℕ
  pub import_id : Option String

pub record ErrorInfo : Type 0 where
  pub message : String
  pub code : String
  pub details : Details

-- A parsed JSON body other than `null`, by the members that the client reads.
pub data Body : Type 0 where
  token_body : TokenResponse → Body
  registration_body : Option TokenResponse → Body
  error_body : ErrorInfo → Body
  other_body : Body

-- What an `await` can throw: an `ApiError`, a read through `null` or `undefined`, or a failed fetch.
pub data Thrown : Type 0 where
  api_error : ErrorInfo → ℕ → Thrown
  type_error : Thrown
  fetch_failed : Thrown

-- How a promise settles; `none` stands for `null` and `undefined`.
pub data Outcome : Type 0 where
  fulfilled : Option Body → Outcome
  blob : Outcome
  rejected : Thrown → Outcome

pub data Method : Type 0 where
  get post patch delete : Method

-- Which of `request`, `requestBlob` and `uploadImport` carries the call.
pub data Transport : Type 0 where
  json binary form : Transport

-- What the method of `api` does with the result of its request.
pub data After : Type 0 where
  nothing : After
  store_token : After
  store_authentication : After
  clear_token : After

pub record Endpoint : Type 0 where
  pub transport : Transport
  pub method : Method
  pub path : String
  pub has_body : Bool
  pub after : After
