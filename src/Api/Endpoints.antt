-- ===== src/Api/Endpoints.antt =====
-- The object `api` of apps/web/src/api/client.ts: the request that each of its methods describes.
-- A payload is only known to be there; `keepalive` is a hint to the browser and is left out.
pub mod Account
pub mod Library
pub mod Reading
pub mod Admin
pub mod Refreshable
use novel_platform.Common.{
  ℕ, String, Bool, true, false, Option, none, some, List, [], ◌∷◌, ◌++◌, if◌then◌else◌,
}
use novel_platform.Common.Text.{str_eq}
use novel_platform.Api.Types.{Method, Transport, json, binary, After, nothing, Endpoint}

-- What the platform does to build an address: `encodeURIComponent`, `String` of a number, and
-- `URLSearchParams` as text.
pub record Platform : Type 0 where
  pub encode_component : String → String
  pub number_text : ℕ → String
  pub query_text : List (String × String) → String

-- `request(path, { method })`, with a body or without one.
abbrev pub request : Method → String → Bool → Endpoint
request method path has_body = record {
  transport = json;
  method = method;
  path = path;
  has_body = has_body;
  after = nothing;
}

-- `requestBlob(path)`
abbrev pub request_blob : String → Endpoint
request_blob path = record {
  transport = binary;
  method = Method.get;
  path = path;
  has_body = false;
  after = nothing;
}

-- `if (value) search.set(key, value)`: an empty text is no value.
unfoldable pub search_set : String → Option String → List (String × String) → List (String × String)
search_set key none search = search
search_set key (some value) search = if str_eq value "" then search else search ++ (key, value) ∷ []
