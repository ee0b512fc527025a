-- ===== src/Auth/Joint/Tests.antt =====
-- A reader who signs in, and whose session ends while a page loads, in apps/web/src/auth/AuthProvider.tsx.
use novel_platform.Common.{false, ℕ, true, none, some, is_some, List, [], ◌∷◌, ◌++◌, ◌≡◌, refl}
use novel_platform.Api.Types.{
  UserRole, User, TokenResponse, token_body, error_body, ErrorInfo, Endpoint, json, Method,
  store_token, nothing,
}
use novel_platform.Api.Client.{can_refresh}
use novel_platform.Api.Client.Tasks.{headers, content, step, arrive}
use novel_platform.Auth.Routes.{anonymous, authenticated}
use novel_platform.Auth.Provider.{provide}
use novel_platform.Auth.Provider.Consistent.{Consistent}
use novel_platform.Auth.Joint.{
  Happening, site_arrives, calls, arrives, refresh_arrives, happens, happen_all, loaded,
}

abbrev owner : User
owner = record { id = "u1"; display_name = "Owner"; role = UserRole.admin }

abbrev tokens : TokenResponse
tokens = record {
  access_token = "t1";
  user = owner;
  device = record { id = "d1"; name = "desk" };
  session = record { id = "s1"; recovery_mode = false };
}

abbrev refusal : ErrorInfo
refusal = record {
  message = "expired";
  code = "unauthorized";
  details = record { current_version = none; import_id = none };
}

abbrev sign_in : Endpoint
sign_in = record {
  transport = json;
  method = Method.post;
  path = "/api/v1/auth/login";
  has_body = true;
  after = store_token;
}

abbrev books : Endpoint
books = record {
  transport = json;
  method = Method.get;
  path = "/api/v1/books";
  has_body = false;
  after = nothing;
}

-- The refresh of the start is refused, and the reader signs in.
abbrev signing_in : List (Happening ℕ)
signing_in =
    site_arrives (some 7)
    ∷ refresh_arrives (headers 401)
    ∷ refresh_arrives (content (some (error_body refusal)))
    ∷ calls sign_in
    ∷ arrives 0 (headers 200)
    ∷ arrives 0 (content (some (token_body tokens)))
    ∷ []

-- A load is refused, and so is the refresh that it starts.
abbrev ending : List (Happening ℕ)
ending =
    calls books
    ∷ arrives 1 (headers 401)
    ∷ refresh_arrives (headers 401)
    ∷ refresh_arrives (content (some (error_body refusal)))
    ∷ []

signed_in_then :
    let j = happen_all signing_in loaded in
    (j.provider.phase ≡ authenticated) × (is_some j.client.shared.access_token ≡ true)
unfolding happen_all happens loaded step arrive can_refresh provide
signed_in_then = (refl, refl)

ended_then :
    let j = happen_all (signing_in ++ ending) loaded in
    (j.provider.phase ≡ anonymous) × (j.client.shared.access_token ≡ none)
unfolding happen_all happens loaded step arrive can_refresh provide
ended_then = (refl, refl)

-- A sign-in that is answered with another body authenticates nobody in particular.
signed_in_bare :
    let j =
      happen_all
        (calls sign_in
          ∷ arrives 0 (headers 200)
          ∷ arrives 0 (content (some (error_body refusal)))
          ∷ [])
        (loaded {S = ℕ}) in
    (j.provider.phase ≡ authenticated) × (j.provider.user ≡ none)
unfolding happen_all happens loaded step arrive can_refresh provide
signed_in_bare = (refl, refl)
