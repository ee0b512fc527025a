-- ===== src/Auth/Webauthn/Passkeys.antt =====
-- `createPasskey` and `getPasskeyAssertion` of apps/web/src/auth/webauthn.ts. Of the options the members
-- are kept that are decoded; the others are passed on as they are.
use novel_platform.Common.{ℕ, String, Bool, true, false, Option, none, some, List, [], ◌∷◌}
use novel_platform.Auth.ClientInstance.{Chars}
use novel_platform.Auth.Webauthn.{Base64, decode, encode}

-- `CreationOptionsJson`; `exclude_credentials` may be missing.
pub record CreationOptions : Type 0 where
  pub challenge : Chars
  pub user_id : Chars
  pub exclude_credentials : Option (List Chars)

-- What `navigator.credentials.create` is called with.
pub record CreationRequest : Type 0 where
  pub challenge : List ℕ
  pub user_id : List ℕ
  pub exclude_credentials : Option (List (List ℕ))

-- The credential of the authenticator, by the members that are encoded.
pub record Attestation : Type 0 where
  pub id : String
  pub raw_id : List ℕ
  pub attestation_object : List ℕ
  pub client_data : List ℕ

pub record AttestationJson : Type 0 where
  pub id : String
  pub raw_id : Chars
  pub attestation_object : Chars
  pub client_data : Chars

-- `RequestOptionsJson`
pub record RequestOptions : Type 0 where
  pub challenge : Chars
  pub allow_credentials : Option (List Chars)

pub record AssertionRequest : Type 0 where
  pub challenge : List ℕ
  pub allow_credentials : Option (List (List ℕ))

pub record Assertion : Type 0 where
  pub id : String
  pub raw_id : List ℕ
  pub authenticator_data : List ℕ
  pub client_data : List ℕ
  pub signature : List ℕ
  pub user_handle : Option (List ℕ)

pub record AssertionJson : Type 0 where
  pub id : String
  pub raw_id : Chars
  pub authenticator_data : Chars
  pub client_data : Chars
  pub signature : Chars
  pub user_handle : Option Chars

-- What the functions throw: their own errors, and what `atob` throws on a text that is no base64.
pub data Failure : Type 0 where
  not_supported no_credential invalid_text : Failure

pub data Result (A : Type 0) : Type 0 where
  ok : A → Result A
  failed : Failure → Result A

infixl 5 ◌>>=◌
abbrev ◌>>=◌ : {A B : Type 0} → Result A → (A → Result B) → Result B
ok a >>= f = f a
failed e >>= f = failed e

-- `none` is what the browser's function throws or lacks.
abbrev pub or_fail : {A : Type 0} → Failure → Option A → Result A
or_fail e none = failed e
or_fail e (some a) = ok a

-- The credential that was returned, encoded; `none` is no public-key credential.
abbrev pub answer_with : {A B : Type 0} → (A → B) → Option A → Result B
answer_with json none = failed no_credential
answer_with json (some a) = ok (json a)

module _ (base64 : Base64) where
  abbrev pub decoded : Chars → Result (List ℕ)
  decoded value = or_fail invalid_text (decode base64 value)

  -- `values.map(descriptor)`
  unfoldable pub descriptors : List Chars → Result (List (List ℕ))
  descriptors [] = ok []
  descriptors (v ∷ vs) = do b ← decoded v; bs ← descriptors vs; ok (b ∷ bs)

  -- `values?.map(descriptor)`
  unfoldable pub optional_descriptors : Option (List Chars) → Result (Option (List (List ℕ)))
  unfolding descriptors
  optional_descriptors none = ok none
  optional_descriptors (some vs) = do bs ← descriptors vs; ok (some bs)

  unfoldable pub creation_request : CreationOptions → Result CreationRequest
  unfolding optional_descriptors
  creation_request o = do
    challenge ← decoded o.challenge
    user_id ← decoded o.user_id
    excluded ← optional_descriptors o.exclude_credentials
    ok (record { challenge = challenge; user_id = user_id; exclude_credentials = excluded })

  unfoldable pub attestation_json : Attestation → AttestationJson
  attestation_json a = record {
    id = a.id;
    raw_id = encode base64 a.raw_id;
    attestation_object = encode base64 a.attestation_object;
    client_data = encode base64 a.client_data;
  }

  -- `createPasskey`; `create` is `navigator.credentials.create`.
  unfoldable pub create_passkey :
      Bool → (CreationRequest → Option Attestation) → CreationOptions → Result AttestationJson
  unfolding creation_request attestation_json
  create_passkey false create o = failed not_supported
  create_passkey true create o = do
    request ← creation_request o
    answer_with attestation_json (create request)

  unfoldable pub assertion_request : RequestOptions → Result AssertionRequest
  unfolding optional_descriptors
  assertion_request o = do
    challenge ← decoded o.challenge
    allowed ← optional_descriptors o.allow_credentials
    ok (record { challenge = challenge; allow_credentials = allowed })

  abbrev pub optional_encode : Option (List ℕ) → Option Chars
  optional_encode none = none
  optional_encode (some b) = some (encode base64 b)

  unfoldable pub assertion_json : Assertion → AssertionJson
  assertion_json a = record {
    id = a.id;
    raw_id = encode base64 a.raw_id;
    authenticator_data = encode base64 a.authenticator_data;
    client_data = encode base64 a.client_data;
    signature = encode base64 a.signature;
    user_handle = optional_encode a.user_handle;
  }

  -- `getPasskeyAssertion`
  unfoldable pub get_passkey_assertion :
      Bool → (AssertionRequest → Option Assertion) → RequestOptions → Result AssertionJson
  unfolding assertion_request assertion_json
  get_passkey_assertion false get o = failed not_supported
  get_passkey_assertion true get o = do
    request ← assertion_request o
    answer_with assertion_json (get request)
