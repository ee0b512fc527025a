-- ===== src/Auth/Webauthn/Transfer.antt =====
-- The two passkey functions of apps/web/src/auth/webauthn.ts between a server that encodes as they do and
-- an authenticator.
use novel_platform.Common.{ℕ, true, Option, some, List, [], ◌∷◌, map, ◌≡◌, refl, ap}
use novel_platform.Auth.ClientInstance.{Chars}
use novel_platform.Auth.Webauthn.{Base64, encode}
use novel_platform.Auth.Webauthn.Law.{All, IsByte, IsBase64}
use novel_platform.Auth.Webauthn.RoundTrip.{decode-encode}
use novel_platform.Auth.Webauthn.Passkeys.{
  ok, decoded, descriptors, optional_descriptors, or_fail, answer_with, CreationRequest,
  Attestation, attestation_json, creation_request, create_passkey, AssertionRequest, Assertion,
  assertion_json, assertion_request, get_passkey_assertion,
}

abbrev pub encode_all : Base64 → List (List ℕ) → List Chars
encode_all base64 = map (encode base64)

module _ (base64 : Base64) (law : IsBase64 base64) where
  decoded-encode :
      (bytes : List ℕ) → All IsByte bytes → decoded base64 (encode base64 bytes) ≡ ok bytes
  decoded-encode bytes h = ap (or_fail _) (decode-encode base64 law bytes h)

  descriptors-encode :
      (ids : List (List ℕ))
      → All (All IsByte) ids
      → descriptors base64 (encode_all base64 ids) ≡ ok ids
  unfolding descriptors
  descriptors-encode [] h = refl
  descriptors-encode (b ∷ ids) (h, hs) = rw (decoded-encode b h, descriptors-encode ids hs) refl

  -- What the authenticator is asked with the server's encoded options are the server's bytes, and its
  -- credential is encoded for the answer; without a credential the function fails.
  create_passkey-encode :
      (create : CreationRequest → Option Attestation) (challenge user_id : List ℕ)
      (excluded : List (List ℕ))
      → All IsByte challenge
      → All IsByte user_id
      → All (All IsByte) excluded
      → create_passkey base64 true create (record {
        challenge = encode base64 challenge;
        user_id = encode base64 user_id;
        exclude_credentials = some (encode_all base64 excluded);
      })
        ≡ answer_with (attestation_json base64) (
            create (record {
              challenge = challenge;
              user_id = user_id;
              exclude_credentials = some excluded;
            }))
  unfolding create_passkey creation_request optional_descriptors
  create_passkey-encode create challenge user_id excluded h k l =
      rw (decoded-encode challenge h, decoded-encode user_id k, descriptors-encode excluded l) refl

  -- The same for an assertion; the credentials that are allowed arrive as the server named them.
  get_passkey_assertion-encode :
      (get : AssertionRequest → Option Assertion) (challenge : List ℕ) (allowed : List (List ℕ))
      → All IsByte challenge
      → All (All IsByte) allowed
      → get_passkey_assertion base64 true get (record {
        challenge = encode base64 challenge;
        allow_credentials = some (encode_all base64 allowed);
      })
        ≡ answer_with
            (assertion_json base64)
            (get (record { challenge = challenge; allow_credentials = some allowed }))
  unfolding get_passkey_assertion assertion_request optional_descriptors
  get_passkey_assertion-encode get challenge allowed h k =
      rw (decoded-encode challenge h, descriptors-encode allowed k) refl
