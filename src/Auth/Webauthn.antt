-- ===== src/Auth/Webauthn.antt =====
-- apps/web/src/auth/webauthn.ts: the base64url texts of the server against the bytes of the browser's
-- authenticator. A text is the list of its character codes; the browser's `btoa` and `atob`, and the
-- authenticator, are arguments.
pub mod Law
pub mod Passkeys
pub mod RoundTrip
pub mod Transfer
mod Browser
mod Tests
use novel_platform.Common.{
  ℕ, zero, suc, ◌+◌, ◌-◌, ◌*◌, ◌/◌, Bool, true, false, ◌&&◌, Option, none, some, List, [], ◌∷◌,
  ◌++◌, map, ◌==◌, if◌then◌else◌, length,
}
use novel_platform.Auth.ClientInstance.{Chars}

pub record Base64 : Type 0 where
  pub btoa : List ℕ → Chars
  pub atob : Chars → Option (List ℕ)

-- `replace(/a/g, b)` for one character.
abbrev pub replace_code : ℕ → ℕ → ℕ → ℕ
replace_code a b c = if c == a then b else c

unfoldable pub replace_all : ℕ → ℕ → Chars → Chars
replace_all a b cs = map (replace_code a b) cs

abbrev pub is_nil : Chars → Bool
is_nil [] = true
is_nil (c ∷ cs) = false

-- `replace(/=+$/, "")`
unfoldable pub strip_padding : Chars → Chars
strip_padding [] = []
strip_padding (c ∷ cs) =
    let rest = strip_padding cs in if c == 61 && is_nil rest then [] else c ∷ rest

unfoldable pub equals_signs : ℕ → Chars
equals_signs zero = []
equals_signs (suc n) = 61 ∷ equals_signs n

-- `padEnd(Math.ceil(length / 4) * 4, "=")`
unfoldable pub pad : Chars → Chars
unfolding equals_signs
pad cs = cs ++ equals_signs ((length cs + 3) / 4 * 4 - length cs)

module _ (base64 : Base64) where
  -- `decodeBase64Url`; `none` is what `atob` throws.
  unfoldable pub decode : Chars → Option (List ℕ)
  unfolding replace_all pad
  decode value = base64.atob (pad (replace_all 95 47 (replace_all 45 43 value)))

  -- `encodeBase64Url`
  unfoldable pub encode : List ℕ → Chars
  unfolding replace_all strip_padding
  encode bytes = strip_padding (replace_all 47 95 (replace_all 43 45 (base64.btoa bytes)))
