-- ===== src/Auth/Webauthn/Tests.antt =====
-- The encodings of apps/web/src/auth/webauthn.ts at concrete bytes, with the standard's base64.
use novel_platform.Common.{ℕ, some, List, [], ◌∷◌, ◌≡◌, arith}
use novel_platform.Auth.Webauthn.{decode, encode}
use novel_platform.Auth.Webauthn.Law.{All, IsByte}
use novel_platform.Auth.Webauthn.RoundTrip.{decode-encode}
use novel_platform.Auth.Webauthn.Browser.{browser, browser-IsBase64}

-- Bytes whose base64 has `+`, `/` and both signs.
abbrev bytes : List ℕ
bytes = 251 ∷ 255 ∷ 190 ∷ 7 ∷ []

bytes-All : All IsByte bytes
bytes-All = (omega arith, (omega arith, (omega arith, (omega arith, tt))))

decode-encode_example : decode browser (encode browser bytes) ≡ some bytes
decode-encode_example = decode-encode browser browser-IsBase64 bytes bytes-All
