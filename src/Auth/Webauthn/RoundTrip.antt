-- ===== src/Auth/Webauthn/RoundTrip.antt =====
-- `decodeBase64Url` after `encodeBase64Url` of apps/web/src/auth/webauthn.ts.
use novel_platform.Common.{
  ℕ, zero, suc, ◌+◌, ◌-◌, ◌*◌, ◌/◌, ◌%◌, ◌≤◌, some, List, [], ◌∷◌, ◌++◌, ◌≡◌, refl, ap, sym, ◌∙◌,
  length, arith,
}
use novel_platform.Auth.ClientInstance.{Chars}
use novel_platform.Auth.Webauthn.{
  Base64, replace_code, replace_all, strip_padding, equals_signs, pad, decode, encode,
}
use novel_platform.Auth.Webauthn.Law.{All, IsByte, IsSymbol, IsBase64}

-- The alphabet of base64url: `+` and `/` are written `-` and `_`.
abbrev url_safe : Chars → Chars
url_safe cs = replace_all 47 95 (replace_all 43 45 cs)

abbrev standard : Chars → Chars
standard cs = replace_all 95 47 (replace_all 45 43 cs)

replace_code_back :
    (c : ℕ)
    → IsSymbol c
    → replace_code 95 47 (replace_code 45 43 (replace_code 47 95 (replace_code 43 45 c))) ≡ c
replace_code_back c h = ground arith

standard-url_safe : (cs : Chars) → All IsSymbol cs → standard (url_safe cs) ≡ cs
unfolding replace_all
standard-url_safe [] h = refl
standard-url_safe (c ∷ cs) (h, hs) = ground (arith, replace_code_back c h, standard-url_safe cs hs)

length-url_safe : (cs : Chars) → length (url_safe cs) ≡ length cs
unfolding replace_all
length-url_safe [] = refl
length-url_safe (c ∷ cs) = ap suc (length-url_safe cs)

strip-equals_signs : (n : ℕ) → strip_padding (url_safe (equals_signs n)) ≡ []
unfolding replace_all strip_padding equals_signs
strip-equals_signs zero = refl
strip-equals_signs (suc n) = ground (arith, strip-equals_signs n)

strip-url_safe :
    (body : Chars) (n : ℕ)
    → All IsSymbol body
    → strip_padding (url_safe (body ++ equals_signs n)) ≡ url_safe body
unfolding replace_all strip_padding
strip-url_safe [] n h = strip-equals_signs n
strip-url_safe (c ∷ body) n (h, hs) = ground (arith, strip-url_safe body n hs)

signs_needed : (l n : ℕ) → n ≤ 2 → (l + n) % 4 ≡ 0 → (l + 3) / 4 * 4 - l ≡ n
signs_needed l n h k = omega arith

pad-body :
    (body : Chars) (n : ℕ) → n ≤ 2 → (length body + n) % 4 ≡ 0 → pad body ≡ body ++ equals_signs n
unfolding pad
pad-body body n k l = ap (λ m. body ++ equals_signs m) (signs_needed (length body) n k l)

-- Reading a text back fills it up as it was before.
pad-strip_padding :
    (text body : Chars) (n : ℕ)
    → text ≡ body ++ equals_signs n
    → All IsSymbol body
    → n ≤ 2
    → (length body + n) % 4 ≡ 0
    → pad (standard (strip_padding (url_safe text))) ≡ text
pad-strip_padding text body n e h k l =
    ap (λ t. pad (standard (strip_padding (url_safe t)))) e
    ∙ ap (λ t. pad (standard t)) (strip-url_safe body n h)
    ∙ ap pad (standard-url_safe body h)
    ∙ pad-body body n k l
    ∙ sym e

module _ (base64 : Base64) (law : IsBase64 base64) where
  -- If the browser's base64 has its laws, what the page encodes for the server decodes to the same
  -- bytes, whatever their number.
  pub decode-encode :
      (bytes : List ℕ) → All IsByte bytes → decode base64 (encode base64 bytes) ≡ some bytes
  unfolding decode encode
  decode-encode bytes h =
      let (body, n, e, s, k, l) = law.btoa_shape bytes h in
      ap base64.atob (pad-strip_padding (base64.btoa bytes) body n e s k l) ∙ law.atob-btoa bytes h
