-- ===== src/Auth/Webauthn/Law.antt =====
-- What the browser's `btoa` and `atob` are documented to do (the standard's forgiving base64).
use novel_platform.Common.{ℕ, ◌+◌, ◌%◌, ◌≤◌, ◌<◌, some, List, [], ◌∷◌, ◌++◌, ◌≡◌, ◌≢◌, length}
use novel_platform.Auth.ClientInstance.{Chars}
use novel_platform.Auth.Webauthn.{Base64, equals_signs}

abbrev pub All {ℓ} : {A : Type ℓ} → (A → Type 0) → List A → Type 0
All P [] = Unit
All P (x ∷ xs) = P x × All P xs

abbrev pub IsByte : ℕ → Type 0
IsByte b = b < 256

-- No `=`, and neither `-` nor `_`.
abbrev pub IsSymbol : ℕ → Type 0
IsSymbol c = (c ≢ 61) × (c ≢ 45) × (c ≢ 95)

-- `btoa` writes groups of four, of which the last is filled up with at most two `=`, and `atob` reads
-- what it writes.
pub record IsBase64 (b : Base64) : Type 0 where
  pub atob-btoa : (bytes : List ℕ) → All IsByte bytes → b.atob (b.btoa bytes) ≡ some bytes
  pub btoa_shape :
      (bytes : List ℕ)
      → All IsByte bytes
      → (body : Chars) × (signs : ℕ) × (b.btoa bytes ≡ body ++ equals_signs signs)
        × All IsSymbol body
        × (signs ≤ 2)
        × ((length body + signs) % 4 ≡ 0)
