-- ===== src/Auth/Webauthn/Browser.antt =====
-- A `btoa` and an `atob` that have the laws which apps/web/src/auth/webauthn.ts relies on: base64 with
-- the standard alphabet.
use novel_platform.Common.{
  ℕ, ◌+◌, ◌-◌, ◌*◌, ◌/◌, ◌%◌, ◌≤◌, ◌<◌, Option, none, some, List, [], ◌∷◌, ◌++◌, ltb, ◌==◌,
  if◌then◌else◌, ◌≡◌, refl, arith, length,
}
use novel_platform.Auth.ClientInstance.{Chars}
use novel_platform.Auth.Webauthn.{Base64, equals_signs}
use novel_platform.Auth.Webauthn.Law.{All, IsByte, IsSymbol, IsBase64}

symbol : ℕ → ℕ
symbol n =
    if ltb n 26
    then 65 + n
    else if ltb n 52
    then 71 + n
    else if ltb n 62
    then n - 4
    else if n == 62
    then 43
    else 47

value : ℕ → ℕ
value c =
    if c == 43
    then 62
    else if c == 47
    then 63
    else if ltb c 58
    then c + 4
    else if ltb c 91
    then c - 65
    else c - 71

value-symbol : (n : ℕ) → n < 64 → value (symbol n) ≡ n
unfolding value symbol
value-symbol n h = ground arith

symbol-IsSymbol : (n : ℕ) → n < 64 → IsSymbol (symbol n)
unfolding symbol
symbol-IsSymbol n h = ground arith

pub btoa : List ℕ → Chars
btoa [] = []
btoa (a ∷ []) = symbol (a / 4) ∷ symbol (a % 4 * 16) ∷ 61 ∷ 61 ∷ []
btoa (a ∷ b ∷ []) = symbol (a / 4) ∷ symbol (a % 4 * 16 + b / 16) ∷ symbol (b % 16 * 4) ∷ 61 ∷ []
btoa (a ∷ b ∷ c ∷ rest) =
    symbol (a / 4)
    ∷ symbol (a % 4 * 16 + b / 16)
    ∷ symbol (b % 16 * 4 + c / 64)
    ∷ symbol (c % 64)
    ∷ btoa rest

-- The bytes of a group that is not filled up.
group : ℕ → ℕ → ℕ → ℕ → List ℕ → List ℕ
group x y z w rest = (x * 4 + y / 16) ∷ (y % 16 * 16 + z / 4) ∷ (z % 4 * 64 + w) ∷ rest

pub atob : Chars → Option (List ℕ)
atob [] = some []
atob (x ∷ y ∷ z ∷ w ∷ rest) =
    let more = atob rest in
    if z == 61
    then some ((value x * 4 + value y / 16) ∷ [])
    else if w == 61
    then some ((value x * 4 + value y / 16) ∷ (value y % 16 * 16 + value z / 4) ∷ [])
    else elim more [
      | none ↦ none
      | some bs ↦ some (group (value x) (value y) (value z) (value w) bs)
    ]
atob _ = none

group-bytes :
    (a b c : ℕ) (rest : List ℕ)
    → a < 256
    → b < 256
    → c < 256
    → group (a / 4) (a % 4 * 16 + b / 16) (b % 16 * 4 + c / 64) (c % 64) rest ≡ a ∷ b ∷ c ∷ rest
unfolding group
group-bytes a b c rest h k l = ground arith

atob-btoa : (bytes : List ℕ) → All IsByte bytes → atob (btoa bytes) ≡ some bytes
unfolding atob btoa
atob-btoa [] h = refl
atob-btoa (a ∷ []) (h, _) =
    ground (arith, value-symbol (a / 4) (omega arith), value-symbol (a % 4 * 16) (omega arith))
atob-btoa (a ∷ b ∷ []) (h, (k, _)) = ground (
  arith,
  value-symbol (a / 4) (omega arith),
  value-symbol (a % 4 * 16 + b / 16) (omega arith),
  value-symbol (b % 16 * 4) (omega arith),
  symbol-IsSymbol (b % 16 * 4) (omega arith),
)
atob-btoa (a ∷ b ∷ c ∷ rest) (h, (k, (l, hs))) = ground (
  arith,
  value-symbol (a / 4) (omega arith),
  value-symbol (a % 4 * 16 + b / 16) (omega arith),
  value-symbol (b % 16 * 4 + c / 64) (omega arith),
  value-symbol (c % 64) (omega arith),
  symbol-IsSymbol (b % 16 * 4 + c / 64) (omega arith),
  symbol-IsSymbol (c % 64) (omega arith),
  group-bytes a b c rest h k l,
  atob-btoa rest hs,
)

abbrev Shape : List ℕ → Type 0
Shape bytes =
    (body : Chars) × (signs : ℕ) × (btoa bytes ≡ body ++ equals_signs signs)
    × All IsSymbol body
    × (signs ≤ 2)
    × ((length body + signs) % 4 ≡ 0)

btoa-Shape : (bytes : List ℕ) → All IsByte bytes → Shape bytes
unfolding btoa equals_signs
btoa-Shape [] h = ([], 0, refl, tt, omega arith, omega arith)
btoa-Shape (a ∷ []) (h, _) = (
  symbol (a / 4) ∷ symbol (a % 4 * 16) ∷ [],
  2,
  refl,
  (symbol-IsSymbol _ (omega arith), (symbol-IsSymbol _ (omega arith), tt)),
  omega arith,
  omega arith,
)
btoa-Shape (a ∷ b ∷ []) (h, (k, _)) = (
  symbol (a / 4) ∷ symbol (a % 4 * 16 + b / 16) ∷ symbol (b % 16 * 4) ∷ [],
  1,
  refl,
  (
    symbol-IsSymbol _ (omega arith),
    (symbol-IsSymbol _ (omega arith), (symbol-IsSymbol _ (omega arith), tt)),
  ),
  omega arith,
  omega arith,
)
btoa-Shape (a ∷ b ∷ c ∷ rest) (h, (k, (l, hs))) =
    let (body, signs, e, s, m, n) = btoa-Shape rest hs in
    (
      symbol (a / 4)
          ∷ symbol (a % 4 * 16 + b / 16)
          ∷ symbol (b % 16 * 4 + c / 64)
          ∷ symbol (c % 64)
          ∷ body,
      signs,
      rw e refl,
      (
        symbol-IsSymbol (a / 4) (omega arith),
        (
          symbol-IsSymbol (a % 4 * 16 + b / 16) (omega arith),
          (
            symbol-IsSymbol (b % 16 * 4 + c / 64) (omega arith),
            (symbol-IsSymbol (c % 64) (omega arith), s),
          ),
        ),
      ),
      m,
      omega arith,
    )

unfoldable pub browser : Base64
browser = record { btoa = btoa; atob = atob }

pub browser-IsBase64 : IsBase64 browser
unfolding browser
browser-IsBase64 = record { atob-btoa = atob-btoa; btoa_shape = btoa-Shape }
