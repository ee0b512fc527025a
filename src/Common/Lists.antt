-- ===== src/Common/Lists.antt =====
-- Lists measured and indexed by native numbers, under the library's names.
use Prim.Native.Nat.{ℕ, zero, suc, ◌+◌}
use mathlib.Core.Path.{◌≡◌, refl, ap}
use mathlib.Core.Bool.{Bool, true, false, ◌||◌, ◌&&◌}
use mathlib.Core.List.{List, [], ◌∷◌, ◌++◌}
use mathlib.Core.Option.{Option, none, some}
use native.Mathlib.Omega.{arith}

module _ {ℓ} {A : Type ℓ} where
  abbrev pub length : List A → ℕ
  length [] = 0
  length (x ∷ xs) = suc (length xs)

  abbrev pub get_elem? : List A → ℕ → Option A
  get_elem? [] i = none
  get_elem? (x ∷ xs) zero = some x
  get_elem? (x ∷ xs) (suc i) = get_elem? xs i

  abbrev pub erase_at : List A → ℕ → List A
  erase_at [] i = []
  erase_at (x ∷ xs) zero = xs
  erase_at (x ∷ xs) (suc i) = x ∷ erase_at xs i

  abbrev pub is_cons : List A → Bool
  is_cons [] = false
  is_cons (x ∷ xs) = true

  -- A write out of bounds changes nothing.
  abbrev pub modify : List A → ℕ → (A → A) → List A
  modify [] i f = []
  modify (x ∷ xs) zero f = f x ∷ xs
  modify (x ∷ xs) (suc i) f = x ∷ modify xs i f

  -- `Array.prototype.some`
  abbrev pub any : (A → Bool) → List A → Bool
  any p [] = false
  any p (x ∷ xs) = p x || any p xs

  -- `Array.prototype.every`
  abbrev pub all : (A → Bool) → List A → Bool
  all p [] = true
  all p (x ∷ xs) = p x && all p xs

  pub is_cons-last : (xs : List A) (x : A) → is_cons (xs ++ x ∷ []) ≡ true
  is_cons-last [] x = refl
  is_cons-last (y ∷ xs) x = refl

  pub length-append : (xs ys : List A) → length (xs ++ ys) ≡ length xs + length ys
  length-append [] ys = omega arith
  length-append (x ∷ xs) ys = omega (arith, length-append xs ys)

  pub get_elem?-modify :
      (xs : List A) (i : ℕ) (x : A) (f : A → A)
      → get_elem? xs i ≡ some x
      → get_elem? (modify xs i f) i ≡ some (f x)
  get_elem?-modify [] i x f h = absurd (ground arith)
  get_elem?-modify (y ∷ xs) zero x f h = ground (arith, h)
  get_elem?-modify (y ∷ xs) (suc i) x f h = get_elem?-modify xs i x f h

  pub length-modify : (xs : List A) (i : ℕ) (f : A → A) → length (modify xs i f) ≡ length xs
  length-modify [] i f = refl
  length-modify (x ∷ xs) zero f = refl
  length-modify (x ∷ xs) (suc i) f = ap suc (length-modify xs i f)

pub or_right : (b c c' : Bool) → (c ≡ true → c' ≡ true) → (b || c) ≡ true → (b || c') ≡ true
or_right true c c' h k = refl
or_right false c c' h k = h k

module _ {ℓ} {A : Type ℓ} (f : A → Bool) where
  pub any-more : (xs : List A) (x : A) → any f xs ≡ true → any f (xs ++ x ∷ []) ≡ true
  any-more [] x h = absurd (ground arith)
  any-more (y ∷ xs) x h = or_right (f y) (any f xs) _ (any-more xs x) h

  pub any-last : (xs : List A) (x : A) → f x ≡ true → any f (xs ++ x ∷ []) ≡ true
  any-last [] x h = ground (arith, h)
  any-last (y ∷ xs) x h = ground (arith, any-last xs x h)

  -- What does not satisfy the test can be taken out.
  pub any-erase_at :
      (xs : List A) (i : ℕ) (x : A)
      → get_elem? xs i ≡ some x
      → f x ≡ false
      → any f xs ≡ true
      → any f (erase_at xs i) ≡ true
  any-erase_at [] i x e h k = k
  any-erase_at (y ∷ xs) zero x e h k = ground arith
  any-erase_at (y ∷ xs) (suc i) x e h k = or_right (f y) (any f xs) _ (any-erase_at xs i x e h) k
