-- ===== src/Common/Text.antt =====
-- Texts: comparison, joining, and when a text with a known beginning differs from a constant.
use Prim.Native.Char.{Char, code}
use Prim.Native.Nat.{compare, Ordering}
use Prim.Native.String
use Prim.Native.String.{String, [], ◌∷◌}
use mathlib.Core.Path.{◌≡◌, ap, ◌∙◌, sym}
use mathlib.Core.Logic.{◌≢◌, ◌↔◌}
use mathlib.Core.Bool.{Bool, true, false}
use mathlib.Core.Option.{Option, none, some}
use novel_platform.Common.Tests.{if◌then◌else◌}
use native.Mathlib.Omega.{arith}
use native.Mathlib.Decide.{ℕ_discrete}
use text.Mathlib.Text.{◌==◌ as text_eq}
use text.Mathlib.TextEquality.{eq_iff as text_eq_iff}
use text.Mathlib.TextLemmas.{cons-append, head-eq_of_cons-eq, tail-eq_of_cons-eq, cons≢nil}

-- `s === t`
abbrev pub str_eq : String → String → Bool
str_eq = text_eq

pub str_eq_iff : (s t : String) → (str_eq s t ≡ true) ↔ (s ≡ t)
str_eq_iff = text_eq_iff

infixr 66 ◌⧺◌
-- Template literals and `+` on texts.
abbrev pub ◌⧺◌ : String → String → String
s ⧺ t = String.◌++◌ s t

-- `s || null`
abbrev pub or_null : String → Option String
or_null s = if str_eq s "" then none else some s

-- `s ?? ""`
abbrev pub or_empty : Option String → String
or_empty none = ""
or_empty (some s) = s

-- The first text has a character that differs from the second's, or goes on where the second ends.
abbrev pub diverges : String → String → Bool
diverges [] q = false
diverges (c ∷ p) [] = true
diverges (c ∷ p) (d ∷ q) = elim (compare (code c) (code d)) [
  | Ordering.eq ↦ diverges p q
  | _ ↦ true
]

module _ {c d : Char} {p q : String} where
  heads_differ : code c ≢ code d → c ∷ p ≢ d ∷ q
  heads_differ h e = h (ap code (head-eq_of_cons-eq e))

-- A text that begins with `p` is not `q` where the two diverge, whatever follows.
pub append-ne_of_diverges : (p q x : String) → diverges p q ≡ true → p ⧺ x ≢ q
append-ne_of_diverges [] q x h = cc
append-ne_of_diverges (c ∷ p) [] x h = λ e. cons≢nil (sym (cons-append c p x) ∙ e)
append-ne_of_diverges (c ∷ p) (d ∷ q) x h =
    rw (cons-append c p x) (elim (ℕ_discrete (code c) (code d)) [
      | yes same ↦ λ e. append-ne_of_diverges p q x (ground arith) (tail-eq_of_cons-eq e)
      | no other ↦ heads_differ other
    ])

pub str_eq-append_of_diverges : (p q x : String) → diverges p q ≡ true → str_eq (p ⧺ x) q ≡ false
str_eq-append_of_diverges p q x h =
    ground (arith, append-ne_of_diverges p q x h, str_eq_iff (p ⧺ x) q)
