-- ===== src/Auth/ClientInstance.antt =====
-- The identifier of this browser, `clientInstanceId` of apps/web/src/auth/AuthProvider.tsx. A text is
-- the list of its character codes. The bytes of `getRandomValues` are an argument.
pub mod Stable
use novel_platform.Common.{
  ℕ, ◌+◌, ◌/◌, ◌%◌, Bool, true, false, ◌&&◌, ◌||◌, Option, none, some, List, [], ◌∷◌, ◌++◌, ltb,
  leb, ◌==◌, if◌then◌else◌,
}

abbrev pub Chars : Type 0
Chars = List ℕ

-- The character classes of `UUID_PATTERN`.
pub data Class : Type 0 where
  hex dash version variant : Class

abbrev pub between : ℕ → ℕ → ℕ → Bool
between low c high = leb low c && leb c high

-- `[0-9a-f]`, without regard to case
unfoldable pub is_hex : ℕ → Bool
is_hex c = between 48 c 57 || (between 97 c 102 || between 65 c 70)

unfoldable pub in_class : Class → ℕ → Bool
unfolding is_hex
in_class hex c = is_hex c
in_class dash c = c == 45
in_class version c = between 49 c 53
in_class variant c = between 56 c 57 || (between 97 c 98 || between 65 c 66)

unfoldable pub matches : List Class → Chars → Bool
matches [] [] = true
matches [] (c ∷ cs) = false
matches (k ∷ ks) [] = false
matches (k ∷ ks) (c ∷ cs) = in_class k c && matches ks cs

abbrev pub hex4 : List Class → List Class
hex4 ks = hex ∷ hex ∷ hex ∷ hex ∷ ks

abbrev pub hex3 : List Class → List Class
hex3 ks = hex ∷ hex ∷ hex ∷ ks

-- `UUID_PATTERN`
abbrev pub uuid_pattern : List Class
uuid_pattern = hex4 (
    hex4
      (dash ∷ hex4 (dash ∷ version ∷ hex3 (dash ∷ variant ∷ hex3 (dash ∷ hex4 (hex4 (hex4 [])))))))

-- One digit of `toString(16)`
unfoldable pub hex_digit : ℕ → ℕ
hex_digit n = if ltb n 10 then 48 + n else 87 + n

-- The bytes at their indices, with the version and the variant set; the disjoint bits of `|` are added.
unfoldable pub adjusted : (ℕ → ℕ) → ℕ → ℕ
adjusted bytes i =
    if i == 6 then bytes 6 % 16 + 64 else if i == 8 then bytes 8 % 64 + 128 else bytes i

-- `value.toString(16).padStart(2, "0")` of a byte, before `rest`
unfoldable pub hex_byte : ℕ → Chars → Chars
hex_byte b rest = hex_digit (b / 16 % 16) ∷ hex_digit (b % 16) ∷ rest

-- `randomClientInstanceId` where `randomUUID` is missing: the hexadecimal digits in their five slices.
unfoldable pub random_client_instance_id : (ℕ → ℕ) → Chars
unfolding hex_byte
random_client_instance_id bytes =
    let a = adjusted bytes in
    hex_byte (a 0) (
      hex_byte (a 1) (
        hex_byte (a 2) (
          hex_byte (a 3) (
            45
            ∷ hex_byte (a 4) (
                hex_byte (a 5) (
                  45
                  ∷ hex_byte (a 6) (
                      hex_byte (a 7) (
                        45
                        ∷ hex_byte (a 8) (
                            hex_byte (a 9) (
                              45
                              ∷ hex_byte (a 10) (
                                  hex_byte (a 11) (
                                    hex_byte (a 12) (
                                      hex_byte (a 13)
                                        (hex_byte (a 14) (hex_byte (a 15) [])))))))))))))))

-- The module's variable, and the browser's storage: its item, and whether its calls throw.
pub record Browser : Type 0 where
  pub in_memory : Option Chars
  pub stored : Option Chars
  pub can_get : Bool
  pub can_remove : Bool
  pub can_set : Bool

-- The first `try`: the item if it is an identifier; another item is removed.
unfoldable pub existing_id : Option Chars → Browser → Option Chars × Browser
existing_id none b = (none, b)
existing_id (some s) b =
    if matches uuid_pattern s
    then (some s, record b { in_memory = some s })
    else (none, if b.can_remove then record b { stored = none } else b)

unfoldable pub get_stored : Browser → Option Chars × Browser
unfolding existing_id
get_stored b = if b.can_get then existing_id b.stored b else (none, b)

unfoldable pub new_id : Chars → Option Chars × Browser → Chars × Browser
new_id random (some s, b) = (s, b)
new_id random (none, b) =
    let b' = record b { in_memory = some random } in
    (random, if b.can_set then record b' { stored = some random } else b')

unfoldable pub unless_known : Chars → Option Chars → Browser → Chars × Browser
unfolding get_stored new_id
unless_known random (some s) b = (s, b)
unless_known random none b = new_id random (get_stored b)

-- `clientInstanceId`; `random` is what `randomClientInstanceId` returns if it is called.
unfoldable pub client_instance_id : Chars → Browser → Chars × Browser
unfolding unless_known
client_instance_id random b = unless_known random b.in_memory b
