-- ===== src/Auth/ClientInstance/Stable.antt =====
-- The form of the identifier of apps/web/src/auth/AuthProvider.tsx, and its later calls.
use novel_platform.Common.{ℕ, ◌+◌, ◌/◌, ◌%◌, true, Option, none, some, ◌≡◌, refl, arith}
use novel_platform.Auth.ClientInstance.{
  Chars, hex, dash, version, variant, is_hex, in_class, matches, uuid_pattern, hex_digit, adjusted,
  hex_byte, random_client_instance_id, Browser, existing_id, get_stored, new_id, unless_known,
  client_instance_id,
}

hex_digit-hex : (n : ℕ) → in_class hex (hex_digit (n % 16)) ≡ true
unfolding in_class is_hex hex_digit
hex_digit-hex n = ground arith

hex_digit-version : (n : ℕ) → in_class version (hex_digit ((n % 16 + 64) / 16 % 16)) ≡ true
unfolding in_class hex_digit
hex_digit-version n = ground arith

hex_digit-variant : (n : ℕ) → in_class variant (hex_digit ((n % 64 + 128) / 16 % 16)) ≡ true
unfolding in_class hex_digit
hex_digit-variant n = ground arith

dash_code : in_class dash 45 ≡ true
unfolding in_class
dash_code = refl

-- Whatever bytes are drawn, the identifier made of them is one that the pattern accepts.
random_client_instance_id-matches :
    (bytes : ℕ → ℕ) → matches uuid_pattern (random_client_instance_id bytes) ≡ true
unfolding matches random_client_instance_id hex_byte adjusted
random_client_instance_id-matches bytes =
    simp (hex_digit-hex, hex_digit-version, hex_digit-variant, dash_code)

-- A second call returns the identifier of the first, whatever is drawn for it, and changes nothing.
client_instance_id-again :
    (r r' : Chars) (b : Browser)
    → let (s, b') = client_instance_id r b in client_instance_id r' b' ≡ (s, b')
unfolding client_instance_id unless_known new_id get_stored existing_id
client_instance_id-again r r' b = ground arith

abbrev pub Known : Option Chars → Type 0
Known none = Unit
Known (some s) = matches uuid_pattern s ≡ true

unless_known-matches :
    (bytes : ℕ → ℕ) (known : Option Chars) (b : Browser)
    → Known known
    → matches uuid_pattern (unless_known (random_client_instance_id bytes) known b).0 ≡ true
unfolding unless_known new_id get_stored existing_id
unless_known-matches bytes none b h = ground (arith, random_client_instance_id-matches bytes)
unless_known-matches bytes (some s) b h = h

-- The identifier is a UUID if the one in memory is, or if there is none.
pub client_instance_id-matches :
    (bytes : ℕ → ℕ) (b : Browser)
    → Known b.in_memory
    → matches uuid_pattern (client_instance_id (random_client_instance_id bytes) b).0 ≡ true
unfolding client_instance_id
client_instance_id-matches bytes b h = unless_known-matches bytes b.in_memory b h

-- Where the storage works, the identifier outlives the page: the first call after a reload returns it.
client_instance_id-reload :
    (bytes : ℕ → ℕ) (r : Chars) (b : Browser)
    → b.in_memory ≡ none
    → b.can_get ≡ true
    → b.can_set ≡ true
    → let (s, b') = client_instance_id (random_client_instance_id bytes) b in
      (client_instance_id r (record b' { in_memory = none })).0 ≡ s
unfolding client_instance_id unless_known new_id get_stored existing_id
client_instance_id-reload bytes r b h g k = ground (arith, random_client_instance_id-matches bytes)
