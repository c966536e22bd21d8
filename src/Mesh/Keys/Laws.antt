-- ===== src/Mesh/Keys/Laws.antt =====
-- Keys in hexadecimal, in internal/mqtt/crypto.go.
use meshtk.Mesh.Keys.{
  hex_digit, hex_value, print_hex, hex_key, decode_hex, trim_0x, key_of_length, parse_hex_key,
}
use meshtk.Prelude.{ℕ, ◌/◌, ◌%◌, ◌<◌, List, [], ◌∷◌, some, ◌≡◌, refl, ap, arith, ==_iff, length, ok}

-- A byte string.
abbrev pub Bytes : List ℕ → Type 0
Bytes [] = Unit
Bytes (b ∷ bs) = (b < 256) × Bytes bs

hex_value-hex_digit : (n : ℕ) → n < 16 → hex_value (hex_digit n) ≡ some n
unfolding hex_value hex_digit
hex_value-hex_digit n h = ground arith

decode_hex-print_hex : (b : List ℕ) → Bytes b → decode_hex (print_hex b) ≡ some b
unfolding decode_hex print_hex
decode_hex-print_hex [] h = refl
decode_hex-print_hex (b ∷ bs) (h, hs) =
    rw
      (
        hex_value-hex_digit (b / 16) (omega arith),
        hex_value-hex_digit (b % 16) (omega arith),
        decode_hex-print_hex bs hs,
      )
      (ap (λ x. some (x ∷ bs)) (omega arith))

-- A key of 32 bytes, printed with its prefix, is read back.
pub parse_hex_key-hex_key :
    (b : List ℕ) → Bytes b → length b ≡ 32 → parse_hex_key (hex_key b) ≡ ok b
unfolding parse_hex_key hex_key trim_0x key_of_length
parse_hex_key-hex_key b h n = rw (decode_hex-print_hex b h, (==_iff (length b) 32).1 n) refl
