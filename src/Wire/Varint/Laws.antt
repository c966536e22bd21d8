-- ===== src/Wire/Varint/Laws.antt =====
-- What `decode_varint` and `encode_varint` promise one another.
use native.Mathlib.Nat.{pow-suc, one-le-pow}
use meshtk.Prelude.{
  ℕ, zero, suc, ◌+◌, ◌*◌, ◌/◌, ◌%◌, ◌^◌, ◌≤◌, ◌<◌, List, [], ◌∷◌, ◌++◌, ◌≡◌, arith, length, ok, err,
  ◌⊎◌,
}
use meshtk.Wire.Varint.{
  ParseError, malformed_varint, truncated_varint, decode_varint_from, decode_varint,
  encode_varint_from, encode_varint,
}

weighted : (a b w : ℕ) → (a + 128 * b) * w ≡ a * w + b * (w * 128)
weighted a b w = omega arith

digit-mul-le : (d w : ℕ) → d % 128 * w ≤ 127 * w
digit-mul-le d w = grind arith

le-mul-pow : (w k : ℕ) → w * 128 ≤ w * 128 * 128 ^ k
le-mul-pow w k = grind (arith, one-le-pow k 128)

mul-pow-suc : (w k : ℕ) → w * 128 ^ suc k ≡ w * 128 * 128 ^ k
mul-pow-suc w k = rw pow-suc (omega arith)

decode_varint_from_bounds :
    (k : ℕ) (b : List ℕ) (w value i : ℕ) {v n : ℕ}
    → decode_varint_from k b w value i ≡ ok (v, n)
    → (i < n) × (n ≤ i + k) × (n ≤ i + length b) × (v + w ≤ value + w * 128 ^ k)
unfolding decode_varint_from
decode_varint_from_bounds zero b w value i h = ground arith
decode_varint_from_bounds (suc k) [] w value i h = ground arith
decode_varint_from_bounds (suc k) (d ∷ b) w value i {v} {n} h =
    let rest =
      decode_varint_from_bounds k b (w * 128) (value + d % 128 * w) (i + 1) {v = v} {n = n} in
    rw (mul-pow-suc w k) (ground (arith, digit-mul-le d w, le-mul-pow w k, rest))

decode-encode_from :
    (f k v : ℕ) (rest : List ℕ) (w value i : ℕ)
    → v < f
    → v < 128 ^ suc k
    → decode_varint_from (suc k) (encode_varint_from f v ++ rest) w value i
      ≡ ok (value + v * w, i + length (encode_varint_from f v))
unfolding decode_varint_from encode_varint_from
decode-encode_from zero k v rest w value i g h = absurd (omega arith)
decode-encode_from (suc f) zero v rest w value i g h = ground arith
decode-encode_from (suc f) (suc k) v rest w value i g h = ground (
  arith,
  weighted (v % 128) (v / 128) w,
  pow-suc 128 (suc k),
  decode-encode_from f k (v / 128) rest (w * 128) (value + v % 128 * w) (i + 1),
)

-- Decoding what was encoded gives the value back and stops at its end, for every value that
-- fits the four bytes of the format.
pub decode-encode :
    (v : ℕ) (rest : List ℕ)
    → v < 268435456
    → decode_varint (encode_varint v ++ rest) ≡ ok (v, length (encode_varint v))
unfolding decode_varint encode_varint
decode-encode v rest h = ground (arith, decode-encode_from (suc v) 3 v rest 1 0 0)

-- A decoded value took one to four of the bytes that are there, and fits 28 bits.
pub decode_bounds :
    (b : List ℕ) {v n : ℕ}
    → decode_varint b ≡ ok (v, n)
    → (0 < n) × (n ≤ 4) × (n ≤ length b) × (v < 268435456)
unfolding decode_varint
decode_bounds b h = omega (arith, decode_varint_from_bounds 4 b 1 0 0 h)

decode_varint_from-append :
    (k : ℕ) (xs ys : List ℕ) (w value i : ℕ) {v n : ℕ}
    → decode_varint_from k (xs ++ ys) w value i ≡ ok (v, n)
    → n ≤ i + length xs
    → decode_varint_from k xs w value i ≡ ok (v, n)
unfolding decode_varint_from
decode_varint_from-append zero xs ys w value i h le = h
decode_varint_from-append (suc k) [] ys w value i h le =
    absurd (omega (arith, decode_varint_from_bounds (suc k) ys w value i h))
decode_varint_from-append (suc k) (d ∷ xs) ys w value i {v} {n} h le = ground (
  arith,
  decode_varint_from-append k xs ys (w * 128) (value + d % 128 * w) (i + 1) {v = v} {n = n},
)

decode_varint_from-extend :
    (k : ℕ) (xs ys : List ℕ) (w value i : ℕ) {v n : ℕ}
    → decode_varint_from k xs w value i ≡ ok (v, n)
    → decode_varint_from k (xs ++ ys) w value i ≡ ok (v, n)
unfolding decode_varint_from
decode_varint_from-extend zero xs ys w value i h = h
decode_varint_from-extend (suc k) [] ys w value i h = cc
decode_varint_from-extend (suc k) (d ∷ xs) ys w value i {v} {n} h = ground (
  arith,
  decode_varint_from-extend k xs ys (w * 128) (value + d % 128 * w) (i + 1) {v = v} {n = n},
)

-- Only the bytes that were taken matter: the tail may be exchanged for any other.
pub decode-append :
    (xs ys zs : List ℕ) {v n : ℕ}
    → decode_varint (xs ++ ys) ≡ ok (v, n)
    → n ≤ length xs
    → decode_varint (xs ++ zs) ≡ ok (v, n)
unfolding decode_varint
decode-append xs ys zs h le =
    decode_varint_from-extend 4 xs zs 1 0 0
      (decode_varint_from-append 4 xs ys 1 0 0 h (omega arith))

decode_varint_from-error :
    (k : ℕ) (b : List ℕ) (w value i : ℕ) {e : ParseError}
    → decode_varint_from k b w value i ≡ err e
    → (e ≡ malformed_varint) ⊎ (e ≡ truncated_varint)
unfolding decode_varint_from
decode_varint_from-error zero b w value i h = ground arith
decode_varint_from-error (suc k) [] w value i h = ground arith
decode_varint_from-error (suc k) (d ∷ b) w value i {e} h =
    ground (arith, decode_varint_from-error k b (w * 128) (value + d % 128 * w) (i + 1) {e = e})

-- A refused integer is malformed or truncated, and nothing else.
pub decode_error :
    (b : List ℕ) {e : ParseError}
    → decode_varint b ≡ err e
    → (e ≡ malformed_varint) ⊎ (e ≡ truncated_varint)
unfolding decode_varint
decode_error b h = decode_varint_from-error 4 b 1 0 0 h
