-- ===== src/Wire/Bytes.antt =====
-- Reads from a byte slice. Go panics on an index or a slice out of range, and so do these.
use meshtk.Prelude.{
  ℕ, zero, suc, ap, ◌+◌, ◌*◌, ◌-◌, ◌≤◌, ◌<◌, List, [], ◌∷◌, ◌++◌, ◌≡◌, refl, arith, length, take,
  drop, ltb, if◌then◌else◌, Result, ok, err, length-drop, length-append,
}
use meshtk.Wire.Varint.{ParseError, panic}

byte_of : List ℕ → Result ParseError ℕ
byte_of [] = err panic
byte_of (x ∷ xs) = ok x

-- `b[i]`
unfoldable pub byte_at : List ℕ → ℕ → Result ParseError ℕ
unfolding byte_of
byte_at b i = byte_of (drop i b)

uint16_of : List ℕ → Result ParseError ℕ
uint16_of (hi ∷ lo ∷ _) = ok (hi * 256 + lo)
uint16_of _ = err panic

-- `binary.BigEndian.Uint16(b[i : i+2])`
unfoldable pub uint16_at : List ℕ → ℕ → Result ParseError ℕ
unfolding uint16_of
uint16_at b i = uint16_of (drop i b)

-- `b[i : i+n]`
unfoldable pub slice : List ℕ → ℕ → ℕ → Result ParseError (List ℕ)
slice b i n = if ltb (length b) (i + n) then err panic else ok (take n (drop i b))

pub byte_at_ok : (b : List ℕ) (i : ℕ) → i < length b → (x : ℕ) × (byte_at b i ≡ ok x)
unfolding byte_at
byte_at_ok b i h = go (drop i b) (length-drop i b)
  where
    go : (r : List ℕ) → length r ≡ length b - i → (x : ℕ) × (byte_of r ≡ ok x)
    go [] e = absurd (omega arith)
    go (x ∷ r) e = (x, refl)

pub uint16_at_ok : (b : List ℕ) (i : ℕ) → i + 2 ≤ length b → (x : ℕ) × (uint16_at b i ≡ ok x)
unfolding uint16_at
uint16_at_ok b i h = go (drop i b) (length-drop i b)
  where
    go : (r : List ℕ) → length r ≡ length b - i → (x : ℕ) × (uint16_of r ≡ ok x)
    go [] e = absurd (omega arith)
    go (x ∷ []) e = absurd (omega arith)
    go (x ∷ y ∷ r) e = (x * 256 + y, refl)

pub slice_ok : (b : List ℕ) (i n : ℕ) → i + n ≤ length b → slice b i n ≡ ok (take n (drop i b))
unfolding slice
slice_ok b i n h = ground arith

pub drop-append_le : (xs ys : List ℕ) (n : ℕ) → n ≤ length xs → drop n (xs ++ ys) ≡ drop n xs ++ ys
drop-append_le xs ys zero h = refl
drop-append_le [] ys (suc n) h = absurd (omega arith)
drop-append_le (x ∷ xs) ys (suc n) h = drop-append_le xs ys n (omega arith)

pub take-append_le : (xs ys : List ℕ) (n : ℕ) → n ≤ length xs → take n (xs ++ ys) ≡ take n xs
take-append_le xs ys zero h = refl
take-append_le [] ys (suc n) h = absurd (omega arith)
take-append_le (x ∷ xs) ys (suc n) h = ap (◌∷◌ x) (take-append_le xs ys n (omega arith))

-- What lies wholly in a prefix is read from the prefix.
pub uint16_at-append :
    (xs ys : List ℕ) (i : ℕ) → i + 2 ≤ length xs → uint16_at (xs ++ ys) i ≡ uint16_at xs i
unfolding uint16_at
uint16_at-append xs ys i h =
    rw (drop-append_le xs ys i (omega arith)) (go (drop i xs) (length-drop i xs))
  where
    go : (r : List ℕ) → length r ≡ length xs - i → uint16_of (r ++ ys) ≡ uint16_of r
    go [] e = absurd (omega arith)
    go (x ∷ []) e = absurd (omega arith)
    go (x ∷ y ∷ r) e = refl

pub slice-append :
    (xs ys : List ℕ) (i n : ℕ) → i + n ≤ length xs → slice (xs ++ ys) i n ≡ slice xs i n
unfolding slice
slice-append xs ys i n h =
    rw (length-append xs ys, drop-append_le xs ys i (omega arith))
      (rw (take-append_le (drop i xs) ys n (omega (arith, length-drop i xs))) (ground arith))
