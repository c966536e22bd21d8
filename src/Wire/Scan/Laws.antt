-- ===== src/Wire/Scan/Laws.antt =====
-- The alias walk ends within the block, whatever the bytes are.
use meshtk.Prelude.{
  ℕ, zero, suc, ◌+◌, ◌≤◌, ◌<◌, List, ◌≡◌, Option, none, some, length, drop, arith, Result, ok,
  ◌>>=◌, if◌then◌else◌, Bool, false, true, ltb, Bool-cases, Result-cases, inl, inr, refl,
}
use meshtk.Wire.Bytes.{byte_at_ok, uint16_at_ok}
use meshtk.Wire.Varint.{ParseError, decode_varint}
use meshtk.Wire.Varint.Laws.{decode_bounds}
use meshtk.Wire.Scan.{
  AliasScan, Round, done, go_on, skip_prop_string, go_on_in, after_skip, skip_second, after_varint,
  scan_round, scan_from, scan_alias, follow,
}

-- What a round may return: it stops at its own offset, or goes on further inside the block.
data RoundIsGood (block : List ℕ) (i : ℕ) : Result ParseError Round → Type 0 where
  stops :
      {s : AliasScan}
      → s.stop ≡ i
      → (s.complete ≡ true → s.has_alias ≡ true)
      → RoundIsGood block i (ok (done s))
  goes : {j : ℕ} → i < j → j ≤ length block → RoundIsGood block i (ok (go_on j))

data SkipIsGood (block : List ℕ) (pos : ℕ) : Result ParseError (Option ℕ) → Type 0 where
  outside : SkipIsGood block pos (ok none)
  inside : {j : ℕ} → pos + 2 ≤ j → j ≤ length block → SkipIsGood block pos (ok (some j))

skip_prop_string-SkipIsGood :
    (block : List ℕ) (pos : ℕ) → SkipIsGood block pos (skip_prop_string block pos)
unfolding skip_prop_string
skip_prop_string-SkipIsGood block pos = elim (Bool-cases (ltb (length block) (pos + 2))) [
  | inl short ↦ rw short outside
  | inr fits ↦
      let (n, e) = uint16_at_ok block pos (ground arith) in
      rw (fits, e)
        (elim (Bool-cases (ltb (length block) (pos + 2 + n))) [
          | inl short ↦ rw short outside
          | inr enough ↦ rw enough (inside (omega arith) (ground arith))
        ])
]

go_on_in-RoundIsGood :
    (block : List ℕ) (i j : ℕ) → i < j → RoundIsGood block i (ok (go_on_in block i j))
unfolding go_on_in
go_on_in-RoundIsGood block i j h = elim (Bool-cases (ltb (length block) j)) [
  | inl short ↦ rw short (stops refl (λ c. ground arith))
  | inr fits ↦ rw fits (goes h (ground arith))
]

after_skip-RoundIsGood :
    (block : List ℕ) (i pos : ℕ) (r : Option ℕ)
    → i < pos
    → SkipIsGood block pos (ok r)
    → RoundIsGood block i (ok (after_skip block i r))
unfolding after_skip
after_skip-RoundIsGood block i pos none h _ = stops refl (λ c. ground arith)
after_skip-RoundIsGood block i pos (some j) h (inside p q) =
    go_on_in-RoundIsGood block i j (omega arith)

bind-RoundIsGood :
    {block : List ℕ} {i pos : ℕ} {m : Result ParseError (Option ℕ)}
    (k : Option ℕ → Result ParseError Round)
    → SkipIsGood block pos m
    → ((r : Option ℕ) → SkipIsGood block pos (ok r) → RoundIsGood block i (k r))
    → RoundIsGood block i (m >>= k)
bind-RoundIsGood k outside g = g none outside
bind-RoundIsGood k (inside p q) g = g _ (inside p q)

skip_second-RoundIsGood :
    (block : List ℕ) (i pos : ℕ) (r : Option ℕ)
    → i < pos
    → SkipIsGood block pos (ok r)
    → RoundIsGood block i (skip_second block i r)
unfolding skip_second
skip_second-RoundIsGood block i pos none h _ = stops refl (λ c. ground arith)
skip_second-RoundIsGood block i pos (some j) h (inside p q) =
    bind-RoundIsGood (λ r. ok (after_skip block i r)) (skip_prop_string-SkipIsGood block j)
      (λ r. after_skip-RoundIsGood block i j r (omega arith))

after_varint-RoundIsGood :
    (block : List ℕ) (i : ℕ)
    → RoundIsGood block i (ok (after_varint block i (decode_varint (drop (i + 1) block))))
unfolding after_varint
after_varint-RoundIsGood block i = elim (Result-cases (decode_varint (drop (i + 1) block))) [
  | inl ((v, n), e) ↦
      let size = decode_bounds (drop (i + 1) block) e in
      rw (e, after_varint) (go_on_in-RoundIsGood block i (i + 1 + n) (omega arith))
  | inr (x, e) ↦ rw (e, after_varint) (stops refl (λ c. ground arith))
]

if-RoundIsGood :
    {block : List ℕ} {i : ℕ} (b : Bool) {x y : Result ParseError Round}
    → RoundIsGood block i x
    → RoundIsGood block i y
    → RoundIsGood block i (if b then x else y)
if-RoundIsGood true hx hy = hx
if-RoundIsGood false hx hy = hy

scan_round-RoundIsGood :
    (block : List ℕ) (i : ℕ) → i < length block → RoundIsGood block i (scan_round block i)
unfolding scan_round
scan_round-RoundIsGood block i h =
    let (id, e) = byte_at_ok block i h in
    let skip = skip_prop_string-SkipIsGood block (i + 1) in
    rw e (
      if-RoundIsGood _
        (if-RoundIsGood _ (stops refl (λ c. ground arith)) (stops refl (λ c. ground arith)))
        (if-RoundIsGood _ (go_on_in-RoundIsGood block i (i + 1 + 1) (omega arith)) (
          if-RoundIsGood _ (go_on_in-RoundIsGood block i (i + 1 + 4) (omega arith)) (
            if-RoundIsGood _
              (bind-RoundIsGood (λ r. ok (after_skip block i r)) skip
                (λ r. after_skip-RoundIsGood block i (i + 1) r (omega arith)))
              (if-RoundIsGood _
                (bind-RoundIsGood (skip_second block i) skip
                  (λ r. skip_second-RoundIsGood block i (i + 1) r (omega arith)))
                (if-RoundIsGood _ (after_varint-RoundIsGood block i)
                  (stops refl (λ c. ground arith))))))))

-- What the walk returns: it stops within the block, and at its end if it saw it whole and met no
-- alias.
pub record ScanIsGood (block : List ℕ) (s : AliasScan) : Type 0 where
  pub stop_le : s.stop ≤ length block
  pub end_of_complete : s.has_alias ≡ false → s.complete ≡ true → s.stop ≡ length block

step_total :
    {block : List ℕ} {i : ℕ} {r : Result ParseError Round} (rest : ℕ → Result ParseError AliasScan)
    → i ≤ length block
    → RoundIsGood block i r
    → ((j : ℕ) → i < j → j ≤ length block → (s : AliasScan) × (rest j ≡ ok s) × ScanIsGood block s)
    → (s : AliasScan) × (follow rest r ≡ ok s) × ScanIsGood block s
unfolding follow
step_total rest h (stops {s} e alias) more =
    (s, refl, record { stop_le = omega arith; end_of_complete = λ a c. cc (alias c) })
step_total rest h (goes p q) more = more _ p q

scan_from-total :
    (f : ℕ) (block : List ℕ) (i : ℕ)
    → i ≤ length block
    → length block < f + i
    → (s : AliasScan) × (scan_from f block i ≡ ok s) × ScanIsGood block s
unfolding scan_from
scan_from-total zero block i h g = absurd (omega arith)
scan_from-total (suc f) block i h g = elim (Bool-cases (ltb i (length block))) [
  | inr last ↦ (
    record { has_alias = false; complete = true; stop = i },
    rw (last, scan_from),
    record { stop_le = h; end_of_complete = λ a c. ground arith },
  )
  | inl more ↦
      rw (more, scan_from)
        (step_total (scan_from f block) h (scan_round-RoundIsGood block i (ground arith))
          (λ j p q. scan_from-total f block j q (omega arith)))
]

-- The walk always returns: it never reads out of range and never runs out of rounds.
pub scan_alias-total :
    (block : List ℕ) → (s : AliasScan) × (scan_alias block ≡ ok s) × ScanIsGood block s
unfolding scan_alias
scan_alias-total block = scan_from-total (suc (length block)) block 0 (omega arith) (omega arith)
