-- ===== src/RateLimit/Prune.antt =====
-- Pruning, of internal/app/fleet/llm_ratelimit.go, drops only buckets that a fresh one replaces
-- without a trace.
use meshtk.Prelude.{
  ℕ, ◌+◌, ◌-◌, ◌≤◌, ◌<◌, ◌≡◌, ◌⊎◌, refl, ap, ◌∙◌, sym, subst, arith, List, [], ◌∷◌, Bool, true,
  false, not, Bool-cases, inl, inr, Option, none, some, Option-cases, leb, leb→le, lt→ltb, ◌==◌,
  ◌||◌, if-cases,
}
use meshtk.RateLimit.{
  Floats, LlmBucket, fresh, refill, earned, topped, take_llm_token, keep_unless_idle,
  prune_llm_buckets, Buckets, is_idle, bucket_or_fresh, put, allow_in, allow_all,
}

-- What IEEE 754 says of the operations: they round, and rounding is monotone. `le a b` reads off the
-- test `b < a`; no value is NaN.
pub record FloatLaws (fl : Floats) : Type 0 where
  pub le_trans : (a b c : fl.Float) → fl.lt b a ≡ false → fl.lt c b ≡ false → fl.lt c a ≡ false
  pub le_antisym : (a b : fl.Float) → fl.lt b a ≡ false → fl.lt a b ≡ false → a ≡ b
  pub le_add : (a b : fl.Float) → fl.lt (fl.add a b) b ≡ false
  pub mul_mono : (a b c : fl.Float) → fl.lt b a ≡ false → fl.lt (fl.mul b c) (fl.mul a c) ≡ false
  pub div_mono : (a b c : fl.Float) → fl.lt b a ≡ false → fl.lt (fl.div b c) (fl.div a c) ≡ false
  pub seconds_mono : (m n : ℕ) → m ≤ n → fl.lt (fl.seconds n) (fl.seconds m) ≡ false

-- Requests whose times never go back, from a time on.
abbrev pub InOrder : ℕ → List (ℕ × ℕ) → Type 0
InOrder since [] = Unit
InOrder since ((from, now) ∷ requests) = (since ≤ now) × InOrder now requests

-- The limiter that keeps every bucket.
module _ (fl : Floats) (c : fl.Float) (w : ℕ) where
  abbrev pub allow_unpruned : ℕ → ℕ → Buckets fl → Buckets fl × Bool
  allow_unpruned now from m =
      let (b, allowed) = take_llm_token fl c w now (bucket_or_fresh fl (m from)) in
      (put fl from b m, allowed)

  unfoldable pub unpruned_all : List (ℕ × ℕ) → Buckets fl → List Bool
  unpruned_all [] m = []
  unpruned_all ((from, now) ∷ requests) m =
      let (m', allowed) = allow_unpruned now from m in allowed ∷ unpruned_all requests m'

module _ (fl : Floats) (laws : FloatLaws fl) (c : fl.Float) (w : ℕ) (some_window : 0 < w)
    (fills : fl.lt (earned fl c w w) c ≡ false) where
  -- After a whole window the balance is full.
  topped_full :
      (elapsed : ℕ) (tokens : fl.Float)
      → w ≤ elapsed
      → topped fl c (fl.add tokens (earned fl c w elapsed)) ≡ c
  topped_full elapsed tokens h =
      let more =
        laws.div_mono _ _ (fl.seconds w) (laws.mul_mono _ _ c (laws.seconds_mono w elapsed h)) in
      let earns = laws.le_trans c (earned fl c w w) (earned fl c w elapsed) fills more in
      let full =
        laws.le_trans c (earned fl c w elapsed) (fl.add tokens (earned fl c w elapsed)) earns
          (laws.le_add tokens (earned fl c w elapsed)) in
      if-cases (λ x. x ≡ c) (fl.lt c (fl.add tokens (earned fl c w elapsed))) _ _ (λ _. refl)
        (λ not_over. laws.le_antisym _ c not_over full)

  refill_idle :
      (now t : ℕ) (tokens : fl.Float)
      → t + w ≤ now
      → refill fl c w now (record { tokens = tokens; last = some t }) ≡ refill fl c w now (fresh fl)
  unfolding refill
  refill_idle now t tokens idle = rw (lt→ltb t now (omega arith)) (
      ap (λ x. record { tokens = x; last = some now }) (topped_full (now - t) tokens (omega arith)))

  refill-is_idle :
      (now : ℕ) (b : LlmBucket fl)
      → is_idle fl now w b ≡ true
      → refill fl c w now b ≡ refill fl c w now (fresh fl)
  unfolding refill
  refill-is_idle now b idle = elim (Option-cases (b.last)) [
    | inl h ↦
        subst
          (λ o.
            refill fl c w now (record { tokens = b.tokens; last = o })
            ≡ refill fl c w now (fresh fl))
          (sym h) refl
    | inr (t, h) ↦
        let old : leb (t + w) now ≡ true =
          sym (ap (λ o. is_idle fl now w (record { tokens = b.tokens; last = o })) h) ∙ idle in
        subst
          (λ o.
            refill fl c w now (record { tokens = b.tokens; last = o })
            ≡ refill fl c w now (fresh fl))
          (sym h) (refill_idle now t (b.tokens) (leb→le (t + w) now old))
  ]

  -- The limiter runs: the ceiling is not zero.
  module _ (runs : fl.lt (fl.of_count 0) c ≡ true) where
    -- A bucket that was idle for a window answers, and is left, as a fresh one.
    take_llm_token-idle :
        (now : ℕ) (b : LlmBucket fl)
        → is_idle fl now w b ≡ true
        → take_llm_token fl c w now b ≡ take_llm_token fl c w now (fresh fl)
    unfolding take_llm_token
    take_llm_token-idle now b idle =
        let on : (not (fl.lt (fl.of_count 0) c) || w == 0) ≡ false = ground arith in
        rw (on, refill-is_idle now b idle) refl

    -- What is left of the bucket that is never pruned: itself, or nothing if it is idle by `since`.
    abbrev Left : ℕ → Option (LlmBucket fl) → Option (LlmBucket fl) → Type 0
    Left since pruned o =
        (pruned ≡ o)
        ⊎ ((pruned ≡ none) × ((b : LlmBucket fl) × (o ≡ some b) × (is_idle fl since w b ≡ true)))

    is_idle-later :
        (since now : ℕ) (b : LlmBucket fl)
        → since ≤ now
        → is_idle fl since w b ≡ true
        → is_idle fl now w b ≡ true
    is_idle-later since now b h idle = ground arith

    Left-later :
        (since now : ℕ) (p o : Option (LlmBucket fl)) → since ≤ now → Left since p o → Left now p o
    Left-later since now p o h (inl same) = inl same
    Left-later since now p o h (inr (gone, (b, is, idle))) =
        inr (gone, (b, is, is_idle-later since now b h idle))

    keep-Left :
        (now : ℕ) (p o : Option (LlmBucket fl))
        → Left now p o
        → Left now (keep_unless_idle fl now w p) o
    unfolding keep_unless_idle
    keep-Left now none o left = left
    keep-Left now (some b) o (inr (gone, rest)) = cc
    keep-Left now (some b) o (inl same) = elim (Bool-cases (is_idle fl now w b)) [
      | inl idle ↦ rw idle (inr (refl, (b, sym same, idle)))
      | inr recent ↦ rw recent (inl same)
    ]

    take-Left :
        (now : ℕ) (p o : Option (LlmBucket fl))
        → Left now p o
        → take_llm_token fl c w now (bucket_or_fresh fl p)
          ≡ take_llm_token fl c w now (bucket_or_fresh fl o)
    take-Left now p o (inl same) = ap (λ x. take_llm_token fl c w now (bucket_or_fresh fl x)) same
    take-Left now p o (inr (gone, (b, is, idle))) =
        ap (λ x. take_llm_token fl c w now (bucket_or_fresh fl x)) gone
        ∙ sym (take_llm_token-idle now b idle)
        ∙ ap (λ x. take_llm_token fl c w now (bucket_or_fresh fl x)) (sym is)

    put-Left :
        (now k j : ℕ) (b b' : LlmBucket fl) (m m' : Buckets fl)
        → b ≡ b'
        → Left now (m j) (m' j)
        → Left now (put fl k b m j) (put fl k b' m' j)
    put-Left now k j b b' m m' same left = elim (Bool-cases (j == k)) [
      | inl here ↦ rw here (inl (ap some same))
      | inr other ↦ rw other left
    ]

    abbrev AllLeft : ℕ → Buckets fl → Buckets fl → Type 0
    AllLeft since m m' = (k : ℕ) → Left since (m k) (m' k)

    prune-AllLeft :
        (now : ℕ) (m m' : Buckets fl)
        → AllLeft now m m'
        → AllLeft now (prune_llm_buckets fl now w m) m'
    unfolding prune_llm_buckets
    prune-AllLeft now m m' left k =
        let on : (w == 0) ≡ false = ground arith in rw on (keep-Left now (m k) (m' k) (left k))

    allow_in-AllLeft :
        (now from : ℕ) (m m' : Buckets fl)
        → AllLeft now m m'
        → let out = allow_in fl c w now from m in
          let out' = allow_unpruned fl c w now from m' in
          (out.1 ≡ out'.1) × AllLeft now out.0 out'.0
    unfolding allow_in
    allow_in-AllLeft now from m m' left =
        let pruned = prune-AllLeft now m m' left in
        let same = take-Left now _ _ (pruned from) in
        (
          ap (λ (o : LlmBucket fl × Bool). o.1) same,
          λ k.
              put-Left now from k _ _ (prune_llm_buckets fl now w m) m'
                (ap (λ (o : LlmBucket fl × Bool). o.0) same) (pruned k),
        )

    allow_all-AllLeft :
        (since : ℕ) (requests : List (ℕ × ℕ)) (m m' : Buckets fl)
        → InOrder since requests
        → AllLeft since m m'
        → allow_all fl c w requests m ≡ unpruned_all fl c w requests m'
    unfolding allow_all unpruned_all
    allow_all-AllLeft since [] m m' ordered left = refl
    allow_all-AllLeft since ((from, now) ∷ requests) m m' (h, ordered) left =
        let (same, later) =
          allow_in-AllLeft now from m m' (λ k. Left-later since now (m k) (m' k) h (left k)) in
        let rest =
          allow_all-AllLeft now requests (allow_in fl c w now from m).0
            (allow_unpruned fl c w now from m').0 ordered later in
        ap (λ x. x ∷ allow_all fl c w requests (allow_in fl c w now from m).0) same
        ∙ ap (λ x. (allow_unpruned fl c w now from m').1 ∷ x) rest

    -- Whatever radios ask, at times that never go back, and whatever buckets are there at first, the
    -- answers are those of a limiter that never forgets a bucket, where there is a window, the ceiling
    -- is not zero, the refill of one window comes to the ceiling at least, and rounding is monotone.
    pub allow_all-unpruned :
        (requests : List (ℕ × ℕ)) (m : Buckets fl)
        → InOrder 0 requests
        → allow_all fl c w requests m ≡ unpruned_all fl c w requests m
    allow_all-unpruned requests m ordered = allow_all-AllLeft 0 requests m m ordered (λ k. inl refl)
