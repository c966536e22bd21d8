-- ===== src/RateLimit.antt =====
-- The limiter of paid model calls: internal/app/fleet/llm_ratelimit.go. Times and the window are in
-- nanoseconds. The floats of the balance are a parameter: the type holds the finite ones that are not
-- negative, which are all that a bucket comes to. A bucket of the map is never nil there.
pub mod Laws
pub mod Prune
use meshtk.Prelude.{
  ℕ, ◌+◌, ◌-◌, List, [], ◌∷◌, Bool, true, false, ◌||◌, not, Option, none, some, ltb, leb, ◌==◌,
  if◌then◌else◌,
}

-- `float64` with what the limiter uses of it; `seconds` is `Duration.Seconds` of nanoseconds, and
-- `of_count` the conversion of an integer.
pub record Floats : Type 1 where
  pub Float : Type 0
  pub of_count : ℕ → Float
  pub seconds : ℕ → Float
  pub add : Float → Float → Float
  pub sub : Float → Float → Float
  pub mul : Float → Float → Float
  pub div : Float → Float → Float
  pub lt : Float → Float → Bool

module _ (fl : Floats) where
  open fl use {Float, of_count, seconds, add, sub, mul, div, lt}

  pub record LlmBucket : Type 0 where
    pub tokens : Float
    -- The zero time is `none`.
    pub last : Option ℕ

  -- `&llmBucket{}`
  abbrev pub fresh : LlmBucket
  fresh = record { tokens = of_count 0; last = none }

  -- Spend one token if one is there.
  unfoldable pub spend : LlmBucket → LlmBucket × Bool
  spend b =
      if lt (b.tokens) (of_count 1)
      then (b, false)
      else (record b { tokens = sub (b.tokens) (of_count 1) }, true)

  -- `if b.tokens > capacity { b.tokens = capacity }`, after the refill.
  abbrev pub topped : Float → Float → Float
  topped capacity x = if lt capacity x then capacity else x

  -- `elapsed.Seconds() * capacity / window.Seconds()`
  abbrev pub earned : Float → ℕ → ℕ → Float
  earned capacity window elapsed = div (mul (seconds elapsed) capacity) (seconds window)

  -- A backwards clock refills nothing.
  unfoldable pub refill : Float → ℕ → ℕ → LlmBucket → LlmBucket
  refill capacity window now b = elim (b.last) [
    | none ↦ record { tokens = capacity; last = some now }
    | some t ↦
        if ltb t now
        then record {
          tokens = topped capacity (add (b.tokens) (earned capacity window (now - t)));
          last = some now;
        }
        else b
  ]

  -- No capacity is below zero: the test is that it is zero.
  unfoldable pub take_llm_token : Float → ℕ → ℕ → LlmBucket → LlmBucket × Bool
  unfolding spend refill
  take_llm_token capacity window now b =
      if not (lt (of_count 0) capacity) || window == 0
      then (b, false)
      else spend (refill capacity window now b)

  abbrev pub Buckets : Type 0
  Buckets = ℕ → Option LlmBucket

  -- `now.Sub(b.last) >= window`, said as a sum. The zero time lies further back than any window.
  abbrev pub is_idle : ℕ → ℕ → LlmBucket → Bool
  is_idle now window b = elim (b.last) [ none ↦ true | some t ↦ leb (t + window) now ]

  unfoldable pub keep_unless_idle : ℕ → ℕ → Option LlmBucket → Option LlmBucket
  keep_unless_idle now window none = none
  keep_unless_idle now window (some b) = if is_idle now window b then none else some b

  unfoldable pub prune_llm_buckets : ℕ → ℕ → Buckets → Buckets
  unfolding keep_unless_idle
  prune_llm_buckets now window m k = if window == 0 then m k else keep_unless_idle now window (m k)

  abbrev pub bucket_or_fresh : Option LlmBucket → LlmBucket
  bucket_or_fresh none = fresh
  bucket_or_fresh (some b) = b

  abbrev pub put : ℕ → LlmBucket → Buckets → Buckets
  put k b m j = if j == k then some b else m j

  -- The body of `allowLLMCall` under the mutex of the fleet.
  unfoldable pub allow_in : Float → ℕ → ℕ → ℕ → Buckets → Buckets × Bool
  allow_in capacity window now from m =
      let pruned = prune_llm_buckets now window m in
      let (b, allowed) = take_llm_token capacity window now (bucket_or_fresh (pruned from)) in
      (put from b pruned, allowed)

  -- A fleet without a bucket map, or out of range, is not limited.
  unfoldable pub allow_llm_call : Float → ℕ → ℕ → ℕ → Option Buckets → Option Buckets × Bool
  unfolding allow_in
  allow_llm_call capacity window now from none = (none, true)
  allow_llm_call capacity window now from (some m) =
      let (m', allowed) = allow_in capacity window now from m in (some m', allowed)

  -- A row of requests at the given times, and how many of them pass.
  unfoldable pub take_all_tokens : Float → ℕ → List ℕ → LlmBucket → LlmBucket × ℕ
  unfolding take_llm_token
  take_all_tokens capacity window [] b = (b, 0)
  take_all_tokens capacity window (now ∷ times) b =
      let (b', allowed) = take_llm_token capacity window now b in
      let (last, count) = take_all_tokens capacity window times b' in
      (last, if allowed then count + 1 else count)

  -- The answers to requests of radios at their times.
  unfoldable pub allow_all : Float → ℕ → List (ℕ × ℕ) → Buckets → List Bool
  unfolding allow_in
  allow_all capacity window [] m = []
  allow_all capacity window ((from, now) ∷ requests) m =
      let (m', allowed) = allow_in capacity window now from m in
      allowed ∷ allow_all capacity window requests m'
