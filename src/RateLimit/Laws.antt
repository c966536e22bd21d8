-- ===== src/RateLimit/Laws.antt =====
-- What a burst of calls gets from the limiter of internal/app/fleet/llm_ratelimit.go.
use meshtk.Prelude.{
  ℕ, zero, suc, ◌+◌, ◌^◌, ◌≤◌, ◌<◌, min, ◌≡◌, refl, ◌∙◌, ap, arith, List, [], ◌∷◌, true, false, not,
  ◌||◌, length, some, le→ltb, ◌==◌, Bool-cases, inl, inr,
}
use meshtk.RateLimit.{Floats, LlmBucket, fresh, spend, refill, take_llm_token, take_all_tokens}

-- Integers below 2^53 are exact.
pub record CountLaws (fl : Floats) : Type 0 where
  pub sub_one : (n : ℕ) → n < 2 ^ 53 → fl.sub (fl.of_count (suc n)) (fl.of_count 1) ≡ fl.of_count n
  pub not_lt_self : fl.lt (fl.of_count 0) (fl.of_count 0) ≡ false
  pub lt_one : fl.lt (fl.of_count 0) (fl.of_count 1) ≡ true
  pub one_le : (n : ℕ) → fl.lt (fl.of_count (suc n)) (fl.of_count 1) ≡ false
  pub pos_suc : (n : ℕ) → fl.lt (fl.of_count 0) (fl.of_count (suc n)) ≡ true

-- None of the times lies after `until`.
abbrev pub AllBy : ℕ → List ℕ → Type 0
AllBy until [] = Unit
AllBy until (t ∷ times) = (t ≤ until) × AllBy until times

module _ (fl : Floats) (laws : CountLaws fl) (w : ℕ) (some_window : 0 < w) where
  abbrev holding : ℕ → ℕ → LlmBucket fl
  holding n t = record { tokens = fl.of_count n; last = some t }

  spend_none : (t : ℕ) → spend fl (holding 0 t) ≡ (holding 0 t, false)
  unfolding spend
  spend_none t = rw (laws.lt_one) refl

  spend_one : (n t : ℕ) → n < 2 ^ 53 → spend fl (holding (suc n) t) ≡ (holding n t, true)
  unfolding spend
  spend_one n t h = rw (laws.one_le n, laws.sub_one n h) refl

  refill_late :
      (c : fl.Float) (n t now : ℕ) → now ≤ t → refill fl c w now (holding n t) ≡ holding n t
  unfolding refill
  refill_late c n t now h = rw (le→ltb t now h) refl

  on : (n : ℕ) → (not (fl.lt (fl.of_count 0) (fl.of_count (suc n))) || w == 0) ≡ false
  on n = let positive = laws.pos_suc n in ground arith

  -- A brake of zero, or a bucket that is empty at its time, lets nothing pass.
  take_none :
      (c : fl.Float) (t now : ℕ)
      → now ≤ t
      → take_llm_token fl c w now (holding 0 t) ≡ (holding 0 t, false)
  unfolding take_llm_token
  take_none c t now h = elim (Bool-cases (not (fl.lt (fl.of_count 0) c) || w == 0)) [
    | inl off ↦ rw off refl
    | inr running ↦ rw (running, refill_late c 0 t now h) (spend_none t)
  ]

  take_one :
      (m n t now : ℕ)
      → n < 2 ^ 53
      → now ≤ t
      → take_llm_token fl (fl.of_count (suc m)) w now (holding (suc n) t) ≡ (holding n t, true)
  unfolding take_llm_token
  take_one m n t now small h =
      rw (on m, refill_late (fl.of_count (suc m)) (suc n) t now h) (spend_one n t small)

  take_fresh :
      (m t : ℕ)
      → m < 2 ^ 53
      → take_llm_token fl (fl.of_count (suc m)) w t (fresh fl) ≡ (holding m t, true)
  unfolding take_llm_token refill
  take_fresh m t small = rw (on m) (spend_one m t small)

  take_row :
      (m n t : ℕ) (times : List ℕ)
      → n < 2 ^ 53
      → AllBy t times
      → (take_all_tokens fl (fl.of_count (suc m)) w times (holding n t)).1 ≡ min (length times) n
  unfolding take_all_tokens
  take_row m n t [] small all = ground arith
  take_row m zero t (now ∷ times) small (h, all) =
      rw (take_none (fl.of_count (suc m)) t now h) (take_row m 0 t times small all ∙ (ground arith))
  take_row m (suc n) t (now ∷ times) small (h, all) =
      rw (take_one m n t now (omega arith) h)
        (ap (λ x. x + 1) (take_row m n t times (omega arith) all) ∙ (ground arith))

  off_row :
      (times : List ℕ) (b : LlmBucket fl) → (take_all_tokens fl (fl.of_count 0) w times b).1 ≡ 0
  unfolding take_all_tokens take_llm_token
  off_row [] b = refl
  off_row (now ∷ times) b = rw (laws.not_lt_self) (off_row times b)

  -- Of the calls of a radio that was not heard from that come while the clock does not pass the first
  -- of them, or steps back, exactly as many pass as the ceiling says, and all if they are fewer, for
  -- a ceiling below 2^53, a window and floats that are exact on such integers. A ceiling of zero lets
  -- none pass.
  pub take_all_tokens-burst :
      (ceiling t : ℕ) (times : List ℕ)
      → ceiling < 2 ^ 53
      → AllBy t times
      → (take_all_tokens fl (fl.of_count ceiling) w (t ∷ times) (fresh fl)).1
        ≡ min (length (t ∷ times)) ceiling
  unfolding take_all_tokens
  take_all_tokens-burst zero t times small all = off_row (t ∷ times) (fresh fl) ∙ (ground arith)
  take_all_tokens-burst (suc m) t times small all =
      rw (take_fresh m t (omega arith))
        (ap (λ x. x + 1) (take_row m m t times (omega arith) all) ∙ (ground arith))
