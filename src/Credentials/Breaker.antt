-- ===== src/Credentials/Breaker.antt =====
-- The circuit breaker of internal/credcache/auth.go: it opens after the threshold of failures, keeps
-- the store unasked until the cooldown is over, and closes with a success.
use meshtk.Prelude.{
  ℕ, ◌+◌, ◌≤◌, ◌<◌, ◌≡◌, refl, arith, List, true, false, Option, none, String, str_eq, Result, ok,
  err,
}
use meshtk.Credentials.{
  Credential, CacheLib, Fetched, found, failed, AuthError, breaker_open, store_failed, Settings,
  compare_password, judge_fetched, AuthState, record_failure, is_degraded, fetch, do_flight,
  fetch_with_singleflight, verify_missed, verify_with, verify,
}

module _ (l : CacheLib) (cfg : Settings) where
  -- A user that `Verify` asks the store for, unless the breaker is open.
  abbrev pub Missed : String → AuthState l cfg → Type 0
  Missed u s = (str_eq u "" ≡ false) × (l.get_if_present (s.cache) u ≡ none)

  pub verify-Missed :
      (now : ℕ) (answer : Fetched) (flight : Option (Result AuthError (Option Credential)))
      (u : String) (password : List ℕ) (s : AuthState l cfg)
      → Missed u s
      → verify l cfg now answer flight u password s
        ≡ verify_missed l cfg password (fetch_with_singleflight l cfg now u answer flight s)
  unfolding verify verify_with
  verify-Missed now answer flight u password s (some_name, missed) = rw (some_name, missed) refl

  verify-failed :
      (now : ℕ) (u : String) (password : List ℕ) (s : AuthState l cfg)
      → Missed u s
      → is_degraded l cfg now s ≡ false
      → verify l cfg now failed none u password s ≡ (record_failure l cfg now s, err store_failed)
  unfolding fetch_with_singleflight do_flight fetch verify_missed judge_fetched
  verify-failed now u password s missed closed =
      rw (verify-Missed now failed none u password s missed, closed) refl

  verify-refused :
      (t : ℕ) (answer : Fetched) (flight : Option (Result AuthError (Option Credential)))
      (u : String) (password : List ℕ) (s : AuthState l cfg)
      → Missed u s
      → is_degraded l cfg t s ≡ true
      → verify l cfg t answer flight u password s ≡ (s, err breaker_open)
  unfolding fetch_with_singleflight verify_missed judge_fetched
  verify-refused t answer flight u password s missed degraded =
      rw (verify-Missed t answer flight u password s missed, degraded) refl

  -- The failure that reaches the threshold opens the breaker: until the cooldown is over, every
  -- user that is not cached is refused at once, whatever the store would answer, and the state
  -- stays as it is.
  pub verify-opens :
      (now t : ℕ) (answer : Fetched) (flight : Option (Result AuthError (Option Credential)))
      (u v : String) (password guess : List ℕ) (s : AuthState l cfg)
      → Missed u s
      → Missed v s
      → is_degraded l cfg now s ≡ false
      → cfg.failure_threshold ≤ s.consecutive_failures + 1
      → t < now + cfg.cooldown
      → let out = verify l cfg now failed none u password s in
        (out.1 ≡ err store_failed)
        × (verify l cfg t answer flight v guess out.0 ≡ (out.0, err breaker_open))
  unfolding fetch_with_singleflight do_flight fetch verify_missed judge_fetched is_degraded
  verify-opens now t answer flight u v password guess s mu mv closed many soon =
      rw (verify-failed now u password s mu closed) (
        refl,
        verify-refused t answer flight v guess (record_failure l cfg now s) mv (ground arith),
      )

  -- Once the cooldown is over the store is asked again, and a success closes the breaker for good:
  -- the failures count from zero.
  pub verify-closes :
      (now t : ℕ) (c : Credential) (u : String) (password : List ℕ) (s : AuthState l cfg)
      → Missed u s
      → s.last_failure + cfg.cooldown ≤ now
      → 0 < cfg.failure_threshold
      → let out = verify l cfg now (found c) none u password s in
        (out.1 ≡ ok (compare_password (c.password) password))
        × (out.0.consecutive_failures ≡ 0)
        × (is_degraded l cfg t out.0 ≡ false)
  unfolding fetch_with_singleflight do_flight fetch verify_missed judge_fetched is_degraded
  verify-closes now t c u password s missed late some_threshold =
      rw (verify-Missed now (found c) none u password s missed) (ground arith)
