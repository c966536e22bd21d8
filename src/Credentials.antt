-- ===== src/Credentials.antt =====
-- Credential verification: internal/credcache/auth.go over the cache of internal/credcache/cache.go.
-- The otter cache and the DynamoDB store are parameters: the cache as an interface, the store as
-- the answer that it gives to the call. `flight` is the answer of a call for the same user that
-- another goroutine has in flight, which `singleflight` shares.
pub mod Laws
pub mod Breaker
use meshtk.Prelude.{
  ℕ, ◌+◌, ◌*◌, List, [], ◌∷◌, Bool, true, false, ◌&&◌, Option, none, some, String, str_eq, ltb,
  ◌==◌, if◌then◌else◌, Result, ok, err,
}

pub record Credential : Type 0 where
  pub username : String
  pub password : List ℕ
  pub usertype : String
  pub negative : Bool

-- What the cache is asked for.
pub record CacheLib : Type 1 where
  pub Cache : Type 0
  pub get_if_present : Cache → String → Option Credential
  pub set : Cache → String → Credential → Cache
  pub set_expires_after : Cache → String → ℕ → Cache

-- The answer of `store.Fetch`.
pub data Fetched : Type 0 where
  found : Credential → Fetched
  not_found : Fetched
  failed : Fetched

pub data AuthError : Type 0 where
  breaker_open store_failed : AuthError

pub record Settings : Type 0 where
  pub failure_threshold : ℕ
  pub cooldown : ℕ
  pub negative_ttl : ℕ

-- The defaults of `NewCacheAuthenticator`, in nanoseconds.
abbrev pub default_settings : Settings
default_settings = record {
  failure_threshold = 3;
  cooldown = 10 * 1000000000;
  negative_ttl = 60 * 1000000000;
}

-- `subtle.ConstantTimeCompare(raw, stored) == 1`
unfoldable pub compare_password : List ℕ → List ℕ → Bool
compare_password [] [] = true
compare_password (x ∷ xs) (y ∷ ys) = x == y && compare_password xs ys
compare_password _ _ = false

-- The verdict on a credential that the cache holds.
unfoldable pub judge_cached : Credential → List ℕ → Bool
unfolding compare_password
judge_cached c password = if c.negative then false else compare_password (c.password) password

-- The verdict on what the fetch returned: it does not look at `Negative`.
unfoldable pub judge_fetched : List ℕ → Result AuthError (Option Credential) → Result AuthError Bool
unfolding compare_password
judge_fetched password (err e) = err e
judge_fetched password (ok none) = ok false
judge_fetched password (ok (some c)) = ok (compare_password (c.password) password)

module _ (l : CacheLib) (cfg : Settings) where
  open l use {Cache, get_if_present, set, set_expires_after}

  pub record AuthState : Type 0 where
    pub cache : Cache
    pub consecutive_failures : ℕ
    pub last_failure : ℕ

  -- `time.Since(lastFail) < cooldown`, said as a sum.
  unfoldable pub is_degraded : ℕ → AuthState → Bool
  is_degraded now s =
      if ltb (s.consecutive_failures) (cfg.failure_threshold)
      then false
      else ltb now (s.last_failure + cfg.cooldown)

  abbrev pub record_failure : ℕ → AuthState → AuthState
  record_failure now s = record s {
    consecutive_failures = s.consecutive_failures + 1;
    last_failure = now;
  }

  abbrev pub record_success : AuthState → AuthState
  record_success s = record s { consecutive_failures = 0 }

  abbrev pub reset_circuit_breaker : AuthState → AuthState
  reset_circuit_breaker s = record s { consecutive_failures = 0 }

  abbrev pub set_with_ttl : Cache → String → Credential → ℕ → Cache
  set_with_ttl c user cred ttl = set_expires_after (set c user cred) user ttl

  -- The function that `sf.Do` runs.
  unfoldable pub fetch :
      ℕ → String → Fetched → AuthState → AuthState × Result AuthError (Option Credential)
  fetch now user (found c) s =
      let s' = record_success s in (record s' { cache = set (s'.cache) user c }, ok (some c))
  fetch now user not_found s = (
    record s {
      cache =
          set_with_ttl (s.cache) user
            (record { username = user; password = []; usertype = ""; negative = true })
            (cfg.negative_ttl);
    },
    ok none,
  )
  fetch now user failed s = (record_failure now s, err store_failed)

  -- The answer of a call in flight is shared, and leaves the state to that call.
  unfoldable pub do_flight :
      ℕ
      → String
      → Fetched
      → Option (Result AuthError (Option Credential))
      → AuthState
      → AuthState × Result AuthError (Option Credential)
  unfolding fetch
  do_flight now user answer none s = fetch now user answer s
  do_flight now user answer (some shared) s = (s, shared)

  unfoldable pub fetch_with_singleflight :
      ℕ
      → String
      → Fetched
      → Option (Result AuthError (Option Credential))
      → AuthState
      → AuthState × Result AuthError (Option Credential)
  unfolding is_degraded do_flight
  fetch_with_singleflight now user answer flight s =
      if is_degraded now s then (s, err breaker_open) else do_flight now user answer flight s

  unfoldable pub verify_missed :
      List ℕ → AuthState × Result AuthError (Option Credential) → AuthState × Result AuthError Bool
  unfolding judge_fetched
  verify_missed password (s, r) = (s, judge_fetched password r)

  unfoldable pub verify_with :
      ℕ
      → Fetched
      → Option (Result AuthError (Option Credential))
      → String
      → List ℕ
      → Option Credential
      → AuthState
      → AuthState × Result AuthError Bool
  unfolding judge_cached fetch_with_singleflight verify_missed
  verify_with now answer flight user password (some c) s = (s, ok (judge_cached c password))
  verify_with now answer flight user password none s =
      verify_missed password (fetch_with_singleflight now user answer flight s)

  unfoldable pub verify :
      ℕ
      → Fetched
      → Option (Result AuthError (Option Credential))
      → String
      → List ℕ
      → AuthState
      → AuthState × Result AuthError Bool
  unfolding verify_with
  verify now answer flight user password s =
      if str_eq user ""
      then (s, ok false)
      else verify_with now answer flight user password (get_if_present (s.cache) user) s
