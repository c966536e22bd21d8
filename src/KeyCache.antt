-- ===== src/KeyCache.antt =====
-- The public keys of radios: internal/keycache/resolver.go over the cache of cache.go. The cache and the
-- store are parameters: the cache as an interface, the store as its answer to the call, with `flight`
-- for the answer of a call for the same node that `singleflight` shares. `node_id` is NodeIDFromNum,
-- `fmt.Sprintf("!%08x", ...)`, and times are nanoseconds.
pub mod Laws
use meshtk.Prelude.{
  ℕ, ◌+◌, Bool, true, false, Option, none, some, String, ltb, ◌==◌, if◌then◌else◌, Result, ok, err,
}

pub record Key : Type 0 where
  pub node_id : String
  pub node_num : ℕ
  pub pub_key_hex : String
  pub negative : Bool

pub record KeyCacheLib : Type 1 where
  pub Cache : Type 0
  pub get : Cache → String → Option Key
  pub set : Cache → String → Key → Cache
  pub set_with_ttl : Cache → String → Key → ℕ → Cache

-- The answer of the store: a key, `ErrNotFound`, or another error.
pub data KeyAnswer : Type 0 where
  key_found : Key → KeyAnswer
  no_key : KeyAnswer
  store_down : KeyAnswer

pub data ResolveError : Type 0 where
  circuit_open fetch_failed : ResolveError

pub record ResolverSettings : Type 0 where
  pub failure_threshold : ℕ
  pub cooldown_duration : ℕ
  pub negative_ttl : ℕ

-- What `Resolve` says of a key that it has.
abbrev pub known : Key → Option String
known k = if k.negative then none else some (k.pub_key_hex)

abbrev pub fetched : Result ResolveError (Option Key) → Result ResolveError (Option String)
fetched (err e) = err e
fetched (ok none) = ok none
fetched (ok (some k)) = ok (some (k.pub_key_hex))

module _ (l : KeyCacheLib) (cfg : ResolverSettings) (node_id : ℕ → String) where
  open l use {Cache, get, set, set_with_ttl}

  pub record Resolver : Type 0 where
    pub cache : Cache
    pub consecutive_failures : ℕ
    pub last_failure : ℕ

  -- `time.Since(lastFail) < cooldown`, said as a sum.
  abbrev pub resolver_is_degraded : ℕ → Resolver → Bool
  resolver_is_degraded now r =
      if ltb (r.consecutive_failures) (cfg.failure_threshold)
      then false
      else ltb now (r.last_failure + cfg.cooldown_duration)

  -- The function that `sf.Do` runs, or the answer that it shares.
  unfoldable pub fetch_key :
      ℕ
      → ℕ
      → KeyAnswer
      → Option (Result ResolveError (Option Key))
      → Resolver
      → Resolver × Result ResolveError (Option Key)
  fetch_key now num answer (some shared) r = (r, shared)
  fetch_key now num (key_found k) none r =
      (record r { cache = set (r.cache) (node_id num) k; consecutive_failures = 0 }, ok (some k))
  fetch_key now num no_key none r = (
    record r {
      cache =
          set_with_ttl (r.cache) (node_id num)
            (record { node_id = node_id num; node_num = num; pub_key_hex = ""; negative = true })
            (cfg.negative_ttl);
    },
    ok none,
  )
  fetch_key now num store_down none r = (
    record r { consecutive_failures = r.consecutive_failures + 1; last_failure = now },
    err fetch_failed,
  )

  abbrev pub resolve_missed :
      Resolver × Result ResolveError (Option Key) → Resolver × Result ResolveError (Option String)
  resolve_missed (r, found) = (r, fetched found)

  -- `Resolve` behind the cache lookup.
  unfoldable pub resolve_with :
      ℕ
      → ℕ
      → KeyAnswer
      → Option (Result ResolveError (Option Key))
      → Option Key
      → Resolver
      → Resolver × Result ResolveError (Option String)
  resolve_with now num answer flight (some k) r = (r, ok (known k))
  resolve_with now num answer flight none r =
      if resolver_is_degraded now r
      then (r, err circuit_open)
      else resolve_missed (fetch_key now num answer flight r)

  unfoldable pub resolve :
      ℕ
      → ℕ
      → KeyAnswer
      → Option (Result ResolveError (Option Key))
      → Resolver
      → Resolver × Result ResolveError (Option String)
  resolve now num answer flight r =
      if num == 0
      then (r, ok none)
      else resolve_with now num answer flight (get (r.cache) (node_id num)) r

  abbrev pub reset_resolver : Resolver → Resolver
  reset_resolver r = record r { consecutive_failures = 0 }
