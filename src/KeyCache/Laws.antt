-- ===== src/KeyCache/Laws.antt =====
-- A key that `Resolve` of internal/keycache/resolver.go gives is one that the store gave for that node.
use meshtk.Prelude.{
  ℕ, false, Option, none, some, String, ◌≡◌, ◌⊎◌, inl, inr, refl, arith, ◌==◌, if-cases, Result, ok,
  err,
}
use meshtk.KeyCache.{
  Key, KeyCacheLib, KeyAnswer, key_found, no_key, store_down, ResolveError, ResolverSettings,
  Resolver, resolver_is_degraded, fetch_key, resolve_missed, resolve_with, resolve, reset_resolver,
}

-- What the cache promises: it returns what was put under that key last, or what was there; it may
-- forget at any time.
pub record KeyCacheLaws (l : KeyCacheLib) : Type 0 where
  pub get-set :
      (c : l.Cache) (u v : String) (x y : Key)
      → l.get (l.set c u x) v ≡ some y
      → ((u ≡ v) × (y ≡ x)) ⊎ (l.get c v ≡ some y)
  pub get-set_with_ttl :
      (c : l.Cache) (u v : String) (x y : Key) (d : ℕ)
      → l.get (l.set_with_ttl c u x d) v ≡ some y
      → ((u ≡ v) × (y ≡ x)) ⊎ (l.get c v ≡ some y)

-- `Published id k`: the store has the key `k` for the node of that identifier.
module _ (l : KeyCacheLib) (cfg : ResolverSettings) (node_id : ℕ → String)
    (Published : String → Key → Type 0) where
  abbrev pub Trusted : Resolver l cfg node_id → Type 0
  Trusted r =
      (id : String) (k : Key) → l.get r.cache id ≡ some k → k.negative ≡ false → Published id k

  -- The answers of the store, also those shared with another call, are published.
  abbrev pub Truthful : ℕ → KeyAnswer → Option (Result ResolveError (Option Key)) → Type 0
  Truthful n answer flight =
      ((k : Key) → answer ≡ key_found k → Published (node_id n) k)
      × ((k : Key) → flight ≡ some (ok (some k)) → Published (node_id n) k)

  -- A key that was given for a node is published for it.
  abbrev pub Sound : ℕ → Resolver l cfg node_id × Result ResolveError (Option String) → Type 0
  Sound n out =
      Trusted out.0
      × ((hex : String)
          → out.1 ≡ ok (some hex)
          → (k : Key) × Published (node_id n) k × (k.pub_key_hex ≡ hex))

  fetch_key-Sound :
      KeyCacheLaws l
      → (now n : ℕ) (answer : KeyAnswer) (flight : Option (Result ResolveError (Option Key)))
        (r : Resolver l cfg node_id)
      → Trusted r
      → Truthful n answer flight
      → Sound n (resolve_missed l cfg node_id (fetch_key l cfg node_id now n answer flight r))
  unfolding fetch_key
  fetch_key-Sound laws now n answer (some (ok none)) r t honest = (t, λ hex h. ground arith)
  fetch_key-Sound laws now n answer (some (err e)) r t honest = (t, λ hex h. ground arith)
  fetch_key-Sound laws now n answer (some (ok (some k))) r t honest =
      (t, λ hex h. (k, honest.1 k refl, ground arith))
  fetch_key-Sound laws now n (key_found x) none r t honest = (
    (λ m k h pos. elim (laws.get-set r.cache (node_id n) m x k h) [
      | inl (same, is) ↦ rw (is, ← same) (honest.0 x refl)
      | inr before ↦ t m k before pos
    ]),
    λ hex h. (x, honest.0 x refl, ground arith),
  )
  fetch_key-Sound laws now n no_key none r t honest = (
    (λ m k h pos. elim (laws.get-set_with_ttl r.cache (node_id n) m _ k _ h) [
      | inl (same, is) ↦ absurd (ground (arith, is))
      | inr before ↦ t m k before pos
    ]),
    λ hex h. ground arith,
  )
  fetch_key-Sound laws now n store_down none r t honest = (t, λ hex h. ground arith)

  resolve_with-Sound :
      KeyCacheLaws l
      → (now n : ℕ) (answer : KeyAnswer) (flight : Option (Result ResolveError (Option Key)))
        (r : Resolver l cfg node_id) (o : Option Key)
      → l.get r.cache (node_id n) ≡ o
      → Trusted r
      → Truthful n answer flight
      → Sound n (resolve_with l cfg node_id now n answer flight o r)
  unfolding resolve_with
  resolve_with-Sound laws now n answer flight r none missed t honest =
      if-cases (Sound n) (resolver_is_degraded l cfg node_id now r) _ _
        (λ _. (t, λ hex h. ground arith)) (λ _. fetch_key-Sound laws now n answer flight r t honest)
  resolve_with-Sound laws now n answer flight r (some k) held t honest =
      (t, λ hex h. (k, t (node_id n) k held (ground arith), ground arith))

  resolve-Sound :
      KeyCacheLaws l
      → (now n : ℕ) (answer : KeyAnswer) (flight : Option (Result ResolveError (Option Key)))
        (r : Resolver l cfg node_id)
      → Trusted r
      → Truthful n answer flight
      → Sound n (resolve l cfg node_id now n answer flight r)
  unfolding resolve
  resolve-Sound laws now n answer flight r t honest =
      if-cases (Sound n) (n == 0) _ _ (λ _. (t, λ hex h. ground arith))
        (λ _.
          resolve_with-Sound laws now n answer flight r (l.get r.cache (node_id n)) refl t honest)

  -- The states that the resolver comes to: from an empty cache, by lookups, by resets of the breaker,
  -- and by whatever time and eviction remove from the cache.
  pub data ResolverReach : Resolver l cfg node_id → Type 0 where
    start :
        {r : Resolver l cfg node_id} → ((id : String) → l.get r.cache id ≡ none) → ResolverReach r
    resolved :
        {r : Resolver l cfg node_id} (now n : ℕ) (answer : KeyAnswer)
        (flight : Option (Result ResolveError (Option Key)))
        → ResolverReach r
        → Truthful n answer flight
        → ResolverReach (resolve l cfg node_id now n answer flight r).0
    forgot :
        {r : Resolver l cfg node_id} (cache : l.Cache)
        → ResolverReach r
        → ((id : String) (k : Key) → l.get cache id ≡ some k → l.get r.cache id ≡ some k)
        → ResolverReach (record r { cache = cache })
    reset_by_admin :
        {r : Resolver l cfg node_id}
        → ResolverReach r
        → ResolverReach (reset_resolver l cfg node_id r)

  ResolverReach-Trusted :
      KeyCacheLaws l → {r : Resolver l cfg node_id} → ResolverReach r → Trusted r
  ResolverReach-Trusted laws (start empty) id k h pos = ground (arith, empty id)
  ResolverReach-Trusted laws (resolved {r} now n answer flight reach honest) id k h pos =
      (resolve-Sound laws now n answer flight r (ResolverReach-Trusted laws reach) honest).0 id k h
        pos
  ResolverReach-Trusted laws (forgot cache reach less) id k h pos =
      ResolverReach-Trusted laws reach id k (less id k h) pos
  ResolverReach-Trusted laws (reset_by_admin reach) id k h pos =
      ResolverReach-Trusted laws reach id k h pos

  -- In every state that the resolver comes to over a cache with its laws, if the store's answers are
  -- published, a key that is resolved for a node is one that the store has for it.
  pub resolve-Published :
      KeyCacheLaws l
      → {r : Resolver l cfg node_id} (now n : ℕ) (answer : KeyAnswer)
        (flight : Option (Result ResolveError (Option Key))) (hex : String)
      → ResolverReach r
      → Truthful n answer flight
      → (resolve l cfg node_id now n answer flight r).1 ≡ ok (some hex)
      → (k : Key) × Published (node_id n) k × (k.pub_key_hex ≡ hex)
  resolve-Published laws {r} now n answer flight hex reach honest h =
      (resolve-Sound laws now n answer flight r (ResolverReach-Trusted laws reach) honest).1 hex h
