-- ===== src/Examples/KeyCache.antt =====
-- One radio in the store, and a cache that is a function and forgets nothing.
use meshtk.Prelude.{
  ℕ, ◌≡◌, refl, arith, false, Option, none, some, String, str_eq, eq_iff, if◌then◌else◌, Bool-cases,
  ◌⊎◌, inl, inr, sym, ok,
}
use mathlib.Core.Option.{some-injective}
use meshtk.KeyCache.{
  Key, KeyCacheLib, ResolverSettings, Resolver, key_found, resolve, resolve_with, fetch_key,
}
use meshtk.KeyCache.Laws.{KeyCacheLaws, start, resolve-Published}

abbrev write_key : (String → Option Key) → String → Key → String → Option Key
write_key c u x v = if str_eq u v then some x else c v

abbrev keys : KeyCacheLib
keys = record {
  Cache = String → Option Key;
  get = λ c u. c u;
  set = write_key;
  set_with_ttl = λ c u x d. write_key c u x;
}

write_key-back :
    (c : String → Option Key) (u v : String) (x y : Key)
    → write_key c u x v ≡ some y
    → ((u ≡ v) × (y ≡ x)) ⊎ (c v ≡ some y)
write_key-back c u v x y h = elim (Bool-cases (str_eq u v)) [
  | inl same ↦ inl ((eq_iff u v).0 same, sym (some-injective x y (rw same at h)))
  | inr other ↦ inr (rw other at h)
]

keys-KeyCacheLaws : KeyCacheLaws keys
keys-KeyCacheLaws = record {
  get-set = write_key-back;
  get-set_with_ttl = λ c u v x y d h. write_key-back c u v x y h;
}

abbrev radio : Key
radio = record { node_id = "!00000007"; node_num = 7; pub_key_hex = "0xab"; negative = false }

abbrev settings : ResolverSettings
settings = record { failure_threshold = 3; cooldown_duration = 10000000000; negative_ttl = 60 }

abbrev print_seven : ℕ → String
print_seven n = "!00000007"

abbrev empty_resolver : Resolver keys settings print_seven
empty_resolver = record { cache = λ u. none; consecutive_failures = 0; last_failure = 0 }

-- The store knows that one radio.
abbrev Published : String → Key → Type 0
Published id k = k ≡ radio

resolved_key :
    (resolve keys settings print_seven 200 7 (key_found radio) none empty_resolver).1
    ≡ ok (some "0xab")
unfolding resolve resolve_with fetch_key
resolved_key = refl

resolve-Published_example : (k : Key) × Published "!00000007" k × (k.pub_key_hex ≡ "0xab")
resolve-Published_example =
    resolve-Published keys settings print_seven Published keys-KeyCacheLaws 200 7 (key_found radio)
      none "0xab" (start {r = empty_resolver} (λ u. refl))
      ((λ k h. ground arith), (λ k h. ground arith)) resolved_key
