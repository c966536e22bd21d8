-- ===== src/Examples/Credentials.antt =====
-- One account in the store, and a cache that is a function and forgets nothing.
use meshtk.Prelude.{
  ◌≡◌, refl, arith, [], ◌∷◌, true, false, Option, none, some, String, str_eq, eq_iff, ok, err,
  if◌then◌else◌, Bool-cases, ◌⊎◌, inl, inr, leb→le, ltb→lt, sym,
}
use mathlib.Core.Option.{some-injective}
use meshtk.Credentials.{
  Credential, CacheLib, found, failed, breaker_open, store_failed, default_settings,
  compare_password, AuthState, is_degraded, verify,
}
use meshtk.Credentials.Breaker.{verify-opens, verify-closes}
use meshtk.Credentials.Laws.{CacheLaws, verify-Issued, start}

abbrev write_entry : (String → Option Credential) → String → Credential → String → Option Credential
write_entry c u x v = if str_eq u v then some x else c v

abbrev pub cache_lib : CacheLib
cache_lib = record {
  Cache = String → Option Credential;
  get_if_present = λ c u. c u;
  set = write_entry;
  set_expires_after = λ c u d. c;
}

write_entry-CacheLaws :
    (c : String → Option Credential) (u v : String) (x y : Credential)
    → write_entry c u x v ≡ some y
    → ((u ≡ v) × (y ≡ x)) ⊎ (c v ≡ some y)
write_entry-CacheLaws c u v x y h = elim (Bool-cases (str_eq u v)) [
  | inl same ↦ inl ((eq_iff u v).0 same, sym (some-injective x y (rw same at h)))
  | inr other ↦ inr (rw other at h)
]

pub cache_lib-CacheLaws : CacheLaws cache_lib
cache_lib-CacheLaws = record {
  get-set = write_entry-CacheLaws;
  get-set_expires_after = λ c u v d y h. h;
}

abbrev pub sensor : Credential
sensor = record { username = "sensor"; password = 1 ∷ 2 ∷ []; usertype = "mqtt"; negative = false }

abbrev pub State : Type 0
State = AuthState cache_lib default_settings

abbrev pub cold : State
cold = record { cache = λ _. none; consecutive_failures = 2; last_failure = 100 }

-- The store knows that one account.
abbrev pub Issued : String → Credential → Type 0
Issued u c = c ≡ sensor

accepted :
    (verify cache_lib default_settings 200 (found sensor) none "sensor" (1 ∷ 2 ∷ []) cold).1
    ≡ ok true
unfolding verify
accepted = refl

verify-Issued_example : (c : Credential) × Issued "sensor" c × (c.password ≡ 1 ∷ 2 ∷ [])
verify-Issued_example =
    verify-Issued cache_lib default_settings Issued cache_lib-CacheLaws 200 (found sensor) none
      "sensor" (1 ∷ 2 ∷ []) (start {s = cold} (λ u. refl))
      ((λ c h. ground arith), (λ c h. ground arith)) accepted

verify-opens_example :
    let out = verify cache_lib default_settings 200 failed none "sensor" (1 ∷ []) cold in
    (out.1 ≡ err store_failed)
    × (verify cache_lib default_settings 5000 (found sensor) none "public" (2 ∷ []) out.0
        ≡ (out.0, err breaker_open))
unfolding is_degraded
verify-opens_example =
    verify-opens cache_lib default_settings 200 5000 (found sensor) none "sensor" "public" (1 ∷ [])
      (2 ∷ []) cold (refl, refl) (refl, refl) refl (leb→le 3 3 refl) (ltb→lt 5000 10000000200 refl)

verify-closes_example :
    let out =
      verify cache_lib default_settings 10000000100 (found sensor) none "sensor" (1 ∷ []) cold in
    (out.1 ≡ ok (compare_password (1 ∷ 2 ∷ []) (1 ∷ [])))
    × (out.0.consecutive_failures ≡ 0)
    × (is_degraded cache_lib default_settings 10000000101 out.0 ≡ false)
verify-closes_example =
    verify-closes cache_lib default_settings 10000000100 10000000101 sensor "sensor" (1 ∷ []) cold
      (refl, refl) (leb→le 10000000100 10000000100 refl) (ltb→lt 0 3 refl)
