-- ===== src/Credentials/Laws.antt =====
-- A password is accepted only against a credential that the store issued.
use meshtk.Prelude.{
  ℕ, ◌≡◌, ◌⊎◌, inl, inr, refl, ap, arith, List, [], ◌∷◌, true, false, Option, none, some, String,
  str_eq, Result, ok, err, Bool-cases,
}
use meshtk.Credentials.{
  Credential, CacheLib, Fetched, found, not_found, failed, AuthError, breaker_open, Settings,
  compare_password, judge_cached, judge_fetched, AuthState, is_degraded, reset_circuit_breaker,
  fetch, do_flight, fetch_with_singleflight, verify_missed, verify_with, verify,
}

-- What the cache promises: a value that it returns was put there under that key, or was there
-- before. It may forget at any time.
pub record CacheLaws (l : CacheLib) : Type 0 where
  pub get-set :
      (c : l.Cache) (u v : String) (x y : Credential)
      → l.get_if_present (l.set c u x) v ≡ some y
      → ((u ≡ v) × (y ≡ x)) ⊎ (l.get_if_present c v ≡ some y)
  pub get-set_expires_after :
      (c : l.Cache) (u v : String) (d : ℕ) (y : Credential)
      → l.get_if_present (l.set_expires_after c u d) v ≡ some y
      → l.get_if_present c v ≡ some y

pub compare_password-true : (a b : List ℕ) → compare_password a b ≡ true → a ≡ b
unfolding compare_password
compare_password-true [] [] h = refl
compare_password-true [] (y ∷ ys) h = ground arith
compare_password-true (x ∷ xs) [] h = ground arith
compare_password-true (x ∷ xs) (y ∷ ys) h = ground (arith, compare_password-true xs ys)

pub compare_password_refl : (a : List ℕ) → compare_password a a ≡ true
unfolding compare_password
compare_password_refl [] = refl
compare_password_refl (x ∷ xs) = ground (arith, compare_password_refl xs)

module _ (l : CacheLib) (cfg : Settings) (Issued : String → Credential → Type 0) where
  -- Every positive entry of the cache was issued by the store to its user.
  abbrev pub Vouched : AuthState l cfg → Type 0
  Vouched s =
      (u : String) (c : Credential)
      → l.get_if_present (s.cache) u ≡ some c
      → c.negative ≡ false
      → Issued u c

  -- The answers of the store, also those shared with another call, are issued.
  abbrev pub Honest : String → Fetched → Option (Result AuthError (Option Credential)) → Type 0
  Honest u answer flight =
      ((c : Credential) → answer ≡ found c → Issued u c)
      × ((c : Credential) → flight ≡ some (ok (some c)) → Issued u c)

  fetch-Vouched :
      CacheLaws l
      → (now : ℕ) (u : String) (answer : Fetched) (s : AuthState l cfg) → Vouched s
      → ((c : Credential) → answer ≡ found c → Issued u c)
      → Vouched (fetch l cfg now u answer s).0
  unfolding fetch
  fetch-Vouched laws now u (found x) s v issued w c h pos =
      elim (laws.get-set (s.cache) u w x c h) [
        | inl (same, is) ↦ rw (is, ← same) (issued x refl)
        | inr before ↦ v w c before pos
      ]
  fetch-Vouched laws now u not_found s v issued w c h pos =
      elim (laws.get-set (s.cache) u w _ c
        (laws.get-set_expires_after _ u w (cfg.negative_ttl) c h)) [
          | inl (same, is) ↦ ground arith
          | inr before ↦ v w c before pos
        ]
  fetch-Vouched laws now u failed s v issued w c h pos = v w c h pos

  breaker-refuses : {c : Credential} → ¬ (err breaker_open ≡ ok (some c))
  breaker-refuses h = ground arith

  do_flight-Vouched :
      CacheLaws l
      → (now : ℕ) (u : String) (answer : Fetched)
        (flight : Option (Result AuthError (Option Credential))) (s : AuthState l cfg)
      → Vouched s
      → Honest u answer flight
      → Vouched (do_flight l cfg now u answer flight s).0
  unfolding do_flight
  do_flight-Vouched laws now u answer none s v honest = fetch-Vouched laws now u answer s v honest.0
  do_flight-Vouched laws now u answer (some r) s v honest = v

  do_flight-Issued :
      (now : ℕ) (u : String) (answer : Fetched)
      (flight : Option (Result AuthError (Option Credential))) (s : AuthState l cfg)
      (c : Credential)
      → Honest u answer flight
      → (do_flight l cfg now u answer flight s).1 ≡ ok (some c)
      → Issued u c
  unfolding do_flight fetch
  do_flight-Issued now u (found x) none s c honest h = honest.0 c (ground arith)
  do_flight-Issued now u not_found none s c honest h = ground arith
  do_flight-Issued now u failed none s c honest h = ground arith
  do_flight-Issued now u answer (some r) s c honest h = honest.1 c (ap some h)

  fetched-Issued :
      (now : ℕ) (u : String) (answer : Fetched)
      (flight : Option (Result AuthError (Option Credential))) (s : AuthState l cfg)
      (c : Credential)
      → Honest u answer flight
      → (fetch_with_singleflight l cfg now u answer flight s).1 ≡ ok (some c)
      → Issued u c
  unfolding fetch_with_singleflight
  fetched-Issued now u answer flight s c honest h = elim (Bool-cases (is_degraded l cfg now s)) [
    | inl open_breaker ↦ absurd (breaker-refuses (rw open_breaker at h))
    | inr closed ↦ do_flight-Issued now u answer flight s c honest (rw closed at h)
  ]

  missed-Vouched :
      CacheLaws l
      → (now : ℕ) (u : String) (answer : Fetched)
        (flight : Option (Result AuthError (Option Credential))) (s : AuthState l cfg)
      → Vouched s
      → Honest u answer flight
      → Vouched (fetch_with_singleflight l cfg now u answer flight s).0
  unfolding fetch_with_singleflight
  missed-Vouched laws now u answer flight s v honest = elim (Bool-cases (is_degraded l cfg now s)) [
    | inl open_breaker ↦ rw open_breaker v
    | inr closed ↦ rw closed (do_flight-Vouched laws now u answer flight s v honest)
  ]

  judge_fetched-true :
      (password : List ℕ) (r : Result AuthError (Option Credential))
      → judge_fetched password r ≡ ok true
      → (c : Credential) × (r ≡ ok (some c)) × (c.password ≡ password)
  unfolding judge_fetched
  judge_fetched-true password (err e) h = ground arith
  judge_fetched-true password (ok none) h = ground arith
  judge_fetched-true password (ok (some c)) h =
      (c, refl, compare_password-true (c.password) password (ground arith))

  verify_with-Vouched :
      CacheLaws l
      → (now : ℕ) (answer : Fetched) (flight : Option (Result AuthError (Option Credential)))
        (u : String) (password : List ℕ) (cached : Option Credential) (s : AuthState l cfg)
      → l.get_if_present (s.cache) u ≡ cached
      → Vouched s
      → Honest u answer flight
      → let out = verify_with l cfg now answer flight u password cached s in
        Vouched out.0 × (out.1 ≡ ok true → (c : Credential) × Issued u c × (c.password ≡ password))
  unfolding verify_with verify_missed judge_cached
  verify_with-Vouched laws now answer flight u password (some c) s held v honest = (
    v,
    λ h. (c, v u c held (ground arith), compare_password-true (c.password) password (ground arith)),
  )
  verify_with-Vouched laws now answer flight u password none s held v honest = (
    missed-Vouched laws now u answer flight s v honest,
    λ h.
        let (c, got, same) = judge_fetched-true password _ h in
        (c, fetched-Issued now u answer flight s c honest got, same),
  )

  -- Soundness of `Verify`: it keeps the cache vouched for, and a password that it accepts is the
  -- password of a credential that the store issued to that user.
  pub verify-Vouched :
      CacheLaws l
      → (now : ℕ) (answer : Fetched) (flight : Option (Result AuthError (Option Credential)))
        (u : String) (password : List ℕ) (s : AuthState l cfg)
      → Vouched s
      → Honest u answer flight
      → let out = verify l cfg now answer flight u password s in
        Vouched out.0 × (out.1 ≡ ok true → (c : Credential) × Issued u c × (c.password ≡ password))
  unfolding verify
  verify-Vouched laws now answer flight u password s v honest = elim (Bool-cases (str_eq u "")) [
    | inl nobody ↦ rw nobody (v, λ h. ground arith)
    | inr somebody ↦
        rw somebody (verify_with-Vouched laws now answer flight u password _ s refl v honest)
  ]

  -- The states that the authenticator comes to: from an empty cache, by verifications, by resets
  -- of the breaker, and by whatever time, eviction and the admin remove from the cache.
  pub data Reachable : AuthState l cfg → Type 0 where
    start :
        {s : AuthState l cfg} → ((u : String) → l.get_if_present (s.cache) u ≡ none) → Reachable s
    verified :
        {s : AuthState l cfg} (now : ℕ) (answer : Fetched)
        (flight : Option (Result AuthError (Option Credential))) (u : String) (password : List ℕ)
        → Reachable s
        → Honest u answer flight
        → Reachable (verify l cfg now answer flight u password s).0
    forgot :
        {s : AuthState l cfg} (cache : l.Cache)
        → Reachable s
        → ((u : String) (c : Credential)
            → l.get_if_present cache u ≡ some c
            → l.get_if_present (s.cache) u ≡ some c)
        → Reachable (record s { cache = cache })
    reset : {s : AuthState l cfg} → Reachable s → Reachable (reset_circuit_breaker l cfg s)

  Reachable-Vouched : CacheLaws l → {s : AuthState l cfg} → Reachable s → Vouched s
  Reachable-Vouched laws (start none_held) u c h pos = ground (arith, none_held u)
  Reachable-Vouched laws (verified {s} now answer flight user password r honest) u c h pos =
      (verify-Vouched laws now answer flight user password s (Reachable-Vouched laws r) honest).0 u
        c h pos
  Reachable-Vouched laws (forgot cache r less) u c h pos =
      Reachable-Vouched laws r u c (less u c h) pos
  Reachable-Vouched laws (reset r) u c h pos = Reachable-Vouched laws r u c h pos

  -- In every state that is reached over a cache with its laws, if the store's answers are issued,
  -- a password that is accepted is the password of a credential that the store issued to that user.
  pub verify-Issued :
      CacheLaws l
      → {s : AuthState l cfg} (now : ℕ) (answer : Fetched)
        (flight : Option (Result AuthError (Option Credential))) (u : String) (password : List ℕ)
      → Reachable s
      → Honest u answer flight
      → (verify l cfg now answer flight u password s).1 ≡ ok true
      → (c : Credential) × Issued u c × (c.password ≡ password)
  verify-Issued laws {s} now answer flight u password r honest h =
      (verify-Vouched laws now answer flight u password s (Reachable-Vouched laws r) honest).1 h
