-- ===== src/Node/Prune.antt =====
-- What pruning leaves of a map in internal/mqtt/node.go.
use meshtk.Prelude.{
  ℕ, zero, suc, ◌+◌, ◌≤◌, List, [], ◌∷◌, Bool, true, false, Bool-cases, ◌≡◌, ◌⊎◌, inl, inr, sym,
  subst, arith, length, ltb, ltb→lt, if-cases,
}
use meshtk.Node.{expire, oldest, delete_key, evict, prune_map}
use meshtk.Node.Oldest.{
  In, here, there, In-case, delete_key-In, delete_key-subset, delete_key-keeps, AllSet, oldest-le,
  oldest_unset-In,
}

module _ {K : Type 0} (same : K → K → Bool) (unset : K)
    (refl_same : (k : K) → same k k ≡ true) where
  pub evict-length :
      (fuel limit : ℕ) (entries : List (K × ℕ))
      → length entries ≤ fuel
      → length (evict same unset fuel limit entries) ≤ limit
  unfolding evict
  evict-length zero limit [] h = omega arith
  evict-length zero limit (b ∷ rest) h = absurd (omega arith)
  evict-length (suc fuel) limit [] h = ground arith
  evict-length (suc fuel) limit (b ∷ rest) h =
      let o = oldest same unset (unset, 0) (b ∷ rest) in
      let less =
        delete_key-In same unset refl_same o.0 o.1 (b ∷ rest)
          (oldest_unset-In same unset refl_same b rest) in
      if-cases (λ (m : List (K × ℕ)). length m ≤ limit) (ltb limit (length (b ∷ rest))) _ _
        (λ _. evict-length fuel limit (delete_key same unset o.0 (b ∷ rest)) (omega (arith, less)))
        (λ small. (ground arith))

  pub evict-subset :
      (fuel limit : ℕ) (e : K × ℕ) (entries : List (K × ℕ))
      → In e (evict same unset fuel limit entries)
      → In e entries
  unfolding evict
  evict-subset zero limit e entries = λ i. i
  evict-subset (suc fuel) limit e entries =
      let o = oldest same unset (unset, 0) entries in
      if-cases (λ (m : List (K × ℕ)). In e m → In e entries) (ltb limit (length entries)) _ _
        (λ _ i.
          delete_key-subset same unset refl_same o.0 e entries
            (evict-subset fuel limit e (delete_key same unset o.0 entries) i))
        (λ _ i. i)

  -- A key has one time.
  abbrev pub OneTime : List (K × ℕ) → Type 0
  OneTime entries =
      (e e' : K × ℕ) → In e entries → In e' entries → same e.0 e'.0 ≡ true → e.1 ≡ e'.1

  -- What is evicted is no newer than what stays.
  evict-newest :
      (fuel limit : ℕ) (entries : List (K × ℕ)) (e : K × ℕ)
      → AllSet same unset refl_same entries
      → OneTime entries
      → In e entries
      → In e (evict same unset fuel limit entries)
        ⊎ ((e' : K × ℕ) → In e' (evict same unset fuel limit entries) → e.1 ≤ e'.1)
  unfolding evict
  evict-newest zero limit entries e all one i = inl i
  evict-newest (suc fuel) limit [] e all one i = elim i [ ]
  evict-newest (suc fuel) limit (b ∷ rest) e all one i =
      let o = oldest same unset (unset, 0) (b ∷ rest) in
      let left = delete_key same unset o.0 (b ∷ rest) in
      let sub =
        λ (x : K × ℕ) (j : In x left). delete_key-subset same unset refl_same o.0 x (b ∷ rest) j in
      if-cases (λ (m : List (K × ℕ)). In e m ⊎ ((e' : K × ℕ) → In e' m → e.1 ≤ e'.1))
        (ltb limit (length (b ∷ rest))) _ _
        (λ _. elim (delete_key-keeps same unset refl_same o.0 e (b ∷ rest) i) [
          | inr j ↦
              evict-newest fuel limit left e (λ x j. all x (sub x j))
                (λ x y j k. one x y (sub x j) (sub y k)) j
          | inl key ↦ inr (λ e' j.
              subst (λ t. t ≤ e'.1)
                (sym (one e o i (oldest_unset-In same unset refl_same b rest) key))
                ((oldest-le same unset refl_same (unset, 0) (b ∷ rest) all).1 e'
                  (sub e' (evict-subset fuel limit e' left j))))
        ])
        (λ _. inl i)

-- What expiry keeps: what is not too old.
pub expire-In :
    {K : Type 0} (now ttl : ℕ) (entries : List (K × ℕ)) (e : K × ℕ)
    → In e (expire now ttl entries)
    → In e entries × (now ≤ e.1 + ttl)
unfolding expire
expire-In now ttl [] e i = elim i [ ]
expire-In now ttl ((k, t) ∷ rest) e i = elim (Bool-cases (ltb (t + ttl) now)) [
  | inl old ↦ let (j, h) = expire-In now ttl rest e (rw old at i) in (there j, h)
  | inr young ↦
      In-case (λ x. In x ((k, t) ∷ rest) × (now ≤ x.1 + ttl)) (rw young at i) (here, (ground arith))
        (λ c j. let (m, h) = expire-In now ttl rest c j in (there m, h))
]

pub expire-keeps :
    {K : Type 0} (now ttl : ℕ) (entries : List (K × ℕ)) (e : K × ℕ)
    → In e entries
    → now ≤ e.1 + ttl
    → In e (expire now ttl entries)
unfolding expire
expire-keeps now ttl [] e i h = elim i [ ]
expire-keeps now ttl ((k, t) ∷ rest) e here h = elim (Bool-cases (ltb (t + ttl) now)) [
  | inl old ↦ absurd (omega (arith, ltb→lt (t + ttl) now old))
  | inr young ↦ rw young here
]
expire-keeps now ttl ((k, t) ∷ rest) e (there i) h =
    if-cases (In e) (ltb (t + ttl) now) _ _ (λ _. expire-keeps now ttl rest e i h)
      (λ _. there (expire-keeps now ttl rest e i h))

-- What pruning leaves of a map: no more than the limit, nothing new and nothing too old; and what it
-- drops of the rest is no newer than what stays.
pub record Pruned {K : Type 0} (now ttl limit : ℕ) (before after : List (K × ℕ)) : Type 0 where
  pub bounded : length after ≤ limit
  pub live : (e : K × ℕ) → In e after → In e before × (now ≤ e.1 + ttl)
  pub newest :
      (e : K × ℕ)
      → In e before
      → now ≤ e.1 + ttl
      → In e after ⊎ ((e' : K × ℕ) → In e' after → e.1 ≤ e'.1)

-- A map whose keys are all set and have one time each is left, when it is pruned, with no more
-- entries than the limit, with nothing new and nothing older than the time to live, and what is
-- dropped of the rest is no newer than any entry that stays.
pub prune_map-Pruned :
    {K : Type 0} (same : K → K → Bool) (unset : K)
    → ((k : K) → same k k ≡ true)
    → (now ttl limit : ℕ) (entries : List (K × ℕ))
    → ((e : K × ℕ) → In e entries → same e.0 unset ≡ false)
    → ((e e' : K × ℕ) → In e entries → In e' entries → same e.0 e'.0 ≡ true → e.1 ≡ e'.1)
    → Pruned now ttl limit entries (prune_map same unset now ttl limit entries)
unfolding prune_map
prune_map-Pruned {K = K} same unset refl_same now ttl limit entries all one =
    let live = expire now ttl entries in
    let sub = λ (e : K × ℕ) (i : In e live). (expire-In now ttl entries e i).0 in
    record {
      bounded = evict-length same unset refl_same (length live) limit live (omega arith);
      live = λ e i.
          expire-In now ttl entries e
            (evict-subset same unset refl_same (length live) limit e live i);
      newest = λ e i h.
          evict-newest same unset refl_same (length live) limit live e (λ x j. all x (sub x j))
            (λ x y j k. one x y (sub x j) (sub y k)) (expire-keeps now ttl entries e i h);
    }
