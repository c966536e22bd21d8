-- ===== src/Node/Oldest.antt =====
-- The oldest entry of a map in internal/mqtt/node.go, and the map without a key.
use meshtk.Prelude.{
  ℕ, ◌≤◌, ◌<◌, List, [], ◌∷◌, Bool, true, false, Bool-cases, ◌||◌, ◌≡◌, ◌⊎◌, inl, inr, refl, sym,
  subst, ◌∙◌, arith, length, ltb, if-cases,
}
use meshtk.Node.{older, oldest, delete_key}

-- An entry stands in a list.
pub data In {A : Type 0} (a : A) : List A → Type 0 where
  here : {rest : List A} → In a (a ∷ rest)
  there : {b : A} {rest : List A} → In a rest → In a (b ∷ rest)

-- From an entry of a longer list.
pub In-case :
    {A : Type 0} (P : A → Type 0) {a b : A} {rest : List A}
    → In a (b ∷ rest)
    → P b
    → ((c : A) → In c rest → P c)
    → P a
In-case P here p q = p
In-case P (there i) p q = q _ i

In-cons :
    {A : Type 0} {a : A} {xs ys : List A} (b : A)
    → (In a xs → In a ys)
    → In a (b ∷ xs)
    → In a (b ∷ ys)
In-cons b f here = here
In-cons b f (there i) = there (f i)

module _ {K : Type 0} (same : K → K → Bool) (unset : K)
    (refl_same : (k : K) → same k k ≡ true) where
  oldest-In :
      (found : K × ℕ) (entries : List (K × ℕ))
      → (oldest same unset found entries ≡ found) ⊎ In (oldest same unset found entries) entries
  unfolding oldest
  oldest-In found [] = inl refl
  oldest-In found (e ∷ rest) = elim (oldest-In (older same unset found e) rest) [
    | inr i ↦ inr (there i)
    | inl is ↦ elim (Bool-cases (same found.0 unset || ltb e.1 found.1)) [
      | inl newer ↦ inr (subst (λ x. In x (e ∷ rest)) (sym (is ∙ rw newer refl)) here)
      | inr stays ↦ inl (is ∙ rw stays refl)
    ]
  ]

  delete_key-le :
      (k : K) (entries : List (K × ℕ)) → length (delete_key same unset k entries) ≤ length entries
  unfolding delete_key
  delete_key-le k [] = ground arith
  delete_key-le k ((k', t) ∷ rest) = ground (arith, delete_key-le k rest)

  pub delete_key-In :
      (k : K) (t : ℕ) (entries : List (K × ℕ))
      → In (k, t) entries
      → length (delete_key same unset k entries) < length entries
  unfolding delete_key
  delete_key-In k t [] i = elim i [ ]
  delete_key-In k t ((k', t') ∷ rest) here = ground (arith, refl_same k, delete_key-le k rest)
  delete_key-In k t ((k', t') ∷ rest) (there i) = ground (arith, delete_key-In k t rest i)

  pub delete_key-subset :
      (k : K) (e : K × ℕ) (entries : List (K × ℕ))
      → In e (delete_key same unset k entries)
      → In e entries
  unfolding delete_key
  delete_key-subset k e [] i = i
  delete_key-subset k e ((k', t) ∷ rest) i = elim (Bool-cases (same k' k)) [
    | inl gone ↦ there (delete_key-subset k e rest (rw gone at i))
    | inr stays ↦ In-cons (k', t) (delete_key-subset k e rest) (rw stays at i)
  ]

  pub delete_key-keeps :
      (k : K) (e : K × ℕ) (entries : List (K × ℕ))
      → In e entries
      → (same e.0 k ≡ true) ⊎ In e (delete_key same unset k entries)
  unfolding delete_key
  delete_key-keeps k e [] i = elim i [ ]
  delete_key-keeps k e ((k', t) ∷ rest) here = elim (Bool-cases (same k' k)) [
    | inl gone ↦ inl gone
    | inr stays ↦ inr (rw stays here)
  ]
  delete_key-keeps k e ((k', t) ∷ rest) (there i) = elim (delete_key-keeps k e rest i) [
    | inl same_key ↦ inl same_key
    | inr j ↦ inr (if-cases (In e) (same k' k) _ _ (λ _. j) (λ _. there j))
  ]

  -- Every key of the map is set.
  abbrev pub AllSet : List (K × ℕ) → Type 0
  AllSet entries = (e : K × ℕ) → In e entries → same e.0 unset ≡ false

  older-le :
      (found e : K × ℕ)
      → same e.0 unset ≡ false
      → (same (older same unset found e).0 unset ≡ false)
        × ((older same unset found e).1 ≤ e.1)
        × (same found.0 unset ≡ false → (older same unset found e).1 ≤ found.1)
  older-le found e is_set = ground arith

  pub oldest-le :
      (found : K × ℕ) (entries : List (K × ℕ))
      → AllSet entries
      → (same found.0 unset ≡ false → (oldest same unset found entries).1 ≤ found.1)
        × ((e : K × ℕ) → In e entries → (oldest same unset found entries).1 ≤ e.1)
  unfolding oldest
  oldest-le found [] all = ((λ h. omega arith), (λ e i. elim i [ ]))
  oldest-le found (b ∷ rest) all =
      let (is_set, le_b, le_found) = older-le found b (all b here) in
      let (at_found, at_rest) =
        oldest-le (older same unset found b) rest (λ e i. all e (there i)) in
      (
        (λ h. omega (arith, at_found is_set, le_found h)),
        λ e i.
            In-case (λ x. (oldest same unset (older same unset found b) rest).1 ≤ x.1) i omega
              (arith, at_found is_set, le_b) at_rest,
      )

  pub oldest_unset-In :
      (b : K × ℕ) (rest : List (K × ℕ)) → In (oldest same unset (unset, 0) (b ∷ rest)) (b ∷ rest)
  unfolding oldest
  oldest_unset-In b rest = rw (refl_same unset) (elim (oldest-In b rest) [
    | inl is ↦ subst (λ x. In x (b ∷ rest)) (sym is) here
    | inr i ↦ there i
  ])
