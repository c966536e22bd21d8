-- ===== src/Node/Database/Maps.antt =====
-- What pruning leaves of a map of internal/mqtt/node.go.
use meshtk.Node.{SeenBy, evict, expire, prune_map}
use meshtk.Node.Database.{is_unseen}
use meshtk.Node.Oldest.{In}
use meshtk.Node.Prune.{evict-length, evict-subset, expire-In, expire-keeps}
use meshtk.Prelude.{
  ℕ, zero, suc, ◌+◌, ◌≤◌, List, [], ◌∷◌, Bool, true, false, Bool-cases, String, ◌≡◌, refl, inl, inr,
  arith, length, ltb,
}

-- What a pruned map holds: no more than the limit, and what it held that is young enough.
abbrev pub Live : {K : Type 0} → ℕ → ℕ → ℕ → List (K × ℕ) → List (K × ℕ) → Type 0
Live {K = K} now ttl limit before after =
    (length after ≤ limit) × ((e : K × ℕ) → In e after → In e before × (now ≤ e.1 + ttl))

pub prune_map-Live :
    {K : Type 0} (same : K → K → Bool) (unset : K)
    → ((k : K) → same k k ≡ true)
    → (now ttl limit : ℕ) (entries : List (K × ℕ))
    → Live now ttl limit entries (prune_map same unset now ttl limit entries)
unfolding prune_map
prune_map-Live same unset refl_same now ttl limit entries =
    let live = expire now ttl entries in
    (
      evict-length same unset refl_same (length live) limit live (omega arith),
      λ e i.
          expire-In now ttl entries e
            (evict-subset same unset refl_same (length live) limit e live i),
    )

expire-length :
    {K : Type 0} (now ttl : ℕ) (entries : List (K × ℕ))
    → length (expire now ttl entries) ≤ length entries
unfolding expire
expire-length now ttl [] = omega arith
expire-length now ttl ((k, t) ∷ rest) =
    let less = expire-length now ttl rest in
    elim (Bool-cases (ltb (t + ttl) now)) [
      | inl old ↦ rw old (omega (arith, less))
      | inr young ↦ rw young (omega (arith, less))
    ]

evict_few :
    {K : Type 0} (same : K → K → Bool) (unset : K) (fuel limit : ℕ) (entries : List (K × ℕ))
    → length entries ≤ limit
    → evict same unset fuel limit entries ≡ entries
unfolding evict
evict_few same unset zero limit entries h = refl
evict_few same unset (suc fuel) limit entries h =
    let few : ltb limit (length entries) ≡ false = ground arith in rw few refl

pub prune_map-keeps :
    {K : Type 0} (same : K → K → Bool) (unset : K) (now ttl limit : ℕ) (entries : List (K × ℕ))
    → length entries ≤ limit
    → (e : K × ℕ) → In e entries
    → now ≤ e.1 + ttl
    → In e (prune_map same unset now ttl limit entries)
unfolding prune_map
prune_map-keeps same unset now ttl limit entries few e i h =
    let live = expire now ttl entries in
    rw
      (evict_few same unset (length live) limit live (omega (arith, expire-length now ttl entries)))
      (expire-keeps now ttl entries e i h)

pub not_unseen : (seen : SeenBy) (e : String × ℕ) → In e seen → is_unseen seen ≡ false
not_unseen [] e i = elim i [ ]
not_unseen (b ∷ rest) e i = refl
