-- ===== src/Node.antt =====
-- The pruning of the topics that a node was seen by: `UpdateSeenBy` and the first part of `Prune` in
-- internal/mqtt/node.go. Times are seconds. A map is the list of its entries in the order in which Go
-- comes to walk them; its keys are distinct.
pub mod Database
pub mod Oldest
pub mod Prune
use meshtk.Prelude.{
  ℕ, zero, suc, ◌+◌, List, [], ◌∷◌, Bool, true, false, ◌&&◌, ◌||◌, not, Option, none, some, String,
  str_eq, length, ltb, ◌==◌, if◌then◌else◌,
}

abbrev pub seen_by_limit : ℕ
seen_by_limit = 10

-- `for key, t := range m { if t+ttl < now { delete(m, key) } }`
unfoldable pub expire : {K : Type 0} → ℕ → ℕ → List (K × ℕ) → List (K × ℕ)
expire now ttl [] = []
expire now ttl ((k, t) ∷ rest) =
    let kept = expire now ttl rest in if ltb (t + ttl) now then kept else (k, t) ∷ kept

module _ {K : Type 0} (same : K → K → Bool) (unset : K) where
  -- The older of two, where a key that stands for none yet is always replaced.
  abbrev pub older : K × ℕ → K × ℕ → K × ℕ
  older found e = if same found.0 unset || ltb e.1 found.1 then e else found

  unfoldable pub oldest : K × ℕ → List (K × ℕ) → K × ℕ
  oldest found [] = found
  oldest found (e ∷ rest) = oldest (older found e) rest

  unfoldable pub delete_key : K → List (K × ℕ) → List (K × ℕ)
  delete_key k [] = []
  delete_key k ((k', t) ∷ rest) =
      let kept = delete_key k rest in if same k' k then kept else (k', t) ∷ kept

  -- `for len(m) > limit`, on fuel: each round removes an entry, so the length is enough.
  unfoldable pub evict : ℕ → ℕ → List (K × ℕ) → List (K × ℕ)
  evict zero limit entries = entries
  evict (suc fuel) limit entries =
      let (k, _) = oldest (unset, 0) entries in
      let rest = evict fuel limit (delete_key k entries) in
      if ltb limit (length entries) then rest else entries

  unfoldable pub prune_map : ℕ → ℕ → ℕ → List (K × ℕ) → List (K × ℕ)
  prune_map now ttl limit entries =
      let live = expire now ttl entries in evict (length live) limit live

abbrev pub SeenBy : Type 0
SeenBy = List (String × ℕ)

-- An empty topic stands for none yet.
abbrev pub prune_seen_by : ℕ → ℕ → SeenBy → SeenBy
prune_seen_by now ttl = prune_map str_eq "" now ttl seen_by_limit

abbrev pub update_seen_by : ℕ → String → SeenBy → SeenBy
update_seen_by now topic seen = (topic, now) ∷ delete_key str_eq "" topic seen
