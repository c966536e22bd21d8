-- ===== src/Node/Database/Laws.antt =====
-- What the pruning of the database in internal/mqtt/node.go leaves.
use meshtk.Node.Database.Maps.{prune_map-keeps, not_unseen}
use meshtk.Node.Database.Parts.{Fresh, prune-seen_by}
use meshtk.Node.{seen_by_limit}
use meshtk.Node.Database.{Node, Ttls, prune, is_unseen, prune_db}
use meshtk.Node.Oldest.{In, here, there}
use meshtk.Prelude.{
  ℕ, ◌+◌, ◌≤◌, List, [], ◌∷◌, false, String, ◌≡◌, ◌∙◌, ap, length, str_eq, if-cases,
}

module _ {Real : Type 0} (zero_real : Real) (now : ℕ) where
  -- A node of the database that was seen lately, and what pruning has left of it.
  abbrev pub Known : Ttls → List (ℕ × Node Real) → ℕ × Node Real → Type 0
  Known ttls db x =
      (n : Node Real) × In (x.0, n) db
      × Fresh zero_real now ttls n x.1
      × ((e : String × ℕ) × In e (n.seen_by) × (now ≤ e.1 + ttls.seen_by_ttl))

  -- A node that is seen by at most ten topics, and lately by one of them, stays in the database, with
  -- what pruning leaves of it.
  pub prune_db-keeps :
      (ttls : Ttls) (db : List (ℕ × Node Real)) (num : ℕ) (n : Node Real) (e : String × ℕ)
      → In (num, n) db
      → length (n.seen_by) ≤ seen_by_limit
      → In e (n.seen_by)
      → now ≤ e.1 + ttls.seen_by_ttl
      → In (num, prune zero_real now ttls n) (prune_db zero_real now ttls db)
  unfolding prune_db
  prune_db-keeps ttls [] num n e j few i young = elim j [ ]
  prune_db-keeps ttls ((num', n') ∷ db) num n e here few i young =
      let kept =
        prune_map-keeps str_eq "" now (ttls.seen_by_ttl) seen_by_limit (n.seen_by) few e i young in
      let seen : is_unseen ((prune zero_real now ttls n).seen_by) ≡ false =
        ap is_unseen (prune-seen_by zero_real now ttls n) ∙ not_unseen _ e kept in
      rw seen here
  prune_db-keeps ttls ((num', n') ∷ db) num n e (there j) few i young =
      let rest = prune_db-keeps ttls db num n e j few i young in
      if-cases (In (num, prune zero_real now ttls n))
        (is_unseen ((prune zero_real now ttls n').seen_by)) _ _ (λ _. rest) (λ _. there rest)
