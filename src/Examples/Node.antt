-- ===== src/Examples/Node.antt =====
-- A node that was seen under two topics, of which one is to stay, and a database that is pruned; its
-- floats are numbers, and none of them is NaN.
use meshtk.Node.Database.{
  Node, Ttls, new_node, prune, prune_db, prune_device, prune_environment, prune_map_report,
  get_valid,
}
use meshtk.Node.Database.Updates.{update_device_metrics, update_user}
use meshtk.Node.Database.Laws.{prune_db-keeps}
use meshtk.Prelude.{leb→le, List, ◌≡◌, refl, [], ◌∷◌, true, false, String, str_eq, eq_iff, ℕ}
use meshtk.Node.{SeenBy, prune_map}
use meshtk.Node.Oldest.{In, here, there}
use meshtk.Node.Prune.{Pruned, prune_map-Pruned}

abbrev seen : SeenBy
seen = ("msh/US", 20) ∷ ("msh/EU", 10) ∷ []

all_set : (e : String × ℕ) → In e seen → str_eq e.0 "" ≡ false
all_set e here = refl
all_set e (there here) = refl
all_set e (there (there i)) = elim i [ ]

one_time : (e e' : String × ℕ) → In e seen → In e' seen → str_eq e.0 e'.0 ≡ true → e.1 ≡ e'.1
one_time e e' here here h = refl
one_time e e' here (there here) h = cc
one_time e e' (there here) here h = cc
one_time e e' (there here) (there here) h = refl
one_time e e' (there (there i)) j h = elim i [ ]
one_time e e' here (there (there j)) h = elim j [ ]
one_time e e' (there here) (there (there j)) h = elim j [ ]

prune_map-Pruned_example : Pruned 50 100 1 seen (prune_map str_eq "" 50 100 1 seen)
prune_map-Pruned_example =
    prune_map-Pruned str_eq "" (λ k. (eq_iff k k).1 refl) 50 100 1 seen all_set one_time

abbrev named : List ℕ → Node ℕ → Node ℕ
named key = update_user (λ n. "!7") (λ b. "0x1") 7 "condor" "c" "" "" key []

-- A key that is not sent leaves the one that is known.
key_kept : (named [] (named (1 ∷ []) (new_node 0 1 "a"))).pub_key ≡ "0x1"
key_kept = refl

abbrev ttls : Ttls
ttls = record { seen_by_ttl = 30; neighbor_ttl = 30; metrics_ttl = 30; map_report_ttl = 30 }

abbrev fresh_node : Node ℕ
fresh_node = record (update_device_metrics (λ f. false) 0 5 99 3 1 1 60 (new_node 0 45 "msh/US")) {
  long_name = "condor";
  latitude = 9;
}

abbrev nodes : List (ℕ × Node ℕ)
nodes = (7, fresh_node) ∷ (8, new_node 0 10 "msh/EU") ∷ []

abbrev left : Node ℕ
left = prune 0 50 ttls fresh_node

forgotten : (left.battery_level ≡ 0) × (left.last_device_metrics ≡ 0) × (left.long_name ≡ "condor")
unfolding prune_device prune_environment prune_map_report
forgotten = (refl, refl, refl)

valid : get_valid 0 nodes ≡ (7, fresh_node) ∷ []
unfolding get_valid
valid = refl

prune_db-keeps_example : In (7, left) (prune_db 0 50 ttls nodes)
prune_db-keeps_example =
    prune_db-keeps 0 50 ttls nodes 7 fresh_node ("msh/US", 45) here (leb→le 1 10 refl) here
      (leb→le 50 75 refl)
