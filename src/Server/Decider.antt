-- ===== src/Server/Decider.antt =====
-- The rule engine: internal/app/server/decider.go.
use meshtk.Prelude.{List, [], ◌∷◌, Bool, true, false, ◌&&◌, not, String, if◌then◌else◌}
use meshtk.Server.Inspector.{InspectorPacket}
use meshtk.Server.Libs.{Libs}

pub data Decision : Type 0 where
  allow block rewrote no_match kill slow : Decision

pub record DecisionResult : Type 0 where
  pub decision : Decision
  pub reason : String

abbrev pub is_rewrote : Decision → Bool
is_rewrote rewrote = true
is_rewrote _ = false

module _ (l : Libs) where
  -- A matcher may change the packet, whatever it answers.
  pub record Rule : Type 0 where
    pub name : String
    pub description : String
    pub matcher : InspectorPacket l → InspectorPacket l × Bool
    pub action : Decision
    pub reason : String

  -- The first rule that matches and is no rewrite decides; the packet is passed on as the
  -- matchers before it left it.
  unfoldable pub decide : List Rule → InspectorPacket l → InspectorPacket l × DecisionResult
  decide [] ip = (ip, record { decision = no_match; reason = "No matching rule found" })
  decide (r ∷ rs) ip =
      let (ip', hit) = r.matcher ip in
      let rest = decide rs ip' in
      if hit && not (is_rewrote r.action)
      then (ip', record { decision = r.action; reason = r.reason })
      else rest
