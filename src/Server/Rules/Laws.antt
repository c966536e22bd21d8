-- ===== src/Server/Rules/Laws.antt =====
-- The hop budget and the censor of internal/app/server/rules.go: what reaches the wire.
use meshtk.Prelude.{
  Bool, true, Bool-cases, Option, none, some, ◌≡◌, ◌≢◌, refl, ◌∙◌, ap, sym, subst, arith, inl, inr,
  min, not,
}
use meshtk.Server.Inspector.{InspectorPacket, RewriteError, remarshal_envelope}
use meshtk.Server.Inspector.Laws.{wire_payload, WireAgrees, Rewrote, remarshal_envelope-Rewrote}
use meshtk.Server.Libs.{MeshPacket, ServiceEnvelope, Libs, LibsLaws}
use meshtk.Server.Rules.{
  clamp_hops, within_budget, clamp_packet, packet_of, rewrite_hop_limit, succeeded,
}

-- A packet whose hop budget is at most 3, and whose start is at most 7.
abbrev pub capped : MeshPacket → MeshPacket
capped p = record p { hop_limit = min 3 (p.hop_limit); hop_start = min 7 (p.hop_start) }

abbrev pub with_packet : ServiceEnvelope → MeshPacket → ServiceEnvelope
with_packet e p = record e { packet = some p }

clamp_hops-capped : (p : MeshPacket) → clamp_hops p ≡ capped p
unfolding clamp_hops
clamp_hops-capped p = ground arith

within_budget-capped : (p : MeshPacket) → within_budget p ≡ true → capped p ≡ p
unfolding within_budget
within_budget-capped p h = ground arith

within_budget-with_packet :
    (e : ServiceEnvelope) (p : MeshPacket)
    → e.packet ≡ some p
    → within_budget p ≡ true
    → with_packet e (capped p) ≡ e
within_budget-with_packet e p h fits =
    ap (with_packet e) (within_budget-capped p fits) ∙ ap (λ o. record e { packet = o }) (sym h)

module _ (l : Libs) where
  -- The two packets agree in what was read out of them and in where they came from.
  abbrev pub SameRead : InspectorPacket l → InspectorPacket l → Type 0
  SameRead ip ip' = (ip'.mesh ≡ ip.mesh) × (ip'.track ≡ ip.track)

  abbrev holding : InspectorPacket l → ServiceEnvelope → MeshPacket → InspectorPacket l
  holding ip e p = record ip { raw = record (ip.raw) { meshtastic = some (with_packet e p) } }

  abbrev pub Sent : InspectorPacket l → ServiceEnvelope → InspectorPacket l × Bool → Type 0
  Sent ip e out = WireAgrees l out.0 e × SameRead ip out.0 × (out.1 ≡ true)

  -- The wire carries the envelope with the capped packet; the answer says whether that is new.
  abbrev pub Capped :
      InspectorPacket l → ServiceEnvelope → MeshPacket → InspectorPacket l × Bool → Type 0
  Capped ip e p out =
      WireAgrees l out.0 (with_packet e (capped p))
      × SameRead ip out.0
      × (out.1 ≡ not (within_budget p))

  pub succeeded-Sent :
      (ip held : InspectorPacket l) (e : ServiceEnvelope)
      (out : InspectorPacket l × Option RewriteError)
      → Rewrote l held e out
      → held.mesh ≡ ip.mesh
      → held.track ≡ ip.track
      → Sent ip e (succeeded l out)
  succeeded-Sent ip held e (ip', none) (_, _, agrees, (m, t, _, _, _, _, _)) read tracked =
      (agrees, (m ∙ read, t ∙ tracked), refl)
  succeeded-Sent ip held e (ip', some x) (fine, _, _, _) read tracked = ground arith

  clamp_packet-capped :
      LibsLaws l
      → (ip : InspectorPacket l) (e : ServiceEnvelope) (p : MeshPacket) → WireAgrees l ip e
      → e.packet ≡ some p
      → l.marshal_envelope (with_packet e (capped p)) ≢ none
      → Capped ip e p (clamp_packet l ip (some e) (some p))
  unfolding clamp_packet wire_payload
  clamp_packet-capped laws ip e p agrees h marshals = elim (Bool-cases (within_budget p)) [
    | inl fits ↦ rw fits (
      subst (WireAgrees l ip) (sym (within_budget-with_packet e p h fits)) agrees,
      (refl, refl),
      refl,
    )
    | inr over ↦ rw over (
        subst
          (λ p'.
            Sent ip (with_packet e (capped p))
              (succeeded l (remarshal_envelope l (holding ip e p'))))
          (sym (clamp_hops-capped p))
          (succeeded-Sent ip (holding ip e (capped p)) _ _
            (remarshal_envelope-Rewrote l laws (holding ip e (capped p)) (with_packet e (capped p))
              agrees.0 refl agrees.1 marshals)
            refl refl))
  ]

  -- If the wire carries an envelope with a packet and the envelope with the capped packet marshals,
  -- then after RewriteHopLimit the wire carries that envelope, and the rule reports a rewrite exactly
  -- when the packet was over budget. What was read out of the packet, and its origin, stay.
  pub rewrite_hop_limit-capped :
      LibsLaws l
      → (ip : InspectorPacket l) (e : ServiceEnvelope) (p : MeshPacket) → WireAgrees l ip e
      → e.packet ≡ some p
      → l.marshal_envelope (with_packet e (capped p)) ≢ none
      → Capped ip e p (rewrite_hop_limit l ip)
  unfolding rewrite_hop_limit
  rewrite_hop_limit-capped laws ip e p agrees h marshals =
      let held = agrees.3 in
      subst
        (λ (o : Option ServiceEnvelope × Option MeshPacket).
          Capped ip e p (clamp_packet l ip o.0 o.1))
        (sym (ap (λ o. (o, packet_of l o)) held ∙ ap (λ o. (some e, o)) h))
        (clamp_packet-capped laws ip e p agrees h marshals)
