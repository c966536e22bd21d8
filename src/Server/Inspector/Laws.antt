-- ===== src/Server/Inspector/Laws.antt =====
-- What the rewrites of internal/app/server/inspect.go put on the wire.
use meshtk.Prelude.{
  ℕ, List, true, Option, none, some, ◌≡◌, ◌≢◌, ◌∙◌, ap, sym, subst, arith, Option-cases, inl, inr,
}
use meshtk.Server.Inspector.{
  ControlPacket, publish, RawPacket, InspectorPacket, RewriteError, with_payload, set_in_mqtt,
  set_in_mqtt5, dispatch_payload, set_publish_payload, put_envelope, marshal_raw,
  remarshal_envelope,
}
use meshtk.Server.Libs.{ServiceEnvelope, Libs, LibsLaws}
use meshtk.Wire.Publish.{RawPublish}

-- The payload that a packet carries, if it is a PUBLISH.
unfoldable pub payload_of : ControlPacket → Option (List ℕ)
payload_of (publish topic b) = some b
payload_of _ = none

-- The application payload that `forward` and `forwardV5` write for the packet.
unfoldable pub first_payload :
    Option ControlPacket → Option ControlPacket → Option RawPublish → Option (List ℕ)
unfolding payload_of
first_payload (some c) _ _ = payload_of c
first_payload none (some c) _ = payload_of c
first_payload none none (some p) = some (p.payload)
first_payload none none none = none

unfoldable pub wire_payload : RawPacket → Option (List ℕ)
unfolding first_payload
wire_payload r = first_payload (r.mqtt) (r.mqtt5) (r.mqtt5_raw)

module _ (l : Libs) where
  -- `ip'` differs from `ip` at most in what the wire carries and in the mark that says so.
  abbrev pub SameButWire : InspectorPacket l → InspectorPacket l → Type 0
  SameButWire ip ip' =
      (ip'.mesh ≡ ip.mesh)
      × (ip'.track ≡ ip.track)
      × (ip'.topics ≡ ip.topics)
      × (ip'.auth_rejected ≡ ip.auth_rejected)
      × (ip'.mqtt_type ≡ ip.mqtt_type)
      × (ip'.raw.meshtastic ≡ ip.raw.meshtastic)
      × (ip'.raw.mqtt5_raw_sub ≡ ip.raw.mqtt5_raw_sub)

  set_in_mqtt-ok :
      (b p : List ℕ) (ip : InspectorPacket l) (c : ControlPacket)
      → payload_of c ≡ some p
      → let out = set_in_mqtt l b ip (with_payload l b c) in
        (out.1 ≡ none)
        × (wire_payload (out.0.raw) ≡ some b)
        × (out.0.wire_rewritten ≡ true)
        × SameButWire ip out.0
  unfolding set_in_mqtt with_payload payload_of wire_payload first_payload
  set_in_mqtt-ok b p ip c h = ground arith

  -- A packet whose wire carries a payload takes a new one: it is on the wire afterwards, the packet
  -- is marked as rewritten, and nothing else of it changes.
  pub set_publish_payload-ok :
      (b p : List ℕ) (ip : InspectorPacket l)
      → wire_payload (ip.raw) ≡ some p
      → let out = set_publish_payload l b ip in
        (out.1 ≡ none)
        × (wire_payload (out.0.raw) ≡ some b)
        × (out.0.wire_rewritten ≡ true)
        × SameButWire ip out.0
  unfolding set_publish_payload wire_payload first_payload dispatch_payload set_in_mqtt set_in_mqtt5
      with_payload payload_of
  set_publish_payload-ok b p ip h = ground arith

  -- A packet whose wire carries no payload refuses one and is left as it was.
  pub set_publish_payload-error :
      (b : List ℕ) (ip : InspectorPacket l)
      → wire_payload (ip.raw) ≡ none
      → let out = set_publish_payload l b ip in (out.1 ≢ none) × (out.0 ≡ ip)
  unfolding set_publish_payload wire_payload first_payload dispatch_payload set_in_mqtt set_in_mqtt5
      with_payload payload_of
  set_publish_payload-error b ip h = ground arith

  -- The bytes on the wire are an encoding of the envelope that the packet holds.
  abbrev pub WireAgrees : InspectorPacket l → ServiceEnvelope → Type 0
  WireAgrees ip e =
      (b : List ℕ) × (wire_payload (ip.raw) ≡ some b)
      × (l.unmarshal_envelope b ≡ some e)
      × (ip.raw.meshtastic ≡ some e)

  -- A rewrite without an error, after which the wire carries the envelope.
  abbrev pub Rewrote :
      InspectorPacket l → ServiceEnvelope → InspectorPacket l × Option RewriteError → Type 0
  Rewrote ip e out =
      (out.1 ≡ none) × (out.0.wire_rewritten ≡ true) × WireAgrees out.0 e × SameButWire ip out.0

  put_envelope-Rewrote :
      LibsLaws l
      → (ip : InspectorPacket l) (e : ServiceEnvelope) (p b : List ℕ) → ip.raw.meshtastic ≡ some e
      → wire_payload (ip.raw) ≡ some p
      → l.marshal_envelope e ≡ some b
      → Rewrote ip e (put_envelope l ip (some b))
  unfolding put_envelope
  put_envelope-Rewrote laws ip e p b held carried h =
      let (fine, wire, marked, same) = set_publish_payload-ok b p ip carried in
      let (m, t, o, a, y, kept, sub) = same in
      (fine, marked, (b, wire, laws.unmarshal-marshal_envelope e b h, kept ∙ held), same)

  -- Marshalling the held envelope again puts an encoding of it on the wire.
  pub remarshal_envelope-Rewrote :
      LibsLaws l
      → (ip : InspectorPacket l) (e : ServiceEnvelope) (p : List ℕ) → ip.raw.meshtastic ≡ some e
      → wire_payload (ip.raw) ≡ some p
      → l.marshal_envelope e ≢ none
      → Rewrote ip e (remarshal_envelope l ip)
  unfolding remarshal_envelope marshal_raw
  remarshal_envelope-Rewrote laws ip e p held carried h =
      elim (Option-cases (l.marshal_envelope e)) [
        | inl m ↦ ground (arith, h m)
        | inr (b, m) ↦
            subst (λ o. Rewrote ip e (put_envelope l ip o)) (sym (ap (marshal_raw l) held ∙ m))
              (put_envelope-Rewrote laws ip e p b held carried m)
      ]
