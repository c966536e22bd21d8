-- ===== src/Server/Uplink/Capped.antt =====
-- The frame that the broker receives of an uplink PUBLISH which the codec cannot read: parsed again,
-- its envelope has the hop budget capped (internal/app/server/proxy_v5.go).
use meshtk.Prelude.{
  ℕ, List, [], ◌∷◌, Bool, true, false, Bool-cases, ◌||◌, none, some, String, ◌≡◌, ◌≢◌, inl, inr,
  refl, sym, ap, ◌∙◌, arith, ok, Result-cases,
}
use mathlib.Core.Option.{some-injective, none-ne-some}
use meshtk.Server.ConnTrack.{ConnTrack}
use meshtk.Server.Decider.{decide}
use meshtk.Server.Inspect.{Channel}
use meshtk.Server.Inspector.{InspectorPacket, RawPacket, set_publish_payload, dispatch_payload}
use meshtk.Server.Inspect.Laws.{inspect_meshtastic-SameRaw}
use meshtk.Server.Inspector.Laws.{wire_payload, first_payload, WireAgrees}
use meshtk.Server.Inspection.{with_envelope, inspect_publish}
use meshtk.Server.Libs.{MeshPacket, ServiceEnvelope, Variant, Libs, LibsLaws}
use meshtk.Server.Rules.{installed_rules}
use meshtk.Server.Rules.Laws.{capped, with_packet}
use meshtk.Server.Rules.Preserve.{decide_keeps}
use meshtk.Server.Rules.Verdict.{decide-capped}
use meshtk.Server.Uplink.{
  Codec, no_bytes, relay_spliced, spliced, no_raw, decide_v5, forward_raw, publish_raw,
  publish_uplink,
}
use meshtk.Wire.Publish.{RawPublish, parse_publish, splice_payload}
use meshtk.Wire.Publish.Splice.{splice-parse}

module _ (l : Libs) where
  -- The packet holds the hand-parsed view `rp`, with at most its payload exchanged, and only if
  -- the packet is marked.
  abbrev pub ViewOf : RawPublish → InspectorPacket l → Type 0
  ViewOf rp ip =
      (b : List ℕ) × (ip.raw.mqtt ≡ none)
      × (ip.raw.mqtt5 ≡ none)
      × (ip.raw.mqtt5_raw ≡ some (record rp { payload = b }))
      × (ip.wire_rewritten ≡ false → b ≡ rp.payload)

  set_publish_payload-ViewOf :
      (rp : RawPublish) (b : List ℕ) (ip : InspectorPacket l)
      → ViewOf rp ip
      → ViewOf rp (set_publish_payload l b ip).0
  unfolding set_publish_payload dispatch_payload
  set_publish_payload-ViewOf rp b ip (x, h3, h5, hr, hw) =
      (b, ground arith, ground arith, ground arith, ground arith)

  decide-ViewOf :
      (rp : RawPublish) (ip : InspectorPacket l)
      → ViewOf rp ip
      → ViewOf rp (decide l (installed_rules l) ip).0
  decide-ViewOf rp ip v =
      decide_keeps l (ViewOf rp) (λ ip mesh p. p) (λ ip o p. p) (set_publish_payload-ViewOf rp) ip v

splice_payload_offsets :
    (frame b : List ℕ) (rp : RawPublish)
    → splice_payload frame (some (record rp { payload = b })) b ≡ splice_payload frame (some rp) b
unfolding splice_payload
splice_payload_offsets [] b rp = refl
splice_payload_offsets (b0 ∷ r) b rp = refl

-- The frame reads as the view with its topic, and with the payload `b`.
abbrev pub Reads : List ℕ → RawPublish → List ℕ → Type 0
Reads out rp b =
    (view : RawPublish) × (parse_publish out ≡ ok view)
    × (view.topic ≡ rp.topic)
    × (view.payload ≡ b)

module _ (l : Libs) (codec : Codec) (channels : List (Channel l)) where
  relay_spliced-Reads :
      (write_ok : Bool) (frame out b : List ℕ) (m : ConnTrack) (rp : RawPublish)
      → parse_publish frame ≡ ok rp
      → (relay_spliced l codec
          (installed_rules l)
          channels
          write_ok
          m
          (splice_payload frame (some rp) b)).sent
        ≡ some out
      → Reads out rp b
  relay_spliced-Reads write_ok frame out b m rp parsed sent =
      elim (Result-cases (splice_payload frame (some rp) b)) [
        | inl (out', done) ↦
            let same : out' ≡ out = some-injective _ _ (rw done at sent) in
            (_, splice-parse frame b parsed (done ∙ ap ok same), refl, refl)
        | inr (e, refused) ↦ absurd (none-ne-some out (rw refused at sent))
      ]

  forward_raw-Reads :
      (write_ok : Bool) (frame out : List ℕ) (m : ConnTrack) (rp : RawPublish)
      (ip : InspectorPacket l) (go_on : Bool) (v : ViewOf l rp ip)
      → parse_publish frame ≡ ok rp
      → (forward_raw l codec (installed_rules l) channels write_ok frame m (ip, go_on)).sent
        ≡ some out
      → Reads out rp v.0
  unfolding forward_raw
  forward_raw-Reads write_ok frame out m rp ip false v parsed sent = absurd (none-ne-some out sent)
  forward_raw-Reads write_ok frame out m rp ip true (b, h3, h5, hr, hw) parsed sent =
      elim (Bool-cases (ip.wire_rewritten)) [
        | inr kept ↦
            let same : frame ≡ out = some-injective _ _ (rw kept at sent) in
            (rp, ap parse_publish (sym same) ∙ parsed, refl, sym (hw kept))
        | inl marked ↦
            let same =
              ap (spliced l codec (installed_rules l) channels frame) hr
              ∙ splice_payload_offsets frame b rp in
            relay_spliced-Reads write_ok frame out b m rp parsed (
              ap (λ r. (relay_spliced l codec (installed_rules l) channels write_ok m r).sent)
                (sym same)
              ∙ (rw marked at sent))
      ]

  -- The packet that the inspector makes of the view, whatever the tracker holds.
  inspect_publish-held :
      (now : ℕ) (addr : String) (m : ConnTrack) (rp : RawPublish) (e : ServiceEnvelope)
      → l.unmarshal_envelope (rp.payload) ≡ some e
      → let ip =
          (inspect_publish l channels now addr
            (record no_raw { mqtt5_raw = some rp })
            (rp.topic)
            (rp.payload)
            m).1 in
        (ip.raw ≡ record no_raw { mqtt5_raw = some rp; meshtastic = some e })
        × (ip.wire_rewritten ≡ false)
  unfolding inspect_publish with_envelope
  inspect_publish-held now addr m rp e read =
      rw (read, inspect_publish) (inspect_meshtastic-SameRaw l channels _)

  held-ViewOf :
      (ip : InspectorPacket l) (rp : RawPublish) (e : ServiceEnvelope)
      → (ip.raw ≡ record no_raw { mqtt5_raw = some rp; meshtastic = some e })
        × (ip.wire_rewritten ≡ false)
      → ViewOf l rp ip
  held-ViewOf ip rp e (raw, _) = (
    rp.payload,
    ap (λ (r : RawPacket). r.mqtt) raw,
    ap (λ (r : RawPacket). r.mqtt5) raw,
    ap (λ (r : RawPacket). r.mqtt5_raw) raw,
    λ _. refl,
  )

  view-wire_payload :
      (ip : InspectorPacket l) (rp : RawPublish) (v : ViewOf l rp ip)
      → wire_payload (ip.raw) ≡ some v.0
  unfolding wire_payload first_payload
  view-wire_payload ip rp (b, h3, h5, hr, _) = rw (h3, h5, hr) refl

  publish_raw-capped :
      LibsLaws l
      → (now : ℕ) (addr : String) (write_ok : Bool) (frame out : List ℕ) (m : ConnTrack)
        (rp : RawPublish) (e : ServiceEnvelope) (p : MeshPacket)
      → parse_publish frame ≡ ok rp
      → l.unmarshal_envelope (rp.payload) ≡ some e
      → e.packet ≡ some p
      → ((v : Variant)
          → l.marshal_envelope (with_packet e (record (capped p) { variant = v })) ≢ none)
      → (publish_raw l codec (installed_rules l) channels now addr write_ok frame m (ok rp)).sent
        ≡ some out
      → (view : RawPublish) × (parse_publish out ≡ ok view)
        × (view.topic ≡ rp.topic)
        × ((v : Variant) × (l.unmarshal_envelope (view.payload)
              ≡ some (with_packet e (record (capped p) { variant = v }))))
  unfolding publish_raw decide_v5 wire_payload first_payload
  publish_raw-capped laws now addr write_ok frame out m rp e p parsed read h marshals sent =
      let held = inspect_publish-held now addr m rp e read in
      let inspected =
        inspect_publish l channels now addr (record no_raw { mqtt5_raw = some rp }) (rp.topic)
          (rp.payload) m in
      let ip = inspected.1 in
      let v = held-ViewOf ip rp e held in
      let agrees : WireAgrees l ip e =
        (rp.payload, ap wire_payload held.0, read, ap (λ (r : RawPacket). r.meshtastic) held.0) in
      let (variant, (b, wire, opens, _)) = decide-capped l laws ip e p agrees h marshals in
      let kept = decide-ViewOf l rp ip v in
      let same : b ≡ kept.0 =
        some-injective _ _
          (sym wire ∙ view-wire_payload (decide l (installed_rules l) ip).0 rp kept) in
      elim (Bool-cases (no_bytes (rp.topic) || rp.has_topic_alias)) [
        | inl guarded ↦ absurd (none-ne-some out (rw guarded at sent))
        | inr clear ↦
            let (view, reads, topic, payload) =
              forward_raw-Reads write_ok frame out inspected.0 rp
                (decide l (installed_rules l) ip).0 _ kept parsed (rw clear at sent) in
            (view, reads, topic, (variant, ap (l.unmarshal_envelope) (payload ∙ sym same) ∙ opens))
      ]

  -- An uplink PUBLISH that the codec cannot read, whose payload is an envelope with a packet: what
  -- the broker is sent reads as a PUBLISH to the same topic, whose payload is that envelope with the
  -- hop limit capped to 3, the hop start to 7, and at most the variant of the packet replaced. The
  -- envelope must marshal with the capped packet, whatever the variant.
  pub publish_uplink-capped :
      LibsLaws l
      → (now : ℕ) (addr : String) (write_ok : Bool) (frame out : List ℕ) (m : ConnTrack)
        (rp : RawPublish) (e : ServiceEnvelope) (p : MeshPacket)
      → codec.read_packet frame ≡ none
      → parse_publish frame ≡ ok rp
      → l.unmarshal_envelope (rp.payload) ≡ some e
      → e.packet ≡ some p
      → ((v : Variant)
          → l.marshal_envelope (with_packet e (record (capped p) { variant = v })) ≢ none)
      → (publish_uplink l codec (installed_rules l) channels now addr write_ok frame m).sent
        ≡ some out
      → (view : RawPublish) × (parse_publish out ≡ ok view)
        × (view.topic ≡ rp.topic)
        × ((v : Variant) × (l.unmarshal_envelope (view.payload)
              ≡ some (with_packet e (record (capped p) { variant = v }))))
  unfolding publish_uplink
  publish_uplink-capped laws now addr write_ok frame out m rp e p unread parsed read h marshals
        sent =
      publish_raw-capped laws now addr write_ok frame out m rp e p parsed read h marshals (
        ap
          (λ r. (publish_raw l codec (installed_rules l) channels now addr write_ok frame m r).sent)
          (sym parsed)
        ∙ (rw (unread, publish_uplink) at sent))
