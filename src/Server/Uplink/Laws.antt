-- ===== src/Server/Uplink/Laws.antt =====
-- What the uplink of internal/app/server/proxy_v5.go lets through to the broker.
use meshtk.Prelude.{
  ℕ, List, [], Bool, true, false, Bool-cases, ◌||◌, none, some, String, ◌≡◌, ◌≢◌, ◌↔◌, inl, inr,
  refl, arith, Result, ok, err,
}
use meshtk.Server.ConnTrack.{ConnTrack}
use meshtk.Server.Decider.{block, Rule, decide}
use meshtk.Server.Inspect.{Channel}
use meshtk.Server.Inspector.{InspectorPacket}
use meshtk.Server.Inspection.{inspect_publish}
use meshtk.Server.Libs.{Libs}
use meshtk.Server.Uplink.Cases.{publish_uplink_cases, subscribe_uplink_cases}
use meshtk.Server.Uplink.{
  Codec, UplinkVerdict, forwarded, dropped, Handled, no_bytes, forward_verdict, refuse, relay,
  no_raw, decide_v5, forward_raw, publish_raw, publish_uplink, subscribe_uplink,
}
use meshtk.Wire.Publish.{RawPublish, parse_publish}
use meshtk.Wire.Varint.{ParseError}

-- One write at most, and the verdict says what became of it: forwarded after a write that
-- succeeded, dropped without a write, and fatal after a write that failed or without one.
abbrev pub Accounted : Bool → Handled → Type 0
Accounted write_ok h =
    ((h.verdict ≡ forwarded) ↔ ((h.sent ≢ none) × (write_ok ≡ true)))
    × (h.verdict ≡ dropped → h.sent ≡ none)

relay-Accounted :
    (write_ok : Bool) (out : List ℕ) (m : ConnTrack) → Accounted write_ok (relay write_ok out m)
unfolding forward_verdict
relay-Accounted write_ok out m = ground arith

refuse-Accounted :
    (write_ok : Bool) (v : UplinkVerdict) (m : ConnTrack)
    → v ≢ forwarded
    → Accounted write_ok (refuse v m)
refuse-Accounted write_ok v m h = ground arith

module _ (l : Libs) (codec : Codec) (rules : List (Rule l)) (channels : List (Channel l)) where
  open codec use {Packet, read_packet, content, has_topic_alias, write_to}

  -- An uplink PUBLISH is written to the broker at most once, and the verdict accounts for it: it
  -- is forwarded exactly when bytes were handed over and the write succeeded, and a frame that the
  -- rules drop is not written at all.
  pub publish_uplink-Accounted :
      (now : ℕ) (addr : String) (write_ok : Bool) (frame : List ℕ) (m : ConnTrack)
      → Accounted write_ok (publish_uplink l codec rules channels now addr write_ok frame m)
  publish_uplink-Accounted now addr write_ok frame m =
      publish_uplink_cases l codec rules channels now addr write_ok frame m (Accounted write_ok)
        (λ out m' same. relay-Accounted write_ok out m')
        (λ v m' stops same. refuse-Accounted write_ok v m' stops)

  -- What the path without the codec asks of a view before it is forwarded.
  abbrev pub Passed : ℕ → String → ConnTrack → RawPublish → Type 0
  Passed now addr m rp =
      (rp.topic ≢ [])
      × (rp.has_topic_alias ≡ false)
      × ((decide l rules
            (inspect_publish l channels now addr (record no_raw { mqtt5_raw = some rp }) (rp.topic)
              (rp.payload) m).1).1.decision
          ≢ block)

  forward_raw_sent :
      (write_ok : Bool) (frame : List ℕ) (m : ConnTrack) (ip : InspectorPacket l)
      → (forward_raw l codec rules channels write_ok frame m
          (decide_v5 l codec rules channels ip)).sent
        ≢ none
      → (decide l rules ip).1.decision ≢ block
  unfolding forward_raw decide_v5
  forward_raw_sent write_ok frame m ip h = ground arith

  publish_raw_sent :
      (now : ℕ) (addr : String) (write_ok : Bool) (frame : List ℕ) (m : ConnTrack)
      (r : Result ParseError RawPublish)
      → (publish_raw l codec rules channels now addr write_ok frame m r).sent ≢ none
      → (rp : RawPublish) × (r ≡ ok rp) × Passed now addr m rp
  unfolding publish_raw
  publish_raw_sent now addr write_ok frame m (err e) sent = absurd (sent refl)
  publish_raw_sent now addr write_ok frame m (ok rp) sent =
      elim (Bool-cases (no_bytes (rp.topic) || rp.has_topic_alias)) [
        | inl guarded ↦ absurd ((rw guarded at sent) refl)
        | inr clear ↦
            let view = record no_raw { mqtt5_raw = some rp } in
            let inspected = inspect_publish l channels now addr view (rp.topic) (rp.payload) m in
            (
              rp,
              refl,
              (
                ground arith,
                ground arith,
                forward_raw_sent write_ok frame inspected.0 inspected.1 (rw clear at sent),
              ),
            )
      ]

  -- A PUBLISH that the codec cannot read reaches the broker only if the hand parser reads it, its
  -- topic is there, no topic alias was seen, and the rules do not block what was inspected of it.
  publish_uplink-Passed :
      (now : ℕ) (addr : String) (write_ok : Bool) (frame : List ℕ) (m : ConnTrack)
      → read_packet frame ≡ none
      → (publish_uplink l codec rules channels now addr write_ok frame m).sent ≢ none
      → (rp : RawPublish) × (parse_publish frame ≡ ok rp) × Passed now addr m rp
  unfolding publish_uplink
  publish_uplink-Passed now addr write_ok frame m unread sent =
      publish_raw_sent now addr write_ok frame m (parse_publish frame)
        (rw (unread, publish_uplink) at sent)

  -- Relayed, or refused with the end of the session.
  abbrev pub Decided : Bool → List ℕ → Handled → Type 0
  Decided write_ok frame h =
      Accounted write_ok h × (h.verdict ≢ dropped) × (h.sent ≢ none → h.sent ≡ some frame)

  -- An uplink SUBSCRIBE is relayed as it was captured or not at all, and one that is not forwarded
  -- ends the session: it is never dropped in silence.
  pub subscribe_uplink-Decided :
      (now : ℕ) (addr : String) (write_ok : Bool) (frame : List ℕ) (m : ConnTrack)
      → Decided write_ok frame (subscribe_uplink l codec rules channels now addr write_ok frame m)
  unfolding forward_verdict
  subscribe_uplink-Decided now addr write_ok frame m =
      subscribe_uplink_cases l codec rules channels now addr write_ok frame m
        (Decided write_ok frame) (λ m' same. ground arith) (λ m' same. ground arith) (ground arith)
