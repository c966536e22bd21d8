-- ===== src/Server/Uplink/Ruled.antt =====
-- What becomes of an uplink PUBLISH of internal/app/server/proxy_v5.go by the verdict of the rules.
use meshtk.Prelude.{ℕ, List, [], Bool, true, false, none, some, String, ◌≡◌, ◌≢◌, if◌then◌else◌, ok}
use meshtk.Server.ConnTrack.{ConnTrack}
use meshtk.Server.Decider.{block, Rule, decide}
use meshtk.Server.Inspect.{Channel}
use meshtk.Server.Inspector.{publish, InspectorPacket}
use meshtk.Server.Inspection.{inspect_publish}
use meshtk.Server.Libs.{Libs}
use meshtk.Server.Uplink.{Codec, UplinkVerdict, forwarded, dropped, fatal, Handled, no_raw}
use meshtk.Wire.Publish.{RawPublish, parse_publish}

module _ (l : Libs) (codec : Codec) (rules : List (Rule l)) (channels : List (Channel l)) (now : ℕ)
    (addr : String) (write_ok : Bool) (frame : List ℕ) (m : ConnTrack) where
  open codec use {Packet, read_packet, content, has_topic_alias, write_to}

  -- The packet that is inspected of the frame, if it names a topic and sets no topic alias: what the
  -- codec reads, or what the hand parser reads where the codec cannot.
  pub data Inspects (ip : InspectorPacket l) : Type 0 where
    by_codec :
        {cp : Packet} {topic payload : List ℕ}
        → read_packet frame ≡ some cp
        → content cp ≡ publish topic payload
        → topic ≢ []
        → has_topic_alias cp ≡ false
        → ip
          ≡ (inspect_publish l channels now addr
              (record no_raw { mqtt5 = some (publish topic payload) })
              topic
              payload
              m).1
        → Inspects ip
    by_hand :
        {rp : RawPublish}
        → read_packet frame ≡ none
        → parse_publish frame ≡ ok rp
        → rp.topic ≢ []
        → rp.has_topic_alias ≡ false
        → ip
          ≡ (inspect_publish l channels now addr
              (record no_raw { mqtt5_raw = some rp })
              (rp.topic)
              (rp.payload)
              m).1
        → Inspects ip

  abbrev pub Written : List ℕ → Handled → Type 0
  Written out h = (h.sent ≡ some out) × (h.verdict ≡ (if write_ok then forwarded else fatal))

  abbrev pub Unwritten : UplinkVerdict → Handled → Type 0
  Unwritten v h = (h.sent ≡ none) × (h.verdict ≡ v)

  -- What a frame comes to.
  pub data Ruled (h : Handled) : Type 0 where
    blocked :
        (ip : InspectorPacket l)
        → Inspects ip
        → (decide l rules ip).1.decision ≡ block
        → Unwritten dropped h
        → Ruled h
    passed :
        (ip : InspectorPacket l) (out : List ℕ)
        → Inspects ip
        → (decide l rules ip).1.decision ≢ block
        → ((decide l rules ip).0.wire_rewritten ≡ false → out ≡ frame)
        → Written out h
        → Ruled h
    unwritable :
        (ip : InspectorPacket l)
        → Inspects ip
        → (decide l rules ip).1.decision ≢ block
        → (decide l rules ip).0.wire_rewritten ≡ true
        → Unwritten fatal h
        → Ruled h
    other_packet :
        (cp : Packet)
        → read_packet frame ≡ some cp
        → ((topic payload : List ℕ) → content cp ≢ publish topic payload)
        → Written frame h
        → Ruled h
    refused : ((ip : InspectorPacket l) → Inspects ip → ⊥) → Unwritten fatal h → Ruled h
