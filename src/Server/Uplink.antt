-- ===== src/Server/Uplink.antt =====
-- The uplink of an MQTT 5.0 session, frame by frame: handleV5PublishUplink and
-- handleV5SubscribeUplink of internal/app/server/proxy_v5.go with the inspectors of inspect_v5.go.
-- The paho codec is a parameter, and whether the write to the broker succeeds is an argument.
pub mod Cases
pub mod Laws
pub mod Ruled
pub mod Capped
pub mod Logins
use meshtk.Prelude.{
  ℕ, List, [], ◌∷◌, Bool, true, false, ◌||◌, Option, none, some, String, str_eq, if◌then◌else◌,
  Result, ok, err,
}
use meshtk.Server.ConnTrack.{ConnTrack, set_conn_track, remember_gateway, or_given}
use meshtk.Server.Decider.{Decision, block, Rule, decide}
use meshtk.Server.Inspect.{Channel, inspect_meshtastic}
use meshtk.Server.Inspector.{
  ControlPacket, publish, subscribe, RawPacket, ConnectionInfo, InspectorPacket,
}
use meshtk.Server.Inspection.{inspect_publish, inspect_subscribe}
use meshtk.Server.Libs.{ServiceEnvelope, Libs}
use meshtk.Wire.Publish.{RawPublish, parse_publish, SpliceError, splice_payload}
use meshtk.Wire.Subscribe.{RawSubscribe, is_empty, parse_subscribe}
use meshtk.Wire.Varint.{ParseError}

-- The codec: a packet that it read, what the proxy looks at in it, and its encoding with the
-- content as a rule left it.
pub record Codec : Type 1 where
  pub Packet : Type 0
  pub read_packet : List ℕ → Option Packet
  pub content : Packet → ControlPacket
  pub has_topic_alias : Packet → Bool
  pub subscriptions : Packet → List (List ℕ)
  pub write_to : Packet → Option ControlPacket → Option (List ℕ)

pub data UplinkVerdict : Type 0 where
  forwarded dropped fatal : UplinkVerdict

-- What the proxy tells a client that it turns away, and in which packet.
pub data Reason : Type 0 where
  malformed_packet protocol_error not_authorized bad_authentication_method : Reason

pub data Answer : Type 0 where
  connack_with disconnect_with : Reason → Answer

-- What a frame did: the tracker, the bytes handed to the broker, the answer to the client, and the
-- verdict.
pub record Handled : Type 0 where
  pub track : ConnTrack
  pub sent : Option (List ℕ)
  pub answered : Option Answer
  pub verdict : UplinkVerdict

abbrev pub no_bytes : List ℕ → Bool
no_bytes [] = true
no_bytes (_ ∷ _) = false

unfoldable pub forward_verdict : Bool → UplinkVerdict
forward_verdict true = forwarded
forward_verdict false = fatal

abbrev pub refuse : UplinkVerdict → ConnTrack → Handled
refuse v track = record { track = track; sent = none; answered = none; verdict = v }

abbrev pub relay : Bool → List ℕ → ConnTrack → Handled
relay write_ok out track = record {
  track = track;
  sent = some out;
  answered = none;
  verdict = forward_verdict write_ok;
}

abbrev pub is_block : Decision → Bool
is_block block = true
is_block _ = false

abbrev pub no_raw : RawPacket
no_raw = record {
  mqtt = none;
  mqtt5 = none;
  mqtt5_raw = none;
  mqtt5_raw_sub = none;
  meshtastic = none;
}

module _ (l : Libs) (codec : Codec) (rules : List (Rule l)) (channels : List (Channel l)) where
  open codec use {Packet, read_packet, content, has_topic_alias, subscriptions, write_to}

  -- decideV5Publish and decideV5Subscribe, which differ in their log lines: the packet as the
  -- rules left it, and whether it may go on.
  unfoldable pub decide_v5 : InspectorPacket l → InspectorPacket l × Bool
  decide_v5 ip =
      let (ip', result) = decide l rules ip in
      (ip', if is_block result.decision then false else true)

  abbrev pub relay_spliced : Bool → ConnTrack → Result SpliceError (List ℕ) → Handled
  relay_spliced write_ok m (ok out) = relay write_ok out m
  relay_spliced write_ok m (err e) = refuse fatal m

  abbrev pub relay_written : Bool → ConnTrack → Option (List ℕ) → Handled
  relay_written write_ok m (some out) = relay write_ok out m
  relay_written write_ok m none = refuse fatal m

  -- `rp` and `Raw.MQTT5Raw` are one object, so the splice takes the view as the rules left it.
  abbrev pub spliced : List ℕ → Option RawPublish → Result SpliceError (List ℕ)
  spliced frame none = splice_payload frame none []
  spliced frame (some p) = splice_payload frame (some p) (p.payload)

  unfoldable pub forward_raw : Bool → List ℕ → ConnTrack → InspectorPacket l × Bool → Handled
  forward_raw write_ok frame m (ip, false) = refuse dropped m
  forward_raw write_ok frame m (ip, true) =
      if ip.wire_rewritten
      then relay_spliced write_ok m (spliced frame (ip.raw.mqtt5_raw))
      else relay write_ok frame m

  unfoldable pub forward_parsed :
      Bool → List ℕ → Packet → ConnTrack → InspectorPacket l × Bool → Handled
  forward_parsed write_ok frame cp m (ip, false) = refuse dropped m
  forward_parsed write_ok frame cp m (ip, true) =
      if ip.wire_rewritten
      then relay_written write_ok m (write_to cp (ip.raw.mqtt5))
      else relay write_ok frame m

  unfoldable pub publish_raw :
      ℕ → String → Bool → List ℕ → ConnTrack → Result ParseError RawPublish → Handled
  publish_raw now addr write_ok frame m (err e) = refuse fatal m
  publish_raw now addr write_ok frame m (ok rp) =
      let (m', ip) =
        inspect_publish l channels now addr (record no_raw { mqtt5_raw = some rp }) (rp.topic)
          (rp.payload) m in
      if no_bytes (rp.topic) || rp.has_topic_alias
      then refuse fatal m
      else forward_raw write_ok frame m' (decide_v5 ip)

  unfoldable pub publish_parsed :
      ℕ → String → Bool → List ℕ → ConnTrack → Packet → ControlPacket → Handled
  publish_parsed now addr write_ok frame m cp (publish topic payload) =
      let (m', ip) =
        inspect_publish l channels now addr (record no_raw { mqtt5 = some (publish topic payload) })
          topic payload m in
      if has_topic_alias cp || no_bytes topic
      then refuse fatal m
      else forward_parsed write_ok frame cp m' (decide_v5 ip)
  publish_parsed now addr write_ok frame m cp _ = relay write_ok frame m

  -- handleV5PublishUplink
  unfoldable pub publish_uplink : ℕ → String → Bool → List ℕ → ConnTrack → Handled
  publish_uplink now addr write_ok frame m = elim (read_packet frame) [
    | none ↦ publish_raw now addr write_ok frame m (parse_publish frame)
    | some cp ↦ publish_parsed now addr write_ok frame m cp (content cp)
  ]

  -- A refused SUBSCRIBE ends the session.
  unfoldable pub forward_subscribe : Bool → List ℕ → ConnTrack × InspectorPacket l → Handled
  forward_subscribe write_ok frame (m, ip) =
      let (_, go_on) = decide_v5 ip in if go_on then relay write_ok frame m else refuse fatal m

  unfoldable pub subscribe_raw :
      ℕ → String → Bool → List ℕ → ConnTrack → Result ParseError RawSubscribe → Handled
  subscribe_raw now addr write_ok frame m (err e) = record (refuse fatal m) {
    answered = some (disconnect_with malformed_packet);
  }
  subscribe_raw now addr write_ok frame m (ok rs) = forward_subscribe write_ok frame (
      inspect_subscribe l channels now addr (record no_raw { mqtt5_raw_sub = some rs }) "SUBSCRIBE"
        (rs.filters) m)

  unfoldable pub subscribe_parsed :
      ℕ → String → Bool → List ℕ → ConnTrack → Packet → ControlPacket → Handled
  subscribe_parsed now addr write_ok frame m cp subscribe = forward_subscribe write_ok frame (
      inspect_subscribe l channels now addr (record no_raw { mqtt5 = some subscribe }) "SUBSCRIBE"
        (subscriptions cp) m)
  subscribe_parsed now addr write_ok frame m cp other =
      forward_subscribe write_ok frame
        (inspect_subscribe l channels now addr (record no_raw { mqtt5 = some other }) "" [] m)

  -- handleV5SubscribeUplink
  unfoldable pub subscribe_uplink : ℕ → String → Bool → List ℕ → ConnTrack → Handled
  subscribe_uplink now addr write_ok frame m = elim (read_packet frame) [
    | none ↦ subscribe_raw now addr write_ok frame m (parse_subscribe frame)
    | some cp ↦ subscribe_parsed now addr write_ok frame m cp (content cp)
  ]
