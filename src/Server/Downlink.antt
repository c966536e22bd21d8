-- ===== src/Server/Downlink.antt =====
-- The way from the broker to an MQTT 5.0 client: `handleBackendV5` of internal/app/server/proxy_v5.go
-- with `logDownlinkEnvelope` of proxy.go.
pub mod Laws
use meshtk.Prelude.{
  ℕ, List, [], ◌∷◌, ◌++◌, Bool, true, false, Option, none, some, String, str_eq, ◌==◌,
  if◌then◌else◌, Result, ok, err,
}
use meshtk.Server.ConnTrack.{ConnTrack, gateway_for}
use meshtk.Server.Inspector.{ControlPacket, publish}
use meshtk.Server.Libs.{ServiceEnvelope, Libs}
use meshtk.Server.PacketType
use meshtk.Server.Uplink.{Codec}
use meshtk.Wire.Frame.{ReadFault, Frame, read_frame}

-- The codec on a CONNACK: its topic alias maximum, if the packet is a CONNACK with properties, and
-- the packet's encoding with another in its place.
pub record ConnackCodec (codec : Codec) : Type 0 where
  pub alias_maximum : codec.Packet → Option (Option ℕ)
  pub write_connack : codec.Packet → Option ℕ → Option (List ℕ)

-- One round of the loop: whether it was cancelled, what the tracker holds by then, and whether the
-- write to the client succeeds.
pub record DownRound : Type 0 where
  pub is_cancelled : Bool
  pub track : ConnTrack
  pub write_ok : Bool

module _ (l : Libs) (addr : String) where
  unfoldable pub is_own_gateway : ConnTrack → Option ServiceEnvelope → Bool
  is_own_gateway m none = false
  is_own_gateway m (some e) = elim (e.packet) [
    | none ↦ false
    | some p ↦
        if str_eq (e.gateway_id) "" then false else str_eq (e.gateway_id) (gateway_for addr m)
  ]

  -- `logDownlinkEnvelope`: whether the payload is the connection's own uplink.
  abbrev pub log_downlink_envelope : ConnTrack → List ℕ → Bool
  log_downlink_envelope m payload = is_own_gateway m (l.unmarshal_envelope payload)

  abbrev pub is_echo : ConnTrack → ControlPacket → Bool
  is_echo m (publish topic payload) = log_downlink_envelope m payload
  is_echo m _ = false

module _ (l : Libs) (codec : Codec) (connacks : ConnackCodec codec) (addr : String) where
  open codec use {Packet, read_packet, content}
  open connacks use {alias_maximum, write_connack}

  abbrev pub or_captured : List ℕ → Option (List ℕ) → List ℕ
  or_captured frame none = frame
  or_captured frame (some out) = out

  -- A CONNACK offers no topic aliases, as far as the codec can read and write it.
  abbrev pub strip_connack : List ℕ → Option Packet → List ℕ
  strip_connack frame none = frame
  strip_connack frame (some pk) = elim (alias_maximum pk) [
    | none ↦ frame
    | some _ ↦ or_captured frame (write_connack pk none)
  ]

  -- A PUBLISH that the codec cannot read is no echo.
  abbrev pub echoes : ConnTrack → Option Packet → Bool
  echoes m none = false
  echoes m (some pk) = is_echo l addr m (content pk)

  -- What a frame from the broker comes to at the client, if it is not suppressed.
  unfoldable pub downlink_frame : ConnTrack → Frame → Option (List ℕ)
  downlink_frame m f =
      if f.pkt_type == PacketType.connack
      then some (strip_connack (f.raw) (read_packet (f.raw)))
      else if f.pkt_type == PacketType.publish
      then (if echoes m (read_packet (f.raw)) then none else some (f.raw))
      else some (f.raw)

  -- The loop: what the client is written, the oldest first.
  unfoldable pub run_down : List DownRound → ReadFault → List ℕ → List (List ℕ)
  run_down [] ends input = []
  run_down (r ∷ rs) ends input = elim (r.is_cancelled) [
    | true ↦ []
    | false ↦ elim (read_frame ends input) [
      | err e ↦ []
      | ok f ↦ elim (downlink_frame (r.track) f) [
        | none ↦ run_down rs ends (f.rest)
        | some out ↦ elim (r.write_ok) [ true ↦ out ∷ run_down rs ends (f.rest) | false ↦ out ∷ [] ]
      ]
    ]
  ]
