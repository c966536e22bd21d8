-- ===== src/Server/Inspect.antt =====
-- What the inspector reads out of a Meshtastic packet: `inspectMeshtastic` and
-- `DecryptMeshtastic` of internal/app/server/inspect.go.
pub mod Laws
use meshtk.Prelude.{
  ℕ, List, [], ◌∷◌, Bool, true, false, ◌||◌, Option, none, some, String, ◌==◌, if◌then◌else◌,
}
use meshtk.Server.Inspector.{InspectorPacket}
use meshtk.Server.Libs.{
  MeshData, Variant, decoded, encrypted, empty, MeshPacket, ServiceEnvelope, Libs,
}

-- The port numbers of protos/meshtastic/generated/portnums.pb.go that the proxy names.
abbrev pub text_message_app : ℕ
text_message_app = 1

abbrev pub position_app : ℕ
position_app = 3

abbrev pub nodeinfo_app : ℕ
nodeinfo_app = 4

abbrev pub routing_app : ℕ
routing_app = 5

abbrev pub telemetry_app : ℕ
telemetry_app = 67

abbrev pub neighborinfo_app : ℕ
neighborinfo_app = 71

abbrev pub map_report_app : ℕ
map_report_app = 73

module _ (l : Libs) where
  open l use {Cipher, key_stream, unmarshal_data, parses}

  -- A channel: its key as configured, and the cipher made of it.
  pub record Channel : Type 0 where
    pub hex_key : String
    pub cipher : Cipher

  pub record Decrypted : Type 0 where
    pub data_of : MeshData
    pub channel : Channel

  unfoldable pub or_else : Channel → Option MeshData → Option Decrypted → Option Decrypted
  or_else k none rest = rest
  or_else k (some d) rest = some (record { data_of = d; channel = k })

  -- The first channel whose plaintext parses.
  unfoldable pub decrypt_meshtastic : List Channel → ℕ → ℕ → List ℕ → Option Decrypted
  unfolding or_else
  decrypt_meshtastic [] id from payload = none
  decrypt_meshtastic (k ∷ ks) id from payload =
      or_else k (unmarshal_data (key_stream k.cipher id from payload))
        (decrypt_meshtastic ks id from payload)

  -- The `switch` over the ports: text needs no parse, and a port that is not named sets nothing.
  unfoldable pub unmarshalled : ℕ → List ℕ → Bool → Bool
  unmarshalled port payload before =
      if port == text_message_app
      then true
      else if port == nodeinfo_app
          || port == position_app
          || port == map_report_app
          || port == telemetry_app
          || port == neighborinfo_app
          || port == routing_app
      then parses port payload || before
      else before

  -- The part below the decryption, with the decoded `Data`.
  unfoldable pub record_decoded : MeshData → InspectorPacket l → InspectorPacket l
  unfolding unmarshalled
  record_decoded d ip = record ip {
    mesh = record (ip.mesh) {
      decoded = some d;
      port_num = d.portnum;
      payload = d.payload;
      payload_string = d.payload;
      was_unmarshalled = unmarshalled (d.portnum) (d.payload) (ip.mesh.was_unmarshalled);
    };
  }

  unfoldable pub record_decrypted : Option Decrypted → InspectorPacket l → InspectorPacket l
  unfolding record_decoded
  record_decrypted none ip = ip
  record_decrypted (some r) ip = record_decoded r.data_of (record ip {
    mesh = record (ip.mesh) {
      hex_key = r.channel.hex_key;
      cipher = some (r.channel.cipher);
      was_encrypted = true;
    };
  })

  unfoldable pub inspect_variant :
      List Channel → MeshPacket → Variant → InspectorPacket l → InspectorPacket l
  unfolding record_decrypted
  inspect_variant ks p (decoded d) ip = record_decoded d ip
  inspect_variant ks p (encrypted b) ip =
      let ip' = record ip { mesh = record (ip.mesh) { had_encrypted_payload = true } } in
      if p.pki_encrypted
      then record ip' { mesh = record (ip'.mesh) { was_pki_encrypted = true } }
      else record_decrypted (decrypt_meshtastic ks (p.id) (p.from) b) ip'
  inspect_variant ks p empty ip = ip

  unfoldable pub inspect_packet :
      List Channel → Option MeshPacket → InspectorPacket l → InspectorPacket l
  unfolding inspect_variant
  inspect_packet ks none ip = record ip { mesh = record (ip.mesh) { was_unmarshalled = false } }
  inspect_packet ks (some p) ip =
      inspect_variant ks p (p.variant)
        (record ip { mesh = record (ip.mesh) { id = p.id; from = p.from; to = p.to } })

  unfoldable pub inspect_envelope :
      List Channel → Option ServiceEnvelope → InspectorPacket l → InspectorPacket l
  unfolding inspect_packet
  inspect_envelope ks none ip = ip
  inspect_envelope ks (some e) ip = inspect_packet ks (e.packet) ip

  unfoldable pub inspect_meshtastic : List Channel → InspectorPacket l → InspectorPacket l
  unfolding inspect_envelope
  inspect_meshtastic ks ip = inspect_envelope ks (ip.raw.meshtastic) ip
