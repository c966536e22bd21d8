-- ===== src/Server/Inspection.antt =====
-- What every inspector of a PUBLISH or a SUBSCRIBE makes of it: the inspectors of
-- internal/app/server/inspect_v5.go, and `inspectRawPacket` of inspect.go on a PUBLISH.
use meshtk.Prelude.{ℕ, List, [], ◌∷◌, false, Option, none, some, String, str_eq, if◌then◌else◌}
use meshtk.Server.ConnTrack.{ConnTrack, set_conn_track, remember_gateway, or_given}
use meshtk.Server.Inspect.{Channel, inspect_meshtastic}
use meshtk.Server.Inspector.{RawPacket, ConnectionInfo, InspectorPacket}
use meshtk.Server.Libs.{ServiceEnvelope, Libs}

abbrev pub only_address : String → ConnectionInfo
only_address addr = record {
  client_id = "";
  username = "";
  password = "";
  socket_address = addr;
  connect_time = 0;
  gateway_id = "";
  protocol_version = 0;
}

module _ (l : Libs) (channels : List (Channel l)) where
  -- A new packet: the tracked connection, the type and the topics, and nothing read yet.
  abbrev pub fresh_packet : ConnectionInfo → RawPacket → String → List (List ℕ) → InspectorPacket l
  fresh_packet info raw type topics = record {
    track = info;
    raw = raw;
    auth_rejected = false;
    wire_rewritten = false;
    mqtt_type = type;
    topics = topics;
    mesh = record {
      decoded = none;
      cipher = none;
      was_unmarshalled = false;
      id = 0;
      from = 0;
      to = 0;
      port_num = 0;
      payload = [];
      payload_string = [];
      hex_key = "";
      was_encrypted = false;
      was_pki_encrypted = false;
      had_encrypted_payload = false;
    };
  }

  -- The gateway of an envelope is remembered unless it is empty. The packet's `Track` is the
  -- entry itself, so it sees the change.
  abbrev pub remembered : String → String → ConnTrack → ConnTrack
  remembered addr gateway m = if str_eq gateway "" then m else remember_gateway addr gateway m

  unfoldable pub with_envelope :
      String
      → Option ServiceEnvelope
      → ConnTrack × InspectorPacket l
      → ConnTrack × InspectorPacket l
  with_envelope addr none (m, ip) = (m, ip)
  with_envelope addr (some e) (m, ip) =
      let m' = remembered addr (e.gateway_id) m in
      (
        m',
        inspect_meshtastic l channels (record ip {
          track = or_given (ip.track) (m' addr);
          raw = record (ip.raw) { meshtastic = some e };
        }),
      )

  -- inspectV5Publish and inspectV5RawPublish, which differ in the member of `Raw` that they set.
  unfoldable pub inspect_publish :
      ℕ → String → RawPacket → List ℕ → List ℕ → ConnTrack → ConnTrack × InspectorPacket l
  inspect_publish now addr raw topic payload m =
      let (m', info) = set_conn_track now addr (only_address addr) m in
      with_envelope addr (l.unmarshal_envelope payload)
        (m', fresh_packet info raw "PUBLISH" (topic ∷ []))

  -- inspectV5Subscribe and inspectV5RawSubscribe.
  unfoldable pub inspect_subscribe :
      ℕ → String → RawPacket → String → List (List ℕ) → ConnTrack → ConnTrack × InspectorPacket l
  inspect_subscribe now addr raw type topics m =
      let (m', info) = set_conn_track now addr (only_address addr) m in
      (m', fresh_packet info raw type topics)
