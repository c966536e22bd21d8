-- ===== src/Examples/Server.antt =====
-- A text to the channel with too large a hop budget, sent by the user of the public broker.
use meshtk.Prelude.{
  ℕ, List, [], ◌∷◌, true, false, Option, none, some, ◌≡◌, ◌↔◌, ◌⊎◌, str_eq, refl, arith,
}
use mathlib.Core.List.{reverse}
use meshtk.Examples.Libraries.{libs, libs-LibsLaws, read_packet}
use meshtk.Server.Decider.{decide, block}
use meshtk.Server.Inspector.{
  ControlPacket, publish, connect, RawPacket, ConnectionInfo, InspectorPacket,
}
use meshtk.Server.Inspector.Laws.{wire_payload, WireAgrees}
use meshtk.Server.Libs.{MeshData, encrypted, MeshPacket, ServiceEnvelope}
use meshtk.Server.Rules.{
  rewrite_hello_goodbye, installed_rules, can_censor, censor_text, raw_is_control,
}
use meshtk.Server.Rules.Censor.{Censored, CarriesSome, rewrite_hello_goodbye-Censored}
use meshtk.Server.Rules.Laws.{capped}
use meshtk.Server.Rules.Verdict.{decide-verdict, decide-block, decide-capped}

abbrev text : MeshData
text = record {
  portnum = 1;
  payload = b'h' ∷ b'i' ∷ [];
  request_id = 0;
  bitfield = none;
  others = 9 ∷ [];
}

abbrev text_bytes : List ℕ
text_bytes = 1 ∷ 0 ∷ 0 ∷ 2 ∷ b'h' ∷ b'i' ∷ 9 ∷ []

abbrev pub packet : MeshPacket
packet = record {
  from = 42;
  to = 4294967295;
  id = 7;
  hop_limit = 7;
  hop_start = 9;
  pki_encrypted = false;
  public_key = [];
  want_ack = false;
  via_mqtt = false;
  channel = 8;
  priority = 0;
  rx_time = 0;
  rx_rssi = 0;
  rx_snr = 0;
  variant = encrypted (reverse text_bytes);
  others = [];
}

abbrev pub envelope : ServiceEnvelope
envelope = record { packet = some packet; channel_id = "LongFast"; gateway_id = "!67ea9400" }

abbrev pub envelope_bytes : List ℕ
envelope_bytes =
    42 ∷ 4294967295 ∷ 7 ∷ 7 ∷ 9 ∷ 0 ∷ 0 ∷ 0 ∷ 8 ∷ 0 ∷ 0 ∷ 0 ∷ 0 ∷ 0 ∷ 0 ∷ 0 ∷ reverse text_bytes

abbrev pub public_user : ConnectionInfo
public_user = record {
  client_id = "phone";
  username = "public";
  password = "pw";
  socket_address = "10.0.0.9:51022";
  connect_time = 0;
  gateway_id = "";
  protocol_version = 4;
}

abbrev raw_of : ControlPacket → Option ServiceEnvelope → RawPacket
raw_of c e = record {
  mqtt = some c;
  mqtt5 = none;
  mqtt5_raw = none;
  mqtt5_raw_sub = none;
  meshtastic = e;
}

abbrev inspected : InspectorPacket libs
inspected = record {
  track = public_user;
  raw = raw_of (publish (b'm' ∷ []) envelope_bytes) (some envelope);
  auth_rejected = false;
  wire_rewritten = false;
  mqtt_type = "PUBLISH";
  topics = (b'm' ∷ []) ∷ [];
  mesh = record {
    decoded = some text;
    cipher = some true;
    was_unmarshalled = true;
    id = 7;
    from = 42;
    to = 4294967295;
    port_num = 1;
    payload = b'h' ∷ b'i' ∷ [];
    payload_string = b'h' ∷ b'i' ∷ [];
    hex_key = "01";
    was_encrypted = true;
    was_pki_encrypted = false;
    had_encrypted_payload = true;
  };
}

-- The same with a text that no channel opened.
abbrev sealed : InspectorPacket libs
sealed = record inspected {
  mesh = record (inspected.mesh) { decoded = none; cipher = none; was_encrypted = false };
}

abbrev connecting : InspectorPacket libs
connecting = record inspected { raw = raw_of connect none }

inspected-WireAgrees : WireAgrees libs inspected envelope
unfolding wire_payload read_packet
inspected-WireAgrees = (envelope_bytes, refl, refl, refl)

rewrite_hello_goodbye-Censored_example :
    Censored libs inspected envelope packet text true (rewrite_hello_goodbye libs inspected)
unfolding can_censor censor_text
rewrite_hello_goodbye-Censored_example =
    rewrite_hello_goodbye-Censored libs libs-LibsLaws inspected envelope packet text true
      (1 ∷ 0 ∷ 0 ∷ 3 ∷ b'b' ∷ b'y' ∷ b'e' ∷ 9 ∷ []) inspected-WireAgrees refl refl refl refl refl
      (λ v h. ground arith)

decide-verdict_example : (decide libs (installed_rules libs) sealed).1.decision ≡ block
unfolding raw_is_control
decide-verdict_example = decide-verdict libs sealed

decide-block_example : ((decide libs (installed_rules libs) sealed).1.decision ≡ block) ↔ (
    (raw_is_control (sealed.raw) ≡ false)
    × (sealed.mesh.was_pki_encrypted ≡ false)
    × (((sealed.mesh.had_encrypted_payload ≡ true) × (sealed.mesh.was_encrypted ≡ false))
        ⊎ (str_eq (sealed.track.username) "" ≡ true)))
decide-block_example = decide-block libs sealed

decide-capped_example :
    CarriesSome libs (decide libs (installed_rules libs) inspected).0 envelope (capped packet)
decide-capped_example =
    decide-capped libs libs-LibsLaws inspected envelope packet inspected-WireAgrees refl
      (λ v h. ground arith)
