-- ===== src/Examples/Uplink.antt =====
-- A PUBLISH with a property that the codec does not know, on a session of a tracked radio, and a
-- SUBSCRIBE. The codec reads nothing here.
use meshtk.Prelude.{ℕ, List, [], ◌∷◌, true, false, none, some, String, ◌≡◌, refl, arith, ok}
use meshtk.Examples.Libraries.{libs, libs-LibsLaws, read_packet, read_variant, read_data}
use meshtk.Examples.Server.{envelope, envelope_bytes, packet, public_user}
use meshtk.Server.Inspection.{with_envelope, inspect_publish}
use meshtk.Server.ConnTrack.{ConnTrack}
use meshtk.Server.Inspect.{Channel}
use meshtk.Server.Inspector.{connect}
use meshtk.Server.Libs.{Variant}
use meshtk.Server.Rules.{installed_rules}
use meshtk.Server.Rules.Laws.{capped, with_packet}
use meshtk.Server.Uplink.{Codec, publish_uplink}
use meshtk.Server.Uplink.Capped.{publish_uplink-capped}
use meshtk.Server.Uplink.Ruled.{Ruled}
use meshtk.Wire.Bytes.{byte_at, uint16_at, slice}
use meshtk.Wire.Publish.{
  RawPublish, parse_publish, publish_header, framed_at, publish_body, topic_name, skip_packet_id,
  property_block,
}
use meshtk.Wire.Scan.{scan_alias, follow, scan_round}
use meshtk.Wire.Varint.{decode_varint}
use meshtk.Server.ConnTrack.{remember_gateway, set_conn_track, touch_conn_track}
use meshtk.Server.Decider.{decide}
use meshtk.Server.Inspect.{
  decrypt_meshtastic, inspect_envelope, inspect_meshtastic, inspect_packet, inspect_variant,
  or_else, record_decoded, record_decrypted, unmarshalled,
}
use meshtk.Server.Uplink.{publish_raw, forward_raw, decide_v5, forward_verdict}
use meshtk.Server.Rules.{
  clamp_hops, within_budget, clamp_packet, rewrite_hop_limit, can_censor, censor_text, replace_each,
  rewrite_hello_goodbye, raw_is_control, is_control,
}
use meshtk.Server.Inspector.{
  set_variant, with_payload, set_in_mqtt, set_in_mqtt5, dispatch_payload, set_publish_payload,
  put_envelope, marshal_raw, remarshal_envelope, with_variant, encrypt_payload, reencrypt,
  rewrite_payload_string,
}
use meshtk.Wire.Publish.{splice_payload}
use meshtk.Wire.Varint.{encode_varint}

abbrev pub blind : Codec
blind = record {
  Packet = ℕ;
  read_packet = λ b. none;
  content = λ n. connect;
  has_topic_alias = λ n. false;
  subscriptions = λ n. [];
  write_to = λ n c. none;
}

abbrev pub channels : List (Channel libs)
channels = record { hex_key = "01"; cipher = true } ∷ []

abbrev pub tracked : ConnTrack
tracked addr = some public_user

abbrev frame : List ℕ
frame = 0x30 ∷ 29 ∷ 0 ∷ 1 ∷ b'm' ∷ 2 ∷ 0x7e ∷ 0 ∷ envelope_bytes

abbrev pub here : String
here = "10.0.0.9:51022"

abbrev out : List ℕ
out =
    0x30 ∷ 30 ∷ 0 ∷ 1 ∷ b'm' ∷ 2 ∷ 0x7e ∷ 0 ∷ 42 ∷ 4294967295 ∷ 7 ∷ 3 ∷ 7 ∷ 0 ∷ 0 ∷ 0 ∷ 8 ∷ 0 ∷ 0
    ∷ 0 ∷ 0 ∷ 0 ∷ 0 ∷ 0 ∷ 9 ∷ 101 ∷ 121 ∷ 98 ∷ 3 ∷ 0 ∷ 0 ∷ 1 ∷ []

abbrev view : RawPublish
view = record {
  qos = 0;
  topic = b'm' ∷ [];
  var_header_offset = 2;
  payload_offset = 8;
  payload = envelope_bytes;
  has_topic_alias = false;
  alias_scan_complete = false;
  alias_scan_stop = 0;
}

parsed : parse_publish frame ≡ ok view
unfolding parse_publish publish_header byte_at framed_at decode_varint publish_body topic_name
    uint16_at slice skip_packet_id property_block scan_alias follow scan_round
parsed = refl

sent :
    (publish_uplink libs blind (installed_rules libs) channels 7 here true frame tracked).sent
    ≡ some out
unfolding publish_uplink parse_publish publish_header byte_at framed_at decode_varint publish_body
    topic_name uint16_at slice skip_packet_id property_block scan_alias follow scan_round
    read_packet read_variant read_data remember_gateway set_conn_track touch_conn_track decide
    decrypt_meshtastic inspect_envelope inspect_meshtastic inspect_packet inspect_variant or_else
    record_decoded record_decrypted unmarshalled publish_raw forward_raw decide_v5 forward_verdict
    inspect_publish with_envelope clamp_hops within_budget clamp_packet rewrite_hop_limit can_censor
    censor_text replace_each rewrite_hello_goodbye raw_is_control is_control set_variant
    with_payload set_in_mqtt set_in_mqtt5 dispatch_payload set_publish_payload put_envelope
    marshal_raw remarshal_envelope with_variant encrypt_payload reencrypt rewrite_payload_string
    splice_payload encode_varint
sent = refl

publish_uplink-capped_example :
    (v : RawPublish) × (parse_publish out ≡ ok v)
    × (v.topic ≡ b'm' ∷ [])
    × ((x : Variant) × (libs.unmarshal_envelope (v.payload)
          ≡ some (with_packet envelope (record (capped packet) { variant = x }))))
unfolding read_packet
publish_uplink-capped_example =
    publish_uplink-capped libs blind channels libs-LibsLaws 7 here true frame out tracked view
      envelope packet refl parsed refl refl (λ v h. ground arith) sent
