-- ===== src/Examples/Wire.antt =====
-- A PUBLISH with QoS 1 and a property that the codec does not know, and a SUBSCRIBE.
use meshtk.Prelude.{
  ℕ, ◌≡◌, refl, ◌≢◌, ◌⊎◌, List, [], ◌∷◌, ◌++◌, length, ok, err, some, ltb→lt, leb→le, false,
}
use meshtk.Wire.Varint.{ParseError, decode_varint, encode_varint}
use meshtk.Wire.Varint.Laws.{decode-encode}
use meshtk.Wire.Scan.{scan_alias, follow, scan_round}
use meshtk.Wire.Publish.{
  RawPublish, parse_publish, splice_payload, publish_header, framed_at, publish_body, topic_name,
  skip_packet_id, property_block,
}
use meshtk.Wire.Bytes.{byte_at, uint16_at, slice}
use meshtk.Wire.Publish.Rewrite.{rebuilt, splice_payload-ok}
use meshtk.Wire.Publish.Safety.{IsRefusal, parse_publish-IsRefusal}
use meshtk.Wire.Publish.Splice.{ViewIsGood, parse_publish-ViewIsGood, var_header}
use meshtk.Wire.Subscribe.{RawSubscribe, parse_subscribe}
use meshtk.Wire.Subscribe.Laws.{parse_subscribe-IsRefusal}

abbrev frame : List ℕ
frame = 0x32 ∷ 11 ∷ 0 ∷ 1 ∷ b'm' ∷ 0 ∷ 5 ∷ 2 ∷ 0x7e ∷ 0 ∷ 1 ∷ 2 ∷ 3 ∷ []

abbrev subscribe_frame : List ℕ
subscribe_frame = 0x82 ∷ 7 ∷ 0 ∷ 9 ∷ 0 ∷ 0 ∷ 1 ∷ b'a' ∷ 0 ∷ []

abbrev view : RawPublish
view = record {
  qos = 1;
  topic = b'm' ∷ [];
  var_header_offset = 2;
  payload_offset = 10;
  payload = 1 ∷ 2 ∷ 3 ∷ [];
  has_topic_alias = false;
  alias_scan_complete = false;
  alias_scan_stop = 0;
}

parsed : parse_publish frame ≡ ok view
unfolding parse_publish publish_header byte_at framed_at decode_varint publish_body topic_name
    uint16_at slice skip_packet_id property_block scan_alias follow scan_round
parsed = refl

decode-encode_example :
    decode_varint (encode_varint 2097152 ++ (7 ∷ [])) ≡ ok (2097152, length (encode_varint 2097152))
decode-encode_example = decode-encode 2097152 (7 ∷ []) (ltb→lt 2097152 268435456 refl)

parse_publish-ViewIsGood_example : ViewIsGood frame view
parse_publish-ViewIsGood_example = parse_publish-ViewIsGood frame parsed

parse_publish-IsRefusal_example :
    ((p : RawPublish) × (parse_publish (0x36 ∷ 0 ∷ []) ≡ ok p))
    ⊎ ((e : ParseError) × (parse_publish (0x36 ∷ 0 ∷ []) ≡ err e) × IsRefusal e)
parse_publish-IsRefusal_example = parse_publish-IsRefusal (0x36 ∷ 0 ∷ [])

splice_payload-ok_example :
    let rewritten = rebuilt (length (var_header frame view)) view (9 ∷ []) in
    (out : List ℕ) × (splice_payload frame (some view) (9 ∷ []) ≡ ok out)
    × (parse_publish out ≡ ok rewritten)
    × (var_header out rewritten ≡ var_header frame view)
splice_payload-ok_example = splice_payload-ok frame (9 ∷ []) parsed (leb→le 9 262144 refl)

parse_subscribe-IsRefusal_example :
    ((s : RawSubscribe) × (parse_subscribe subscribe_frame ≡ ok s) × (s.filters ≢ []))
    ⊎ ((e : ParseError) × (parse_subscribe subscribe_frame ≡ err e) × IsRefusal e)
parse_subscribe-IsRefusal_example = parse_subscribe-IsRefusal subscribe_frame
