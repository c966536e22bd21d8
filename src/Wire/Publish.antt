-- ===== src/Wire/Publish.antt =====
-- The hand parser for a PUBLISH frame that the codec refused, and the splice of a new payload into
-- it: `parseV5PublishFrame` and `spliceV5PublishPayload` of
-- internal/app/server/proxy_v5_rawpublish.go.
pub mod Laws
pub mod Splice
pub mod Safety
pub mod Rewrite
use meshtk.Prelude.{
  ℕ, ◌+◌, ◌*◌, ◌-◌, ◌/◌, ◌%◌, List, [], ◌∷◌, ◌++◌, Bool, not, ◌&&◌, Option, none, some, length,
  take, drop, ltb, leb, ◌==◌, if◌then◌else◌, Result, ok, err, ◌>>=◌, ◌>>◌, require,
}
use meshtk.Wire.Bytes.{byte_at, uint16_at, slice}
use meshtk.Wire.Scan.{AliasScan, scan_alias}
use meshtk.Wire.Varint.{
  ParseError, too_short, wrong_type, bad_qos, too_large, length_mismatch, truncated_length,
  truncated_field, truncated_packet_id, bad_properties, decode_varint, encode_varint,
}

-- `maxV5PacketBytes` of proxy_v5.go
abbrev pub max_packet_bytes : ℕ
max_packet_bytes = 256 * 1024

pub record RawPublish : Type 0 where
  pub qos : ℕ
  pub topic : List ℕ
  pub var_header_offset : ℕ
  pub payload_offset : ℕ
  pub payload : List ℕ
  pub has_topic_alias : Bool
  pub alias_scan_complete : Bool
  pub alias_scan_stop : ℕ

-- The fixed header's remaining length, which must be capped and agree with the bytes present. The
-- result is the offset of the variable header. The SUBSCRIBE parser has the same lines.
unfoldable pub framed_at : List ℕ → Result ParseError ℕ
framed_at frame = do
  (rem_len, n) ← decode_varint (drop 1 frame)
  require (leb rem_len max_packet_bytes) too_large
  require (1 + n + rem_len == length frame) length_mismatch
  ok (1 + n)

-- The fixed header: the QoS and the offset of the variable header.
unfoldable pub publish_header : List ℕ → Result ParseError (ℕ × ℕ)
publish_header frame = do
  require (leb 2 (length frame)) too_short
  b0 ← byte_at frame 0
  require (b0 / 16 == 3) wrong_type
  require (not (b0 / 2 % 4 == 3)) bad_qos
  offset ← framed_at frame
  ok (b0 / 2 % 4, offset)

-- A packet identifier is there only when the QoS is above 0.
unfoldable pub skip_packet_id : ℕ → List ℕ → ℕ → Result ParseError ℕ
skip_packet_id qos body pos =
    if ltb 0 qos
    then (do require (leb (pos + 2) (length body)) truncated_packet_id; ok (pos + 2))
    else ok pos

-- The property block: its offset and its length.
unfoldable pub property_block : List ℕ → ℕ → Result ParseError (ℕ × ℕ)
property_block body pos = do
  (prop_len, pn) ← decode_varint (drop pos body)
  require (leb (pos + pn + prop_len) (length body)) bad_properties
  ok (pos + pn, prop_len)

-- The topic and the offset behind it.
unfoldable pub topic_name : List ℕ → Result ParseError (List ℕ × ℕ)
topic_name body = do
  require (leb 2 (length body)) truncated_length
  topic_len ← uint16_at body 0
  require (leb (2 + topic_len) (length body)) truncated_field
  topic ← slice body 2 topic_len
  ok (topic, 2 + topic_len)

-- The bytes behind the fixed header. Offsets count from the variable header: the source's `pos` is
-- `at` more, and its `end` is the end of the frame.
unfoldable pub publish_body : ℕ → ℕ → List ℕ → Result ParseError RawPublish
publish_body at qos body = do
  (topic, pos) ← topic_name body
  pos' ← skip_packet_id qos body pos
  (props, prop_len) ← property_block body pos'
  block ← slice body props prop_len
  scan ← scan_alias block
  ok (record {
    qos = qos;
    topic = topic;
    var_header_offset = at;
    payload_offset = at + (props + prop_len);
    payload = drop (props + prop_len) body;
    has_topic_alias = scan.has_alias;
    alias_scan_complete = scan.complete;
    alias_scan_stop = scan.stop;
  })

unfoldable pub parse_publish : List ℕ → Result ParseError RawPublish
parse_publish frame = do (qos, at) ← publish_header frame; publish_body at qos (drop at frame)

pub data SpliceError : Type 0 where
  no_view offsets_out_of_range rewrite_too_large empty_frame : SpliceError

-- `frame[0]` of an empty frame would panic; the offset check refuses that frame.
unfoldable pub splice_payload : List ℕ → Option RawPublish → List ℕ → Result SpliceError (List ℕ)
splice_payload frame none new_payload = err no_view
splice_payload [] (some p) new_payload = err offsets_out_of_range
splice_payload (b0 ∷ frame) (some p) new_payload = do
  require
      (leb 1 p.var_header_offset
        && leb p.var_header_offset p.payload_offset
        && leb p.payload_offset (length (b0 ∷ frame)))
      offsets_out_of_range
  let var_header =
      take (p.payload_offset - p.var_header_offset) (drop p.var_header_offset (b0 ∷ frame))
  let rem_len = length var_header + length new_payload
  require (leb rem_len max_packet_bytes) rewrite_too_large
  ok (b0 ∷ (encode_varint rem_len ++ (var_header ++ new_payload)))
