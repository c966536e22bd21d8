-- ===== src/Wire/Publish/Splice.antt =====
-- A splice of a new payload into a parsed frame, and the frame parsed again.
use meshtk.Prelude.{
  ℕ, ◌+◌, ◌-◌, ◌/◌, ◌%◌, ◌≤◌, ◌<◌, ◌≡◌, ◌≢◌, List, [], ◌∷◌, ◌++◌, arith, length, take, drop, some,
  ok, Result-cases, length-append, >>=-eq-ok, drop-append, length-take, length-drop, subst,
  drop-drop, take-append-drop, sym, ◌∙◌, inl, inr,
}
use meshtk.Wire.Bytes.{byte_at}
use meshtk.Wire.Varint.{decode_varint, encode_varint}
use meshtk.Wire.Varint.Laws.{decode_bounds, decode-encode}
use meshtk.Wire.Publish.{
  RawPublish, framed_at, max_packet_bytes, publish_header, publish_body, parse_publish,
  splice_payload,
}
use meshtk.Wire.Publish.Laws.{
  publish_body-Stages, publish_body-append, Stages, topic_name_bounds, skip_packet_id_bounds,
  property_block_bounds,
}

-- The length field of a frame built around a body tells where the body begins.
pub framed_at-encode :
    (b0 : ℕ) (body : List ℕ)
    → length body ≤ max_packet_bytes
    → framed_at (b0 ∷ (encode_varint (length body) ++ body))
      ≡ ok (1 + length (encode_varint (length body)))
unfolding framed_at
framed_at-encode b0 body h =
    ground
      (arith, decode-encode (length body) body, length-append (encode_varint (length body)) body)

framed_at_bounds :
    (frame : List ℕ) {at : ℕ} → framed_at frame ≡ ok at → (1 < at) × (at ≤ 5) × (at ≤ length frame)
unfolding framed_at
framed_at_bounds frame h =
    let (d, e, _) = >>=-eq-ok (decode_varint (drop 1 frame)) _ h in
    let (one, four, _, _) = decode_bounds (drop 1 frame) e in ground (arith, one, four)

publish_header-encode :
    (b0 : ℕ) (body : List ℕ)
    → b0 / 16 ≡ 3
    → b0 / 2 % 4 ≢ 3
    → length body ≤ max_packet_bytes
    → 1 ≤ length body
    → publish_header (b0 ∷ (encode_varint (length body) ++ body))
      ≡ ok (b0 / 2 % 4, 1 + length (encode_varint (length body)))
unfolding publish_header byte_at
publish_header-encode b0 body type qos h one =
    ground (arith, framed_at-encode b0 body, length-append (encode_varint (length body)) body)

pub publish_header_bounds :
    (b0 : ℕ) (r : List ℕ) {qos at : ℕ}
    → publish_header (b0 ∷ r) ≡ ok (qos, at)
    → (qos ≡ b0 / 2 % 4) × (b0 / 16 ≡ 3) × (qos ≢ 3) × (1 < at) × (at ≤ length (b0 ∷ r))
unfolding publish_header byte_at
publish_header_bounds b0 r h = elim (Result-cases (framed_at (b0 ∷ r))) [
  | inl (at, e) ↦ ground (arith, framed_at_bounds (b0 ∷ r) e)
  | inr (x, e) ↦ absurd (ground arith)
]

-- Where a parsed view stands in its frame.
pub record ViewIsGood (frame : List ℕ) (p : RawPublish) : Type 0 where
  pub header_first : 1 < p.var_header_offset
  pub payload_after : p.var_header_offset + 2 ≤ p.payload_offset
  pub payload_inside : p.payload_offset ≤ length frame
  pub payload_rest : p.payload ≡ drop p.payload_offset frame
  pub qos_valid : p.qos ≢ 3

-- A successful parse, taken apart.
record Parsed (b0 : ℕ) (r : List ℕ) (p : RawPublish) : Type 0 where
  publish_type : b0 / 16 ≡ 3
  qos_valid : b0 / 2 % 4 ≢ 3
  at_first : 1 < p.var_header_offset
  at_inside : p.var_header_offset ≤ length (b0 ∷ r)
  parsed : publish_body p.var_header_offset (b0 / 2 % 4) (drop p.var_header_offset (b0 ∷ r)) ≡ ok p
  stages : Stages p.var_header_offset (b0 / 2 % 4) (drop p.var_header_offset (b0 ∷ r)) p

Stages-offset :
    {at qos : ℕ} {body : List ℕ} {p : RawPublish} → Stages at qos body p → at ≡ p.var_header_offset
Stages-offset s = let made = s.made in ground arith

parse_publish_taken :
    (b0 : ℕ) (r : List ℕ) (qos at : ℕ) {p : RawPublish}
    → publish_header (b0 ∷ r) ≡ ok (qos, at)
    → publish_body at qos (drop at (b0 ∷ r)) ≡ ok p
    → Parsed b0 r p
parse_publish_taken b0 r qos at e h =
    let (same, type, valid, first, inside) = publish_header_bounds b0 r e in
    let here = Stages-offset (publish_body-Stages at qos (drop at (b0 ∷ r)) h) in
    let parsed = rw (same, here) at h in
    record {
      publish_type = type;
      qos_valid = rw same at valid;
      at_first = rw here at first;
      at_inside = rw here at inside;
      parsed = parsed;
      stages = publish_body-Stages _ _ _ parsed;
    }

parse_publish-Parsed :
    (b0 : ℕ) (r : List ℕ) {p : RawPublish} → parse_publish (b0 ∷ r) ≡ ok p → Parsed b0 r p
unfolding parse_publish
parse_publish-Parsed b0 r h =
    let (hd, e, h') = >>=-eq-ok (publish_header (b0 ∷ r)) _ h in
    parse_publish_taken b0 r hd.0 hd.1 e h'

pub parse_publish-nil : {p : RawPublish} → parse_publish [] ≡ ok p → ⊥
unfolding parse_publish publish_header
parse_publish-nil h = ground arith

-- Every parsed view lies in its frame: the payload is exactly what stands behind
-- `payload_offset`.
pub parse_publish-ViewIsGood :
    (frame : List ℕ) {p : RawPublish} → parse_publish frame ≡ ok p → ViewIsGood frame p
parse_publish-ViewIsGood [] h = absurd (parse_publish-nil h)
parse_publish-ViewIsGood (b0 ∷ r) {p} h =
    let d = parse_publish-Parsed b0 r h in
    let s = d.stages in
    let body = drop p.var_header_offset (b0 ∷ r) in
    let (two, pos_in, _, _) = topic_name_bounds body s.named in
    let (id_le, _) = skip_packet_id_bounds (b0 / 2 % 4) body s.pos s.identified pos_in in
    let (props_le, props_in) = property_block_bounds body s.after_id s.delimited in
    let made = s.made in
    let size = length-drop p.var_header_offset (b0 ∷ r) in
    let off : p.payload_offset ≡ p.var_header_offset + (s.props + s.prop_len) = ground arith in
    let rest : p.payload ≡ drop (s.props + s.prop_len) body = ground arith in
    let qos_eq : p.qos ≡ b0 / 2 % 4 = ground arith in
    record {
      header_first = d.at_first;
      payload_after = omega arith;
      payload_inside = omega (arith, d.at_inside);
      payload_rest =
          rest ∙ drop-drop (s.props + s.prop_len) p.var_header_offset p.payload_offset (b0 ∷ r) off;
      qos_valid = rw qos_eq d.qos_valid;
    }

-- The bytes from the variable header up to the payload.
abbrev pub var_header : List ℕ → RawPublish → List ℕ
var_header frame p = take (p.payload_offset - p.var_header_offset) (drop p.var_header_offset frame)

pub splice_shape :
    (b0 : ℕ) (r new_payload : List ℕ) (p : RawPublish) {out : List ℕ}
    → splice_payload (b0 ∷ r) (some p) new_payload ≡ ok out
    → (out
        ≡ b0
          ∷ (encode_varint (length (var_header (b0 ∷ r) p) + length new_payload)
              ++ (var_header (b0 ∷ r) p ++ new_payload)))
      × (length (var_header (b0 ∷ r) p) + length new_payload ≤ max_packet_bytes)
unfolding splice_payload
splice_shape b0 r new_payload p h = ground arith

parse_publish-encode :
    (b0 : ℕ) (body : List ℕ) {p : RawPublish}
    → b0 / 16 ≡ 3
    → b0 / 2 % 4 ≢ 3
    → length body ≤ max_packet_bytes
    → 1 ≤ length body
    → publish_body (1 + length (encode_varint (length body))) (b0 / 2 % 4) body ≡ ok p
    → parse_publish (b0 ∷ (encode_varint (length body) ++ body)) ≡ ok p
unfolding parse_publish
parse_publish-encode b0 body type qos size one h =
    let at = 1 + length (encode_varint (length body)) in
    let rest : drop at (b0 ∷ (encode_varint (length body) ++ body)) ≡ body =
      drop-append (b0 ∷ encode_varint (length body)) body at (omega arith) in
    rw (publish_header-encode b0 body type qos size one) (rw rest h)

-- Splicing a payload into a parsed frame and parsing the result gives the same view with the new
-- payload.
pub splice-parse :
    (frame new_payload : List ℕ) {p : RawPublish} {out : List ℕ}
    → parse_publish frame ≡ ok p
    → splice_payload frame (some p) new_payload ≡ ok out
    → let n = length (var_header frame p) in
      let at = 1 + length (encode_varint (n + length new_payload)) in
      parse_publish out
      ≡ ok (record p { var_header_offset = at; payload_offset = at + n; payload = new_payload })
splice-parse [] new_payload h s = absurd (parse_publish-nil h)
splice-parse (b0 ∷ r) new_payload {p} {out} h spliced =
    let v = parse_publish-ViewIsGood (b0 ∷ r) h in
    let d = parse_publish-Parsed b0 r h in
    let (shape, fits) = splice_shape b0 r new_payload p spliced in
    let n = p.payload_offset - p.var_header_offset in
    let body = drop p.var_header_offset (b0 ∷ r) in
    let vh = var_header (b0 ∷ r) p in
    let size : length vh ≡ n = length-take n body (
      omega (arith, length-drop p.var_header_offset (b0 ∷ r), v.payload_after, v.payload_inside)) in
    let whole : vh ++ drop n body ≡ body = take-append-drop n body in
    let parsed : publish_body p.var_header_offset (b0 / 2 % 4) (vh ++ drop n body) ≡ ok p =
      subst (λ b. publish_body p.var_header_offset (b0 / 2 % 4) b ≡ ok p) (sym whole) d.parsed in
    let sizes : length (vh ++ new_payload) ≡ length vh + length new_payload =
      length-append vh new_payload in
    rw (shape, ← sizes)
      (parse_publish-encode b0 (vh ++ new_payload) d.publish_type d.qos_valid (omega arith)
        (omega (arith, v.payload_after))
        (publish_body-append p.var_header_offset _ (b0 / 2 % 4) vh (drop n body) new_payload parsed
          (omega (arith, v.payload_after))))
