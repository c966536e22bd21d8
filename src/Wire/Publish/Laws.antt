-- ===== src/Wire/Publish/Laws.antt =====
-- The stages of the PUBLISH parser: each reads only its own bytes and ends inside the frame.
use meshtk.Prelude.{
  ℕ, ◌+◌, ◌-◌, ◌≤◌, ◌≡◌, inl, inr, List, ◌++◌, arith, length, drop, ok, Result-cases, length-append,
  length-drop, >>=-eq-ok, sym, ◌∙◌, drop-append,
}
use meshtk.Wire.Bytes.{
  drop-append_le, uint16_at, slice, uint16_at_ok, uint16_at-append, slice-append,
}
use meshtk.Wire.Varint.{decode_varint}
use meshtk.Wire.Varint.Laws.{decode-append}
use meshtk.Wire.Scan.{AliasScan, scan_alias}
use meshtk.Wire.Publish.{RawPublish, topic_name, skip_packet_id, property_block, publish_body}

-- A stage of the parser ends behind what it reads, and inside the bytes.
pub topic_name_bounds :
    (body : List ℕ) {t : List ℕ} {pos : ℕ}
    → topic_name body ≡ ok (t, pos)
    → (2 ≤ pos)
      × (pos ≤ length body)
      × (uint16_at body 0 ≡ ok (pos - 2))
      × (slice body 2 (pos - 2) ≡ ok t)
unfolding topic_name
topic_name_bounds body h = ground (arith, uint16_at_ok body 0)

-- A stage reads nothing behind its end: the bytes there may be exchanged for any others.
topic_name-append :
    (xs ys zs : List ℕ) {t : List ℕ} {pos : ℕ}
    → topic_name (xs ++ ys) ≡ ok (t, pos)
    → pos ≤ length xs
    → topic_name (xs ++ zs) ≡ ok (t, pos)
unfolding topic_name
topic_name-append xs ys zs {t} {pos} h le =
    let (two, inside, word, text) = topic_name_bounds (xs ++ ys) h in
    ground (
      arith,
      uint16_at-append xs ys 0,
      uint16_at-append xs zs 0,
      slice-append xs ys 2 (pos - 2),
      slice-append xs zs 2 (pos - 2),
      length-append xs zs,
    )

pub skip_packet_id_bounds :
    (qos : ℕ) (body : List ℕ) (pos : ℕ) {pos' : ℕ}
    → skip_packet_id qos body pos ≡ ok pos'
    → pos ≤ length body
    → (pos ≤ pos') × (pos' ≤ length body)
unfolding skip_packet_id
skip_packet_id_bounds qos body pos h le = ground arith

skip_packet_id-append :
    (qos : ℕ) (xs ys zs : List ℕ) (pos : ℕ) {pos' : ℕ}
    → skip_packet_id qos (xs ++ ys) pos ≡ ok pos'
    → pos' ≤ length xs
    → skip_packet_id qos (xs ++ zs) pos ≡ ok pos'
unfolding skip_packet_id
skip_packet_id-append qos xs ys zs pos h le = ground (arith, length-append xs zs)

pub property_block_bounds :
    (body : List ℕ) (pos : ℕ) {props n : ℕ}
    → property_block body pos ≡ ok (props, n)
    → (pos ≤ props) × (props + n ≤ length body)
unfolding property_block
property_block_bounds body pos h = ground arith

decode_at-append :
    (xs ys zs : List ℕ) (pos : ℕ) {v n : ℕ}
    → decode_varint (drop pos (xs ++ ys)) ≡ ok (v, n)
    → pos + n ≤ length xs
    → decode_varint (drop pos (xs ++ zs)) ≡ ok (v, n)
decode_at-append xs ys zs pos h le = rw (drop-append_le xs zs pos (omega arith)) (
    decode-append (drop pos xs) ys zs (rw (drop-append_le xs ys pos (omega arith)) at h)
      (omega (arith, length-drop pos xs)))

property_block-append :
    (xs ys zs : List ℕ) (pos : ℕ) {props n : ℕ}
    → property_block (xs ++ ys) pos ≡ ok (props, n)
    → props + n ≤ length xs
    → property_block (xs ++ zs) pos ≡ ok (props, n)
unfolding property_block
property_block-append xs ys zs pos h le =
    elim (Result-cases (decode_varint (drop pos (xs ++ ys)))) [
      | inl ((v, k), e) ↦
          let e' = decode_at-append xs ys zs pos e (ground arith) in
          ground (arith, length-append xs zs)
      | inr (x, e) ↦ absurd (ground arith)
    ]

-- The stages of a parsed body, each with its result.
pub record Stages (at qos : ℕ) (body : List ℕ) (p : RawPublish) : Type 0 where
  pub pos : ℕ
  pub after_id : ℕ
  pub props : ℕ
  pub prop_len : ℕ
  pub block : List ℕ
  pub scan : AliasScan
  pub named : topic_name body ≡ ok (p.topic, pos)
  pub identified : skip_packet_id qos body pos ≡ ok after_id
  pub delimited : property_block body after_id ≡ ok (props, prop_len)
  pub sliced : slice body props prop_len ≡ ok block
  pub scanned : scan_alias block ≡ ok scan
  pub made : p ≡ record {
    qos = qos;
    topic = p.topic;
    var_header_offset = at;
    payload_offset = at + (props + prop_len);
    payload = drop (props + prop_len) body;
    has_topic_alias = scan.has_alias;
    alias_scan_complete = scan.complete;
    alias_scan_stop = scan.stop;
  }

pub publish_body-Stages :
    (at qos : ℕ) (body : List ℕ) {p : RawPublish}
    → publish_body at qos body ≡ ok p
    → Stages at qos body p
unfolding publish_body
publish_body-Stages at qos body h =
    let (t, named, h1) = >>=-eq-ok (topic_name body) _ h in
    let (after_id, identified, h2) = >>=-eq-ok (skip_packet_id qos body t.1) _ h1 in
    let (b, delimited, h3) = >>=-eq-ok (property_block body after_id) _ h2 in
    let (block, sliced, h4) = >>=-eq-ok (slice body b.0 b.1) _ h3 in
    let (scan, scanned, h5) = >>=-eq-ok (scan_alias block) _ h4 in
    record {
      pos = t.1;
      after_id = after_id;
      props = b.0;
      prop_len = b.1;
      block = block;
      scan = scan;
      named = ground arith;
      identified = identified;
      delimited = delimited;
      sliced = sliced;
      scanned = scanned;
      made = ground arith;
    }

Stages-publish_body :
    {at qos : ℕ} {body : List ℕ} {p : RawPublish}
    → Stages at qos body p
    → publish_body at qos body ≡ ok p
unfolding publish_body
Stages-publish_body s = ground arith

-- The first `payload_offset` bytes decide everything but the payload: any other tail may stand
-- behind them, at any offset of the variable header.
pub publish_body-append :
    (at at' qos : ℕ) (xs ys zs : List ℕ) {p : RawPublish}
    → publish_body at qos (xs ++ ys) ≡ ok p
    → p.payload_offset ≡ at + length xs
    → publish_body at' qos (xs ++ zs)
      ≡ ok (record p { var_header_offset = at'; payload_offset = at' + length xs; payload = zs })
publish_body-append at at' qos xs ys zs {p} h le =
    let s = publish_body-Stages at qos (xs ++ ys) h in
    let end : s.props + s.prop_len ≡ length xs = ground arith in
    let (two, inside, _, _) = topic_name_bounds (xs ++ ys) s.named in
    let (id_le, id_in) = skip_packet_id_bounds qos (xs ++ ys) s.pos s.identified inside in
    let (props_le, props_in) = property_block_bounds (xs ++ ys) s.after_id s.delimited in
    Stages-publish_body (record {
      pos = s.pos;
      after_id = s.after_id;
      props = s.props;
      prop_len = s.prop_len;
      block = s.block;
      scan = s.scan;
      named = topic_name-append xs ys zs s.named (omega arith);
      identified = skip_packet_id-append qos xs ys zs s.pos s.identified (omega arith);
      delimited = property_block-append xs ys zs s.after_id s.delimited (omega arith);
      sliced =
          slice-append xs zs s.props s.prop_len (omega arith)
          ∙ sym (slice-append xs ys s.props s.prop_len (omega arith))
          ∙ s.sliced;
      scanned = s.scanned;
      made = ground (arith, end, drop-append xs zs (s.props + s.prop_len) end);
    })
