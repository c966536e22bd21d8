-- ===== src/Wire/Publish/Safety.antt =====
-- The PUBLISH parser never crashes: no index and no slice of it is out of range.
use meshtk.Prelude.{
  ℕ, ◌≡◌, ◌≢◌, List, [], ◌∷◌, arith, take, drop, ok, err, Result-cases, >>=-eq-err, ◌⊎◌, inl, inr,
}
use meshtk.Wire.Bytes.{slice, slice_ok, uint16_at_ok, byte_at}
use meshtk.Wire.Scan.Laws.{scan_alias-total}
use meshtk.Wire.Varint.{ParseError, panic, out_of_fuel, decode_varint}
use meshtk.Wire.Varint.Laws.{decode_error}
use meshtk.Wire.Publish.{
  RawPublish, topic_name, skip_packet_id, property_block, publish_body, framed_at, publish_header,
  parse_publish,
}
use meshtk.Wire.Publish.Laws.{property_block_bounds}

-- An error that the source's own checks return.
abbrev pub IsRefusal : ParseError → Type 0
IsRefusal e = (e ≢ panic) × (e ≢ out_of_fuel)

decode-IsRefusal : (b : List ℕ) {e : ParseError} → decode_varint b ≡ err e → IsRefusal e
decode-IsRefusal b h = ground (arith, decode_error b h)

pub framed_at-IsRefusal : (frame : List ℕ) {e : ParseError} → framed_at frame ≡ err e → IsRefusal e
unfolding framed_at
framed_at-IsRefusal frame h = elim (>>=-eq-err (decode_varint (drop 1 frame)) _ h) [
  | inl d ↦ decode-IsRefusal (drop 1 frame) d
  | inr (a, d, rest) ↦ ground arith
]

topic_name-IsRefusal : (body : List ℕ) {e : ParseError} → topic_name body ≡ err e → IsRefusal e
unfolding topic_name slice
topic_name-IsRefusal body h = ground (arith, uint16_at_ok body 0)

skip_packet_id-IsRefusal :
    (qos : ℕ) (body : List ℕ) (pos : ℕ) {e : ParseError}
    → skip_packet_id qos body pos ≡ err e
    → IsRefusal e
unfolding skip_packet_id
skip_packet_id-IsRefusal qos body pos h = ground arith

pub property_block-IsRefusal :
    (body : List ℕ) (pos : ℕ) {e : ParseError} → property_block body pos ≡ err e → IsRefusal e
unfolding property_block
property_block-IsRefusal body pos h = elim (>>=-eq-err (decode_varint (drop pos body)) _ h) [
  | inl d ↦ decode-IsRefusal (drop pos body) d
  | inr (a, d, rest) ↦ ground arith
]

publish_header-IsRefusal :
    (frame : List ℕ) {e : ParseError} → publish_header frame ≡ err e → IsRefusal e
unfolding publish_header byte_at
publish_header-IsRefusal [] h = ground arith
publish_header-IsRefusal (b0 ∷ r) {e} h = ground (arith, framed_at-IsRefusal (b0 ∷ r) {e = e})

publish_body-IsRefusal :
    (at qos : ℕ) (body : List ℕ) {e : ParseError} → publish_body at qos body ≡ err e → IsRefusal e
unfolding publish_body
publish_body-IsRefusal at qos body h = elim (>>=-eq-err (topic_name body) _ h) [
  | inl d ↦ topic_name-IsRefusal body d
  | inr (t, named, h1) ↦ elim (>>=-eq-err (skip_packet_id qos body t.1) _ h1) [
    | inl d ↦ skip_packet_id-IsRefusal qos body t.1 d
    | inr (after_id, identified, h2) ↦ elim (>>=-eq-err (property_block body after_id) _ h2) [
      | inl d ↦ property_block-IsRefusal body after_id d
      | inr (b, delimited, h3) ↦
          let (_, inside) = property_block_bounds body after_id {props = b.0} {n = b.1} delimited in
          let sliced = slice_ok body b.0 b.1 inside in
          ground (arith, sliced, scan_alias-total (take b.1 (drop b.0 body)))
    ]
  ]
]

-- Whatever bytes a client sends, the parser either returns a view or refuses the frame by one of
-- its own checks: no index or slice is out of range, and no loop runs out of rounds.
pub parse_publish-IsRefusal :
    (frame : List ℕ)
    → ((p : RawPublish) × (parse_publish frame ≡ ok p))
      ⊎ ((e : ParseError) × (parse_publish frame ≡ err e) × IsRefusal e)
unfolding parse_publish
parse_publish-IsRefusal frame = elim (Result-cases (parse_publish frame)) [
  | inl (p, h) ↦ inl (p, h)
  | inr (e, h) ↦ inr (
    e,
    h,
    elim (>>=-eq-err (publish_header frame) _ h) [
      | inl d ↦ publish_header-IsRefusal frame d
      | inr (hd, _, rest) ↦ publish_body-IsRefusal hd.1 hd.0 (drop hd.1 frame) rest
    ],
  )
]
