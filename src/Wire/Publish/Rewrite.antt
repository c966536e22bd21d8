-- ===== src/Wire/Publish/Rewrite.antt =====
-- Rewriting the payload of a captured PUBLISH: spliceV5PublishPayload of
-- internal/app/server/proxy_v5_rawpublish.go, run on what the parser returned.
use meshtk.Prelude.{
  ℕ, ◌+◌, ◌-◌, ◌≤◌, ◌≡◌, refl, List, [], ◌∷◌, ◌++◌, arith, length, ok, some, drop-append,
  take-append, inl, inr, Result-cases,
}
use meshtk.Wire.Varint.{encode_varint}
use meshtk.Wire.Publish.{RawPublish, max_packet_bytes, parse_publish, splice_payload}
use meshtk.Wire.Publish.Splice.{
  ViewIsGood, parse_publish-ViewIsGood, var_header, splice_shape, splice-parse, parse_publish-nil,
}

-- The view of a frame that was built around the same variable header.
abbrev pub rebuilt : ℕ → RawPublish → List ℕ → RawPublish
rebuilt n p new_payload =
    let at = 1 + length (encode_varint (n + length new_payload)) in
    record p { var_header_offset = at; payload_offset = at + n; payload = new_payload }

splice_payload_runs :
    (b0 : ℕ) (r new_payload : List ℕ) {p : RawPublish}
    → ViewIsGood (b0 ∷ r) p
    → length (var_header (b0 ∷ r) p) + length new_payload ≤ max_packet_bytes
    → (out : List ℕ) × (splice_payload (b0 ∷ r) (some p) new_payload ≡ ok out)
unfolding splice_payload
splice_payload_runs b0 r new_payload {p} v fits =
    let first = v.header_first in
    let after = v.payload_after in
    let inside = v.payload_inside in
    elim (Result-cases (splice_payload (b0 ∷ r) (some p) new_payload)) [
      | inl done ↦ done
      | inr (e, refused) ↦ absurd (ground arith)
    ]

var_header_kept :
    (b0 : ℕ) (r new_payload : List ℕ) {p : RawPublish} {out : List ℕ}
    → ViewIsGood (b0 ∷ r) p
    → splice_payload (b0 ∷ r) (some p) new_payload ≡ ok out
    → let n = length (var_header (b0 ∷ r) p) in
      var_header out (rebuilt n p new_payload) ≡ var_header (b0 ∷ r) p
var_header_kept b0 r new_payload {p} {out} v spliced =
    let vh = var_header (b0 ∷ r) p in
    let (shape, fits) = splice_shape b0 r new_payload p spliced in
    let code = encode_varint (length vh + length new_payload) in
    let at = 1 + length code in
    rw
      (
        shape,
        drop-append (b0 ∷ code) (vh ++ new_payload) at (omega arith),
        take-append vh new_payload ((at + length vh) - at) (omega arith),
      )
      refl

-- A parsed frame takes any payload that keeps it under the packet cap. What is spliced parses to
-- the same view with the new payload, and its variable header, the properties with it, is the same
-- byte for byte.
pub splice_payload-ok :
    (frame new_payload : List ℕ) {p : RawPublish}
    → parse_publish frame ≡ ok p
    → length (var_header frame p) + length new_payload ≤ max_packet_bytes
    → let view = rebuilt (length (var_header frame p)) p new_payload in
      (out : List ℕ) × (splice_payload frame (some p) new_payload ≡ ok out)
      × (parse_publish out ≡ ok view)
      × (var_header out view ≡ var_header frame p)
splice_payload-ok [] new_payload h fits = absurd (parse_publish-nil h)
splice_payload-ok (b0 ∷ r) new_payload h fits =
    let v = parse_publish-ViewIsGood (b0 ∷ r) h in
    let (out, spliced) = splice_payload_runs b0 r new_payload v fits in
    (
      out,
      spliced,
      splice-parse (b0 ∷ r) new_payload h spliced,
      var_header_kept b0 r new_payload v spliced,
    )
