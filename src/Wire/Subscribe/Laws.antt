-- ===== src/Wire/Subscribe/Laws.antt =====
-- The SUBSCRIBE parser never crashes, never loops, and accepts no empty filter list.
use meshtk.Prelude.{
  ℕ, zero, suc, ◌+◌, ◌≤◌, ◌<◌, ◌≡◌, ◌≢◌, ◌⊎◌, inl, inr, List, [], ◌∷◌, ◌++◌, arith, length, drop,
  ltb, leb, ◌==◌, ◌/◌, require, Bool-cases, ok, err, Result-cases, >>=-eq-ok, >>=-eq-err,
}
use meshtk.Wire.Bytes.{byte_at, slice, uint16_at_ok, uint16_at}
use meshtk.Wire.Publish.{framed_at, property_block}
use meshtk.Wire.Publish.Laws.{property_block_bounds}
use meshtk.Wire.Publish.Safety.{IsRefusal, framed_at-IsRefusal, property_block-IsRefusal}
use meshtk.Wire.Varint.{ParseError, truncated_packet_id, too_short, wrong_type}
use meshtk.Wire.Subscribe.{
  RawSubscribe, filter_round, filters_from, subscribe_body, parse_subscribe,
}

filter_round_bounds :
    (body : List ℕ) (pos : ℕ) {name : List ℕ} {pos' : ℕ}
    → filter_round body pos ≡ ok (name, pos')
    → (pos < pos') × (pos' ≤ length body)
unfolding filter_round slice
filter_round_bounds body pos h = ground (arith, uint16_at_ok body pos)

filter_round-IsRefusal :
    (body : List ℕ) (pos : ℕ) {e : ParseError} → filter_round body pos ≡ err e → IsRefusal e
unfolding filter_round slice
filter_round-IsRefusal body pos h = ground (arith, uint16_at_ok body pos)

filters_from-IsRefusal :
    (f : ℕ) (body : List ℕ) (pos : ℕ) (filters : List (List ℕ)) {e : ParseError}
    → pos ≤ length body
    → length body < f + pos
    → filters_from f body pos filters ≡ err e
    → IsRefusal e
unfolding filters_from
filters_from-IsRefusal zero body pos filters le g h = absurd (omega arith)
filters_from-IsRefusal (suc f) body pos filters {e} le g h =
    elim (Bool-cases (ltb pos (length body))) [
      | inr q ↦ absurd (ground (arith, q))
      | inl q ↦ elim (>>=-eq-err (filter_round body pos) _ (rw (q, filters_from) at h)) [
        | inl d ↦ filter_round-IsRefusal body pos d
        | inr (r, taken, rest) ↦
            let (on, inside) = filter_round_bounds body pos {name = r.0} {pos' = r.1} taken in
            filters_from-IsRefusal f body r.1 (filters ++ r.0 ∷ []) inside (omega arith) rest
      ]
    ]

subscribe_body-IsRefusal :
    (body : List ℕ) {e : ParseError} → subscribe_body body ≡ err e → IsRefusal e
unfolding subscribe_body
subscribe_body-IsRefusal body h = elim (Bool-cases (leb 2 (length body))) [
  | inr short ↦ ground arith
  | inl enough ↦
      let (id, e) = uint16_at_ok body 0 (ground arith) in
      let h' = rw (enough, e) at h in
      elim (>>=-eq-err (property_block body 2) _ h') [
        | inl d ↦ property_block-IsRefusal body 2 d
        | inr (b, d, h2) ↦
            let (_, inside) = property_block_bounds body 2 {props = b.0} {n = b.1} d in
            elim (>>=-eq-err (filters_from (suc (length body)) body (b.0 + b.1) []) _ h2) [
              | inl x ↦
                  filters_from-IsRefusal (suc (length body)) body (b.0 + b.1) [] inside
                    (omega arith) x
              | inr (fs, _, h3) ↦ ground arith
            ]
      ]
]

subscribe_body-filters :
    (body : List ℕ) {s : RawSubscribe} → subscribe_body body ≡ ok s → s.filters ≢ []
unfolding subscribe_body
subscribe_body-filters body h =
    let (_, _, h1) = >>=-eq-ok (require (leb 2 (length body)) truncated_packet_id) _ h in
    let (_, _, h2) = >>=-eq-ok (uint16_at body 0) _ h1 in
    let (b, _, h3) = >>=-eq-ok (property_block body 2) _ h2 in
    let (fs, _, h4) = >>=-eq-ok (filters_from (suc (length body)) body (b.0 + b.1) []) _ h3 in
    ground arith

parse_subscribe-filters :
    (frame : List ℕ) {s : RawSubscribe} → parse_subscribe frame ≡ ok s → s.filters ≢ []
unfolding parse_subscribe
parse_subscribe-filters frame {s} h =
    let (_, _, h1) = >>=-eq-ok (require (leb 2 (length frame)) too_short) _ h in
    let (b0, _, h2) = >>=-eq-ok (byte_at frame 0) _ h1 in
    let (_, _, h3) = >>=-eq-ok (require (b0 / 16 == 8) wrong_type) _ h2 in
    let (at, _, h4) = >>=-eq-ok (framed_at frame) _ h3 in subscribe_body-filters (drop at frame) h4

parse_subscribe-refuses :
    (frame : List ℕ) {e : ParseError} → parse_subscribe frame ≡ err e → IsRefusal e
unfolding parse_subscribe byte_at
parse_subscribe-refuses [] h = ground arith
parse_subscribe-refuses (b0 ∷ r) {e} h = elim (Result-cases (framed_at (b0 ∷ r))) [
  | inl (at, f) ↦ ground (arith, subscribe_body-IsRefusal (drop at (b0 ∷ r)) {e = e})
  | inr (x, f) ↦ ground (arith, framed_at-IsRefusal (b0 ∷ r) {e = x})
]

-- Whatever bytes a client sends, the parser either returns a view, with at least one filter, or
-- refuses the frame by one of its own checks: no read is out of range, and the loop ends.
pub parse_subscribe-IsRefusal :
    (frame : List ℕ)
    → ((s : RawSubscribe) × (parse_subscribe frame ≡ ok s) × (s.filters ≢ []))
      ⊎ ((e : ParseError) × (parse_subscribe frame ≡ err e) × IsRefusal e)
parse_subscribe-IsRefusal frame = elim (Result-cases (parse_subscribe frame)) [
  | inl (s, h) ↦ inl (s, h, parse_subscribe-filters frame h)
  | inr (e, h) ↦ inr (e, h, parse_subscribe-refuses frame h)
]
