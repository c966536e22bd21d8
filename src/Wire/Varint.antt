-- ===== src/Wire/Varint.antt =====
-- The MQTT variable byte integer: `decodeV5Varint` and `encodeV5Varint` of
-- internal/app/server/proxy_v5_rawpublish.go. A byte is a number below 256.
pub mod Laws
use meshtk.Prelude.{
  ℕ, zero, suc, ◌+◌, ◌*◌, ◌/◌, ◌%◌, List, [], ◌∷◌, arith, ltb, if◌then◌else◌, Result, ok, err,
}

-- What the frame parsers refuse. `panic` is Go's run-time panic on an index or a slice out of
-- range, and `out_of_fuel` a loop of the model that was given too few rounds.
pub data ParseError : Type 0 where
  malformed_varint truncated_varint too_short wrong_type bad_qos too_large length_mismatch
        truncated_length truncated_field truncated_packet_id bad_properties missing_options
        no_filters panic out_of_fuel :
      ParseError

-- The loop of `decodeV5Varint`. The first argument counts the rounds left of the four, and
-- `weight` is `1 << mult`; the bits that `|=` joins are disjoint, so it adds.
unfoldable pub decode_varint_from : ℕ → List ℕ → ℕ → ℕ → ℕ → Result ParseError (ℕ × ℕ)
decode_varint_from zero b weight value i = err malformed_varint
decode_varint_from (suc k) [] weight value i = err truncated_varint
decode_varint_from (suc k) (d ∷ b) weight value i =
    let value' = value + d % 128 * weight in
    let rest = decode_varint_from k b (weight * 128) value' (i + 1) in
    if ltb d 128 then ok (value', i + 1) else rest

-- The value, and how many bytes it took.
unfoldable pub decode_varint : List ℕ → Result ParseError (ℕ × ℕ)
unfolding decode_varint_from
decode_varint b = decode_varint_from 4 b 1 0 0

-- The loop of `encodeV5Varint`: it runs on while the quotient is not 0.
unfoldable pub encode_varint_from : ℕ → ℕ → List ℕ
encode_varint_from zero v = []
encode_varint_from (suc f) v =
    let rest = encode_varint_from f (v / 128) in
    if ltb 0 (v / 128) then (v % 128 + 128) ∷ rest else v % 128 ∷ []

-- The quotient falls in each round, so `v + 1` rounds are enough.
unfoldable pub encode_varint : ℕ → List ℕ
unfolding encode_varint_from
encode_varint v = encode_varint_from (suc v) v
