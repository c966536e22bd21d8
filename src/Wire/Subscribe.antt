-- ===== src/Wire/Subscribe.antt =====
-- The hand parser for a SUBSCRIBE frame that the codec refused: `parseV5SubscribeFrame` of
-- internal/app/server/proxy_v5_rawsubscribe.go.
pub mod Laws
use meshtk.Prelude.{
  ℕ, zero, suc, ◌+◌, ◌/◌, List, [], ◌∷◌, ◌++◌, Bool, true, false, not, length, drop, ltb, leb, ◌==◌,
  Result, ok, err, ◌>>=◌, ◌>>◌, require,
}
use meshtk.Wire.Bytes.{byte_at, uint16_at, slice}
use meshtk.Wire.Publish.{framed_at, property_block}
use meshtk.Wire.Varint.{
  ParseError, too_short, wrong_type, length_mismatch, truncated_length, truncated_field,
  truncated_packet_id, missing_options, no_filters, out_of_fuel,
}

pub record RawSubscribe : Type 0 where
  pub packet_id : ℕ
  pub filters : List (List ℕ)

-- One filter, its subscription-options byte, and the offset behind them. Offsets count from the
-- variable header.
unfoldable pub filter_round : List ℕ → ℕ → Result ParseError (List ℕ × ℕ)
filter_round body pos = do
  require (leb (pos + 2) (length body)) truncated_length
  n ← uint16_at body pos
  require (leb (pos + 2 + n) (length body)) truncated_field
  name ← slice body (pos + 2) n
  require (leb (pos + 2 + n + 1) (length body)) missing_options
  ok (name, pos + 2 + n + 1)

-- The loop `for pos < end`, with the filters so far.
unfoldable pub filters_from : ℕ → List ℕ → ℕ → List (List ℕ) → Result ParseError (List (List ℕ) × ℕ)
filters_from zero body pos filters = err out_of_fuel
filters_from (suc f) body pos filters = elim (ltb pos (length body)) [
  | false ↦ ok (filters, pos)
  | true ↦ filter_round body pos >>= λ (name, pos'). filters_from f body pos' (filters ++ name ∷ [])
]

abbrev pub is_empty : List (List ℕ) → Bool
is_empty [] = true
is_empty (_ ∷ _) = false

-- The bytes behind the fixed header. A round takes at least three bytes, so one for each byte, and
-- one to see the end, is enough.
unfoldable pub subscribe_body : List ℕ → Result ParseError RawSubscribe
subscribe_body body = do
  require (leb 2 (length body)) truncated_packet_id
  packet_id ← uint16_at body 0
  (props, prop_len) ← property_block body 2
  (filters, pos) ← filters_from (suc (length body)) body (props + prop_len) []
  require (pos == length body) length_mismatch
  require (not (is_empty filters)) no_filters
  ok (record { packet_id = packet_id; filters = filters })

unfoldable pub parse_subscribe : List ℕ → Result ParseError RawSubscribe
parse_subscribe frame = do
  require (leb 2 (length frame)) too_short
  b0 ← byte_at frame 0
  require (b0 / 16 == 8) wrong_type
  at ← framed_at frame
  subscribe_body (drop at frame)
