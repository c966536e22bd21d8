-- ===== src/Wire/Scan.antt =====
-- The walk over a PUBLISH property block that looks for a Topic Alias: `scanV5PublishAlias` and
-- `skipV5PropStringOrBinary` of internal/app/server/proxy_v5_rawpublish.go.
pub mod Laws
use meshtk.Prelude.{
  ℕ, zero, suc, ◌+◌, List, Bool, true, false, ◌||◌, Option, none, some, length, ltb, ◌==◌, drop,
  if◌then◌else◌, Result, ok, err, ◌>>=◌,
}
use meshtk.Wire.Bytes.{byte_at, uint16_at}
use meshtk.Wire.Varint.{ParseError, out_of_fuel, decode_varint}

-- The property ids that the walk models.
abbrev pub payload_format_indicator : ℕ
payload_format_indicator = 0x01

abbrev pub message_expiry_interval : ℕ
message_expiry_interval = 0x02

abbrev pub content_type : ℕ
content_type = 0x03

abbrev pub response_topic : ℕ
response_topic = 0x08

abbrev pub correlation_data : ℕ
correlation_data = 0x09

abbrev pub subscription_identifier : ℕ
subscription_identifier = 0x0b

abbrev pub topic_alias : ℕ
topic_alias = 0x23

abbrev pub user_property : ℕ
user_property = 0x26

-- The three results of the walk.
pub record AliasScan : Type 0 where
  pub has_alias : Bool
  pub complete : Bool
  pub stop : ℕ

abbrev pub gave_up : ℕ → AliasScan
gave_up i = record { has_alias = false; complete = false; stop = i }

-- One round either returns or goes on at an offset.
pub data Round : Type 0 where
  done : AliasScan → Round
  go_on : ℕ → Round

-- The offset past a length-prefixed value, if it lies in the block.
unfoldable pub skip_prop_string : List ℕ → ℕ → Result ParseError (Option ℕ)
skip_prop_string block pos = if ltb (length block) (pos + 2) then ok none else do
  n ← uint16_at block pos
  if ltb (length block) (pos + 2 + n) then ok none else ok (some (pos + 2 + n))

-- The check below the `switch`: a fixed-width value that ran off the end stops the walk.
unfoldable pub go_on_in : List ℕ → ℕ → ℕ → Round
go_on_in block id_at i = if ltb (length block) i then done (gave_up id_at) else go_on i

unfoldable pub after_skip : List ℕ → ℕ → Option ℕ → Round
unfolding go_on_in
after_skip block id_at none = done (gave_up id_at)
after_skip block id_at (some next) = go_on_in block id_at next

-- The second string of a user property.
unfoldable pub skip_second : List ℕ → ℕ → Option ℕ → Result ParseError Round
skip_second block id_at none = ok (done (gave_up id_at))
skip_second block id_at (some next) = do
  end ← skip_prop_string block next
  ok (after_skip block id_at end)

unfoldable pub after_varint : List ℕ → ℕ → Result ParseError (ℕ × ℕ) → Round
unfolding go_on_in
after_varint block id_at (err e) = done (gave_up id_at)
after_varint block id_at (ok (_, consumed)) = go_on_in block id_at (id_at + 1 + consumed)

-- The body of the loop at offset `id_at`, where the property's id stands.
unfoldable pub scan_round : List ℕ → ℕ → Result ParseError Round
scan_round block id_at = do
  id ← byte_at block id_at
  if id == topic_alias
      then (if ltb (length block) (id_at + 1 + 2)
          then ok (done (record { has_alias = true; complete = false; stop = id_at }))
          else ok (done (record { has_alias = true; complete = true; stop = id_at })))
      else if id == payload_format_indicator
      then ok (go_on_in block id_at (id_at + 1 + 1))
      else if id == message_expiry_interval
      then ok (go_on_in block id_at (id_at + 1 + 4))
      else if id == content_type || id == response_topic || id == correlation_data
      then (do next ← skip_prop_string block (id_at + 1); ok (after_skip block id_at next))
      else if id == user_property
      then (do next ← skip_prop_string block (id_at + 1); skip_second block id_at next)
      else if id == subscription_identifier
      then ok (after_varint block id_at (decode_varint (drop (id_at + 1) block)))
      else ok (done (gave_up id_at))

-- A round that goes on is followed by the rest of the loop.
unfoldable pub follow :
    (ℕ → Result ParseError AliasScan) → Result ParseError Round → Result ParseError AliasScan
follow rest (err e) = err e
follow rest (ok (done s)) = ok s
follow rest (ok (go_on j)) = rest j

-- The loop, `for i < len(block)`.
scan_from : ℕ → List ℕ → ℕ → Result ParseError AliasScan
scan_from zero block i = err out_of_fuel
scan_from (suc f) block i = elim (ltb i (length block)) [
  | false ↦ ok (record { has_alias = false; complete = true; stop = i })
  | true ↦ follow (scan_from f block) (scan_round block i)
]

-- A round that goes on moves the offset, so one round for each byte, and one to see the end, is
-- enough.
unfoldable pub scan_alias : List ℕ → Result ParseError AliasScan
unfolding scan_from
scan_alias block = scan_from (suc (length block)) block 0
