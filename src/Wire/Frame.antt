-- ===== src/Wire/Frame.antt =====
-- `readFrame` of internal/app/server/proxy_v5.go: one control packet off the wire as raw bytes.
pub mod Laws
use meshtk.Prelude.{
  ℕ, zero, suc, ◌+◌, ◌*◌, ◌/◌, ◌%◌, List, [], ◌∷◌, ◌++◌, length, take, drop, ltb, leb,
  if◌then◌else◌, Result, ok, err, ◌>>=◌, ◌>>◌, require,
}
use meshtk.Wire.Publish.{max_packet_bytes}

-- What a read reports when the bytes are used up: the peer closed, or did so inside a body; the
-- deadline passed; any other error of the socket.
pub data ReadFault : Type 0 where
  eof unexpected_eof deadline_exceeded reset : ReadFault

pub data FrameError : Type 0 where
  malformed_length frame_too_large : FrameError
  fault : ReadFault → FrameError

-- The captured bytes, the packet type of the first of them, and the bytes still to be read.
pub record Frame : Type 0 where
  pub raw : List ℕ
  pub pkt_type : ℕ
  pub rest : List ℕ

-- The loop over the remaining length. The first argument counts the rounds left of the four,
-- `weight` is `1 << mult`, and the result is the value, the frame so far and the bytes behind it.
unfoldable pub read_length :
    ReadFault → ℕ → ℕ → ℕ → List ℕ → List ℕ → Result FrameError (ℕ × List ℕ × List ℕ)
read_length ends zero weight value frame input = err malformed_length
read_length ends (suc k) weight value frame [] = err (fault ends)
read_length ends (suc k) weight value frame (d ∷ input) =
    let value' = value + d % 128 * weight in
    let frame' = frame ++ d ∷ [] in
    let rest = read_length ends k (weight * 128) value' frame' input in
    if ltb d 128 then ok (value', frame', input) else rest

-- `io.ReadFull`: an end of the input counts as unexpected once a byte of the body was read.
abbrev pub short_body : ReadFault → List ℕ → ReadFault
short_body eof (_ ∷ _) = unexpected_eof
short_body ends _ = ends

-- `input` is what the peer still sends, and `ends` how the reads end behind it.
unfoldable pub read_frame : ReadFault → List ℕ → Result FrameError Frame
read_frame ends [] = err (fault ends)
read_frame ends (b0 ∷ input) = do
  (rem_len, frame, rest) ← read_length ends 4 1 0 (b0 ∷ []) input
  require (leb rem_len max_packet_bytes) frame_too_large
  require (leb rem_len (length rest)) (fault (short_body ends rest))
  ok (record { raw = frame ++ take rem_len rest; pkt_type = b0 / 16; rest = drop rem_len rest })
