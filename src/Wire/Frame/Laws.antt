-- ===== src/Wire/Frame/Laws.antt =====
-- What `readFrame` of internal/app/server/proxy_v5.go takes off the wire.
use meshtk.Prelude.{
  ℕ, zero, suc, ◌+◌, ◌*◌, ◌/◌, ◌%◌, ◌≤◌, ◌<◌, List, [], ◌∷◌, ◌++◌, append_assoc, ◌≡◌, refl, sym,
  subst, ap, ◌∙◌, arith, length, take, drop, ltb, leb, true, false, Bool-cases, inl, inr,
  Result-cases, ok, length-append, take-append, drop-append, take-append-drop, length-take, leb→le,
}
use meshtk.Wire.Frame.{ReadFault, Frame, read_length, read_frame}
use meshtk.Wire.Publish.{max_packet_bytes, framed_at}
use meshtk.Wire.Varint.{decode_varint, decode_varint_from, encode_varint}
use meshtk.Wire.Varint.Laws.{decode-encode}

-- The bytes that the length took, and that they alone decide it.
record Took (k w v : ℕ) (frame input : List ℕ) (x : ℕ) (f r : List ℕ) : Type 0 where
  taken : List ℕ
  framed : f ≡ frame ++ taken
  split : input ≡ taken ++ r
  again :
      (ends : ReadFault) (frame' zs : List ℕ)
      → read_length ends k w v frame' (taken ++ zs) ≡ ok (x, frame' ++ taken, zs)
  decoded :
      (i : ℕ) (zs : List ℕ) → decode_varint_from k (taken ++ zs) w v i ≡ ok (x, i + length taken)

module _ (k w v : ℕ) (frame : List ℕ) (d : ℕ) where
  Took-last :
      (input : List ℕ) {x : ℕ} {f r : List ℕ}
      → ltb d 128 ≡ true
      → v + d % 128 * w ≡ x
      → frame ++ d ∷ [] ≡ f
      → input ≡ r
      → Took (suc k) w v frame (d ∷ input) x f r
  unfolding read_length decode_varint_from
  Took-last input low value whole rest = record {
    taken = d ∷ [];
    framed = sym whole;
    split = ap (◌∷◌ d) rest;
    again = λ ends frame' zs. ground arith;
    decoded = λ i zs. ground arith;
  }

  Took-more :
      (input : List ℕ) {x : ℕ} {f r : List ℕ}
      → ltb d 128 ≡ false
      → Took k (w * 128) (v + d % 128 * w) (frame ++ d ∷ []) input x f r
      → Took (suc k) w v frame (d ∷ input) x f r
  unfolding read_length decode_varint_from
  Took-more input high t = record {
    taken = d ∷ t.taken;
    framed = t.framed ∙ append_assoc frame (d ∷ []) t.taken;
    split = ap (◌∷◌ d) t.split;
    again = λ ends frame' zs.
        ground (arith, t.again ends (frame' ++ d ∷ []) zs, append_assoc frame' (d ∷ []) t.taken);
    decoded = λ i zs. ground (arith, t.decoded (i + 1) zs);
  }

read_length-Took :
    (ends : ReadFault) (k w v : ℕ) (frame input : List ℕ) {x : ℕ} {f r : List ℕ}
    → read_length ends k w v frame input ≡ ok (x, f, r)
    → Took k w v frame input x f r
unfolding read_length
read_length-Took ends zero w v frame input h = cc
read_length-Took ends (suc k) w v frame [] h = cc
read_length-Took ends (suc k) w v frame (d ∷ input) {x} {f} {r} h = elim (Bool-cases (ltb d 128)) [
  | inl low ↦ Took-last k w v frame d input low (ground arith) (ground arith) (ground arith)
  | inr high ↦
      Took-more k w v frame d input high (read_length-Took ends k _ _ _ input (rw high at h))
]

-- A frame as it was cut off the input.
record Captured (input : List ℕ) (f : Frame) : Type 0 where
  b0 : ℕ
  taken : List ℕ
  body : List ℕ
  whole : f.raw ≡ b0 ∷ (taken ++ body)
  typed : f.pkt_type ≡ b0 / 16
  split : input ≡ f.raw ++ f.rest
  small : length body ≤ max_packet_bytes
  again :
      (ends : ReadFault) (frame zs : List ℕ)
      → read_length ends 4 1 0 frame (taken ++ zs) ≡ ok (length body, frame ++ taken, zs)
  decoded : (zs : List ℕ) → decode_varint (taken ++ zs) ≡ ok (length body, length taken)

abbrev cut_off : ℕ → ℕ → List ℕ → List ℕ → Frame
cut_off b0 x frame rest = record {
  raw = frame ++ take x rest;
  pkt_type = b0 / 16;
  rest = drop x rest;
}

cut_off-Captured :
    (b0 x : ℕ) (input frame rest : List ℕ)
    → Took 4 1 0 (b0 ∷ []) input x frame rest
    → leb x max_packet_bytes ≡ true
    → leb x (length rest) ≡ true
    → Captured (b0 ∷ input) (cut_off b0 x frame rest)
unfolding decode_varint
cut_off-Captured b0 x input frame rest t capped there = record {
  b0 = b0;
  taken = t.taken;
  body = take x rest;
  whole = ap (λ f. f ++ take x rest) t.framed;
  typed = refl;
  split = split_again;
  small = omega (arith, leb→le x max_packet_bytes capped, has_length);
  again = λ ends frame' zs. rw has_length (t.again ends frame' zs);
  decoded = λ zs. ground (arith, has_length, t.decoded 0 zs);
}
  where
    split_again : b0 ∷ input ≡ (frame ++ take x rest) ++ drop x rest
    split_again =
        rw
          (
            append_assoc frame (take x rest) (drop x rest),
            take-append-drop x rest,
            t.framed,
            t.split,
          )
          refl

    has_length : length (take x rest) ≡ x
    has_length = length-take x rest (leb→le x (length rest) there)

read_frame-Captured :
    (ends : ReadFault) (input : List ℕ) {f : Frame}
    → read_frame ends input ≡ ok f
    → Captured input f
unfolding read_frame
read_frame-Captured ends [] h = cc
read_frame-Captured ends (b0 ∷ input) {f} h =
    elim (Result-cases (read_length ends 4 1 0 (b0 ∷ []) input)) [
      | inr (e, failed) ↦ absurd (ground arith)
      | inl ((x, frame, rest), through) ↦ elim (Bool-cases (leb x max_packet_bytes)) [
        | inr large ↦ absurd (ground arith)
        | inl capped ↦ elim (Bool-cases (leb x (length rest))) [
          | inr short ↦ absurd (ground arith)
          | inl there ↦ subst (Captured (b0 ∷ input)) (ground arith) (
              cut_off-Captured b0 x input frame rest
                (read_length-Took ends 4 1 0 (b0 ∷ []) input through) capped there)
        ]
      ]
    ]

-- A frame that was read is followed by what is still to be read, and nothing of the input is lost
-- or added. It passes the length checks of the frame parsers, and the same bytes with anything
-- behind them, however the input ends, are read as that frame again.
pub read_frame-lem :
    (ends : ReadFault) (input : List ℕ) (f : Frame)
    → read_frame ends input ≡ ok f
    → (f.raw ++ f.rest ≡ input)
      × ((at : ℕ) × (framed_at f.raw ≡ ok at))
      × ((ends' : ReadFault) (more : List ℕ)
          → read_frame ends' (f.raw ++ more) ≡ ok (record f { rest = more }))
unfolding read_frame framed_at
read_frame-lem ends input f h =
    let c = read_frame-Captured ends input h in
    (
      sym c.split,
      (
        1 + length c.taken,
        ground (arith, c.decoded c.body, c.whole, length-append c.taken c.body, c.small),
      ),
      λ ends' more. ground (
        arith,
        c.again ends' (c.b0 ∷ []) (c.body ++ more),
        append_assoc c.taken c.body more,
        c.whole,
        c.typed,
        take-append c.body more (length c.body) refl,
        drop-append c.body more (length c.body) refl,
        c.small,
        length-append c.body more,
      ),
    )

read_length-decode :
    (ends : ReadFault) (k w v i : ℕ) (frame input : List ℕ) {x n : ℕ}
    → decode_varint_from k input w v i ≡ ok (x, n)
    → (taken : List ℕ) × (r : List ℕ) × (input ≡ taken ++ r)
      × (n ≡ i + length taken)
      × (read_length ends k w v frame input ≡ ok (x, frame ++ taken, r))
unfolding read_length decode_varint_from
read_length-decode ends zero w v i frame input h = cc
read_length-decode ends (suc k) w v i frame [] h = cc
read_length-decode ends (suc k) w v i frame (d ∷ input) h = elim (Bool-cases (ltb d 128)) [
  | inl low ↦ (d ∷ [], input, refl, ground arith, ground arith)
  | inr high ↦
      let (taken, r, split, n_is, through) =
        read_length-decode ends k (w * 128) (v + d % 128 * w) (i + 1) (frame ++ d ∷ []) input
          (rw high at h) in
      (
        d ∷ taken,
        r,
        ap (◌∷◌ d) split,
        omega (arith, n_is),
        ground (arith, through, append_assoc frame (d ∷ []) taken),
      )
]

-- Every frame of at most 256 KiB is read back as it was written, with its type, and what follows it
-- is left to be read.
read_frame-encode :
    (ends : ReadFault) (b0 : ℕ) (body more : List ℕ)
    → length body ≤ max_packet_bytes
    → read_frame ends (b0 ∷ (encode_varint (length body) ++ (body ++ more)))
      ≡ ok (record {
        raw = b0 ∷ (encode_varint (length body) ++ body);
        pkt_type = b0 / 16;
        rest = more;
      })
unfolding read_frame decode_varint
read_frame-encode ends b0 body more h =
    let (taken, r, split, n_is, through) =
      read_length-decode ends 4 1 0 0 (b0 ∷ []) (encode_varint (length body) ++ (body ++ more))
        (decode-encode (length body) (body ++ more) (omega arith)) in
    let enc = encode_varint (length body) in
    let same =
      sym (take-append taken r (length enc) (omega (arith, n_is)))
      ∙ sym (ap (take (length enc)) split)
      ∙ take-append enc (body ++ more) (length enc) refl in
    let left =
      sym (drop-append taken r (length enc) (omega (arith, n_is)))
      ∙ sym (ap (drop (length enc)) split)
      ∙ drop-append enc (body ++ more) (length enc) refl in
    ground (
      arith,
      through,
      same,
      left,
      length-append body more,
      take-append body more (length body) refl,
      drop-append body more (length body) refl,
    )

-- A frame takes at least one byte of the input.
pub read_frame-shorter :
    (ends : ReadFault) (input : List ℕ) (f : Frame)
    → read_frame ends input ≡ ok f
    → length f.rest < length input
read_frame-shorter ends input f h =
    let c = read_frame-Captured ends input h in
    omega (arith, ap length c.split, ap length c.whole, length-append f.raw f.rest)
