-- ===== src/Examples/Libraries.antt =====
-- Small concrete libraries, at which the laws asked of the real ones hold: a message is written
-- field by field with length prefixes, and the cipher is keyed reversal.
use meshtk.Prelude.{
  ℕ, List, [], ◌∷◌, ◌++◌, Bool, true, false, Bool-cases, inl, inr, ◌&&◌, Option, none, some, ◌≡◌,
  refl, subst, ap, sym, ◌∙◌, arith, length, take, drop, leb, ◌==◌, if◌then◌else◌, str_eq, eq_iff,
  zero, suc, take-append, drop-append, length-append,
}
use mathlib.Core.List.{reverse, reverse-reverse}
use mathlib.Core.Option.{some-injective}
use meshtk.Server.Libs.{
  MeshData, Variant, decoded, encrypted, empty, MeshPacket, ServiceEnvelope, Libs, LibsLaws,
}

abbrev flag : Bool → ℕ
flag true = 1
flag false = 0

abbrev mark : Option ℕ → ℕ
mark none = 0
mark (some n) = suc n

abbrev unmark : ℕ → Option ℕ
unmark zero = none
unmark (suc n) = some n

unmark-mark : (o : Option ℕ) → unmark (mark o) ≡ o
unmark-mark none = refl
unmark-mark (some n) = refl

abbrev write_data : MeshData → List ℕ
write_data d =
    d.portnum ∷ d.request_id ∷ mark (d.bitfield) ∷ length (d.payload) ∷ (d.payload ++ d.others)

unfoldable pub read_data : List ℕ → Option MeshData
read_data (p ∷ r ∷ m ∷ n ∷ rest) =
    if leb n (length rest)
    then some (record {
      portnum = p;
      payload = take n rest;
      request_id = r;
      bitfield = unmark m;
      others = drop n rest;
    })
    else none
read_data _ = none

abbrev write_variant : Variant → List ℕ
write_variant (decoded d) = 1 ∷ write_data d
write_variant (encrypted b) = 0 ∷ b
write_variant empty = []

unfoldable pub read_variant : List ℕ → Option Variant
unfolding read_data
read_variant [] = some empty
read_variant (zero ∷ b) = some (encrypted b)
read_variant (suc _ ∷ b) = elim (read_data b) [ none ↦ none | some d ↦ some (decoded d) ]

read_data-write_data : (d : MeshData) → read_data (write_data d) ≡ some d
unfolding read_data
read_data-write_data d = ground (
  arith,
  unmark-mark (d.bitfield),
  length-append (d.payload) (d.others),
  take-append (d.payload) (d.others) (length (d.payload)) refl,
  drop-append (d.payload) (d.others) (length (d.payload)) refl,
)

read_variant-write_variant : (v : Variant) → read_variant (write_variant v) ≡ some v
unfolding read_variant
read_variant-write_variant (decoded d) = rw (read_data-write_data d, read_variant) refl
read_variant-write_variant (encrypted b) = refl
read_variant-write_variant empty = refl

abbrev write_packet : MeshPacket → List ℕ
write_packet p =
    p.from
    ∷ p.to
    ∷ p.id
    ∷ p.hop_limit
    ∷ p.hop_start
    ∷ flag (p.pki_encrypted)
    ∷ flag (p.want_ack)
    ∷ flag (p.via_mqtt)
    ∷ p.channel
    ∷ p.priority
    ∷ p.rx_time
    ∷ p.rx_rssi
    ∷ p.rx_snr
    ∷ length (p.public_key)
    ∷ length (p.others)
    ∷ (p.public_key ++ (p.others ++ write_variant (p.variant)))

unfoldable pub read_packet : List ℕ → Option (Option MeshPacket)
unfolding read_variant
read_packet [] = some none
read_packet
      (from ∷ to ∷ id ∷ limit ∷ start ∷ pki ∷ ack ∷ via ∷ channel ∷ priority ∷ time ∷ rssi ∷ snr ∷ k
        ∷ n ∷ rest) =
    elim (read_variant (drop n (drop k rest))) [
      | none ↦ none
      | some v ↦ some (
          some (record {
            from = from;
            to = to;
            id = id;
            hop_limit = limit;
            hop_start = start;
            pki_encrypted = pki == 1;
            public_key = take k rest;
            want_ack = ack == 1;
            via_mqtt = via == 1;
            channel = channel;
            priority = priority;
            rx_time = time;
            rx_rssi = rssi;
            rx_snr = snr;
            variant = v;
            others = take n (drop k rest);
          }))
    ]
read_packet _ = none

flag_is_one : (b : Bool) → (flag b == 1) ≡ b
flag_is_one true = refl
flag_is_one false = refl

read_packet-write_packet : (p : MeshPacket) → read_packet (write_packet p) ≡ some (some p)
unfolding read_packet
read_packet-write_packet p =
    let rest = p.others ++ write_variant (p.variant) in
    rw
      (
        drop-append (p.public_key) rest (length (p.public_key)) refl,
        drop-append (p.others) (write_variant (p.variant)) (length (p.others)) refl,
        read_variant-write_variant (p.variant),
        flag_is_one (p.pki_encrypted),
        flag_is_one (p.want_ack),
        flag_is_one (p.via_mqtt),
        take-append (p.public_key) rest (length (p.public_key)) refl,
        drop-append (p.public_key) rest (length (p.public_key)) refl,
        take-append (p.others) (write_variant (p.variant)) (length (p.others)) refl,
        read_packet,
      )
      refl

-- Only envelopes of one channel and one gateway can be written.
abbrev write_optional : Option MeshPacket → List ℕ
write_optional none = []
write_optional (some p) = write_packet p

abbrev write_envelope : ServiceEnvelope → Option (List ℕ)
write_envelope e =
    if str_eq (e.channel_id) "LongFast" && str_eq (e.gateway_id) "!67ea9400"
    then some (write_optional (e.packet))
    else none

abbrev read_envelope : List ℕ → Option ServiceEnvelope
read_envelope b = elim (read_packet b) [
  | none ↦ none
  | some p ↦ some (record { packet = p; channel_id = "LongFast"; gateway_id = "!67ea9400" })
]

read_packet-write : (o : Option MeshPacket) → read_packet (write_optional o) ≡ some o
unfolding read_packet
read_packet-write none = refl
read_packet-write (some p) = read_packet-write_packet p

read_back :
    (e : ServiceEnvelope)
    → e.channel_id ≡ "LongFast"
    → e.gateway_id ≡ "!67ea9400"
    → read_envelope (write_optional (e.packet)) ≡ some e
read_back e c g =
    rw (read_packet-write (e.packet), read_envelope)
      (ap (λ x. some (record { packet = e.packet; channel_id = x; gateway_id = "!67ea9400" }))
          (sym c)
        ∙ ap (λ y. some (record e { gateway_id = y })) (sym g))

read_envelope-write_envelope :
    (e : ServiceEnvelope) (b : List ℕ) → write_envelope e ≡ some b → read_envelope b ≡ some e
read_envelope-write_envelope e b h = elim (Bool-cases (str_eq (e.channel_id) "LongFast")) [
  | inr other ↦ ground arith
  | inl c ↦ elim (Bool-cases (str_eq (e.gateway_id) "!67ea9400")) [
    | inr other ↦ ground arith
    | inl g ↦
        subst (λ o. read_envelope o ≡ some e) ground arith
          (read_back e ((eq_iff (e.channel_id) "LongFast").0 c)
            ((eq_iff (e.gateway_id) "!67ea9400").0 g))
  ]
]

abbrev same_text : List ℕ → List ℕ → Bool
same_text [] [] = true
same_text (x ∷ xs) (y ∷ ys) = x == y && same_text xs ys
same_text _ _ = false

abbrev keyed : Bool → ℕ → ℕ → List ℕ → List ℕ
keyed true _ _ b = reverse b
keyed false _ _ b = b

keyed-keyed : (c : Bool) (id from : ℕ) (b : List ℕ) → keyed c id from (keyed c id from b) ≡ b
keyed-keyed true id from b = reverse-reverse b
keyed-keyed false id from b = refl

abbrev pub libs : Libs
libs = record {
  Cipher = Bool;
  marshal_envelope = write_envelope;
  unmarshal_envelope = read_envelope;
  marshal_data = λ d. some (write_data d);
  unmarshal_data = read_data;
  parses = λ _ _. true;
  key_stream = keyed;
  replace_all = λ s old new. if same_text s old then new else s;
}

pub libs-LibsLaws : LibsLaws libs
libs-LibsLaws = record {
  unmarshal-marshal_envelope = read_envelope-write_envelope;
  unmarshal-marshal_data =
      λ d b h. subst (λ o. read_data o ≡ some d) (some-injective _ _ h) (read_data-write_data d);
  key_stream-key_stream = keyed-keyed;
}
