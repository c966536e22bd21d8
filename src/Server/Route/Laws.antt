-- ===== src/Server/Route/Laws.antt =====
-- The routes and the deadlines of internal/app/server/proxy.go.
use meshtk.Prelude.{
  ℕ, zero, suc, ◌+◌, ◌-◌, ◌*◌, ◌/◌, ◌^◌, ◌≤◌, ◌<◌, List, [], ◌∷◌, ◌++◌, Bool-cases, inl, inr, some,
  ◌≡◌, ap, arith, length, take, ltb,
}
use meshtk.Server.Route.{
  second, min_proxy_read_timeout, proxy_read_timeout, skip_length, level_of, peek_level,
  peek_connect_protocol_version, route, route_level,
}
use meshtk.Wire.Varint.Laws.{decode-encode, decode_bounds}
use meshtk.Wire.Varint.{encode_varint, encode_varint_from}

-- The deadline of a read is at least one and a half times a keep-alive of 16 bits and at least a
-- minute, and fits the 63 bits of a duration.
proxy_read_timeout-bounds :
    (keepalive_secs : ℕ)
    → keepalive_secs < 2 ^ 16
    → (3 * (keepalive_secs * second) ≤ 2 * proxy_read_timeout keepalive_secs)
      × (min_proxy_read_timeout ≤ proxy_read_timeout keepalive_secs)
      × (proxy_read_timeout keepalive_secs < 2 ^ 63)
unfolding proxy_read_timeout
proxy_read_timeout-bounds k h = ground arith

skip-encode_from :
    (f k v : ℕ) (rest : List ℕ)
    → v < f
    → v < 128 ^ suc k
    → skip_length (suc k) (encode_varint_from f v ++ rest) ≡ rest
unfolding skip_length encode_varint_from
skip-encode_from zero k v rest enough small = absurd (omega arith)
skip-encode_from (suc f) zero v rest enough small = ground arith
skip-encode_from (suc f) (suc k) v rest enough small = elim (Bool-cases (ltb 0 (v / 128))) [
  | inr last ↦ ground arith
  | inl goes_on ↦ ground (arith, skip-encode_from f k (v / 128) rest)
]

take-append-more :
    (xs ys : List ℕ) (n j : ℕ) → n ≡ length xs + j → take n (xs ++ ys) ≡ xs ++ take j ys
take-append-more [] ys n j h = ap (λ i. take i ys) (omega (arith, h))
take-append-more (x ∷ xs) ys zero j h = absurd (omega (arith, h))
take-append-more (x ∷ xs) ys (suc n) j h =
    ap (◌∷◌ x) (take-append-more xs ys n j (omega (arith, h)))

-- The first bytes of a CONNECT at a level: its remaining length, and the name of the protocol.
abbrev pub connect_bytes : ℕ → ℕ → ℕ → List ℕ → List ℕ
connect_bytes flags len level more =
    (16 + flags) ∷ (encode_varint len ++ (0 ∷ 4 ∷ b'M' ∷ b'Q' ∷ b'T' ∷ b'T' ∷ level ∷ more))

peek-connect :
    (flags len level : ℕ) (more : List ℕ)
    → flags < 16
    → len < 268435456
    → peek_level (take 12 (connect_bytes flags len level more)) ≡ some level
unfolding peek_level level_of encode_varint
peek-connect flags len level more nibble small =
    let enc = encode_varint len in
    let body = 0 ∷ 4 ∷ b'M' ∷ b'Q' ∷ b'T' ∷ b'T' ∷ level ∷ more in
    let (_, few, _, _) = decode_bounds (enc ++ []) (decode-encode len [] small) in
    let seen = suc (suc (suc (suc (suc (suc (suc (4 - length enc))))))) in
    ground (
      arith,
      take-append-more enc body 11 seen (omega (arith, few)),
      skip-encode_from (suc len) 3 len (take seen body) (omega arith) (omega arith),
    )

-- A connection whose first twelve bytes are there goes by the level of its CONNECT, however many
-- bytes the remaining length, which is below 2^28, takes.
pub route-connect :
    (flags len level : ℕ) (more : List ℕ)
    → flags < 16
    → len < 268435456
    → 12 ≤ length (connect_bytes flags len level more)
    → route (connect_bytes flags len level more) ≡ route_level (some level)
unfolding route peek_connect_protocol_version
route-connect flags len level more nibble small there =
    ground (arith, peek-connect flags len level more nibble small)
