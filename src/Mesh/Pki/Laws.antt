-- ===== src/Mesh/Pki/Laws.antt =====
-- What one side of internal/mqtt/crypto.go encrypts, the other side decrypts.
use meshtk.Prelude.{
  ℕ, zero, suc, ◌+◌, ◌-◌, ◌^◌, ◌≤◌, ◌<◌, List, [], ◌∷◌, ◌++◌, Option-cases, some, ◌≡◌, refl, ap,
  ◌∙◌, sym, arith, inl, inr, length, take, drop, le→ltb, length-append, length-take, take-append,
  drop-append, drop-drop, ok, Result-cases,
}
use meshtk.Mesh.Ccm.{
  Block, zeros, field, formatted, chain, tag, generate_auth_tag, encrypt_auth_tag, ccm_encrypt,
  aes_ccm_encrypt,
}
use meshtk.Mesh.Ccm.Laws.{aes_ccm_ad-accepts, length-xor_bytes}
use meshtk.Mesh.Pki.{
  CryptoLibs, CryptoLaws, put_uint32, uint32, init_nonce, packed, encrypt_shared, decrypt_shared,
  encrypt_curve25519, decrypt_curve25519,
}

uint32-put_uint32 : (n : ℕ) → n < 2 ^ 32 → uint32 (put_uint32 n) ≡ n
unfolding uint32 put_uint32
uint32-put_uint32 n h = omega arith

length-put_uint32 : (n : ℕ) → length (put_uint32 n) ≡ 4
unfolding put_uint32
length-put_uint32 n = refl

module _ (encrypt : Block) (blocks : (b : List ℕ) → length (encrypt b) ≡ 16) where
  length-chain :
      (fuel : ℕ) (x text : List ℕ) → length x ≡ 16 → length (chain encrypt fuel x text) ≡ 16
  unfolding chain
  length-chain zero x text h = h
  length-chain (suc fuel) x [] h = h
  length-chain (suc fuel) x (b ∷ bs) h = length-chain fuel _ (drop 16 (b ∷ bs)) (blocks _)

  -- The tag has 8 bytes.
  length-encrypt_auth_tag :
      (nonce text : List ℕ)
      → length (encrypt_auth_tag encrypt nonce (generate_auth_tag encrypt nonce text)) ≡ 8
  unfolding encrypt_auth_tag generate_auth_tag tag
  length-encrypt_auth_tag nonce text =
      let x = chain encrypt (length text) (encrypt (formatted 0x19 nonce (length text))) text in
      let n =
        length-chain (length text) (encrypt (formatted 0x19 nonce (length text))) text (blocks _) in
      omega (
        arith,
        n,
        length-xor_bytes (take 8 (take 8 x)) (encrypt (formatted 1 nonce 0)),
        length-take 8 (take 8 x) (omega (arith, length-take 8 x (omega arith))),
      )

field_whole : (b : List ℕ) → length b ≡ 8 → field 8 b ≡ b
unfolding field
field_whole b h = take-append b (zeros 8) 8 (sym h)

-- The three parts of an encrypted message are found again.
parts :
    (ciphertext auth_tag nonce : List ℕ)
    → length auth_tag ≡ 8
    → length nonce ≡ 4
    → let b = ciphertext ++ (auth_tag ++ nonce) in
      let start = length b - 12 in
      (length b ≡ length ciphertext + 12)
      × (take start b ≡ ciphertext)
      × (take 8 (drop start b) ≡ auth_tag)
      × (drop (start + 8) b ≡ nonce)
parts ciphertext auth_tag nonce eight four =
    let b = ciphertext ++ (auth_tag ++ nonce) in
    let n : length b ≡ length ciphertext + 12 =
      omega (arith, length-append ciphertext (auth_tag ++ nonce), length-append auth_tag nonce) in
    let start : length b - 12 ≡ length ciphertext = omega arith in
    let behind = drop-append ciphertext (auth_tag ++ nonce) (length b - 12) start in
    (
      n,
      take-append ciphertext (auth_tag ++ nonce) (length b - 12) start,
      rw behind (take-append auth_tag nonce 8 (sym eight)),
      sym (drop-drop 8 (length b - 12) (length b - 12 + 8) b refl)
          ∙ rw behind (drop-append auth_tag nonce 8 (sym eight)),
    )

module _ (c : CryptoLibs) (laws : CryptoLaws c) where
  open c use {x25519, scalar_base_mult, sha256, new_cipher}

  auth_tag-length :
      (key nonce plaintext ciphertext auth_tag : List ℕ)
      → aes_ccm_encrypt new_cipher key nonce plaintext ≡ ok (ciphertext, auth_tag)
      → length auth_tag ≡ 8
  unfolding aes_ccm_encrypt ccm_encrypt
  auth_tag-length key nonce plaintext ciphertext auth_tag h = elim (Option-cases (new_cipher key)) [
    | inl e ↦ ground arith
    | inr (encrypt, e) ↦
        let blocks = λ (b : List ℕ). laws.new_cipher-length key encrypt b e in
        let g : encrypt_auth_tag encrypt nonce (generate_auth_tag encrypt nonce plaintext)
            ≡ auth_tag =
          ground arith in
        sym (ap length g) ∙ length-encrypt_auth_tag encrypt blocks nonce plaintext
  ]

  shared_lem :
      (secret plaintext : List ℕ) (extra_nonce packet_id from : ℕ) (message : List ℕ)
      → extra_nonce < 2 ^ 32
      → encrypt_shared c (some secret) (some extra_nonce) plaintext packet_id from ≡ ok message
      → (12 ≤ length message)
        × (decrypt_shared c (some secret) message packet_id from ≡ ok plaintext)
  unfolding encrypt_shared decrypt_shared packed
  shared_lem secret plaintext extra_nonce packet_id from message small h =
      let key = sha256 secret in
      let nonce = init_nonce from packet_id extra_nonce in
      elim (Result-cases (aes_ccm_encrypt new_cipher key nonce plaintext)) [
        | inr (problem, e) ↦ ground arith
        | inl ((ciphertext, auth_tag), e) ↦
            let eight = auth_tag-length key nonce plaintext ciphertext auth_tag e in
            let m : ciphertext ++ (auth_tag ++ put_uint32 extra_nonce) ≡ message =
              rw (← field_whole auth_tag eight) (ground arith) in
            let (n, first, second, third) =
              parts ciphertext auth_tag (put_uint32 extra_nonce) eight
                (length-put_uint32 extra_nonce) in
            rw (← m) (
              omega arith,
              rw (first, second, third, uint32-put_uint32 extra_nonce small)
                  ((aes_ccm_ad-accepts new_cipher key nonce ciphertext auth_tag plaintext eight).1
                    e),
            )
      ]

  -- A message that one side encrypted for the public key of the other, with an extra nonce below 2^32,
  -- is decrypted by the other side, from the public key of the first, to what was encrypted.
  pub decrypt_curve25519-encrypt_curve25519 :
      (a b plaintext : List ℕ) (extra_nonce packet_id from : ℕ) (message : List ℕ)
      → extra_nonce < 2 ^ 32
      → encrypt_curve25519 c a (scalar_base_mult b) plaintext (some extra_nonce) packet_id from
        ≡ ok message
      → decrypt_curve25519 c b (scalar_base_mult a) message packet_id from ≡ ok plaintext
  unfolding encrypt_curve25519 decrypt_curve25519
  decrypt_curve25519-encrypt_curve25519 a b plaintext extra_nonce packet_id from message small h =
      elim (Option-cases (x25519 a (scalar_base_mult b))) [
        | inl e ↦ ground arith
        | inr (secret, e) ↦
            let (long, back) =
              shared_lem secret plaintext extra_nonce packet_id from message small (rw e at h) in
            rw (laws.x25519_comm b a, e, le→ltb (length message) 12 long) back
      ]
