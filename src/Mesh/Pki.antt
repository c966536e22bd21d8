-- ===== src/Mesh/Pki.antt =====
-- Direct messages under a shared secret: `encryptCurve25519`, `decryptCurve25519` and `initNonce` of
-- internal/mqtt/crypto.go.
pub mod Laws
use meshtk.Prelude.{
  ℕ, ◌+◌, ◌-◌, ◌*◌, ◌/◌, ◌%◌, ◌^◌, List, [], ◌∷◌, ◌++◌, Bool, Option, none, some, ◌≡◌, ltb,
  if◌then◌else◌, length, take, drop, Result, ok, err,
}
use meshtk.Mesh.Ccm.{
  CryptoError, too_short, exchange_failed, random_failed, Block, zeros, field, aes_ccm_encrypt,
  aes_ccm_ad,
}

-- What is called of the libraries: X25519, its base point, SHA-256 and `aes.NewCipher`.
pub record CryptoLibs : Type 0 where
  pub x25519 : List ℕ → List ℕ → Option (List ℕ)
  pub scalar_base_mult : List ℕ → List ℕ
  pub sha256 : List ℕ → List ℕ
  pub new_cipher : List ℕ → Option Block

-- What their documentation says: both sides of the exchange come to one secret, and the blocks of the
-- cipher have 16 bytes.
pub record CryptoLaws (c : CryptoLibs) : Type 0 where
  pub x25519_comm :
      (a b : List ℕ) → c.x25519 a (c.scalar_base_mult b) ≡ c.x25519 b (c.scalar_base_mult a)
  pub new_cipher-length :
      (key : List ℕ) (encrypt : Block) (b : List ℕ)
      → c.new_cipher key ≡ some encrypt
      → length (encrypt b) ≡ 16

-- `binary.LittleEndian`
unfoldable pub put_uint32 : ℕ → List ℕ
put_uint32 n = (n % 256) ∷ (n / 256 % 256) ∷ (n / 65536 % 256) ∷ (n / 16777216 % 256) ∷ []

unfoldable pub put_uint64 : ℕ → List ℕ
unfolding put_uint32
put_uint64 n = put_uint32 n ++ put_uint32 (n / 2 ^ 32)

unfoldable pub uint32 : List ℕ → ℕ
uint32 (b0 ∷ b1 ∷ b2 ∷ b3 ∷ _) = b0 + b1 * 256 + b2 * 65536 + b3 * 16777216
uint32 _ = 0

-- Bytes written into a slice at an offset.
unfoldable pub put_at : ℕ → List ℕ → List ℕ → List ℕ
put_at i bytes b = take i b ++ (bytes ++ drop (i + length bytes) b)

-- The writes in their order: the extra nonce comes over the high half of the packet id.
unfoldable pub init_nonce : ℕ → ℕ → ℕ → List ℕ
unfolding put_uint32 put_uint64 put_at zeros
init_nonce from packet_id extra_nonce = take 13 (
    put_at 4 (put_uint32 extra_nonce)
      (put_at 8 (put_uint32 from) (put_at 0 (put_uint64 packet_id) (zeros 16))))

module _ (c : CryptoLibs) where
  open c use {x25519, sha256, new_cipher}

  pub packed : ℕ → Result CryptoError (List ℕ × List ℕ) → Result CryptoError (List ℕ)
  packed extra_nonce (err e) = err e
  packed extra_nonce (ok (ciphertext, auth_tag)) =
      ok (ciphertext ++ (field 8 auth_tag ++ put_uint32 extra_nonce))

  pub encrypt_shared : Option (List ℕ) → Option ℕ → List ℕ → ℕ → ℕ → Result CryptoError (List ℕ)
  unfolding packed
  encrypt_shared none _ plaintext packet_id from = err exchange_failed
  encrypt_shared (some secret) none plaintext packet_id from = err random_failed
  encrypt_shared (some secret) (some extra_nonce) plaintext packet_id from =
      packed extra_nonce (
        aes_ccm_encrypt new_cipher (sha256 secret) (init_nonce from packet_id extra_nonce)
          plaintext)

  -- The fourth argument is the number that `rand.Read` drew, or its failure.
  unfoldable pub encrypt_curve25519 :
      List ℕ → List ℕ → List ℕ → Option ℕ → ℕ → ℕ → Result CryptoError (List ℕ)
  unfolding encrypt_shared
  encrypt_curve25519 private_key public_key plaintext random packet_id from =
      encrypt_shared (x25519 private_key public_key) random plaintext packet_id from

  pub decrypt_shared : Option (List ℕ) → List ℕ → ℕ → ℕ → Result CryptoError (List ℕ)
  decrypt_shared none b packet_id from = err exchange_failed
  decrypt_shared (some secret) b packet_id from =
      let start = length b - 12 in
      aes_ccm_ad new_cipher (sha256 secret)
        (init_nonce from packet_id (uint32 (drop (start + 8) b))) (take start b)
        (take 8 (drop start b))

  unfoldable pub decrypt_curve25519 : List ℕ → List ℕ → List ℕ → ℕ → ℕ → Result CryptoError (List ℕ)
  unfolding decrypt_shared
  decrypt_curve25519 private_key public_key b packet_id from =
      if ltb (length b) 12
      then err too_short
      else decrypt_shared (x25519 private_key public_key) b packet_id from
