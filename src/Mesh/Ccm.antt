-- ===== src/Mesh/Ccm.antt =====
-- AES-CCM with a tag of 8 bytes and no associated data, as internal/mqtt/crypto.go writes it out over
-- the block cipher. A byte is a number below 256; a block cipher maps 16 bytes to 16 bytes.
pub mod Laws
use Prim.Native.Nat.{bit_or, bit_xor}
use meshtk.Prelude.{
  ℕ, zero, suc, ◌+◌, ◌/◌, ◌%◌, List, [], ◌∷◌, ◌++◌, Bool, true, false, Option, none, some, ◌==◌,
  if◌then◌else◌, length, take, drop, Result, ok, err,
}

pub data CryptoError : Type 0 where
  no_recipient no_private_key invalid_hex invalid_key_length no_sender_key : CryptoError
  too_short exchange_failed cipher_failed mac_failed random_failed : CryptoError

abbrev pub Block : Type 0
Block = List ℕ → List ℕ

unfoldable pub zeros : ℕ → List ℕ
zeros zero = []
zeros (suc n) = 0 ∷ zeros n

-- `copy` into the n bytes of a fresh slice: what is missing stays 0.
unfoldable pub field : ℕ → List ℕ → List ℕ
unfolding zeros
field n b = take n (b ++ zeros n)

-- `binary.BigEndian.PutUint16(b, uint16(n))`
unfoldable pub put_uint16 : ℕ → List ℕ
put_uint16 n = (n / 256 % 256) ∷ (n % 256) ∷ []

-- The blocks A_i and B_0: a byte of flags, the nonce of 13 bytes, a 16-bit number.
unfoldable pub formatted : ℕ → List ℕ → ℕ → List ℕ
unfolding field put_uint16
formatted flags nonce n = flags ∷ (field 13 nonce ++ put_uint16 n)

unfoldable pub first_byte : List ℕ → ℕ
first_byte [] = 0
first_byte (b ∷ _) = b

-- The first bytes of `s` onto the given ones. A block has 16 bytes and no more are asked of it.
unfoldable pub xor_bytes : List ℕ → List ℕ → List ℕ
xor_bytes [] s = []
xor_bytes (b ∷ bs) s = bit_xor b (first_byte s) ∷ xor_bytes bs (drop 1 s)

-- The blocks of the text, the last one filled up with zeros, chained onto `x`.
unfoldable pub chain : Block → ℕ → List ℕ → List ℕ → List ℕ
chain encrypt zero x text = x
chain encrypt (suc fuel) x [] = x
chain encrypt (suc fuel) x (b ∷ bs) =
    chain encrypt fuel (encrypt (xor_bytes x (field 16 (b ∷ bs)))) (drop 16 (b ∷ bs))

module _ (encrypt : Block) (nonce : List ℕ) where
  -- Counter mode from block `counter` on, on fuel: a round takes a byte at least.
  unfoldable pub counter_mode : ℕ → ℕ → List ℕ → List ℕ
  counter_mode zero counter text = []
  counter_mode (suc fuel) counter [] = []
  counter_mode (suc fuel) counter (b ∷ bs) =
      xor_bytes (take 16 (b ∷ bs)) (encrypt (formatted 1 nonce counter))
      ++ counter_mode fuel (counter + 1) (drop 16 (b ∷ bs))

  unfoldable pub encrypt_ctr : List ℕ → List ℕ
  encrypt_ctr plaintext = counter_mode (length plaintext) 1 plaintext

  unfoldable pub decrypt_ciphertext : List ℕ → List ℕ
  decrypt_ciphertext ciphertext = counter_mode (length ciphertext) 1 ciphertext

  -- The tag of a text whose length is said to be `n`.
  unfoldable pub tag : ℕ → List ℕ → List ℕ
  tag n text = take 8 (chain encrypt (length text) (encrypt (formatted 0x19 nonce n)) text)

  unfoldable pub generate_auth_tag : List ℕ → List ℕ
  generate_auth_tag plaintext = tag (length plaintext) plaintext

  -- The tag under the key stream of counter 0, to either side.
  unfoldable pub encrypt_auth_tag : List ℕ → List ℕ
  encrypt_auth_tag auth_tag = xor_bytes (take 8 auth_tag) (encrypt (formatted 1 nonce 0))

  unfoldable pub decrypt_auth_tag : List ℕ → List ℕ
  decrypt_auth_tag auth_tag = xor_bytes (take 8 auth_tag) (encrypt (formatted 1 nonce 0))

-- `result |= a[i] ^ b[i]`
unfoldable pub differences : ℕ → List ℕ → List ℕ → ℕ
differences result (a ∷ rest) (b ∷ bs) = differences (bit_or result (bit_xor a b)) rest bs
differences result _ _ = result

unfoldable pub constant_time_compare : List ℕ → List ℕ → Bool
unfolding differences
constant_time_compare a b = if length a == length b then differences 0 a b == 0 else false

unfoldable pub verify_authentication : Block → List ℕ → List ℕ → List ℕ → ℕ → Bool
verify_authentication encrypt nonce plaintext expected n =
    constant_time_compare (tag encrypt nonce n (take n plaintext)) expected

unfoldable pub ccm_encrypt : List ℕ → List ℕ → Option Block → Result CryptoError (List ℕ × List ℕ)
ccm_encrypt nonce plaintext none = err cipher_failed
ccm_encrypt nonce plaintext (some encrypt) = ok (
  encrypt_ctr encrypt nonce plaintext,
  encrypt_auth_tag encrypt nonce (generate_auth_tag encrypt nonce plaintext),
)

pub ccm_decrypt : List ℕ → List ℕ → List ℕ → Option Block → Result CryptoError (List ℕ)
ccm_decrypt nonce ciphertext auth_tag none = err cipher_failed
ccm_decrypt nonce ciphertext auth_tag (some encrypt) =
    let expected = decrypt_auth_tag encrypt nonce auth_tag in
    let plaintext = decrypt_ciphertext encrypt nonce ciphertext in
    if verify_authentication encrypt nonce plaintext expected (length ciphertext)
    then ok plaintext
    else err mac_failed

-- `new_cipher` is `aes.NewCipher`, which refuses a key of a wrong length.
module _ (new_cipher : List ℕ → Option Block) where
  -- The ciphertext and its tag.
  unfoldable pub aes_ccm_encrypt : List ℕ → List ℕ → List ℕ → Result CryptoError (List ℕ × List ℕ)
  unfolding ccm_encrypt
  aes_ccm_encrypt key nonce plaintext = ccm_encrypt nonce plaintext (new_cipher key)

  unfoldable pub aes_ccm_ad : List ℕ → List ℕ → List ℕ → List ℕ → Result CryptoError (List ℕ)
  unfolding ccm_decrypt
  aes_ccm_ad key nonce ciphertext auth_tag = ccm_decrypt nonce ciphertext auth_tag (new_cipher key)
