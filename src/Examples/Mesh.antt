-- ===== src/Examples/Mesh.antt =====
-- Two clients of the mesh: one sends to the channel and directly, the other hears it.
use meshtk.Prelude.{
  ℕ, ◌+◌, List, [], ◌∷◌, ◌++◌, true, false, none, some, ◌≡◌, refl, arith, ◌==◌, if◌then◌else◌,
  Result, ok,
}
use meshtk.Examples.Libraries.{libs, libs-LibsLaws}
use meshtk.Mesh.Ccm.{
  Block, aes_ccm_encrypt, aes_ccm_ad, encrypt_ctr, counter_mode, xor_bytes, first_byte, field,
  formatted, encrypt_auth_tag, generate_auth_tag, tag, chain,
}
use meshtk.Mesh.Ccm.Laws.{aes_ccm_ad-accepts}
use meshtk.Mesh.Client.{UserLib, message, KeySources, Client, packet_in, dispatcher}
use meshtk.Mesh.Client.Laws.{All, Justified, dispatcher-Justified}
use meshtk.Mesh.Delivery.{dispatcher-encrypted_message, dispatcher-build_pki_message}
use meshtk.Mesh.Keys.{hex_key, parse_hex_key, resolve_sender_pub_key}
use meshtk.Mesh.Keys.Laws.{parse_hex_key-hex_key}
use meshtk.Mesh.Pki.{CryptoLibs, CryptoLaws, encrypt_curve25519, init_nonce}
use meshtk.Mesh.Publish.{
  PublishError, Publisher, build_pki_message, encrypted_message, Attempt, completed, timed_out,
  send,
}
use meshtk.Mesh.Publish.Laws.{Tried, send-Tried}
use meshtk.Server.Libs.{MeshPacket}

abbrev sum : List ℕ → ℕ
sum [] = 0
sum (b ∷ bs) = b + sum bs

-- A block cipher that writes a checksum of the key and the block, and an exchange that adds.
abbrev toy_cipher : List ℕ → Block
toy_cipher key b =
    (sum key + sum b) ∷ 1 ∷ 2 ∷ 3 ∷ 4 ∷ 5 ∷ 6 ∷ 7 ∷ 8 ∷ 9 ∷ 10 ∷ 11 ∷ 12 ∷ 13 ∷ 14 ∷ 15 ∷ []

abbrev crypto : CryptoLibs
crypto = record {
  x25519 = λ a b. some ((sum a + sum b) ∷ []);
  scalar_base_mult = λ a. a;
  sha256 = λ b. b;
  new_cipher = λ key. some (toy_cipher key);
}

crypto-CryptoLaws : CryptoLaws crypto
crypto-CryptoLaws = record {
  x25519_comm = λ a b. ground arith;
  new_cipher-length = λ key encrypt b h. ground arith;
}

abbrev users : UserLib
users = record { marshal_user = λ x. none; unmarshal_user = λ b. none }

abbrev repeated : ℕ → List ℕ
repeated b =
    b ∷ b ∷ b ∷ b ∷ b ∷ b ∷ b ∷ b ∷ b ∷ b ∷ b ∷ b ∷ b ∷ b ∷ b ∷ b ∷ b ∷ b ∷ b ∷ b ∷ b ∷ b ∷ b ∷ b
    ∷ b ∷ b ∷ b ∷ b ∷ b ∷ b ∷ b ∷ b ∷ []

abbrev sender : Publisher libs crypto users (λ t. some t) (λ n. "!67ea9400")
sender = record {
  block_cipher = true;
  channel = "LongFast";
  channel_bytes = b'L' ∷ [];
  key = b'A' ∷ b'-' ∷ [];
  ack_style = "faithful";
}

abbrev receiver : Client libs crypto users
receiver = record {
  block_cipher = true;
  nodes = λ n. some (hex_key (repeated 7));
  key_fallback = "none";
  has_ack_handler = true;
  has_nack_handler = true;
}

abbrev sources : KeySources
sources = record { resolution = some (ok (some (hex_key (repeated 9)))); feed = none; cache = [] }

abbrev direct : Result PublishError (List ℕ)
direct =
    build_pki_message libs crypto users (λ t. some t) (λ n. "!67ea9400") sender 5 6 1
      (b'h' ∷ b'i' ∷ []) (repeated 9) (repeated 7) (some 77) (some 88)

abbrev on_channel : Result PublishError (List ℕ)
on_channel =
    encrypted_message libs crypto users (λ t. some t) (λ n. "!67ea9400") sender 5 6 1
      (b'h' ∷ b'i' ∷ []) (some 77) 1000

abbrev direct_bytes : List ℕ
direct_bytes =
    5
    ∷ 6
    ∷ 77
    ∷ 3
    ∷ 3
    ∷ 1
    ∷ 0
    ∷ 0
    ∷ 0
    ∷ 0
    ∷ 0
    ∷ 0
    ∷ 0
    ∷ 32
    ∷ 0
    ∷ (repeated 9
        ++ (0 ∷ 685 ∷ 1 ∷ 0 ∷ 1 ∷ 108 ∷ 108 ∷ 1184 ∷ 0 ∷ 0 ∷ 0 ∷ 0 ∷ 0 ∷ 0 ∷ 0 ∷ 88 ∷ 0 ∷ 0 ∷ 0
            ∷ []))

abbrev channel_bytes : List ℕ
channel_bytes =
    5 ∷ 6 ∷ 77 ∷ 3 ∷ 3 ∷ 0 ∷ 0 ∷ 1 ∷ 38 ∷ 0 ∷ 1000 ∷ 4294967294 ∷ 2 ∷ 0 ∷ 0 ∷ 0 ∷ 105 ∷ 104 ∷ 2 ∷ 2
    ∷ 0 ∷ 1 ∷ []

direct_is_built : direct ≡ ok direct_bytes
unfolding build_pki_message encrypt_curve25519 aes_ccm_encrypt encrypt_ctr counter_mode xor_bytes
    first_byte field formatted encrypt_auth_tag init_nonce generate_auth_tag tag chain
direct_is_built = refl

channel_is_built : on_channel ≡ ok channel_bytes
unfolding encrypted_message
channel_is_built = refl

aes_ccm_ad-accepts_example :
    (aes_ccm_ad
          (crypto.new_cipher)
          (1 ∷ [])
          (2 ∷ [])
          (2 ∷ [])
          (151 ∷ 0 ∷ 0 ∷ 0 ∷ 0 ∷ 0 ∷ 0 ∷ 0 ∷ [])
        ≡ ok (7 ∷ [])
      → aes_ccm_encrypt (crypto.new_cipher) (1 ∷ []) (2 ∷ []) (7 ∷ [])
        ≡ ok (2 ∷ [], 151 ∷ 0 ∷ 0 ∷ 0 ∷ 0 ∷ 0 ∷ 0 ∷ 0 ∷ []))
    × (aes_ccm_encrypt (crypto.new_cipher) (1 ∷ []) (2 ∷ []) (7 ∷ [])
          ≡ ok (2 ∷ [], 151 ∷ 0 ∷ 0 ∷ 0 ∷ 0 ∷ 0 ∷ 0 ∷ 0 ∷ [])
        → aes_ccm_ad
            (crypto.new_cipher)
            (1 ∷ [])
            (2 ∷ [])
            (2 ∷ [])
            (151 ∷ 0 ∷ 0 ∷ 0 ∷ 0 ∷ 0 ∷ 0 ∷ 0 ∷ [])
          ≡ ok (7 ∷ []))
aes_ccm_ad-accepts_example =
    aes_ccm_ad-accepts (crypto.new_cipher) (1 ∷ []) (2 ∷ []) (2 ∷ [])
      (151 ∷ 0 ∷ 0 ∷ 0 ∷ 0 ∷ 0 ∷ 0 ∷ 0 ∷ []) (7 ∷ []) refl

dispatcher-encrypted_message_example :
    (dispatcher libs crypto users receiver sources "msh" channel_bytes).0
    ≡ message 6 5 "msh" 1 (b'h' ∷ b'i' ∷ []) ∷ []
dispatcher-encrypted_message_example =
    dispatcher-encrypted_message libs crypto users (λ t. some t) (λ n. "!67ea9400") sender receiver
      sources "msh" 5 6 1 (b'h' ∷ b'i' ∷ []) 77 1000 channel_bytes libs-LibsLaws refl (omega arith)
      (omega arith) refl channel_is_built

dispatcher-build_pki_message_example :
    (dispatcher libs crypto users receiver sources "msh" direct_bytes).0
    ≡ message 6 5 "msh" 1 (b'h' ∷ b'i' ∷ []) ∷ []
unfolding resolve_sender_pub_key
dispatcher-build_pki_message_example =
    dispatcher-build_pki_message libs crypto users (λ t. some t) (λ n. "!67ea9400") sender receiver
      sources "msh" 5 6 1 (b'h' ∷ b'i' ∷ []) 77 88 (repeated 9) (repeated 7) direct_bytes
      libs-LibsLaws crypto-CryptoLaws refl (omega arith) (omega arith) (omega arith) refl
      (omega arith) refl refl (omega arith) refl direct_is_built

dispatcher-Justified_example :
    ((p : MeshPacket)
      → packet_in libs crypto users (libs.unmarshal_envelope direct_bytes) ≡ some p
      → All
          (Justified libs crypto users receiver sources p)
          (dispatcher libs crypto users receiver sources "msh" direct_bytes).0)
    × (packet_in libs crypto users (libs.unmarshal_envelope direct_bytes) ≡ none
        → (dispatcher libs crypto users receiver sources "msh" direct_bytes).0 ≡ [])
dispatcher-Justified_example =
    dispatcher-Justified libs crypto users receiver sources "msh" direct_bytes

parse_hex_key-hex_key_example : parse_hex_key (hex_key (repeated 7)) ≡ ok (repeated 7)
parse_hex_key-hex_key_example = parse_hex_key-hex_key (repeated 7) (omega arith) refl

abbrev second_try : ℕ → Attempt
second_try k = if k == 2 then timed_out else completed

send-Tried_example :
    Tried second_try "msh" false (1 ∷ []) 3 (send second_try "msh" false (ok (1 ∷ [])))
send-Tried_example = send-Tried second_try "msh" false (1 ∷ [])
