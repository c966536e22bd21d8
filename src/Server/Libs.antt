-- ===== src/Server/Libs.antt =====
-- What the proxy and the mesh client take from elsewhere: the generated protobuf messages of
-- protos/meshtastic/generated, of which the fields that either touches are named, and the libraries
-- that they call.
use meshtk.Prelude.{ℕ, List, Bool, Option, some, String, ◌≡◌}

-- `meshtastic.Data`. `others` stands for the fields that are never written, unknown ones
-- included.
pub record MeshData : Type 0 where
  pub portnum : ℕ
  pub payload : List ℕ
  pub request_id : ℕ
  pub bitfield : Option ℕ
  pub others : List ℕ

-- The `PayloadVariant` of a packet.
pub data Variant : Type 0 where
  decoded : MeshData → Variant
  encrypted : List ℕ → Variant
  empty : Variant

-- `rx_rssi`, a signed number, is a 32-bit word.
pub record MeshPacket : Type 0 where
  pub from : ℕ
  pub to : ℕ
  pub id : ℕ
  pub hop_limit : ℕ
  pub hop_start : ℕ
  pub pki_encrypted : Bool
  pub public_key : List ℕ
  pub want_ack : Bool
  pub via_mqtt : Bool
  pub channel : ℕ
  pub priority : ℕ
  pub rx_time : ℕ
  pub rx_rssi : ℕ
  pub rx_snr : ℕ
  pub variant : Variant
  pub others : List ℕ

pub record ServiceEnvelope : Type 0 where
  pub packet : Option MeshPacket
  pub channel_id : String
  pub gateway_id : String

-- The libraries: protobuf, AES in counter mode, `strings.ReplaceAll`. `key_stream c id from b` is
-- `cipher.NewCTR(c, nonce).XORKeyStream` at the nonce made of `id` and `from`, and `parses port b`
-- tells whether `proto.Unmarshal` reads `b` as the message of the port.
pub record Libs : Type 1 where
  pub Cipher : Type 0
  pub marshal_envelope : ServiceEnvelope → Option (List ℕ)
  pub unmarshal_envelope : List ℕ → Option ServiceEnvelope
  pub marshal_data : MeshData → Option (List ℕ)
  pub unmarshal_data : List ℕ → Option MeshData
  pub parses : ℕ → List ℕ → Bool
  pub key_stream : Cipher → ℕ → ℕ → List ℕ → List ℕ
  pub replace_all : List ℕ → List ℕ → List ℕ → List ℕ

-- What their documentation says of them: a message that was marshalled is read back, and the
-- stream cipher undoes itself.
pub record LibsLaws (l : Libs) : Type 0 where
  pub unmarshal-marshal_envelope :
      (e : ServiceEnvelope) (b : List ℕ)
      → l.marshal_envelope e ≡ some b
      → l.unmarshal_envelope b ≡ some e
  pub unmarshal-marshal_data :
      (d : MeshData) (b : List ℕ) → l.marshal_data d ≡ some b → l.unmarshal_data b ≡ some d
  pub key_stream-key_stream :
      (c : l.Cipher) (id from : ℕ) (b : List ℕ)
      → l.key_stream c id from (l.key_stream c id from b) ≡ b
