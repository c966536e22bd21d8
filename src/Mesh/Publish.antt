-- ===== src/Mesh/Publish.antt =====
-- What a client of the mesh publishes: internal/mqtt/publish.go. The outcome of each attempt to
-- publish, the random numbers and the clock are arguments; a token that does not come within five
-- seconds is an outcome. `node_id` is `fmt.Sprintf("!%08x", ...)`.
pub mod Laws
use Prim.Native.Nat.{bit_xor}
use meshtk.Mesh.Ccm.{CryptoError}
use meshtk.Mesh.Client.{User, UserLib}
use meshtk.Mesh.Keys.{Text}
use meshtk.Mesh.Pki.{CryptoLibs, encrypt_curve25519}
use meshtk.Prelude.{
  ℕ, zero, suc, ◌+◌, ◌-◌, ◌%◌, ◌^◌, List, [], ◌∷◌, Bool, true, false, Option, none, some, String,
  str_eq, ◌==◌, if◌then◌else◌, Result, ok, err, ◌>>=◌, ◌>>◌,
}
use meshtk.Server.Inspect.{position_app, nodeinfo_app, routing_app, map_report_app}
use meshtk.Server.Libs.{MeshData, decoded, encrypted, Variant, MeshPacket, ServiceEnvelope, Libs}

pub data PublishError : Type 0 where
  marshal_failed no_random bad_channel_key publish_timed_out publish_failed : PublishError
  encrypt_failed : CryptoError → PublishError

-- What becomes of an attempt.
pub data Attempt : Type 0 where
  completed timed_out failed : Attempt

-- The calls of the broker's client.
pub data BrokerCall : Type 0 where
  publish : String → Bool → List ℕ → BrokerCall
  connect : BrokerCall

abbrev pub bitfield_ok_to_mqtt : ℕ
bitfield_ok_to_mqtt = 1

-- `MeshPacket_ACK`
abbrev priority_ack : ℕ
priority_ack = 120

abbrev pub max_attempts : ℕ
max_attempts = 3

-- One attempt, and what follows it: after an attempt that did not complete the client is connected
-- again and goes on.
unfoldable pub after_attempt :
    Attempt
    → String
    → Bool
    → List ℕ
    → List BrokerCall × Result PublishError (Unit {0})
    → List BrokerCall × Result PublishError (Unit {0})
    → List BrokerCall × Result PublishError (Unit {0})
after_attempt completed topic retain b _ _ = (publish topic retain b ∷ [], ok tt)
after_attempt timed_out topic retain b (calls, end) _ =
    (publish topic retain b ∷ connect ∷ calls, end)
after_attempt failed topic retain b _ (calls, end) = (publish topic retain b ∷ connect ∷ calls, end)

-- The loop of the attempts, with the error of the last one. `outcome k` is of the attempt that `k` may
-- follow.
unfoldable pub try_publish :
    ℕ
    → (ℕ → Attempt)
    → String
    → Bool
    → List ℕ
    → PublishError
    → List BrokerCall × Result PublishError (Unit {0})
unfolding after_attempt
try_publish zero outcome topic retain b last = ([], err last)
try_publish (suc left) outcome topic retain b last =
    after_attempt (outcome left) topic retain b
      (try_publish left outcome topic retain b publish_timed_out)
      (try_publish left outcome topic retain b publish_failed)

-- What was built goes out, or nothing does.
unfoldable pub send :
    (ℕ → Attempt)
    → String
    → Bool
    → Result PublishError (List ℕ)
    → List BrokerCall × Result PublishError (Unit {0})
unfolding try_publish
send outcome topic retain (err e) = ([], err e)
send outcome topic retain (ok b) = try_publish max_attempts outcome topic retain b publish_failed

unfoldable pub publish_envelope_bytes :
    (ℕ → Attempt) → String → List ℕ → List BrokerCall × Result PublishError (Unit {0})
unfolding try_publish
publish_envelope_bytes outcome topic b =
    try_publish max_attempts outcome topic false b publish_failed

unfoldable pub or_error : {A : Type 0} → PublishError → Option A → Result PublishError A
or_error e none = err e
or_error e (some a) = ok a

unfoldable pub encrypted_or : Result CryptoError (List ℕ) → Result PublishError (List ℕ)
encrypted_or (err e) = err (encrypt_failed e)
encrypted_or (ok b) = ok b

unfoldable pub xor_hash : ℕ → List ℕ → ℕ
xor_hash hash [] = hash
xor_hash hash (b ∷ bs) = xor_hash (bit_xor hash b) bs

-- `strings.ReplaceAll` of one byte by another.
unfoldable pub replace_byte : ℕ → ℕ → Text → Text
replace_byte old new [] = []
replace_byte old new (c ∷ text) = (if c == old then new else c) ∷ replace_byte old new text

-- `base64.StdEncoding.DecodeString` is `decode_base64`; its failure is a panic in the source.
unfoldable pub generate_channel_hash :
    (Text → Option (List ℕ)) → Text → Text → Result PublishError ℕ
unfolding xor_hash replace_byte or_error
generate_channel_hash decode_base64 name key = do
  key_bytes ←
      or_error bad_channel_key (decode_base64 (replace_byte b'_' b'/' (replace_byte b'-' b'+' key)))
  ok (bit_xor (xor_hash 0 name) (xor_hash 0 key_bytes))

abbrev pub sent_data : ℕ → List ℕ → ℕ → MeshData
sent_data port payload request_id = record {
  portnum = port;
  payload = payload;
  request_id = request_id;
  bitfield = some bitfield_ok_to_mqtt;
  others = [];
}

-- The fields that every packet sets, and the zeros of the others.
abbrev pub fresh_packet : ℕ → ℕ → ℕ → ℕ → Variant → MeshPacket
fresh_packet from to id hop_limit variant = record {
  from = from;
  to = to;
  id = id;
  hop_limit = hop_limit;
  hop_start = 0;
  pki_encrypted = false;
  public_key = [];
  want_ack = false;
  via_mqtt = false;
  channel = 0;
  priority = 0;
  rx_time = 0;
  rx_rssi = 0;
  rx_snr = 0;
  variant = variant;
  others = [];
}

-- `int32(-2)`, and the made-up reception that goes with it.
abbrev pub received : ℕ → MeshPacket → MeshPacket
received now p = record p {
  rx_time = now % 2 ^ 32;
  rx_rssi = 2 ^ 32 - 2;
  rx_snr = 2;
  via_mqtt = true;
}

module _ (l : Libs) (c : CryptoLibs) (u : UserLib) (decode_base64 : Text → Option (List ℕ))
    (node_id : ℕ → String) where
  open l use {Cipher, marshal_envelope, marshal_data, key_stream}

  -- The channel's name stands twice: as the text of the envelope, and as the bytes that are hashed.
  pub record Publisher : Type 0 where
    pub block_cipher : Cipher
    pub channel : String
    pub channel_bytes : Text
    pub key : Text
    pub ack_style : String

  abbrev pub envelope_of : Publisher → ℕ → MeshPacket → ServiceEnvelope
  envelope_of n from p = record {
    packet = some p;
    gateway_id = node_id from;
    channel_id = n.channel;
  }

  unfoldable pub plain_message :
      Publisher → ℕ → ℕ → ℕ → List ℕ → Option ℕ → ℕ → Result PublishError (List ℕ)
  unfolding or_error
  plain_message n from to port payload random now = do
    id ← or_error no_random random
    let p = fresh_packet from to id 5 (decoded (sent_data port payload 0))
    or_error marshal_failed (
        marshal_envelope (
          envelope_of n from (record p { via_mqtt = true; rx_time = now % 2 ^ 32; hop_start = 5 })))

  unfoldable pub publish_message_plain :
      Publisher
      → ℕ
      → ℕ
      → String
      → ℕ
      → List ℕ
      → Option ℕ
      → ℕ
      → (ℕ → Attempt)
      → List BrokerCall × Result PublishError (Unit {0})
  unfolding plain_message send
  publish_message_plain n from to topic port payload random now outcome =
      send outcome topic false (plain_message n from to port payload random now)

  unfoldable pub encrypted_message :
      Publisher → ℕ → ℕ → ℕ → List ℕ → Option ℕ → ℕ → Result PublishError (List ℕ)
  unfolding or_error generate_channel_hash
  encrypted_message n from to port payload random now = do
    bytes ← or_error marshal_failed (marshal_data (sent_data port payload 0))
    id ← or_error no_random random
    hash ← generate_channel_hash decode_base64 (n.channel_bytes) (n.key)
    let p = fresh_packet from to id 3 (encrypted (key_stream n.block_cipher id from bytes))
    or_error marshal_failed (
        marshal_envelope
          (envelope_of n from (received now (record p { channel = hash; hop_start = 3 }))))

  -- `publishMessageEncrypted`
  unfoldable pub publish_message_encrypted :
      Publisher
      → ℕ
      → ℕ
      → String
      → ℕ
      → List ℕ
      → Bool
      → Option ℕ
      → ℕ
      → (ℕ → Attempt)
      → List BrokerCall × Result PublishError (Unit {0})
  unfolding encrypted_message send
  publish_message_encrypted n from to topic port payload retain random now outcome =
      send outcome topic retain (encrypted_message n from to port payload random now)

  -- The packet of an acknowledgement, in either style.
  unfoldable pub styled : Publisher → ℕ → MeshPacket → MeshPacket
  styled n now p =
      if str_eq (n.ack_style) "legacy" then received now p else record p { hop_start = p.hop_limit }

  unfoldable pub ack_message :
      Publisher → ℕ → ℕ → ℕ → List ℕ → Option ℕ → ℕ → Result PublishError (List ℕ)
  unfolding or_error generate_channel_hash styled
  ack_message n from to request_id routing random now = do
    bytes ← or_error marshal_failed (marshal_data (sent_data routing_app routing request_id))
    id ← or_error no_random random
    hash ← generate_channel_hash decode_base64 (n.channel_bytes) (n.key)
    let p = fresh_packet from to id 3 (encrypted (key_stream n.block_cipher id from bytes))
    or_error marshal_failed (
        marshal_envelope (
          envelope_of n from (styled n now (record p { channel = hash; priority = priority_ack }))))

  unfoldable pub publish_ack :
      Publisher
      → ℕ
      → ℕ
      → String
      → ℕ
      → List ℕ
      → Option ℕ
      → ℕ
      → (ℕ → Attempt)
      → List BrokerCall × Result PublishError (Unit {0})
  unfolding ack_message send
  publish_ack n from to topic request_id routing random now outcome =
      send outcome topic false (ack_message n from to request_id routing random now)

  -- The second random number is the one that the encryption draws.
  unfoldable pub build_pki_message :
      Publisher
      → ℕ
      → ℕ
      → ℕ
      → List ℕ
      → List ℕ
      → List ℕ
      → Option ℕ
      → Option ℕ
      → Result PublishError (List ℕ)
  unfolding or_error encrypted_or
  build_pki_message n from to port payload private_key recipient_key random extra = do
    bytes ← or_error marshal_failed (marshal_data (sent_data port payload 0))
    id ← or_error no_random random
    b ← encrypted_or (encrypt_curve25519 c private_key recipient_key bytes extra id from)
    let p = fresh_packet from to id 3 (encrypted b)
    or_error marshal_failed (
        marshal_envelope (
          envelope_of n from (record p {
            public_key = c.scalar_base_mult private_key;
            pki_encrypted = true;
            hop_start = 3;
          })))

  unfoldable pub publish_pki_message :
      Publisher
      → ℕ
      → ℕ
      → String
      → ℕ
      → List ℕ
      → List ℕ
      → List ℕ
      → Option ℕ
      → Option ℕ
      → (ℕ → Attempt)
      → List BrokerCall × Result PublishError (Unit {0})
  unfolding build_pki_message send
  publish_pki_message n from to topic port payload private_key recipient_key random extra outcome =
      send outcome topic false
        (build_pki_message n from to port payload private_key recipient_key random extra)

  -- `retain` is true for the broadcast of `PublishNodeInfo` and false for `PublishNodeInfoTo`.
  unfoldable pub publish_node_info :
      Publisher
      → ℕ
      → ℕ
      → String
      → User
      → Bool
      → Option ℕ
      → ℕ
      → (ℕ → Attempt)
      → List BrokerCall × Result PublishError (Unit {0})
  unfolding publish_message_encrypted
  publish_node_info n from to topic user retain random now outcome =
      elim (u.marshal_user (record user { id = node_id from })) [
        | none ↦ ([], err marshal_failed)
        | some b ↦
            publish_message_encrypted n from to topic nodeinfo_app b retain random now outcome
      ]
