-- ===== src/Mesh/Client.antt =====
-- What a client of the mesh does with a message of the broker: `dispatcher` of internal/mqtt/mqtt.go,
-- `decryptPKI` of crypto.go and `noteObservedNodeInfo` of observed_pubkey.go. The handlers that it
-- calls are events, in the order of the calls.
pub mod Laws
use meshtk.Mesh.Ccm.{CryptoError, no_recipient, no_private_key, invalid_key_length}
use meshtk.Mesh.Keys.{
  Text, hex_key, parse_hex_key, FeedResponse, PubKeyCache, Resolution, resolve_sender_pub_key,
}
use meshtk.Mesh.Pki.{CryptoLibs, decrypt_curve25519}
use meshtk.Prelude.{
  ℕ, ◌+◌, List, [], ◌∷◌, ◌++◌, Bool, true, false, ◌&&◌, Option, none, some, String, str_eq, ◌≡◌,
  ◌==◌, if◌then◌else◌, length, Result, ok, err, ◌>>=◌, ◌>>◌, require,
}
use meshtk.Server.Inspect.{nodeinfo_app}
use meshtk.Server.Libs.{
  MeshData, Variant, decoded, encrypted, empty, MeshPacket, ServiceEnvelope, Libs,
}

-- `meshtastic.User`.
pub record User : Type 0 where
  pub id : String
  pub long_name : String
  pub short_name : String
  pub hw_model : ℕ
  pub role : ℕ
  pub public_key : List ℕ

-- `proto` at that message, and what its documentation says.
pub record UserLib : Type 0 where
  pub marshal_user : User → Option (List ℕ)
  pub unmarshal_user : List ℕ → Option User

pub record UserLaws (u : UserLib) : Type 0 where
  pub unmarshal-marshal_user :
      (x : User) (b : List ℕ) → u.marshal_user x ≡ some b → u.unmarshal_user b ≡ some x

pub data Event : Type 0 where
  ack nack : ℕ → ℕ → ℕ → Event
  observed_key : ℕ → Text → Event
  message : ℕ → ℕ → String → ℕ → List ℕ → Event

-- Where the key of the sender comes from, if it is asked for.
pub record KeySources : Type 0 where
  pub resolution : Resolution
  pub feed : Option FeedResponse
  pub cache : PubKeyCache

module _ (l : Libs) (c : CryptoLibs) (u : UserLib) where
  open l use {Cipher, unmarshal_envelope, unmarshal_data, key_stream}

  -- `nodes` gives the private key of each node of this client, as text.
  pub record Client : Type 0 where
    pub block_cipher : Cipher
    pub nodes : ℕ → Option Text
    pub key_fallback : String
    pub has_ack_handler : Bool
    pub has_nack_handler : Bool

  unfoldable pub private_key_of : Option Text → Result CryptoError (List ℕ)
  private_key_of none = err no_recipient
  private_key_of (some []) = err no_private_key
  private_key_of (some (x ∷ text)) = parse_hex_key (x ∷ text)

  unfoldable pub decrypt_from :
      MeshPacket → List ℕ → List ℕ → Result CryptoError Text → Result CryptoError (List ℕ)
  decrypt_from p b private_key key = do
    text ← key
    sender_key ← parse_hex_key text
    decrypt_curve25519 c private_key sender_key b (p.id) (p.from)

  -- The sender's key is asked for only once the recipient's own is there.
  unfoldable pub decrypt_with :
      Client
      → KeySources
      → MeshPacket
      → List ℕ
      → Result CryptoError (List ℕ)
      → Result CryptoError (List ℕ) × PubKeyCache
  unfolding decrypt_from
  decrypt_with n sources p b (err e) = (err e, sources.cache)
  decrypt_with n sources p b (ok private_key) =
      let (key, cache) =
        resolve_sender_pub_key (sources.resolution) (n.key_fallback) (sources.feed) (p.from)
          (sources.cache) in
      (decrypt_from p b private_key key, cache)

  unfoldable pub decrypt_pki :
      Client → KeySources → MeshPacket → List ℕ → Result CryptoError (List ℕ) × PubKeyCache
  unfolding decrypt_with private_key_of
  decrypt_pki n sources p b = decrypt_with n sources p b (private_key_of (n.nodes (p.to)))

  unfoldable pub observed : ℕ → Option User → List Event
  observed from none = []
  observed from (some user) =
      if length (user.public_key) == 32
      then observed_key from (hex_key (user.public_key)) ∷ []
      else []

  unfoldable pub note_observed_node_info : ℕ → List ℕ → List Event
  unfolding observed
  note_observed_node_info from payload = observed from (u.unmarshal_user payload)

  -- The part below the decryption. A payload without bytes is nil.
  unfoldable pub deliver : MeshPacket → String → MeshData → List Event
  unfolding note_observed_node_info
  deliver p topic d =
      if d.portnum == 0
      then []
      else if length (d.payload) == 0
      then []
      else (if d.portnum == nodeinfo_app then note_observed_node_info (p.from) (d.payload) else [])
        ++ message (p.to) (p.from) topic (d.portnum) (d.payload) ∷ []

  unfoldable pub deliver_parsed : MeshPacket → String → List Event → Option MeshData → List Event
  unfolding deliver
  deliver_parsed p topic before none = []
  deliver_parsed p topic before (some d) = before ++ deliver p topic d

  unfoldable pub owns : Option Text → Bool
  owns none = false
  owns (some key) = true

  unfoldable pub deliver_pki :
      Client → MeshPacket → String → Result CryptoError (List ℕ) → List Event
  unfolding owns deliver_parsed
  deliver_pki n p topic (err e) =
      if owns (n.nodes (p.to)) && n.has_nack_handler then nack (p.to) (p.from) (p.id) ∷ [] else []
  deliver_pki n p topic (ok b) =
      deliver_parsed p topic
        (if p.want_ack && n.has_ack_handler then ack (p.to) (p.from) (p.id) ∷ [] else [])
        (unmarshal_data b)

  unfoldable pub dispatch_variant :
      Client → KeySources → MeshPacket → String → Variant → List Event × PubKeyCache
  unfolding deliver deliver_parsed deliver_pki
  dispatch_variant n sources p topic (decoded d) = (deliver p topic d, sources.cache)
  dispatch_variant n sources p topic empty = ([], sources.cache)
  dispatch_variant n sources p topic (encrypted b) =
      if p.pki_encrypted
      then (let (plain, cache) = decrypt_pki n sources p b in (deliver_pki n p topic plain, cache))
      else (
        deliver_parsed p topic [] (unmarshal_data (key_stream n.block_cipher (p.id) (p.from) b)),
        sources.cache,
      )

  unfoldable pub packet_in : Option ServiceEnvelope → Option MeshPacket
  packet_in none = none
  packet_in (some e) = e.packet

  unfoldable pub dispatch_packet :
      Client → KeySources → String → Option MeshPacket → List Event × PubKeyCache
  unfolding dispatch_variant
  dispatch_packet n sources topic none = ([], sources.cache)
  dispatch_packet n sources topic (some p) = dispatch_variant n sources p topic (p.variant)

  -- The events, and the cache of the keys of the feed afterwards.
  unfoldable pub dispatcher : Client → KeySources → String → List ℕ → List Event × PubKeyCache
  unfolding dispatch_packet packet_in
  dispatcher n sources topic payload =
      if str_eq topic "/will"
      then ([], sources.cache)
      else dispatch_packet n sources topic (packet_in (unmarshal_envelope payload))
