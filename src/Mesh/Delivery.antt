-- ===== src/Mesh/Delivery.antt =====
-- What one client of the mesh sends, another hears: internal/mqtt/publish.go against mqtt.go.
use meshtk.Mesh.Ccm.{CryptoError}
use meshtk.Mesh.Client.{
  UserLib, Event, message, KeySources, Client, private_key_of, decrypt_from, decrypt_with,
  decrypt_pki, note_observed_node_info, deliver, deliver_parsed, deliver_pki, dispatch_variant,
  packet_in, dispatch_packet, dispatcher,
}
use meshtk.Mesh.Keys.{Text, hex_key, resolve_sender_pub_key}
use meshtk.Mesh.Keys.Laws.{Bytes, parse_hex_key-hex_key}
use meshtk.Mesh.Pki.{CryptoLibs, CryptoLaws, encrypt_curve25519}
use meshtk.Mesh.Pki.Laws.{decrypt_curve25519-encrypt_curve25519}
use meshtk.Mesh.Publish.{
  PublishError, or_error, sent_data, fresh_packet, received, envelope_of, generate_channel_hash,
  Publisher, encrypted_message, encrypted_or, build_pki_message,
}
use meshtk.Prelude.{
  ℕ, ◌<◌, ◌^◌, List, [], ◌∷◌, ◌++◌, true, false, Option, none, some, String, str_eq, ◌≡◌, ◌≢◌, refl,
  ap, sym, subst, ◌∙◌, arith, length, ◌==◌, if◌then◌else◌, Result, ok, err, >>=-eq-ok,
}
use meshtk.Server.Inspect.{nodeinfo_app}
use meshtk.Server.Libs.{encrypted, MeshPacket, ServiceEnvelope, Libs, LibsLaws}

or_error-ok :
    {A : Type 0} (e : PublishError) (o : Option A) (a : A) → or_error e o ≡ ok a → o ≡ some a
unfolding or_error
or_error-ok e none a h = cc
or_error-ok e (some x) a h = ground arith

encrypted_or-ok : (r : Result CryptoError (List ℕ)) (x : List ℕ) → encrypted_or r ≡ ok x → r ≡ ok x
unfolding encrypted_or
encrypted_or-ok (err e) x h = cc
encrypted_or-ok (ok b) x h = ground arith

module _ (l : Libs) (c : CryptoLibs) (u : UserLib) where
  -- What is heard of a payload: its message, after the key that it announces.
  abbrev pub heard : ℕ → ℕ → String → ℕ → List ℕ → List Event
  heard from to topic port payload =
      (if port == nodeinfo_app then note_observed_node_info l c u from payload else [])
      ++ message to from topic port payload ∷ []

  deliver-heard :
      (p : MeshPacket) (topic : String) (port : ℕ) (payload : List ℕ) (request_id : ℕ)
      → port ≢ 0
      → 0 < length payload
      → deliver l c u p topic (sent_data port payload request_id)
        ≡ heard (p.from) (p.to) topic port payload
  unfolding deliver
  deliver-heard p topic port payload request_id named full =
      let a : (port == 0) ≡ false = ground arith in
      let b : (length payload == 0) ≡ false = ground arith in rw (a, b) refl

  -- A key that was printed is the private key of its node.
  private_key_of-hex_key :
      (o : Option Text) (key : List ℕ)
      → o ≡ some (hex_key key)
      → Bytes key
      → length key ≡ 32
      → private_key_of l c u o ≡ ok key
  unfolding private_key_of hex_key
  private_key_of-hex_key o key h bytes n =
      subst (λ x. private_key_of l c u x ≡ ok key) (sym h) (parse_hex_key-hex_key key bytes n)

  -- A message that was encrypted for the owner of a node is decrypted there, if the sender's key is
  -- resolved.
  decrypt_pki-encrypted :
      CryptoLaws c
      → (m : Client l c u) (sources : KeySources) (p : MeshPacket)
      → (own_key sender_key plain : List ℕ) (extra : ℕ) (b : List ℕ) → extra < 2 ^ 32
      → m.nodes (p.to) ≡ some (hex_key own_key)
      → Bytes own_key
      → length own_key ≡ 32
      → (resolve_sender_pub_key
          (sources.resolution)
          (m.key_fallback)
          (sources.feed)
          (p.from)
          (sources.cache)).0
        ≡ ok (hex_key (c.scalar_base_mult sender_key))
      → Bytes (c.scalar_base_mult sender_key)
      → length (c.scalar_base_mult sender_key) ≡ 32
      → encrypt_curve25519 c sender_key
          (c.scalar_base_mult own_key)
          plain
          (some extra)
          (p.id)
          (p.from)
        ≡ ok b
      → (decrypt_pki l c u m sources p b).0 ≡ ok plain
  unfolding decrypt_pki decrypt_with decrypt_from
  decrypt_pki-encrypted secrets m sources p own sender plain extra b small has own_bytes own_32
        resolved key_bytes key_32 h =
      rw
        (
          private_key_of-hex_key (m.nodes (p.to)) own has own_bytes own_32,
          decrypt_with,
          resolved,
          parse_hex_key-hex_key (c.scalar_base_mult sender) key_bytes key_32,
        )
        (decrypt_curve25519-encrypt_curve25519 c secrets sender own plain extra (p.id) (p.from) b
          small h)

module _ (l : Libs) (laws : LibsLaws l) (c : CryptoLibs) (u : UserLib) where
  open l use {Cipher, key_stream, marshal_envelope}

  undone :
      (a b : Cipher) (id from : ℕ) (x : List ℕ)
      → a ≡ b
      → key_stream b id from (key_stream a id from x) ≡ x
  undone a b id from x e =
      subst (λ k. key_stream k id from (key_stream a id from x) ≡ x) e
        (laws.key_stream-key_stream a id from x)

  -- A dispatched envelope comes to its variant.
  dispatched :
      (m : Client l c u) (sources : KeySources) (topic : String) (b : List ℕ) (e : ServiceEnvelope)
      (p : MeshPacket)
      → str_eq topic "/will" ≡ false
      → marshal_envelope e ≡ some b
      → e.packet ≡ some p
      → dispatcher l c u m sources topic b ≡ dispatch_variant l c u m sources p topic (p.variant)
  unfolding dispatcher dispatch_packet packet_in
  dispatched m sources topic b e p will h has =
      rw (will, laws.unmarshal-marshal_envelope e b h, has) refl

module _ (l : Libs) (c : CryptoLibs) (u : UserLib) (decode_base64 : Text → Option (List ℕ))
    (node_id : ℕ → String) (n : Publisher l c u decode_base64 node_id) (m : Client l c u)
    (sources : KeySources) (topic : String) (from to port : ℕ) (payload : List ℕ) where
  open l use {key_stream, marshal_data, marshal_envelope}

  -- A message with a port and a payload that a client encrypts for its channel is heard, by every
  -- client that has the same cipher for its channel, as exactly that message from and to those nodes
  -- on that port, after the key that a node info announces; over libraries with their laws, and on
  -- any topic but that of the Will.
  pub dispatcher-encrypted_message :
      (id now : ℕ) (b : List ℕ)
      → LibsLaws l
      → str_eq topic "/will" ≡ false
      → port ≢ 0
      → 0 < length payload
      → n.block_cipher ≡ m.block_cipher
      → encrypted_message l c u decode_base64 node_id n from to port payload (some id) now ≡ ok b
      → (dispatcher l c u m sources topic b).0 ≡ heard l c u from to topic port payload
  unfolding encrypted_message or_error dispatch_variant deliver_parsed
  dispatcher-encrypted_message id now b laws will named full same h =
      let (bytes, h1, h2) = >>=-eq-ok (or_error _ (marshal_data (sent_data port payload 0))) _ h in
      let (hash, _, h3) =
        >>=-eq-ok (generate_channel_hash decode_base64 (n.channel_bytes) (n.key)) _ h2 in
      let x = key_stream n.block_cipher id from bytes in
      let p =
        received now
          (record (fresh_packet from to id 3 (encrypted x)) { channel = hash; hop_start = 3 }) in
      let e = envelope_of l c u decode_base64 node_id n from p in
      let d = sent_data port payload 0 in
      let parsed = laws.unmarshal-marshal_data d bytes (or_error-ok _ (marshal_data d) bytes h1) in
      ap (λ r. r.0)
        (dispatched l laws c u m sources topic b e p will (or_error-ok _ (marshal_envelope e) b h3)
          refl)
      ∙ rw (undone l laws c u (n.block_cipher) (m.block_cipher) id from bytes same, parsed)
          (deliver-heard l c u p topic port payload 0 named full)

  -- A direct message with a port and a payload that is built with a sender's key for the public key of
  -- a node is heard as exactly that message, after the key that a node info announces, and not
  -- answered, by the client that has the node's private key, once that client resolves the sender's
  -- public key; keys are 32 bytes, and the libraries have their laws.
  pub dispatcher-build_pki_message :
      (id extra : ℕ) (sender_key own_key b : List ℕ)
      → LibsLaws l
      → CryptoLaws c
      → str_eq topic "/will" ≡ false
      → port ≢ 0
      → 0 < length payload
      → extra < 2 ^ 32
      → m.nodes to ≡ some (hex_key own_key)
      → Bytes own_key
      → length own_key ≡ 32
      → (resolve_sender_pub_key
          (sources.resolution)
          (m.key_fallback)
          (sources.feed)
          from
          (sources.cache)).0
        ≡ ok (hex_key (c.scalar_base_mult sender_key))
      → Bytes (c.scalar_base_mult sender_key)
      → length (c.scalar_base_mult sender_key) ≡ 32
      → build_pki_message l c u decode_base64 node_id n from to port payload sender_key
          (c.scalar_base_mult own_key)
          (some id)
          (some extra)
        ≡ ok b
      → (dispatcher l c u m sources topic b).0 ≡ heard l c u from to topic port payload
  unfolding build_pki_message or_error dispatch_variant deliver_pki deliver_parsed
  dispatcher-build_pki_message id extra sender own b laws secrets will named full small has
        own_bytes own_32 resolved key_bytes key_32 h =
      let d = sent_data port payload 0 in
      let (bytes, h1, h2) = >>=-eq-ok (or_error _ (marshal_data d)) _ h in
      let (x, h3, h4) =
        >>=-eq-ok
          (encrypted_or
            (encrypt_curve25519 c sender (c.scalar_base_mult own) bytes (some extra) id from))
          _ h2 in
      let p = record (fresh_packet from to id 3 (encrypted x)) {
        public_key = c.scalar_base_mult sender;
        pki_encrypted = true;
        hop_start = 3;
      } in
      let e = envelope_of l c u decode_base64 node_id n from p in
      let plain =
        decrypt_pki-encrypted l c u secrets m sources p own sender bytes extra x small has own_bytes
          own_32 resolved key_bytes key_32 (encrypted_or-ok _ x h3) in
      let parsed = laws.unmarshal-marshal_data d bytes (or_error-ok _ (marshal_data d) bytes h1) in
      ap (λ r. r.0)
        (dispatched l laws c u m sources topic b e p will (or_error-ok _ (marshal_envelope e) b h4)
          refl)
      ∙ rw (plain, deliver_parsed, parsed) (deliver-heard l c u p topic port payload 0 named full)
