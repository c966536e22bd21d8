-- ===== src/Mesh/Client/Laws.antt =====
-- When a client of internal/mqtt/mqtt.go answers a direct message.
use meshtk.Mesh.Ccm.{CryptoError}
use meshtk.Mesh.Client.{
  User, UserLib, Event, ack, nack, message, KeySources, Client, decrypt_pki, observed,
  note_observed_node_info, deliver, deliver_parsed, owns, deliver_pki, dispatch_variant, packet_in,
  dispatch_packet, dispatcher,
}
use meshtk.Mesh.Keys.{Text, PubKeyCache}
use meshtk.Mesh.Pki.{CryptoLibs}
use meshtk.Prelude.{
  ℕ, List, [], ◌∷◌, ◌++◌, true, ◌&&◌, Bool-cases, if-cases, Option, Option-cases, none, some,
  length, ◌==◌, if◌then◌else◌, String, str_eq, ◌≡◌, refl, inl, inr, arith, Result, ok, err,
}
use meshtk.Server.Inspect.{nodeinfo_app}
use meshtk.Server.Libs.{MeshData, Variant, decoded, encrypted, empty, MeshPacket, Libs}

abbrev pub All : (Event → Type 0) → List Event → Type 0
All P [] = Unit
All P (e ∷ es) = P e × All P es

module _ (l : Libs) (c : CryptoLibs) (u : UserLib) (n : Client l c u) (sources : KeySources)
    (p : MeshPacket) where
  -- What a reply is sent for: it names the packet, which came under a shared secret for a node of this
  -- client; an acknowledgement was asked for and the packet was read, a refusal follows a failure.
  abbrev pub Justified : Event → Type 0
  Justified (ack to from id) =
      (to ≡ p.to)
      × (from ≡ p.from)
      × (id ≡ p.id)
      × (p.pki_encrypted ≡ true)
      × (p.want_ack ≡ true)
      × ((key : Text) × (n.nodes (p.to) ≡ some key))
      × ((b plain : List ℕ) × (p.variant ≡ encrypted b)
          × ((decrypt_pki l c u n sources p b).0 ≡ ok plain))
  Justified (nack to from id) =
      (to ≡ p.to)
      × (from ≡ p.from)
      × (id ≡ p.id)
      × (p.pki_encrypted ≡ true)
      × ((key : Text) × (n.nodes (p.to) ≡ some key))
      × ((b : List ℕ) × (problem : CryptoError) × (p.variant ≡ encrypted b)
          × ((decrypt_pki l c u n sources p b).0 ≡ err problem))
  Justified _ = Unit

  All-append : (es fs : List Event) → All Justified es → All Justified fs → All Justified (es ++ fs)
  All-append [] fs h k = k
  All-append (e ∷ es) fs (h, hs) k = (h, All-append es fs hs k)

  observed-Justified : (from : ℕ) (o : Option User) → All Justified (observed l c u from o)
  unfolding observed
  observed-Justified from none = tt
  observed-Justified from (some user) = elim (Bool-cases (length (user.public_key) == 32)) [
    | inl h ↦ rw h (tt, tt)
    | inr h ↦ rw h tt
  ]

  note-Justified :
      (d : MeshData)
      → All Justified (
          if d.portnum == nodeinfo_app
          then note_observed_node_info l c u (p.from) (d.payload)
          else [])
  unfolding note_observed_node_info
  note-Justified d = elim (Bool-cases (d.portnum == nodeinfo_app)) [
    | inl h ↦ rw h (observed-Justified (p.from) (u.unmarshal_user (d.payload)))
    | inr h ↦ rw h tt
  ]

  deliver-Justified : (topic : String) (d : MeshData) → All Justified (deliver l c u p topic d)
  unfolding deliver
  deliver-Justified topic d = elim (Bool-cases (d.portnum == 0)) [
    | inl h ↦ rw h tt
    | inr h ↦ rw h (elim (Bool-cases (length (d.payload) == 0)) [
      | inl k ↦ rw k tt
      | inr k ↦ rw k (
          All-append _ (message (p.to) (p.from) topic (d.portnum) (d.payload) ∷ [])
            (note-Justified d) (tt, tt))
    ])
  ]

  deliver_parsed-Justified :
      (topic : String) (before : List Event) (o : Option MeshData)
      → All Justified before
      → All Justified (deliver_parsed l c u p topic before o)
  unfolding deliver_parsed
  deliver_parsed-Justified topic before none h = tt
  deliver_parsed-Justified topic before (some d) h =
      All-append before (deliver l c u p topic d) h (deliver-Justified topic d)

  -- What was decrypted was decrypted with a key of a node of this client.
  decrypt_pki-owned :
      (b plain : List ℕ)
      → (decrypt_pki l c u n sources p b).0 ≡ ok plain
      → (key : Text) × (n.nodes (p.to) ≡ some key)
  unfolding decrypt_pki
  decrypt_pki-owned b plain h = elim (Option-cases (n.nodes (p.to))) [
    | inl e ↦ ground arith
    | inr found ↦ found
  ]

  owns-some : (o : Option Text) → owns l c u o ≡ true → (key : Text) × (o ≡ some key)
  unfolding owns
  owns-some none h = cc
  owns-some (some key) h = (key, refl)

  deliver_pki-Justified :
      (topic : String) (b : List ℕ) (r : Result CryptoError (List ℕ))
      → p.variant ≡ encrypted b
      → p.pki_encrypted ≡ true
      → (decrypt_pki l c u n sources p b).0 ≡ r
      → All Justified (deliver_pki l c u n p topic r)
  unfolding deliver_pki
  deliver_pki-Justified topic b (err e) v pki h =
      elim (Bool-cases (owns l c u (n.nodes (p.to)) && n.has_nack_handler)) [
        | inr no_reply ↦ rw no_reply tt
        | inl reply ↦
            rw reply
              ((refl, refl, refl, pki, owns-some (n.nodes (p.to)) (ground arith), (b, e, v, h)), tt)
      ]
  deliver_pki-Justified topic b (ok plain) v pki h =
      deliver_parsed-Justified topic _ (l.unmarshal_data plain)
        (elim (Bool-cases (p.want_ack && n.has_ack_handler)) [
          | inr no_reply ↦ rw no_reply tt
          | inl reply ↦ rw reply (
            (refl, refl, refl, pki, ground arith, decrypt_pki-owned b plain h, (b, plain, v, h)),
            tt,
          )
        ])

  dispatch_variant-Justified :
      (topic : String) (v : Variant)
      → p.variant ≡ v
      → All Justified (dispatch_variant l c u n sources p topic v).0
  unfolding dispatch_variant
  dispatch_variant-Justified topic (decoded d) h = deliver-Justified topic d
  dispatch_variant-Justified topic empty h = tt
  dispatch_variant-Justified topic (encrypted b) h =
      if-cases (λ (out : List Event × PubKeyCache). All Justified out.0) (p.pki_encrypted) _ _
        (λ pki. deliver_pki-Justified topic b (decrypt_pki l c u n sources p b).0 h pki refl)
        (λ _.
          deliver_parsed-Justified topic []
            (l.unmarshal_data (l.key_stream n.block_cipher (p.id) (p.from) b)) tt)

-- Whatever message comes, a client acknowledges or refuses only what it was sent under a shared secret
-- for one of its own nodes, to its sender and by its id: it acknowledges what it decrypted and what
-- asked for it, and refuses what it could not decrypt. It answers nothing that holds no packet.
pub dispatcher-Justified :
    (l : Libs) (c : CryptoLibs) (u : UserLib) (n : Client l c u) (sources : KeySources)
    (topic : String) (payload : List ℕ)
    → ((p : MeshPacket)
        → packet_in l c u (l.unmarshal_envelope payload) ≡ some p
        → All (Justified l c u n sources p) (dispatcher l c u n sources topic payload).0)
      × (packet_in l c u (l.unmarshal_envelope payload) ≡ none
          → (dispatcher l c u n sources topic payload).0 ≡ [])
unfolding dispatcher dispatch_packet
dispatcher-Justified l c u n sources topic payload = elim (Bool-cases (str_eq topic "/will")) [
  | inl will ↦ ((λ p h. rw will tt), λ h. rw will refl)
  | inr other ↦ (
    (λ p h. rw (other, h) (dispatch_variant-Justified l c u n sources p topic (p.variant) refl)),
    λ h. rw (other, h) refl,
  )
]
