-- ===== src/Server/Rules/Censor.antt =====
-- The censor of internal/app/server/rules.go: what it puts on the wire, and when.
use meshtk.Prelude.{
  ℕ, List, Bool, true, false, Bool-cases, Option, none, some, Option-cases, ◌≡◌, ◌≢◌, refl, ◌∙◌, ap,
  sym, subst, arith, inl, inr, ◌⊎◌,
}
use meshtk.Server.Inspector.{
  RawPacket, InspectorPacket, remarshal_envelope, rewrite_payload_string, reencrypt,
  encrypt_payload, with_variant, set_variant,
}
use meshtk.Server.Inspector.Laws.{wire_payload, WireAgrees, Rewrote, remarshal_envelope-Rewrote}
use meshtk.Server.Libs.{MeshData, MeshPacket, ServiceEnvelope, Variant, encrypted, Libs, LibsLaws}
use meshtk.Server.Rules.{succeeded, can_censor, censor_text, rewrite_hello_goodbye}
use meshtk.Server.Rules.Laws.{with_packet, succeeded-Sent}

abbrev pub with_ciphertext : ServiceEnvelope → MeshPacket → List ℕ → ServiceEnvelope
with_ciphertext e p b = with_packet e (record p { variant = encrypted b })

module _ (l : Libs) where
  -- What the censor puts on the wire at a packet with text `d` and cipher `c`: the data with the
  -- text replaced and nothing else, enciphered under the packet's own nonce.
  abbrev pub Censored :
      InspectorPacket l
      → ServiceEnvelope
      → MeshPacket
      → MeshData
      → l.Cipher
      → InspectorPacket l × Bool
      → Type 0
  Censored ip e p d c out =
      (b : List ℕ) × (l.unmarshal_data b
        ≡ some (record d { payload = (censor_text l ip).mesh.payload_string }))
      × WireAgrees l out.0 (with_ciphertext e p (l.key_stream c (ip.mesh.id) (ip.mesh.from) b))
      × (out.1 ≡ true)

  -- Nothing of it reached the wire.
  abbrev pub Untouched : InspectorPacket l → InspectorPacket l × Bool → Type 0
  Untouched ip out =
      (out.0.raw ≡ ip.raw) × (out.0.wire_rewritten ≡ ip.wire_rewritten) × (out.1 ≡ false)

  with_variant-some :
      (o : Option ServiceEnvelope) (e : ServiceEnvelope) (p : MeshPacket) (v : Variant)
      → o ≡ some e
      → e.packet ≡ some p
      → with_variant l v o ≡ some (with_packet e (record p { variant = v }))
  unfolding with_variant set_variant
  with_variant-some o e p v h k =
      ap (with_variant l v) h ∙ ap (λ q. some (record e { packet = set_variant v q })) k

  -- The packet whose envelope is replaced.
  abbrev swapped : InspectorPacket l → Option ServiceEnvelope → InspectorPacket l
  swapped ip o = record ip { raw = record (ip.raw) { meshtastic = o } }

  encrypt_payload-Rewrote :
      LibsLaws l
      → (ip : InspectorPacket l) (e : ServiceEnvelope) (p : MeshPacket) (c : l.Cipher) (b : List ℕ)
      → WireAgrees l ip e
      → e.packet ≡ some p
      → ((v : List ℕ) → l.marshal_envelope (with_ciphertext e p v) ≢ none)
      → let e' = with_ciphertext e p (l.key_stream c (ip.mesh.id) (ip.mesh.from) b) in
        Rewrote l (swapped ip (some e')) e' (encrypt_payload l ip c (some b))
  unfolding encrypt_payload wire_payload
  encrypt_payload-Rewrote laws ip e p c b agrees h marshals =
      let cipher = l.key_stream c (ip.mesh.id) (ip.mesh.from) b in
      let e' = with_ciphertext e p cipher in
      subst (λ o. Rewrote l (swapped ip (some e')) e' (remarshal_envelope l (swapped ip o)))
        (sym (with_variant-some (ip.raw.meshtastic) e p (encrypted cipher) agrees.3 h))
        (remarshal_envelope-Rewrote l laws (swapped ip (some e')) e' agrees.0 refl agrees.1
          (marshals cipher))

  -- The data that the censor writes.
  abbrev pub reworded : InspectorPacket l → MeshData → MeshData
  reworded ip d = record d { payload = ip.mesh.payload_string }

  abbrev pub noted : InspectorPacket l → MeshData → InspectorPacket l
  noted ip d = record ip { mesh = record (ip.mesh) { decoded = some (reworded ip d) } }

  rewrite_payload_string-lem :
      (ip : InspectorPacket l) (d : MeshData) (c : l.Cipher) (o : Option (List ℕ))
      → ip.mesh.was_pki_encrypted ≡ false
      → ip.mesh.decoded ≡ some d
      → ip.mesh.cipher ≡ some c
      → l.marshal_data (reworded ip d) ≡ o
      → rewrite_payload_string l ip ≡ encrypt_payload l (noted ip d) c o
  unfolding rewrite_payload_string reencrypt
  rewrite_payload_string-lem ip d c o pki decoded ciphered m = rw (pki, decoded, ciphered, m) refl

  -- Only the text of the packet is replaced.
  censor_text-same :
      (ip : InspectorPacket l)
      → let ip' = censor_text l ip in
        (ip'.raw ≡ ip.raw)
        × (ip'.mesh.decoded ≡ ip.mesh.decoded)
        × (ip'.mesh.cipher ≡ ip.mesh.cipher)
        × (ip'.mesh.was_pki_encrypted ≡ ip.mesh.was_pki_encrypted)
        × (ip'.mesh.id ≡ ip.mesh.id)
        × (ip'.mesh.from ≡ ip.mesh.from)
        × (ip'.wire_rewritten ≡ ip.wire_rewritten)
  unfolding censor_text
  censor_text-same ip = ground arith

  can_censor-pki :
      (ip : InspectorPacket l) → can_censor l ip ≡ true → ip.mesh.was_pki_encrypted ≡ false
  unfolding can_censor
  can_censor-pki ip h = ground arith

  -- A packet that can be censored, whose new data marshals, and whose envelope marshals with any
  -- ciphertext, leaves with the reworded data, its other fields kept, enciphered under its own nonce
  -- in its own envelope.
  pub rewrite_hello_goodbye-Censored :
      LibsLaws l
      → (ip : InspectorPacket l) (e : ServiceEnvelope) (p : MeshPacket) (d : MeshData)
        (c : l.Cipher) (b : List ℕ)
      → WireAgrees l ip e
      → e.packet ≡ some p
      → can_censor l ip ≡ true
      → ip.mesh.decoded ≡ some d
      → ip.mesh.cipher ≡ some c
      → l.marshal_data (reworded (censor_text l ip) d) ≡ some b
      → ((v : List ℕ) → l.marshal_envelope (with_ciphertext e p v) ≢ none)
      → Censored ip e p d c (rewrite_hello_goodbye l ip)
  unfolding rewrite_hello_goodbye
  rewrite_hello_goodbye-Censored laws ip e p d c b agrees h can decoded ciphered m marshals =
      let t = censor_text l ip in
      let (same, kept, ciph, pki, i, f, w) = censor_text-same ip in
      let t_agrees : WireAgrees l t e = (
        agrees.0,
        ap wire_payload same ∙ agrees.1,
        agrees.2,
        ap (λ (r : RawPacket). r.meshtastic) same ∙ agrees.3,
      ) in
      let rewrote = encrypt_payload-Rewrote laws (noted t d) e p c b t_agrees h marshals in
      let e' = with_ciphertext e p (l.key_stream c (t.mesh.id) (t.mesh.from) b) in
      let written = encrypt_payload l (noted t d) c (some b) in
      let (wire, _, fine) =
        succeeded-Sent l (noted t d) (swapped (noted t d) (some e')) e' written rewrote refl refl in
      let spelled =
        rewrite_payload_string-lem t d c (some b) (pki ∙ can_censor-pki ip can) (kept ∙ decoded)
          (ciph ∙ ciphered) m in
      rw can (
        subst (λ out. Censored ip e p d c (succeeded l out)) (sym spelled)
          (
            b,
            laws.unmarshal-marshal_data _ b m,
            subst
                (λ n.
                  WireAgrees l (succeeded l written).0
                    (with_ciphertext e p (l.key_stream c n (ip.mesh.from) b)))
                i
                (subst
                  (λ n.
                    WireAgrees l (succeeded l written).0
                      (with_ciphertext e p (l.key_stream c (t.mesh.id) n b)))
                  f wire),
            fine,
          ))

  can_censor-cipher : (ip : InspectorPacket l) → can_censor l ip ≡ true → ip.mesh.cipher ≢ none
  unfolding can_censor
  can_censor-cipher ip h = ground arith

  unmarshallable-Untouched :
      (ip : InspectorPacket l) (d : MeshData) (c : l.Cipher)
      → can_censor l ip ≡ true
      → ip.mesh.decoded ≡ some d
      → ip.mesh.cipher ≡ some c
      → l.marshal_data (reworded (censor_text l ip) d) ≡ none
      → Untouched ip (rewrite_hello_goodbye l ip)
  unfolding rewrite_hello_goodbye encrypt_payload
  unmarshallable-Untouched ip d c can decoded ciphered m =
      let (same, kept, ciph, pki, i, f, w) = censor_text-same ip in
      let spelled =
        rewrite_payload_string-lem (censor_text l ip) d c none (pki ∙ can_censor-pki ip can)
          (kept ∙ decoded) (ciph ∙ ciphered) m in
      rw can (subst (λ out. Untouched ip (succeeded l out)) (sym spelled) (same, w, refl))

  -- The censor leaves a packet that it cannot censor, and one whose new data does not marshal.
  pub rewrite_hello_goodbye-Untouched :
      (ip : InspectorPacket l)
      → (can_censor l ip ≡ false)
        ⊎ ((d : MeshData) × (ip.mesh.decoded ≡ some d)
            × (l.marshal_data (reworded (censor_text l ip) d) ≡ none))
      → Untouched ip (rewrite_hello_goodbye l ip)
  unfolding rewrite_hello_goodbye
  rewrite_hello_goodbye-Untouched ip (inl cannot) = rw cannot (refl, refl, refl)
  rewrite_hello_goodbye-Untouched ip (inr (d, decoded, m)) = elim (Bool-cases (can_censor l ip)) [
    | inr cannot ↦ rw cannot (refl, refl, refl)
    | inl can ↦ elim (Option-cases (ip.mesh.cipher)) [
      | inl missing ↦ ground (arith, can_censor-cipher ip can missing)
      | inr (c, ciphered) ↦ unmarshallable-Untouched ip d c can decoded ciphered m
    ]
  ]

  can_censor-decoded : (ip : InspectorPacket l) → can_censor l ip ≡ true → ip.mesh.decoded ≢ none
  unfolding can_censor
  can_censor-decoded ip h = ground arith

  -- Some variant of the packet's, with which the wire carries the envelope.
  abbrev pub CarriesSome : InspectorPacket l → ServiceEnvelope → MeshPacket → Type 0
  CarriesSome ip e p = (v : Variant) × WireAgrees l ip (with_packet e (record p { variant = v }))

  untouched-CarriesSome :
      (ip ip' : InspectorPacket l) (e : ServiceEnvelope) (p : MeshPacket)
      → WireAgrees l ip e
      → e.packet ≡ some p
      → ip'.raw ≡ ip.raw
      → CarriesSome ip' e p
  unfolding wire_payload
  untouched-CarriesSome ip ip' e p (b, wire, read, held) h same =
      let back : e ≡ with_packet e p = ap (λ o. record e { packet = o }) h in
      (
        p.variant,
        (
          b,
          ap wire_payload same ∙ wire,
          read ∙ ap some back,
          ap (λ (r : RawPacket). r.meshtastic) same ∙ held ∙ ap some back,
        ),
      )

  -- Whatever the censor does, the wire still carries an envelope that differs at most in the
  -- variant of its packet.
  pub rewrite_hello_goodbye-WireAgrees :
      LibsLaws l
      → (ip : InspectorPacket l) (e : ServiceEnvelope) (p : MeshPacket) → WireAgrees l ip e
      → e.packet ≡ some p
      → ((v : Variant) → l.marshal_envelope (with_packet e (record p { variant = v })) ≢ none)
      → CarriesSome (rewrite_hello_goodbye l ip).0 e p
  rewrite_hello_goodbye-WireAgrees laws ip e p agrees h marshals =
      let untouched =
        λ (why : (can_censor l ip ≡ false)
            ⊎ ((d : MeshData) × (ip.mesh.decoded ≡ some d)
                × (l.marshal_data (reworded (censor_text l ip) d) ≡ none))).
          untouched-CarriesSome ip (rewrite_hello_goodbye l ip).0 e p agrees h
            (rewrite_hello_goodbye-Untouched ip why).0 in
      elim (Bool-cases (can_censor l ip)) [
        | inr cannot ↦ untouched (inl cannot)
        | inl can ↦ elim (Option-cases (ip.mesh.decoded)) [
          | inl missing ↦ ground (arith, can_censor-decoded ip can missing)
          | inr (d, decoded) ↦ elim (Option-cases (ip.mesh.cipher)) [
            | inl missing ↦ ground (arith, can_censor-cipher ip can missing)
            | inr (c, ciphered) ↦
                elim (Option-cases (l.marshal_data (reworded (censor_text l ip) d))) [
                  | inl failed ↦ untouched (inr (d, decoded, failed))
                  | inr (b, m) ↦
                      let sent =
                        rewrite_hello_goodbye-Censored laws ip e p d c b agrees h can decoded
                          ciphered m (λ v. marshals (encrypted v)) in
                      (encrypted (l.key_stream c (ip.mesh.id) (ip.mesh.from) sent.0), sent.2)
                ]
          ]
        ]
      ]
