-- ===== src/Server/Rules/Verdict.antt =====
-- What `Decide` answers for the installed rules, and what the backend then receives.
use meshtk.Prelude.{
  ℕ, List, Bool, true, false, Bool-cases, Option, none, some, ◌≡◌, ◌≢◌, ◌↔◌, ◌⊎◌, inl, inr, refl,
  ◌∙◌, sym, subst, arith, not, ◌&&◌, ◌||◌, ◌==◌, if◌then◌else◌, str_eq,
}
use meshtk.Server.Decider.{Decision, allow, block, no_match, decide}
use meshtk.Server.Inspect.{text_message_app, position_app, nodeinfo_app, telemetry_app}
use meshtk.Server.Inspector.{
  InspectorPacket, RewriteError, set_publish_payload, remarshal_envelope, put_envelope,
  dispatch_payload, with_payload, set_in_mqtt, set_in_mqtt5, rewrite_payload_string, reencrypt,
  encrypt_payload,
}
use meshtk.Server.Libs.{MeshPacket, MeshData, ServiceEnvelope, Variant, Libs, LibsLaws}
use meshtk.Server.Rules.{
  raw_is_control, is_control, rewrite_hop_limit, clamp_packet, rewrite_hello_goodbye, censor_text,
  packet_of, installed_rules, succeeded, within_budget, can_censor,
}
use meshtk.Server.Rules.Laws.{capped, with_packet, rewrite_hop_limit-capped}
use meshtk.Server.Rules.Censor.{noted, CarriesSome, rewrite_hello_goodbye-WireAgrees}
use meshtk.Server.Inspector.Laws.{WireAgrees}

module _ (l : Libs) where
  -- The packet as the two rewrites leave it.
  abbrev pub rewritten : InspectorPacket l → InspectorPacket l
  rewritten ip = (rewrite_hello_goodbye l (rewrite_hop_limit l ip).0).0

  -- What the verdict depends on is the same of both packets.
  abbrev pub SameFlags : InspectorPacket l → InspectorPacket l → Type 0
  SameFlags ip ip' =
      (raw_is_control (ip'.raw) ≡ raw_is_control (ip.raw))
      × (ip'.mesh.was_pki_encrypted ≡ ip.mesh.was_pki_encrypted)
      × (ip'.mesh.had_encrypted_payload ≡ ip.mesh.had_encrypted_payload)
      × (ip'.mesh.was_encrypted ≡ ip.mesh.was_encrypted)
      × (ip'.mesh.port_num ≡ ip.mesh.port_num)
      × (ip'.track ≡ ip.track)

  set_publish_payload-SameFlags :
      (b : List ℕ) (ip : InspectorPacket l) → SameFlags ip (set_publish_payload l b ip).0
  unfolding set_publish_payload raw_is_control is_control dispatch_payload set_in_mqtt set_in_mqtt5
      with_payload
  set_publish_payload-SameFlags b ip = ground arith

  put_envelope-SameFlags :
      (ip : InspectorPacket l) (o : Option (List ℕ)) → SameFlags ip (put_envelope l ip o).0
  unfolding put_envelope
  put_envelope-SameFlags ip none = (refl, refl, refl, refl, refl, refl)
  put_envelope-SameFlags ip (some b) = set_publish_payload-SameFlags b ip

  remarshal_envelope-SameFlags :
      (ip : InspectorPacket l) (o : Option ServiceEnvelope)
      → SameFlags ip
          (remarshal_envelope l (record ip { raw = record (ip.raw) { meshtastic = o } })).0
  unfolding remarshal_envelope raw_is_control
  remarshal_envelope-SameFlags ip o =
      put_envelope-SameFlags (record ip { raw = record (ip.raw) { meshtastic = o } }) _

  succeeded-SameFlags :
      (ip : InspectorPacket l) (out : InspectorPacket l × Option RewriteError)
      → SameFlags ip out.0
      → SameFlags ip (succeeded l out).0
  succeeded-SameFlags ip (ip', none) same = same
  succeeded-SameFlags ip (ip', some e) same = same

  clamp_packet-SameFlags :
      (ip : InspectorPacket l) (e : Option ServiceEnvelope) (p : Option MeshPacket)
      → SameFlags ip (clamp_packet l ip e p).0
  unfolding clamp_packet
  clamp_packet-SameFlags ip none _ = (refl, refl, refl, refl, refl, refl)
  clamp_packet-SameFlags ip (some e) none = (refl, refl, refl, refl, refl, refl)
  clamp_packet-SameFlags ip (some e) (some p) = elim (Bool-cases (within_budget p)) [
    | inl fits ↦ rw fits (refl, refl, refl, refl, refl, refl)
    | inr over ↦ rw over (succeeded-SameFlags ip _ (remarshal_envelope-SameFlags ip _))
  ]

  pub rewrite_hop_limit-SameFlags :
      (ip : InspectorPacket l) → SameFlags ip (rewrite_hop_limit l ip).0
  unfolding rewrite_hop_limit
  rewrite_hop_limit-SameFlags ip =
      clamp_packet-SameFlags ip (ip.raw.meshtastic) (packet_of l (ip.raw.meshtastic))

  encrypt_payload-SameFlags :
      (ip : InspectorPacket l) (c : l.Cipher) (o : Option (List ℕ))
      → SameFlags ip (encrypt_payload l ip c o).0
  unfolding encrypt_payload
  encrypt_payload-SameFlags ip c none = (refl, refl, refl, refl, refl, refl)
  encrypt_payload-SameFlags ip c (some b) = remarshal_envelope-SameFlags ip _

  reencrypt-SameFlags :
      (ip : InspectorPacket l) (d : Option MeshData) (c : Option l.Cipher)
      → SameFlags ip (reencrypt l ip d c).0
  unfolding reencrypt
  reencrypt-SameFlags ip none _ = (refl, refl, refl, refl, refl, refl)
  reencrypt-SameFlags ip (some d) none = (refl, refl, refl, refl, refl, refl)
  reencrypt-SameFlags ip (some d) (some c) = encrypt_payload-SameFlags (noted l ip d) c _

  if-SameFlags :
      (ip : InspectorPacket l) (b : Bool) (x y : InspectorPacket l × Option RewriteError)
      → SameFlags ip x.0
      → SameFlags ip y.0
      → SameFlags ip (if b then x else y).0
  if-SameFlags ip true x y sx sy = sx
  if-SameFlags ip false x y sx sy = sy

  rewrite_payload_string-SameFlags :
      (ip : InspectorPacket l) → SameFlags ip (rewrite_payload_string l ip).0
  unfolding rewrite_payload_string
  rewrite_payload_string-SameFlags ip =
      if-SameFlags ip (ip.mesh.was_pki_encrypted) _
        (reencrypt l ip (ip.mesh.decoded) (ip.mesh.cipher)) (refl, refl, refl, refl, refl, refl)
        (reencrypt-SameFlags ip (ip.mesh.decoded) (ip.mesh.cipher))

  censor_text-SameFlags : (ip : InspectorPacket l) → SameFlags ip (censor_text l ip)
  unfolding censor_text
  censor_text-SameFlags ip = ground arith

  SameFlags-trans : (a b c : InspectorPacket l) → SameFlags a b → SameFlags b c → SameFlags a c
  SameFlags-trans a b c (f, g, h, i, j, k) (f', g', h', i', j', k') =
      (f' ∙ f, g' ∙ g, h' ∙ h, i' ∙ i, j' ∙ j, k' ∙ k)

  pub rewrite_hello_goodbye-SameFlags :
      (ip : InspectorPacket l) → SameFlags ip (rewrite_hello_goodbye l ip).0
  unfolding rewrite_hello_goodbye
  rewrite_hello_goodbye-SameFlags ip = elim (Bool-cases (can_censor l ip)) [
    | inr cannot ↦ rw cannot (refl, refl, refl, refl, refl, refl)
    | inl can ↦ rw can (
        succeeded-SameFlags ip (rewrite_payload_string l (censor_text l ip)) (
          SameFlags-trans ip (censor_text l ip) ((rewrite_payload_string l (censor_text l ip)).0)
            (censor_text-SameFlags ip) (rewrite_payload_string-SameFlags (censor_text l ip))))
  ]

  pub rewritten-SameFlags : (ip : InspectorPacket l) → SameFlags ip (rewritten ip)
  rewritten-SameFlags ip =
      SameFlags-trans ip ((rewrite_hop_limit l ip).0) (rewritten ip)
        (rewrite_hop_limit-SameFlags ip)
        (rewrite_hello_goodbye-SameFlags (rewrite_hop_limit l ip).0)

  pub decide-rewritten :
      (ip : InspectorPacket l) → (decide l (installed_rules l) ip).0 ≡ rewritten ip
  unfolding decide
  decide-rewritten ip = ground arith

  -- The verdict of the first rule that applies, said of the flags alone.
  abbrev pub verdict : InspectorPacket l → Decision
  verdict ip =
      if raw_is_control (ip.raw) || ip.mesh.was_pki_encrypted
      then allow
      else if ip.mesh.had_encrypted_payload && not (ip.mesh.was_encrypted)
          || str_eq (ip.track.username) ""
      then block
      else if ip.mesh.port_num == nodeinfo_app
          || ip.mesh.port_num == position_app
          || ip.mesh.port_num == text_message_app
          || ip.mesh.port_num == telemetry_app && str_eq (ip.track.username) "sensor"
      then allow
      else no_match

  decide-verdict_after :
      (ip : InspectorPacket l)
      → (decide l (installed_rules l) ip).1.decision ≡ verdict (rewritten ip)
  unfolding decide
  decide-verdict_after ip = ground arith

  verdict-same : (ip ip' : InspectorPacket l) → SameFlags ip ip' → verdict ip' ≡ verdict ip
  verdict-same ip ip' (c, p, h, w, n, t) = rw (c, p, h, w, n, t) refl

  -- The decision over the installed rules is the verdict read off the packet as it came in: neither
  -- rewrite changes what the verdict depends on.
  pub decide-verdict :
      (ip : InspectorPacket l) → (decide l (installed_rules l) ip).1.decision ≡ verdict ip
  decide-verdict ip =
      decide-verdict_after ip ∙ verdict-same ip (rewritten ip) (rewritten-SameFlags ip)

  -- The installed rules block a packet exactly when it is no control packet, not PKI-encrypted, and
  -- either undecryptable or without a user name.
  pub decide-block :
      (ip : InspectorPacket l)
      → ((decide l (installed_rules l) ip).1.decision ≡ block) ↔ (
          (raw_is_control (ip.raw) ≡ false)
          × (ip.mesh.was_pki_encrypted ≡ false)
          × (((ip.mesh.had_encrypted_payload ≡ true) × (ip.mesh.was_encrypted ≡ false))
              ⊎ (str_eq (ip.track.username) "" ≡ true)))
  decide-block ip = rw (decide-verdict ip) (ground arith)

  -- Whatever the installed rules decide: if the wire carried an envelope with a packet, and the
  -- envelope with the capped packet marshals with any variant, then the wire afterwards carries that
  -- envelope with the hop limit capped to 3 and the hop start to 7, and at most the variant replaced.
  pub decide-capped :
      LibsLaws l
      → (ip : InspectorPacket l) (e : ServiceEnvelope) (p : MeshPacket) → WireAgrees l ip e
      → e.packet ≡ some p
      → ((v : Variant)
          → l.marshal_envelope (with_packet e (record (capped p) { variant = v })) ≢ none)
      → CarriesSome l (decide l (installed_rules l) ip).0 e (capped p)
  decide-capped laws ip e p agrees h marshals =
      let (hops, _, _) = rewrite_hop_limit-capped l laws ip e p agrees h (marshals (p.variant)) in
      subst (λ out. CarriesSome l out e (capped p)) (sym (decide-rewritten ip))
        (rewrite_hello_goodbye-WireAgrees l laws (rewrite_hop_limit l ip).0
          (with_packet e (capped p)) (capped p) hops refl marshals)
