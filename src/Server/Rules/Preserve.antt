-- ===== src/Server/Rules/Preserve.antt =====
-- What the rewrites of internal/app/server/rules.go keep: a property of packets that survives a
-- change of what was read, a change of the envelope, and a new payload, survives both rules.
use meshtk.Prelude.{
  ℕ, List, Bool, true, false, Option, none, some, sym, subst, str_eq, if◌then◌else◌,
}
use meshtk.Server.Decider.{decide}
use meshtk.Server.Inspector.{
  InspectorPacket, MeshInfo, RewriteError, set_publish_payload, remarshal_envelope, put_envelope,
  rewrite_payload_string, reencrypt, encrypt_payload,
}
use meshtk.Server.Libs.{MeshData, MeshPacket, ServiceEnvelope, Libs}
use meshtk.Server.Rules.{
  rewrite_hop_limit, clamp_packet, rewrite_hello_goodbye, censor_text, succeeded, packet_of,
  installed_rules, within_budget, can_censor,
}
use meshtk.Server.Rules.Verdict.{decide-rewritten}

module _ (l : Libs) (P : InspectorPacket l → Type 0)
    (keep_mesh : (ip : InspectorPacket l) (mesh : MeshInfo l)
      → P ip
      → P (record ip { mesh = mesh }))
    (keep_envelope : (ip : InspectorPacket l) (o : Option ServiceEnvelope)
      → P ip
      → P (record ip { raw = record (ip.raw) { meshtastic = o } }))
    (keep_payload : (b : List ℕ) (ip : InspectorPacket l)
      → P ip
      → P (set_publish_payload l b ip).0) where
  put_envelope_keeps :
      (ip : InspectorPacket l) (o : Option (List ℕ)) → P ip → P (put_envelope l ip o).0
  unfolding put_envelope
  put_envelope_keeps ip none p = p
  put_envelope_keeps ip (some b) p = keep_payload b ip p

  remarshal_envelope_keeps : (ip : InspectorPacket l) → P ip → P (remarshal_envelope l ip).0
  unfolding remarshal_envelope
  remarshal_envelope_keeps ip p = put_envelope_keeps ip _ p

  succeeded_keeps :
      (out : InspectorPacket l × Option RewriteError) → P out.0 → P (succeeded l out).0
  succeeded_keeps (ip, none) p = p
  succeeded_keeps (ip, some e) p = p

  if_keeps :
      {B : Type 0} (b : Bool) (x y : InspectorPacket l × B)
      → P x.0
      → P y.0
      → P (if b then x else y).0
  if_keeps true x y p q = p
  if_keeps false x y p q = q

  clamp_packet_keeps :
      (ip : InspectorPacket l) (e : Option ServiceEnvelope) (q : Option MeshPacket)
      → P ip
      → P (clamp_packet l ip e q).0
  unfolding clamp_packet
  clamp_packet_keeps ip none _ p = p
  clamp_packet_keeps ip (some e) none p = p
  clamp_packet_keeps ip (some e) (some q) p =
      if_keeps (within_budget q) (ip, false) _ p
        (succeeded_keeps _ (remarshal_envelope_keeps _ (keep_envelope ip _ p)))

  encrypt_payload_keeps :
      (ip : InspectorPacket l) (c : l.Cipher) (o : Option (List ℕ))
      → P ip
      → P (encrypt_payload l ip c o).0
  unfolding encrypt_payload
  encrypt_payload_keeps ip c none p = p
  encrypt_payload_keeps ip c (some b) p = remarshal_envelope_keeps _ (keep_envelope ip _ p)

  reencrypt_keeps :
      (ip : InspectorPacket l) (d : Option MeshData) (c : Option l.Cipher)
      → P ip
      → P (reencrypt l ip d c).0
  unfolding reencrypt
  reencrypt_keeps ip none _ p = p
  reencrypt_keeps ip (some d) none p = p
  reencrypt_keeps ip (some d) (some c) p = encrypt_payload_keeps _ c _ (keep_mesh ip _ p)

  rewrite_payload_string_keeps : (ip : InspectorPacket l) → P ip → P (rewrite_payload_string l ip).0
  unfolding rewrite_payload_string
  rewrite_payload_string_keeps ip p =
      if_keeps (ip.mesh.was_pki_encrypted) _ (reencrypt l ip (ip.mesh.decoded) (ip.mesh.cipher)) p
        (reencrypt_keeps ip (ip.mesh.decoded) (ip.mesh.cipher) p)

  choice_keeps : (b : Bool) (x y : InspectorPacket l) → P x → P y → P (if b then x else y)
  choice_keeps true x y p q = p
  choice_keeps false x y p q = q

  censor_text_keeps : (ip : InspectorPacket l) → P ip → P (censor_text l ip)
  unfolding censor_text
  censor_text_keeps ip p =
      choice_keeps (str_eq (ip.track.username) "public") _ ip (keep_mesh ip _ p) p

  rewrite_hello_goodbye_keeps : (ip : InspectorPacket l) → P ip → P (rewrite_hello_goodbye l ip).0
  unfolding rewrite_hello_goodbye
  rewrite_hello_goodbye_keeps ip p =
      if_keeps (can_censor l ip) (succeeded l (rewrite_payload_string l (censor_text l ip)))
        (ip, false)
        (succeeded_keeps (rewrite_payload_string l (censor_text l ip))
          (rewrite_payload_string_keeps (censor_text l ip) (censor_text_keeps ip p)))
        p

  rewrite_hop_limit_keeps : (ip : InspectorPacket l) → P ip → P (rewrite_hop_limit l ip).0
  unfolding rewrite_hop_limit
  rewrite_hop_limit_keeps ip p =
      clamp_packet_keeps ip (ip.raw.meshtastic) (packet_of l (ip.raw.meshtastic)) p

  -- Whatever the two rewrites keep, the whole engine keeps: the other rules change nothing.
  pub decide_keeps : (ip : InspectorPacket l) → P ip → P (decide l (installed_rules l) ip).0
  decide_keeps ip p =
      subst P (sym (decide-rewritten l ip))
        (rewrite_hello_goodbye_keeps (rewrite_hop_limit l ip).0 (rewrite_hop_limit_keeps ip p))
