-- ===== src/Server/Inspect/Laws.antt =====
-- inspectMeshtastic of internal/app/server/inspect.go reads the raw packet and leaves it.
use meshtk.Prelude.{List, Bool-cases, Option, none, some, true, ◌≡◌, refl, inl, inr}
use meshtk.Server.Inspect.{
  Channel, Decrypted, decrypt_meshtastic, record_decoded, record_decrypted, inspect_variant,
  inspect_packet, inspect_envelope, inspect_meshtastic,
}
use meshtk.Server.Inspector.{InspectorPacket}
use meshtk.Server.Libs.{MeshPacket, Variant, decoded, encrypted, empty, ServiceEnvelope, Libs}

module _ (l : Libs) where
  -- Inspecting reads the raw packet and leaves it.
  abbrev pub SameRaw : InspectorPacket l → InspectorPacket l → Type 0
  SameRaw ip ip' = (ip'.raw ≡ ip.raw) × (ip'.wire_rewritten ≡ ip.wire_rewritten)

  record_decrypted-SameRaw :
      (r : Option (Decrypted l)) (ip : InspectorPacket l) → SameRaw ip (record_decrypted l r ip)
  unfolding record_decrypted record_decoded
  record_decrypted-SameRaw none ip = (refl, refl)
  record_decrypted-SameRaw (some r) ip = (refl, refl)

  inspect_variant-SameRaw :
      (ks : List (Channel l)) (p : MeshPacket) (v : Variant) (ip : InspectorPacket l)
      → SameRaw ip (inspect_variant l ks p v ip)
  unfolding inspect_variant record_decoded
  inspect_variant-SameRaw ks p (decoded d) ip = (refl, refl)
  inspect_variant-SameRaw ks p empty ip = (refl, refl)
  inspect_variant-SameRaw ks p (encrypted b) ip = elim (Bool-cases (p.pki_encrypted)) [
    | inl pki ↦ rw pki (refl, refl)
    | inr plain ↦ rw plain (
        record_decrypted-SameRaw (decrypt_meshtastic l ks (p.id) (p.from) b)
          (record ip { mesh = record (ip.mesh) { had_encrypted_payload = true } }))
  ]

  inspect_packet-SameRaw :
      (ks : List (Channel l)) (o : Option MeshPacket) (ip : InspectorPacket l)
      → SameRaw ip (inspect_packet l ks o ip)
  unfolding inspect_packet
  inspect_packet-SameRaw ks none ip = (refl, refl)
  inspect_packet-SameRaw ks (some p) ip =
      inspect_variant-SameRaw ks p (p.variant)
        (record ip { mesh = record (ip.mesh) { id = p.id; from = p.from; to = p.to } })

  inspect_envelope-SameRaw :
      (ks : List (Channel l)) (o : Option ServiceEnvelope) (ip : InspectorPacket l)
      → SameRaw ip (inspect_envelope l ks o ip)
  unfolding inspect_envelope
  inspect_envelope-SameRaw ks none ip = (refl, refl)
  inspect_envelope-SameRaw ks (some e) ip = inspect_packet-SameRaw ks (e.packet) ip

  pub inspect_meshtastic-SameRaw :
      (ks : List (Channel l)) (ip : InspectorPacket l) → SameRaw ip (inspect_meshtastic l ks ip)
  unfolding inspect_meshtastic
  inspect_meshtastic-SameRaw ks ip = inspect_envelope-SameRaw ks (ip.raw.meshtastic) ip
