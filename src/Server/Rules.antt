-- ===== src/Server/Rules.antt =====
-- The installed rules: internal/app/server/rules.go. The rule sets are lists in the source's order.
pub mod Laws
pub mod Censor
pub mod Verdict
pub mod Preserve
use meshtk.Prelude.{
  ℕ, List, [], ◌∷◌, ◌++◌, Bool, true, false, ◌||◌, ◌&&◌, not, Option, none, some, ltb, leb, ◌==◌,
  if◌then◌else◌, str_eq, String,
}
use meshtk.Server.Decider.{Rule, Decision, allow, block, rewrote}
use meshtk.Server.Inspect.{text_message_app, position_app, nodeinfo_app, telemetry_app}
use meshtk.Server.Inspector.{
  ControlPacket, connect, subscribe, puback, pingreq, unsubscribe, disconnect, RawPacket,
  InspectorPacket, RewriteError, remarshal_envelope, rewrite_payload_string,
}
use meshtk.Server.Libs.{MeshData, MeshPacket, ServiceEnvelope, Libs}

-- The two `switch`es of AllowMQTTControl list the same types.
unfoldable pub is_control : ControlPacket → Bool
is_control connect = true
is_control subscribe = true
is_control puback = true
is_control pingreq = true
is_control unsubscribe = true
is_control disconnect = true
is_control _ = false

-- 3.1.1 first, then v5, then a hand-parsed SUBSCRIBE.
unfoldable pub raw_is_control : RawPacket → Bool
unfolding is_control
raw_is_control r = elim (r.mqtt) [
  | some c ↦ is_control c
  | none ↦ elim (r.mqtt5) [
    | some c ↦ is_control c
    | none ↦ elim (r.mqtt5_raw_sub) [ some s ↦ true | none ↦ false ]
  ]
]

abbrev pub is_some {ℓ} : {A : Type ℓ} → Option A → Bool
is_some none = false
is_some (some _) = true

-- `if x > top { x = top }`
abbrev pub at_most : ℕ → ℕ → ℕ
at_most top x = if ltb top x then top else x

unfoldable pub clamp_hops : MeshPacket → MeshPacket
clamp_hops p = record p { hop_limit = at_most 3 (p.hop_limit); hop_start = at_most 7 (p.hop_start) }

unfoldable pub within_budget : MeshPacket → Bool
within_budget p = leb (p.hop_limit) 3 && leb (p.hop_start) 7

-- The texts that the censor replaces, and what it puts for them, in UTF-8.
abbrev pub censored : List (List ℕ × List ℕ)
censored =
    (b'h' ∷ b'i' ∷ [], b'b' ∷ b'y' ∷ b'e' ∷ [])
    ∷ (b'h' ∷ b'e' ∷ b'l' ∷ b'l' ∷ b'o' ∷ [], 0xf0 ∷ 0x9f ∷ 0x91 ∷ 0x8b ∷ [])
    ∷ (b'f' ∷ b'u' ∷ b'c' ∷ b'k' ∷ [], 0xf0 ∷ 0x9f ∷ 0xa4 ∷ 0xac ∷ [])
    ∷ []

module _ (l : Libs) where
  open l use {replace_all}

  -- `if err != nil { return false }; return true`, with the packet as the rewrite left it.
  abbrev pub succeeded : InspectorPacket l × Option RewriteError → InspectorPacket l × Bool
  succeeded (ip, none) = (ip, true)
  succeeded (ip, some e) = (ip, false)

  unfoldable pub clamp_packet :
      InspectorPacket l → Option ServiceEnvelope → Option MeshPacket → InspectorPacket l × Bool
  unfolding clamp_hops within_budget
  clamp_packet ip (some e) (some p) =
      if within_budget p
      then (ip, false)
      else succeeded (
          remarshal_envelope l (record ip {
            raw = record (ip.raw) { meshtastic = some (record e { packet = some (clamp_hops p) }) };
          }))
  clamp_packet ip _ _ = (ip, false)

  abbrev pub packet_of : Option ServiceEnvelope → Option MeshPacket
  packet_of none = none
  packet_of (some e) = e.packet

  -- RewriteHopLimit
  unfoldable pub rewrite_hop_limit : InspectorPacket l → InspectorPacket l × Bool
  unfolding clamp_packet
  rewrite_hop_limit ip = clamp_packet ip (ip.raw.meshtastic) (packet_of (ip.raw.meshtastic))

  unfoldable pub replace_each : List (List ℕ × List ℕ) → List ℕ → List ℕ
  replace_each [] s = s
  replace_each ((old, new) ∷ rest) s = replace_each rest (replace_all s old new)

  abbrev pub is_text : Option MeshData → Bool
  is_text none = false
  is_text (some d) = d.portnum == text_message_app

  -- The censor's guard, said positively.
  unfoldable pub can_censor : InspectorPacket l → Bool
  can_censor ip =
      is_some (packet_of (ip.raw.meshtastic))
      && is_text (ip.mesh.decoded)
      && not (ip.mesh.was_pki_encrypted)
      && ip.mesh.was_encrypted
      && is_some (ip.mesh.cipher)

  unfoldable pub censor_text : InspectorPacket l → InspectorPacket l
  unfolding replace_each
  censor_text ip =
      if str_eq (ip.track.username) "public"
      then record ip {
        mesh = record (ip.mesh) { payload_string = replace_each censored (ip.mesh.payload_string) };
      }
      else ip

  -- RewriteHelloGoodbye
  unfoldable pub rewrite_hello_goodbye : InspectorPacket l → InspectorPacket l × Bool
  unfolding can_censor censor_text
  rewrite_hello_goodbye ip =
      if can_censor ip then succeeded (rewrite_payload_string l (censor_text ip)) else (ip, false)

  abbrev pub rule : String → (InspectorPacket l → Bool) → Decision → String → Rule l
  rule name test action reason = record {
    name = name;
    description = name;
    matcher = λ ip. (ip, test ip);
    action = action;
    reason = reason;
  }

  abbrev pub rewrite_rules : List (Rule l)
  rewrite_rules =
      record {
        name = "RewriteHopLimit";
        description = "Clamp oversized hop budgets before fan-out";
        matcher = rewrite_hop_limit;
        action = rewrote;
        reason = "Hop budget clamped (RF flood-radius cap)";
      }
      ∷ record {
        name = "RewriteHelloGoodbye";
        description = "Replace words in channel messages";
        matcher = rewrite_hello_goodbye;
        action = rewrote;
        reason = "MQTT Connect packets are rewritten";
      }
      ∷ []

  abbrev pub inspect_rules : List (Rule l)
  inspect_rules =
      rule "AllowMQTTControl" (λ ip. raw_is_control (ip.raw)) allow
        "MQTT control packets are allowed"
      ∷ rule "AllowPKIEncrypted" (λ ip. ip.mesh.was_pki_encrypted) allow
          "PKI-encrypted packets are allowed"
      ∷ rule "BlockInvalidEncryption"
          (λ ip. ip.mesh.had_encrypted_payload && not (ip.mesh.was_encrypted)) block
          "Failed to decrypt with any known key"
      ∷ rule "RequireMQTTUserName" (λ ip. str_eq (ip.track.username) "") block
          "Username required for MQTT"
      ∷ rule "AllowedMeshtasticApps"
          (λ ip.
            ip.mesh.port_num == nodeinfo_app
            || ip.mesh.port_num == position_app
            || ip.mesh.port_num == text_message_app)
          allow "NodeInfo/Position/Text Message packets are always allowed"
      ∷ rule "AllowTelemetryForSensorUser"
          (λ ip. ip.mesh.port_num == telemetry_app && str_eq (ip.track.username) "sensor") allow
          "Telemetry packets are allowed for 'public' users"
      ∷ []

  -- `LoadInspectorRules`
  abbrev pub installed_rules : List (Rule l)
  installed_rules = rewrite_rules ++ inspect_rules
