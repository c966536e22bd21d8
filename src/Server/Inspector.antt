-- ===== src/Server/Inspector.antt =====
-- The inspected packet and the two ways a rule rewrites it: internal/app/server/inspect.go.
pub mod Laws
use meshtk.Prelude.{ℕ, List, [], Bool, true, false, Option, none, some, String, if◌then◌else◌}
use meshtk.Server.Libs.{MeshData, Variant, encrypted, MeshPacket, ServiceEnvelope, Libs}
use meshtk.Wire.Publish.{RawPublish}
use meshtk.Wire.Subscribe.{RawSubscribe}

-- A control packet of either codec, as far as the rules tell them apart.
pub data ControlPacket : Type 0 where
  connect subscribe puback pingreq unsubscribe disconnect : ControlPacket
  connack suback unsuback pubrec pubrel pubcomp pingresp auth : ControlPacket
  publish : List ℕ → List ℕ → ControlPacket

-- The members that say where the packet came from, at most one of them set, and the envelope.
pub record RawPacket : Type 0 where
  pub mqtt : Option ControlPacket
  pub mqtt5 : Option ControlPacket
  pub mqtt5_raw : Option RawPublish
  pub mqtt5_raw_sub : Option RawSubscribe
  pub meshtastic : Option ServiceEnvelope

pub record ConnectionInfo : Type 0 where
  pub client_id : String
  pub username : String
  pub password : String
  pub socket_address : String
  pub connect_time : ℕ
  pub gateway_id : String
  pub protocol_version : ℕ

pub data RewriteError : Type 0 where
  not_a_publish no_payload no_member is_pki_encrypted no_decoded no_cipher no_envelope
        marshal_failed :
      RewriteError

unfoldable pub set_variant : Variant → Option MeshPacket → Option MeshPacket
set_variant v none = none
set_variant v (some p) = some (record p { variant = v })

module _ (l : Libs) where
  open l use {Cipher, marshal_envelope, marshal_data, key_stream}

  -- The `Meshtastic` part of an inspected packet.
  pub record MeshInfo : Type 0 where
    pub decoded : Option MeshData
    pub cipher : Option Cipher
    pub was_unmarshalled : Bool
    pub id : ℕ
    pub from : ℕ
    pub to : ℕ
    pub port_num : ℕ
    pub payload : List ℕ
    pub payload_string : List ℕ
    pub hex_key : String
    pub was_encrypted : Bool
    pub was_pki_encrypted : Bool
    pub had_encrypted_payload : Bool

  -- Every place that makes one sets `Track` and `Raw`, so neither is optional.
  pub record InspectorPacket : Type 0 where
    pub track : ConnectionInfo
    pub raw : RawPacket
    pub auth_rejected : Bool
    pub wire_rewritten : Bool
    pub mqtt_type : String
    pub topics : List (List ℕ)
    pub mesh : MeshInfo

  -- A packet of a codec with a new payload, if it is a PUBLISH.
  unfoldable pub with_payload : List ℕ → ControlPacket → Option ControlPacket
  with_payload b (publish topic _) = some (publish topic b)
  with_payload b _ = none

  unfoldable pub set_in_mqtt :
      List ℕ → InspectorPacket → Option ControlPacket → InspectorPacket × Option RewriteError
  set_in_mqtt b ip none = (ip, some not_a_publish)
  set_in_mqtt b ip (some c) =
      (record ip { raw = record (ip.raw) { mqtt = some c }; wire_rewritten = true }, none)

  unfoldable pub set_in_mqtt5 :
      List ℕ → InspectorPacket → Option ControlPacket → InspectorPacket × Option RewriteError
  set_in_mqtt5 b ip none = (ip, some not_a_publish)
  set_in_mqtt5 b ip (some c) =
      (record ip { raw = record (ip.raw) { mqtt5 = some c }; wire_rewritten = true }, none)

  -- The `switch` of `setPublishPayload` over the members, in its order. The error is beside the
  -- packet, which it leaves as it is.
  unfoldable pub dispatch_payload :
      List ℕ
      → InspectorPacket
      → Option ControlPacket
      → Option ControlPacket
      → Option RawPublish
      → Option RawSubscribe
      → InspectorPacket × Option RewriteError
  unfolding with_payload set_in_mqtt set_in_mqtt5
  dispatch_payload b ip (some c) _ _ _ = set_in_mqtt b ip (with_payload b c)
  dispatch_payload b ip none (some c) _ _ = set_in_mqtt5 b ip (with_payload b c)
  dispatch_payload b ip none none (some p) _ = (
    record ip {
      raw = record (ip.raw) { mqtt5_raw = some (record p { payload = b }) };
      wire_rewritten = true;
    },
    none,
  )
  dispatch_payload b ip none none none (some s) = (ip, some no_payload)
  dispatch_payload b ip none none none none = (ip, some no_member)

  unfoldable pub set_publish_payload :
      List ℕ → InspectorPacket → InspectorPacket × Option RewriteError
  unfolding dispatch_payload
  set_publish_payload b ip =
      dispatch_payload b ip (ip.raw.mqtt) (ip.raw.mqtt5) (ip.raw.mqtt5_raw) (ip.raw.mqtt5_raw_sub)

  -- The marshalled envelope onto the wire, or the error of `proto.Marshal`.
  unfoldable pub put_envelope :
      InspectorPacket → Option (List ℕ) → InspectorPacket × Option RewriteError
  put_envelope ip none = (ip, some marshal_failed)
  put_envelope ip (some b) = set_publish_payload b ip

  -- `proto.Marshal` of a nil message gives no bytes and no error.
  unfoldable pub marshal_raw : Option ServiceEnvelope → Option (List ℕ)
  marshal_raw none = some []
  marshal_raw (some e) = marshal_envelope e

  unfoldable pub remarshal_envelope : InspectorPacket → InspectorPacket × Option RewriteError
  unfolding put_envelope marshal_raw
  remarshal_envelope ip = put_envelope ip (marshal_raw (ip.raw.meshtastic))

  -- The envelope with its packet's payload replaced by ciphertext.
  unfoldable pub with_variant : Variant → Option ServiceEnvelope → Option ServiceEnvelope
  with_variant v none = none
  with_variant v (some e) = some (record e { packet = set_variant v (e.packet) })

  -- The last part of `RewritePayloadString`, with the marshalled `Data`. A missing envelope is a
  -- nil dereference in the source; the caller has checked for it.
  unfoldable pub encrypt_payload :
      InspectorPacket → Cipher → Option (List ℕ) → InspectorPacket × Option RewriteError
  unfolding with_variant remarshal_envelope
  encrypt_payload ip c none = (ip, some marshal_failed)
  encrypt_payload ip c (some b) = remarshal_envelope (record ip {
    raw = record (ip.raw) {
      meshtastic =
          with_variant (encrypted (key_stream c (ip.mesh.id) (ip.mesh.from) b)) (ip.raw.meshtastic);
    };
  })

  -- The parsed `Data` is changed in place, before anything can fail.
  unfoldable pub reencrypt :
      InspectorPacket → Option MeshData → Option Cipher → InspectorPacket × Option RewriteError
  unfolding encrypt_payload
  reencrypt ip none _ = (ip, some no_decoded)
  reencrypt ip (some d) none = (ip, some no_cipher)
  reencrypt ip (some d) (some c) =
      let d' = record d { payload = ip.mesh.payload_string } in
      encrypt_payload (record ip { mesh = record (ip.mesh) { decoded = some d' } }) c
        (marshal_data d')

  unfoldable pub rewrite_payload_string : InspectorPacket → InspectorPacket × Option RewriteError
  unfolding reencrypt
  rewrite_payload_string ip =
      if ip.mesh.was_pki_encrypted
      then (ip, some is_pki_encrypted)
      else reencrypt ip (ip.mesh.decoded) (ip.mesh.cipher)
