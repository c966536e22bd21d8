-- ===== src/Server/Downlink/Laws.antt =====
-- What a client is sent by the downlink of internal/app/server/proxy_v5.go.
use meshtk.Prelude.{
  ℕ, List, true, Option, none, some, Option-cases, String, eq_iff, ◌≡◌, ◌≢◌, ◌↔◌, inl, inr, refl,
  arith,
}
use meshtk.Server.ConnTrack.{ConnTrack, gateway_for}
use meshtk.Server.Downlink.{ConnackCodec, is_own_gateway, is_echo, downlink_frame}
use meshtk.Server.Inspector.{ControlPacket, publish}
use meshtk.Server.Libs.{MeshPacket, ServiceEnvelope, Libs}
use meshtk.Server.PacketType
use meshtk.Server.Uplink.{Codec}
use meshtk.Wire.Frame.{Frame}

module _ (l : Libs) (codec : Codec) (connacks : ConnackCodec codec) (addr : String) where
  open codec use {Packet, read_packet, content}

  -- A PUBLISH that carries an envelope of the gateway that the connection published as.
  pub record Echo (m : ConnTrack) (f : Frame) : Type 0 where
    pub typed : f.pkt_type ≡ PacketType.publish
    pub packet : Packet
    pub topic : List ℕ
    pub payload : List ℕ
    pub envelope : ServiceEnvelope
    pub mesh : MeshPacket
    pub is_read : read_packet f.raw ≡ some packet
    pub is_publish : content packet ≡ publish topic payload
    pub is_envelope : l.unmarshal_envelope payload ≡ some envelope
    pub has_packet : envelope.packet ≡ some mesh
    pub named : envelope.gateway_id ≢ ""
    pub own : envelope.gateway_id ≡ gateway_for addr m

  own_gateway :
      (m : ConnTrack) (o : Option ServiceEnvelope)
      → is_own_gateway l addr m o ≡ true
      → (e : ServiceEnvelope) × (p : MeshPacket) × (o ≡ some e)
        × (e.packet ≡ some p)
        × (e.gateway_id ≢ "")
        × (e.gateway_id ≡ gateway_for addr m)
  unfolding is_own_gateway
  own_gateway m none h = ground arith
  own_gateway m (some e) h = elim (Option-cases e.packet) [
    | inl bare ↦ ground arith
    | inr (p, has) ↦ (
      e,
      p,
      refl,
      has,
      ground (arith, eq_iff e.gateway_id ""),
      ground (arith, eq_iff e.gateway_id (gateway_for addr m)),
    )
  ]

  Echo-of :
      (m : ConnTrack) (f : Frame) (c : ControlPacket) (pk : Packet)
      → f.pkt_type ≡ PacketType.publish
      → read_packet f.raw ≡ some pk
      → content pk ≡ c
      → is_echo l addr m c ≡ true
      → Echo m f
  Echo-of m f (publish topic payload) pk typed read is h =
      let (e, p, reads, has, named, own) = own_gateway m (l.unmarshal_envelope payload) h in
      record {
        typed = typed;
        packet = pk;
        topic = topic;
        payload = payload;
        envelope = e;
        mesh = p;
        is_read = read;
        is_publish = is;
        is_envelope = reads;
        has_packet = has;
        named = named;
        own = own;
      }
  Echo-of m f _ pk typed read is h = ground arith

  suppressed_Echo :
      (m : ConnTrack) (f : Frame) → downlink_frame l codec connacks addr m f ≡ none → Echo m f
  unfolding downlink_frame
  suppressed_Echo m f h = elim (Option-cases (read_packet f.raw)) [
    | inl unread ↦ absurd (ground arith)
    | inr (pk, read) ↦ Echo-of m f (content pk) pk (ground arith) read refl (ground arith)
  ]

  is_own :
      (m : ConnTrack) (e : ServiceEnvelope) (p : MeshPacket)
      → e.packet ≡ some p
      → e.gateway_id ≢ ""
      → e.gateway_id ≡ gateway_for addr m
      → is_own_gateway l addr m (some e) ≡ true
  unfolding is_own_gateway
  is_own m e p has named own =
      ground (arith, eq_iff e.gateway_id "", eq_iff e.gateway_id (gateway_for addr m))

  Echo-suppressed :
      (m : ConnTrack) (f : Frame) → Echo m f → downlink_frame l codec connacks addr m f ≡ none
  unfolding downlink_frame
  Echo-suppressed m f e =
      rw
        (
          e.typed,
          e.is_read,
          e.is_publish,
          e.is_envelope,
          is_own m e.envelope e.mesh e.has_packet e.named e.own,
          downlink_frame,
        )
        refl

  captured :
      (m : ConnTrack) (f : Frame) (out : List ℕ)
      → f.pkt_type ≢ PacketType.connack
      → downlink_frame l codec connacks addr m f ≡ some out
      → out ≡ f.raw
  unfolding downlink_frame
  captured m f out other h = ground arith

  -- A frame from the broker is kept from the client exactly when it is an echo: a PUBLISH that the
  -- codec reads, with an envelope that holds a packet and names the gateway that the connection itself
  -- published as. Every other frame but a
  -- CONNACK reaches the client as it was captured, whether or not the codec can read it.
  pub downlink_frame-Echo :
      (m : ConnTrack) (f : Frame)
      → ((downlink_frame l codec connacks addr m f ≡ none) ↔ Echo m f)
        × ((out : List ℕ)
            → f.pkt_type ≢ PacketType.connack
            → downlink_frame l codec connacks addr m f ≡ some out
            → out ≡ f.raw)
  downlink_frame-Echo m f = ((suppressed_Echo m f, Echo-suppressed m f), captured m f)
