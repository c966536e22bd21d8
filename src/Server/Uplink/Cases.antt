-- ===== src/Server/Uplink/Cases.antt =====
-- What a frame can come to in the uplink of internal/app/server/proxy_v5.go: a proof for the ways it
-- can end is a proof for the handler.
use meshtk.Prelude.{
  ℕ, List, Bool, true, false, Bool-cases, ◌||◌, Option, none, some, Option-cases, String, str_eq,
  inl, inr, refl, ◌≢◌, if-choice, Result, ok, err,
}
use meshtk.Server.ConnTrack.{ConnTrack}
use meshtk.Server.ConnTrack.Logins.{
  SameLogins, SameLogins-trans, remember-SameLogins, set_conn_track-SameLogins,
}
use meshtk.Server.Decider.{Rule}
use meshtk.Server.Inspect.{Channel}
use meshtk.Server.Inspector.{ControlPacket, publish, subscribe, InspectorPacket, RawPacket}
use meshtk.Server.Inspection.{
  only_address, remembered, with_envelope, inspect_publish, inspect_subscribe,
}
use meshtk.Server.Libs.{Libs, ServiceEnvelope}
use meshtk.Server.Uplink.{
  Codec, Handled, UplinkVerdict, forwarded, dropped, fatal, refuse, relay, disconnect_with,
  malformed_packet, no_bytes, no_raw, decide_v5, relay_spliced, relay_written, spliced, forward_raw,
  forward_parsed, publish_raw, publish_parsed, publish_uplink, forward_subscribe, subscribe_raw,
  subscribe_parsed, subscribe_uplink,
}
use meshtk.Wire.Publish.{RawPublish, parse_publish, SpliceError}
use meshtk.Wire.Subscribe.{RawSubscribe, parse_subscribe}
use meshtk.Wire.Varint.{ParseError}

module _ (l : Libs) (codec : Codec) (rules : List (Rule l)) (channels : List (Channel l)) where
  open codec use {Packet, read_packet, content, has_topic_alias, write_to}

  remembered-SameLogins :
      (addr gateway : String) (m : ConnTrack) → SameLogins m (remembered l channels addr gateway m)
  remembered-SameLogins addr gateway m = elim (Bool-cases (str_eq gateway "")) [
    | inl unnamed ↦ rw unnamed (λ a. refl)
    | inr named ↦ rw named (remember-SameLogins addr gateway m)
  ]

  with_envelope-SameLogins :
      (addr : String) (e : Option ServiceEnvelope) (m m' : ConnTrack) (ip : InspectorPacket l)
      → SameLogins m m'
      → SameLogins m (with_envelope l channels addr e (m', ip)).0
  unfolding with_envelope
  with_envelope-SameLogins addr none m m' ip p = p
  with_envelope-SameLogins addr (some e) m m' ip p =
      SameLogins-trans m m' _ p (remembered-SameLogins addr e.gateway_id m')

  inspect_publish-SameLogins :
      (now : ℕ) (addr : String) (raw : RawPacket) (topic payload : List ℕ) (m : ConnTrack)
      → SameLogins m (inspect_publish l channels now addr raw topic payload m).0
  unfolding inspect_publish
  inspect_publish-SameLogins now addr raw topic payload m =
      with_envelope-SameLogins addr (l.unmarshal_envelope payload) m _ _
        (set_conn_track-SameLogins now addr (only_address addr) m)

module _ (l : Libs) (codec : Codec) (rules : List (Rule l)) (channels : List (Channel l)) (now : ℕ)
    (addr : String) (write_ok : Bool) (frame : List ℕ) (m : ConnTrack) (P : Handled → Type 0)
    (relayed : (out : List ℕ) (m' : ConnTrack) → SameLogins m m' → P (relay write_ok out m'))
    (refused : (v : UplinkVerdict) (m' : ConnTrack)
      → v ≢ forwarded
      → SameLogins m m'
      → P (refuse v m')) where
  open codec use {Packet, read_packet, content, has_topic_alias, write_to}

  dropped_case : (m' : ConnTrack) → SameLogins m m' → P (refuse dropped m')
  dropped_case m' same = refused dropped m' (λ h. cc) same

  fatal_case : (m' : ConnTrack) → SameLogins m m' → P (refuse fatal m')
  fatal_case m' same = refused fatal m' (λ h. cc) same

  forward_raw_cases :
      (m' : ConnTrack) (judged : InspectorPacket l × Bool)
      → SameLogins m m'
      → P (forward_raw l codec rules channels write_ok frame m' judged)
  unfolding forward_raw
  forward_raw_cases m' (ip, false) same = dropped_case m' same
  forward_raw_cases m' (ip, true) same =
      if-choice P ip.wire_rewritten _ _
        (spliced_case (spliced l codec rules channels frame ip.raw.mqtt5_raw))
        (relayed frame m' same)
    where
      spliced_case :
          (r : Result SpliceError (List ℕ)) → P (relay_spliced l codec rules channels write_ok m' r)
      spliced_case (ok out) = relayed out m' same
      spliced_case (err e) = fatal_case m' same

  forward_parsed_cases :
      (cp : Packet) (m' : ConnTrack) (judged : InspectorPacket l × Bool)
      → SameLogins m m'
      → P (forward_parsed l codec rules channels write_ok frame cp m' judged)
  unfolding forward_parsed
  forward_parsed_cases cp m' (ip, false) same = dropped_case m' same
  forward_parsed_cases cp m' (ip, true) same =
      if-choice P ip.wire_rewritten _ _ (written_case (write_to cp ip.raw.mqtt5))
        (relayed frame m' same)
    where
      written_case : (o : Option (List ℕ)) → P (relay_written l codec rules channels write_ok m' o)
      written_case (some out) = relayed out m' same
      written_case none = fatal_case m' same

  publish_raw_cases :
      (r : Result ParseError RawPublish)
      → P (publish_raw l codec rules channels now addr write_ok frame m r)
  unfolding publish_raw
  publish_raw_cases (err e) = fatal_case m (λ a. refl)
  publish_raw_cases (ok rp) =
      if-choice P (no_bytes rp.topic || rp.has_topic_alias) _ _ (fatal_case m (λ a. refl)) (
        forward_raw_cases _ _ (
          inspect_publish-SameLogins l codec rules channels now addr
            (record no_raw { mqtt5_raw = some rp }) rp.topic rp.payload m))

  publish_parsed_cases :
      (cp : Packet) (c : ControlPacket)
      → P (publish_parsed l codec rules channels now addr write_ok frame m cp c)
  unfolding publish_parsed
  publish_parsed_cases cp (publish topic payload) =
      if-choice P (has_topic_alias cp || no_bytes topic) _ _ (fatal_case m (λ a. refl)) (
        forward_parsed_cases cp _ _ (
          inspect_publish-SameLogins l codec rules channels now addr
            (record no_raw { mqtt5 = some (publish topic payload) }) topic payload m))
  publish_parsed_cases cp _ = relayed frame m (λ a. refl)

  -- A PUBLISH ends in one write or in none, and what the inspection made of the tracker has the
  -- same logins.
  pub publish_uplink_cases : P (publish_uplink l codec rules channels now addr write_ok frame m)
  unfolding publish_uplink
  publish_uplink_cases = elim (Option-cases (read_packet frame)) [
    | inl unread ↦ rw (unread, publish_uplink) (publish_raw_cases (parse_publish frame))
    | inr (cp, read) ↦ rw (read, publish_uplink) (publish_parsed_cases cp (content cp))
  ]

module _ (l : Libs) (codec : Codec) (rules : List (Rule l)) (channels : List (Channel l)) (now : ℕ)
    (addr : String) (write_ok : Bool) (frame : List ℕ) (m : ConnTrack) (P : Handled → Type 0)
    (relayed : (m' : ConnTrack) → SameLogins m m' → P (relay write_ok frame m'))
    (refused : (m' : ConnTrack) → SameLogins m m' → P (refuse fatal m'))
    (unread : P
      (record (refuse fatal m) { answered = some (disconnect_with malformed_packet) })) where
  open codec use {Packet, read_packet, content}

  forward_subscribe_cases :
      (m' : ConnTrack) (ip : InspectorPacket l)
      → SameLogins m m'
      → P (forward_subscribe l codec rules channels write_ok frame (m', ip))
  unfolding forward_subscribe
  forward_subscribe_cases m' ip same =
      if-choice P (decide_v5 l codec rules channels ip).1 _ _ (relayed m' same) (refused m' same)

  subscribe_raw_cases :
      (r : Result ParseError RawSubscribe)
      → P (subscribe_raw l codec rules channels now addr write_ok frame m r)
  unfolding subscribe_raw inspect_subscribe
  subscribe_raw_cases (err e) = unread
  subscribe_raw_cases (ok rs) =
      forward_subscribe_cases _ _ (set_conn_track-SameLogins now addr (only_address addr) m)

  subscribe_parsed_cases :
      (cp : Packet) (c : ControlPacket)
      → P (subscribe_parsed l codec rules channels now addr write_ok frame m cp c)
  unfolding subscribe_parsed inspect_subscribe
  subscribe_parsed_cases cp subscribe =
      forward_subscribe_cases _ _ (set_conn_track-SameLogins now addr (only_address addr) m)
  subscribe_parsed_cases cp _ =
      forward_subscribe_cases _ _ (set_conn_track-SameLogins now addr (only_address addr) m)

  -- A SUBSCRIBE is relayed as it came, or it ends the session, with an answer if nothing can read
  -- it.
  pub subscribe_uplink_cases : P (subscribe_uplink l codec rules channels now addr write_ok frame m)
  unfolding subscribe_uplink
  subscribe_uplink_cases = elim (Option-cases (read_packet frame)) [
    | inl none_read ↦ rw (none_read, subscribe_uplink) (subscribe_raw_cases (parse_subscribe frame))
    | inr (cp, read) ↦ rw (read, subscribe_uplink) (subscribe_parsed_cases cp (content cp))
  ]
