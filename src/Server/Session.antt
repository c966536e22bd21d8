-- ===== src/Server/Session.antt =====
-- An MQTT 5.0 session: `handleProxyV5` of internal/app/server/proxy_v5.go with the session log of
-- proxy_session_log.go. One round of its loop is given what the world decides: the clock, whether
-- the context was cancelled, and whether the write to the broker succeeds.
pub mod Cases
pub mod Laws
pub mod Ending
pub mod Logins
pub mod Answers
use meshtk.Prelude.{
  ℕ, List, [], ◌∷◌, ◌++◌, Bool, true, false, ◌||◌, Option, none, some, String, ◌==◌, if◌then◌else◌,
  Result, ok, err,
}
use meshtk.Credentials.{CacheLib, Credential, Fetched, AuthError, Settings, AuthState}
use meshtk.Server.Connect.{Connect, ProxyConfig, inspect_v5_connect}
use meshtk.Server.ConnTrack.{ConnTrack, touch_conn_track}
use meshtk.Server.Decider.{Rule}
use meshtk.Server.Inspect.{Channel}
use meshtk.Server.Libs.{Libs}
use meshtk.Server.PacketType
use meshtk.Server.Uplink.{
  Codec, UplinkVerdict, forwarded, dropped, fatal, Reason, malformed_packet, protocol_error, Answer,
  connack_with, disconnect_with, Handled, relay, publish_uplink, subscribe_uplink,
}
use meshtk.Wire.Frame.{
  ReadFault, eof, unexpected_eof, deadline_exceeded, reset, FrameError, malformed_length,
  frame_too_large, fault, Frame, read_frame,
}

-- The types that no client may send on a session that stands.
unfoldable pub is_illegal : ℕ → Bool
is_illegal t =
    t == PacketType.connect
    || t == PacketType.auth
    || t == PacketType.connack
    || t == PacketType.suback
    || t == PacketType.unsuback
    || t == PacketType.pingresp

pub data CloseReason : Type 0 where
  client_disconnect client_eof read_timeout read_error : CloseReason

unfoldable pub close_reason : Option FrameError → CloseReason
close_reason none = client_disconnect
close_reason (some (fault deadline_exceeded)) = read_timeout
close_reason (some (fault eof)) = client_eof
close_reason (some (fault unexpected_eof)) = client_eof
close_reason (some (fault reset)) = read_error
close_reason (some malformed_length) = read_error
close_reason (some frame_too_large) = read_error

-- `sent` is what was handed to the broker and `answers` what was written to the client, the oldest
-- first, and `live` tells whether the loop goes on.
pub record Session : Type 0 where
  pub track : ConnTrack
  pub sent : List (List ℕ)
  pub answers : List Answer
  pub reason : CloseReason
  pub saw_disconnect : Bool
  pub live : Bool

pub record Round : Type 0 where
  pub now : ℕ
  pub is_cancelled : Bool
  pub write_ok : Bool

abbrev pub opened : ConnTrack → Session
opened m = record {
  track = m;
  sent = [];
  answers = [];
  reason = read_error;
  saw_disconnect = false;
  live = true;
}

abbrev pub listed {ℓ} : {A : Type ℓ} → Option A → List A
listed none = []
listed (some a) = a ∷ []

-- Only `uplinkFatal` ends the session.
abbrev pub goes_on : UplinkVerdict → Bool
goes_on forwarded = true
goes_on dropped = true
goes_on fatal = false

abbrev pub after : Session → Handled → Session
after s h = record s {
  track = h.track;
  sent = s.sent ++ listed (h.sent);
  answers = s.answers ++ listed (h.answered);
  live = goes_on (h.verdict);
}

unfoldable pub note_disconnect : ℕ → Session → Session
note_disconnect t s =
    if t == PacketType.disconnect
    then record s { reason = client_disconnect; saw_disconnect = true }
    else s

-- A read that failed: what follows a DISCONNECT is the client tidying up.
unfoldable pub close_read : FrameError → Session → Session
close_read e s =
    if s.saw_disconnect
    then record s { live = false }
    else record s { reason = close_reason (some e); live = false }

abbrev pub refuse_frame : Session → Session
refuse_frame s = record s {
  answers = s.answers ++ disconnect_with protocol_error ∷ [];
  live = false;
}

module _ (l : Libs) (codec : Codec) (rules : List (Rule l)) (channels : List (Channel l))
    (addr : String) where
  -- The `switch` over the type of a frame.
  unfoldable pub dispatch : ℕ → Bool → ℕ → List ℕ → Session → Session
  dispatch now write_ok t frame s =
      if t == PacketType.publish
      then after s (publish_uplink l codec rules channels now addr write_ok frame (s.track))
      else if t == PacketType.subscribe
      then after s (subscribe_uplink l codec rules channels now addr write_ok frame (s.track))
      else if is_illegal t
      then refuse_frame s
      else after s (relay write_ok frame (s.track))

  unfoldable pub uplink_frame : Round → Frame → Session → Session
  uplink_frame r f s =
      let s' = note_disconnect (f.pkt_type) s in
      dispatch (r.now) (r.write_ok) (f.pkt_type) (f.raw)
        (record s' { track = touch_conn_track (r.now) addr (s'.track) })

  -- The loop, for as many rounds as are given, on what the client still sends.
  unfoldable pub run : List Round → ReadFault → List ℕ → Session → Session
  run [] ends input s = s
  run (r ∷ rs) ends input s = elim (r.is_cancelled) [
    | true ↦ record s { live = false }
    | false ↦ elim (read_frame ends input) [
      | err e ↦ close_read e s
      | ok f ↦
          let s' = uplink_frame r f s in
          elim (s'.live) [ true ↦ run rs ends (f.rest) s' | false ↦ s' ]
    ]
  ]
