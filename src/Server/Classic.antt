-- ===== src/Server/Classic.antt =====
-- An MQTT 3.1.1 session: `inspectRawPacket` of internal/app/server/inspect.go and the loops of
-- `handleProxy` and `handleBackend` of proxy.go. The paho codec is a parameter.
pub mod Laws
use meshtk.Prelude.{
  ℕ, ◌/◌, List, [], ◌∷◌, ◌++◌, Bool, true, false, Option, none, some, String, if◌then◌else◌, Result,
  contains, codes, ok, err,
}
use meshtk.Credentials.{CacheLib, Credential, Fetched, AuthError, Settings, AuthState}
use meshtk.Server.Connect.{
  Connect, ProxyConfig, authorize, cleared, strip_will, connect_info, put_entry,
}
use meshtk.Server.ConnTrack.{ConnTrack}
use meshtk.Server.Decider.{Rule, decide}
use meshtk.Server.Downlink.{is_echo}
use meshtk.Server.Inspect.{Channel}
use meshtk.Server.Inspection.{fresh_packet, inspect_publish, inspect_subscribe}
use meshtk.Server.Inspector.{
  ControlPacket, connect, subscribe, publish, pingreq, pingresp, disconnect, RawPacket,
  InspectorPacket,
}
use meshtk.Server.Libs.{Libs}
use meshtk.Server.Route.{default_proxy_read_timeout, proxy_read_timeout}
use meshtk.Server.Session.{
  CloseReason, client_disconnect, read_error, close_reason, Session, listed, opened,
}
use meshtk.Server.Uplink.{Reason, Answer, connack_with, is_block, no_raw}
use meshtk.Wire.Frame.{FrameError}

-- What a packet holds: a CONNECT with its fields, or another with what the rules look at.
pub data Content : Type 0 where
  connecting : Connect → Content
  other : ControlPacket → Content

-- The codec: how a packet is read off the bytes that are still to come, what is in it, and its
-- encoding with the content as the proxy left it.
pub record PahoCodec : Type 1 where
  pub Packet : Type 0
  pub read_packet : List ℕ → Result FrameError (Packet × List ℕ)
  pub content : Packet → Content
  pub topics : Packet → List (List ℕ)
  pub type_name : Packet → String
  pub write : Packet → Content → Option (List ℕ)

-- What the world decides in one round.
pub record ClassicRound : Type 0 where
  pub now : ℕ
  pub is_cancelled : Bool
  pub write_ok : Bool
  pub answer : Fetched
  pub flight : Option (Result AuthError (Option Credential))

-- A client that is not judged: `to_lower` is `strings.ToLower`.
unfoldable pub is_exempt : (String → String) → String → Bool
unfolding contains
is_exempt to_lower id = contains (codes (to_lower id)) (codes "kphkphkph")

abbrev pub has_failed : Result Reason Connect → Bool
has_failed (ok _) = false
has_failed (err _) = true

abbrev pub rejection : Result Reason Connect → Option Answer
rejection (ok _) = none
rejection (err why) = some (connack_with why)

-- The CONNECT with the credentials that it is to have: a rejected one keeps its own.
abbrev pub or_own : Connect → Result Reason Connect → Connect
or_own c (ok c') = c'
or_own c (err _) = c

abbrev pub end_with : CloseReason → Session → Session
end_with why s = record s { reason = why; live = false }

abbrev pub mark_disconnect : Content → Session → Session
mark_disconnect (other disconnect) s = record s {
  reason = client_disconnect;
  saw_disconnect = true;
}
mark_disconnect _ s = s

abbrev pub timeout_after : Content → ℕ → ℕ
timeout_after (connecting c) _ = proxy_read_timeout (c.keep_alive)
timeout_after (other _) t = t

abbrev pub kept_content : Content → RawPacket → Content
kept_content (connecting c) raw = connecting c
kept_content (other p) raw = elim (raw.mqtt) [ none ↦ other p | some p' ↦ other p' ]

module _ (l : Libs) (paho : PahoCodec) (rules : List (Rule l)) (channels : List (Channel l))
    (cache : CacheLib) (cfg : Settings) (config : ProxyConfig) (hex : List ℕ → String)
    (to_lower : String → String) (addr : String) where
  open paho use {Packet, content, topics, type_name, write}

  -- What the inspection leaves.
  pub record Inspected : Type 0 where
    pub track : ConnTrack
    pub auth : AuthState cache cfg
    pub packet : InspectorPacket l
    pub content : Content
    pub answered : Option Answer

  abbrev pub unanswered : Content → AuthState cache cfg → ConnTrack × InspectorPacket l → Inspected
  unanswered c s (m, ip) = record { track = m; auth = s; packet = ip; content = c; answered = none }

  abbrev pub raw_of : ControlPacket → RawPacket
  raw_of p = record no_raw { mqtt = some p }

  -- The `switch` of `inspectRawPacket`.
  unfoldable pub inspect_raw_packet :
      ClassicRound → Packet → Content → ConnTrack → AuthState cache cfg → Inspected
  inspect_raw_packet w cp (connecting c) m s =
      let info = connect_info hex (w.now) addr 0 c in
      let (s', r) = authorize cache cfg config (w.now) (w.answer) (w.flight) c s in
      record {
        track = put_entry addr info m;
        auth = s';
        packet = record (fresh_packet l channels info (raw_of connect) "CONNECT" []) {
          auth_rejected = has_failed r;
        };
        content = connecting (strip_will (or_own c r));
        answered = rejection r;
      }
  inspect_raw_packet w cp (other (publish topic payload)) m s =
      unanswered (other (publish topic payload)) s (
        inspect_publish l channels (w.now / 1000000000) addr (raw_of (publish topic payload)) topic
          payload m)
  inspect_raw_packet w cp (other subscribe) m s = unanswered (other subscribe) s (
      inspect_subscribe l channels (w.now / 1000000000) addr (raw_of subscribe) "SUBSCRIBE"
        (topics cp) m)
  inspect_raw_packet w cp (other pingreq) m s =
      unanswered (other pingreq) s
        (inspect_subscribe l channels (w.now / 1000000000) addr (raw_of pingreq) "PINGREQ" [] m)
  inspect_raw_packet w cp (other pingresp) m s =
      unanswered (other pingresp) s
        (inspect_subscribe l channels (w.now / 1000000000) addr (raw_of pingresp) "PINGRESP" [] m)
  inspect_raw_packet w cp (other p) m s =
      unanswered (other p) s
        (inspect_subscribe l channels (w.now / 1000000000) addr (raw_of p) (type_name cp) [] m)

  -- The state of the loop: the session, the authenticator that all share, the deadline of the next
  -- read, and whether the start of the session was logged.
  pub record Classic : Type 0 where
    pub auth : AuthState cache cfg
    pub session : Session
    pub read_timeout : ℕ
    pub is_logged : Bool

  abbrev pub started : ConnTrack → AuthState cache cfg → Classic
  started m s = record {
    auth = s;
    session = opened m;
    read_timeout = default_proxy_read_timeout;
    is_logged = false;
  }

  -- The packet as the rules left it, and whether it may go on: a client whose identifier is exempt is
  -- not judged.
  unfoldable pub judge : InspectorPacket l → InspectorPacket l × Bool
  judge ip =
      if is_exempt to_lower (ip.track.client_id)
      then (ip, true)
      else (let (ip', result) = decide l rules ip in
          (ip', if is_block result.decision then false else true))

  abbrev pub write_out : Bool → Session → Option (List ℕ) → Session
  write_out write_ok s none = record s { live = false }
  write_out write_ok s (some out) = record s { sent = s.sent ++ out ∷ []; live = write_ok }

  abbrev pub forward_judged : Bool → Packet → Content → Session → InspectorPacket l × Bool → Session
  forward_judged write_ok cp c s (ip, false) = s
  forward_judged write_ok cp c s (ip, true) =
      write_out write_ok s (write cp (kept_content c (ip.raw)))

  -- What is done with an inspected packet: a rejected CONNECT ends the session.
  unfoldable pub forward_inspected : Bool → Packet → Session → Inspected → Session
  forward_inspected write_ok cp s i =
      let s' = record s { track = i.track; answers = s.answers ++ listed (i.answered) } in
      if i.packet.auth_rejected
      then record s' { live = false }
      else forward_judged write_ok cp (i.content) s' (judge (i.packet))

  abbrev pub is_connecting : Content → Bool
  is_connecting (connecting _) = true
  is_connecting (other _) = false

  -- One packet of the loop of `handleProxy`.
  unfoldable pub uplink_packet : ClassicRound → Packet → Classic → Classic
  uplink_packet w cp s =
      let c = content cp in
      let s' = mark_disconnect c (s.session) in
      let i = inspect_raw_packet w cp c (s'.track) (s.auth) in
      record {
        auth = i.auth;
        session = forward_inspected (w.write_ok) cp s' i;
        read_timeout = timeout_after c (s.read_timeout);
        is_logged =
            if i.packet.auth_rejected
            then s.is_logged
            else (if is_connecting c then true else s.is_logged);
      }

  abbrev pub close_classic : FrameError → Session → Session
  close_classic e s =
      if s.saw_disconnect then record s { live = false } else end_with (close_reason (some e)) s

  -- The loop, for as many rounds as are given.
  unfoldable pub run_classic : List ClassicRound → List ℕ → Classic → Classic
  run_classic [] input s = s
  run_classic (w ∷ ws) input s = elim (w.is_cancelled) [
    | true ↦ record s { session = record (s.session) { live = false } }
    | false ↦ elim (paho.read_packet input) [
      | err e ↦ record s { session = close_classic e (s.session) }
      | ok (cp, rest) ↦
          let s' = uplink_packet w cp s in
          elim (s'.session.live) [ true ↦ run_classic ws rest s' | false ↦ s' ]
    ]
  ]

  -- What a packet of the broker comes to at the client: nothing for an echo, and the packet as the
  -- codec writes it otherwise. The outer option is the loop's: an error of the codec ends it.
  abbrev pub echoes_classic : ConnTrack → Content → Bool
  echoes_classic m (connecting _) = false
  echoes_classic m (other p) = is_echo l addr m p

  unfoldable pub downlink_packet : ConnTrack → Packet → Option (Option (List ℕ))
  downlink_packet m cp =
      if echoes_classic m (content cp)
      then some none
      else (elim (write cp (content cp)) [ none ↦ none | some out ↦ some (some out) ])
