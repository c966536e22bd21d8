-- ===== src/Server/Handler.antt =====
-- A whole MQTT 5.0 connection: `handleProxyV5` of internal/app/server/proxy_v5.go, from the CONNECT
-- to the loop. The broker's dial and the codec's reading and writing of a CONNECT are parameters.
pub mod Laws
pub mod First
pub mod Answers
use meshtk.Prelude.{
  ℕ, List, [], ◌∷◌, Bool, true, false, Option, none, some, String, ◌==◌, if◌then◌else◌, Result, ok,
  err,
}
use meshtk.Credentials.{CacheLib, Credential, Fetched, AuthError, Settings, AuthState}
use meshtk.Server.Connect.{Connect, ProxyConfig, inspect_v5_connect}
use meshtk.Server.ConnTrack.{ConnTrack}
use meshtk.Server.Decider.{Rule}
use meshtk.Server.Inspect.{Channel}
use meshtk.Server.Libs.{Libs}
use meshtk.Server.PacketType
use meshtk.Server.Session.{Session, Round, opened, run}
use meshtk.Server.Uplink.{Codec, Reason, malformed_packet, connack_with}
use meshtk.Wire.Frame.{ReadFault, FrameError, Frame, read_frame}

-- The codec on a CONNECT: the content of a packet, if it is one, and the packet's encoding with the
-- content as the inspection left it.
pub record ConnectCodec (codec : Codec) : Type 0 where
  pub as_connect : codec.Packet → Option Connect
  pub write_connect : codec.Packet → Connect → Option (List ℕ)

-- What the world decides while the CONNECT is handled: the clock in nanoseconds, the store's answer
-- or that of a lookup in flight, and whether the dial and the first write succeed.
pub record Arrival : Type 0 where
  pub now : ℕ
  pub answer : Fetched
  pub flight : Option (Result AuthError (Option Credential))
  pub dial_ok : Bool
  pub write_ok : Bool

-- `is_logged` tells whether the session has its start and its end in the log.
pub record Outcome (l : CacheLib) (cfg : Settings) : Type 0 where
  pub auth : AuthState l cfg
  pub session : Session
  pub is_logged : Bool

abbrev pub ended : Session → Session
ended s = record s { live = false }

-- A client that is turned away with a CONNACK.
abbrev pub turned_away : ConnTrack → Reason → Session
turned_away m reason = record (ended (opened m)) { answers = connack_with reason ∷ [] }

module _ (l : Libs) (codec : Codec) (connects : ConnectCodec codec) (rules : List (Rule l))
    (channels : List (Channel l)) (cache : CacheLib) (cfg : Settings) (config : ProxyConfig)
    (hex : List ℕ → String) (addr : String) where
  open codec use {Packet, read_packet}
  open connects use {as_connect, write_connect}

  abbrev pub content_of : Option Packet → Option (Packet × Connect)
  content_of none = none
  content_of (some cp) = elim (as_connect cp) [ none ↦ none | some c ↦ some (cp, c) ]

  -- The first frame, which must be a CONNECT that the codec reads, and what follows it.
  unfoldable pub first_connect : Result FrameError Frame → Option (Packet × Connect × List ℕ)
  first_connect (err e) = none
  first_connect (ok f) =
      if f.pkt_type == PacketType.connect
      then (elim (content_of (read_packet (f.raw))) [
        | none ↦ none
        | some (cp, c) ↦ some (cp, c, f.rest)
      ])
      else none

  -- The CONNECT is written to the backend, and the loop begins.
  unfoldable pub write_first :
      List Round → ReadFault → List ℕ → Arrival → ConnTrack → Option (List ℕ) → Session
  write_first rs ends rest w m none = ended (opened m)
  write_first rs ends rest w m (some out) =
      let s = record (opened m) { sent = out ∷ [] } in
      if w.write_ok then run l codec rules channels addr rs ends rest s else ended s

  unfoldable pub forward_connect :
      List Round → ReadFault → List ℕ → Arrival → ConnTrack → Option (List ℕ) → Session
  forward_connect rs ends rest w m encoded =
      if w.dial_ok then write_first rs ends rest w m encoded else ended (opened m)

  unfoldable pub after_inspection :
      List Round
      → ReadFault
      → List ℕ
      → Arrival
      → Packet
      → ConnTrack × AuthState cache cfg × Result Reason Connect
      → Outcome cache cfg
  after_inspection rs ends rest w cp (m, s, err reason) = record {
    auth = s;
    session = turned_away m reason;
    is_logged = false;
  }
  after_inspection rs ends rest w cp (m, s, ok c) = record {
    auth = s;
    session = forward_connect rs ends rest w m (write_connect cp c);
    is_logged = true;
  }

  -- `handleProxyV5`
  unfoldable pub handle_proxy_v5 :
      List Round
      → ReadFault
      → List ℕ
      → Arrival
      → ConnTrack
      → AuthState cache cfg
      → Outcome cache cfg
  handle_proxy_v5 rs ends input w m s = elim (first_connect (read_frame ends input)) [
    | none ↦ record { auth = s; session = turned_away m malformed_packet; is_logged = false }
    | some (cp, c, rest) ↦
        after_inspection rs ends rest w cp
          (inspect_v5_connect cache cfg config hex (w.now) addr (w.answer) (w.flight) c m s)
  ]
