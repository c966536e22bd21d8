-- ===== src/Server/Handler/Answers.antt =====
-- What a connection of internal/app/server/proxy_v5.go answers to its client.
use meshtk.Credentials.{CacheLib, Settings, AuthState}
use meshtk.Prelude.{
  ℕ, List, [], ◌∷◌, Bool, true, false, ◌&&◌, none, some, Option, String, ◌≡◌, inl, inr, refl, arith,
  if-cases, if-choice,
}
use meshtk.Server.Connect.{Connect, ProxyConfig, inspect_v5_connect}
use meshtk.Server.Connect.Verdict.{Authorized, Refused, inspect_v5_connect-verdict}
use meshtk.Server.ConnTrack.{ConnTrack}
use meshtk.Server.Decider.{Rule}
use meshtk.Server.Handler.First.{IsConnect, first_connect_cases, first_connect-IsConnect}
use meshtk.Server.Handler.{
  ConnectCodec, Arrival, Outcome, write_first, forward_connect, after_inspection, handle_proxy_v5,
}
use meshtk.Server.Inspect.{Channel}
use meshtk.Server.Libs.{Libs}
use meshtk.Server.Session.{Session, Round}
use meshtk.Server.Session.Answers.{OneAnswer, untold, run-OneAnswer}
use meshtk.Server.Uplink.{Codec, Reason, connack_with, malformed_packet}
use meshtk.Wire.Frame.{ReadFault, Frame, read_frame}

module _ (l : Libs) (codec : Codec) (connects : ConnectCodec codec) (rules : List (Rule l))
    (channels : List (Channel l)) (cache : CacheLib) (cfg : Settings) (config : ProxyConfig)
    (hex : List ℕ → String) (addr : String) where
  -- A client that is turned away hears one CONNACK, nothing goes to the broker and no session is
  -- logged.
  abbrev pub TurnedAway : Reason → Outcome cache cfg → Type 0
  TurnedAway why o =
      (o.session.answers ≡ connack_with why ∷ []) × (o.session.sent ≡ []) × (o.is_logged ≡ false)

  -- A client that is let on has its session logged and hears at most one DISCONNECT, after which the
  -- session is over; it hears nothing where the dial or the first write fails.
  abbrev pub LetOn : Arrival → Session → Bool → Type 0
  LetOn w s is_logged =
      OneAnswer s × ((w.dial_ok && w.write_ok) ≡ false → s.answers ≡ []) × (is_logged ≡ true)

  -- What becomes of a client, by what it sends first.
  pub data Treated (ends : ReadFault) (input : List ℕ) (w : Arrival) (s : AuthState cache cfg)
      (o : Outcome cache cfg) : Type 0 where
    unread :
        ((f : Frame) (cp : codec.Packet) (c : Connect)
          → IsConnect l codec connects rules channels cache cfg config hex addr
              (read_frame ends input)
              f
              cp
              c
          → ⊥)
        → TurnedAway malformed_packet o
        → Treated ends input w s o
    refused :
        (f : Frame) (cp : codec.Packet) (c : Connect) (why : Reason)
        → IsConnect l codec connects rules channels cache cfg config hex addr
            (read_frame ends input)
            f
            cp
            c
        → Refused cache cfg config w.now w.answer w.flight s c why
        → TurnedAway why o
        → Treated ends input w s o
    let_on :
        (f : Frame) (cp : codec.Packet) (c : Connect)
        → IsConnect l codec connects rules channels cache cfg config hex addr
            (read_frame ends input)
            f
            cp
            c
        → Authorized cache cfg config w.now w.answer w.flight s c
        → LetOn w o.session o.is_logged
        → Treated ends input w s o

  forward_connect-OneAnswer :
      (rs : List Round) (ends : ReadFault) (rest : List ℕ) (w : Arrival) (m : ConnTrack)
      (o : Option (List ℕ))
      → OneAnswer (
          forward_connect l codec connects rules channels cache cfg config hex addr rs ends rest w m
            o)
  unfolding forward_connect write_first
  forward_connect-OneAnswer rs ends rest w m none =
      if-choice OneAnswer w.dial_ok _ _ (untold _ refl) (untold _ refl)
  forward_connect-OneAnswer rs ends rest w m (some out) =
      if-choice OneAnswer w.dial_ok _ _
        (if-choice OneAnswer w.write_ok _ _
          (run-OneAnswer l codec rules channels addr rs ends rest _ refl) (untold _ refl))
        (untold _ refl)

  forward_connect-unheard :
      (rs : List Round) (ends : ReadFault) (rest : List ℕ) (w : Arrival) (m : ConnTrack)
      (o : Option (List ℕ))
      → (w.dial_ok && w.write_ok) ≡ false
      → (forward_connect l codec connects rules channels cache cfg config hex addr rs ends rest w m
          o).answers
        ≡ []
  unfolding forward_connect write_first
  forward_connect-unheard rs ends rest w m none fails =
      if-choice (λ (x : Session). x.answers ≡ []) w.dial_ok _ _ refl refl
  forward_connect-unheard rs ends rest w m (some out) fails =
      if-cases (λ (x : Session). x.answers ≡ []) w.dial_ok _ _
        (λ dialled.
          if-cases (λ (x : Session). x.answers ≡ []) w.write_ok _ _ (λ written. ground arith)
            (λ _. refl))
        (λ _. refl)

  after_inspection-Treated :
      (rs : List Round) (ends : ReadFault) (input : List ℕ) (w : Arrival) (f : Frame)
      (cp : codec.Packet) (c : Connect) (m : ConnTrack) (s : AuthState cache cfg)
      → IsConnect l codec connects rules channels cache cfg config hex addr
          (read_frame ends input)
          f
          cp
          c
      → Treated ends input w s (
          after_inspection l codec connects rules channels cache cfg config hex addr rs ends f.rest
            w cp
            (inspect_v5_connect cache cfg config hex w.now addr w.answer w.flight c m s))
  unfolding after_inspection
  after_inspection-Treated rs ends input w f cp c m s is =
      let (m', s', r) =
        inspect_v5_connect cache cfg config hex w.now addr w.answer w.flight c m s in
      elim (inspect_v5_connect-verdict cache cfg config w.now w.answer w.flight s c hex addr m) [
        | inl (c', e, authorized) ↦ rw e (
            let_on f cp c is authorized (
              forward_connect-OneAnswer rs ends f.rest w m' (connects.write_connect cp c'),
              forward_connect-unheard rs ends f.rest w m' (connects.write_connect cp c'),
              refl,
            ))
        | inr (why, e, reason) ↦ rw e (refused f cp c why is reason (refl, refl, refl))
      ]

  -- A client whose first frame is no CONNECT that the codec reads, that offers enhanced
  -- authentication, or that is neither on the passthrough list nor named and verified, hears exactly
  -- one CONNACK with that reason, nothing goes to the broker and no session is logged. Any other client
  -- has its session logged and hears at most one DISCONNECT, after which the session is over, and
  -- nothing where the dial or the first write fails.
  pub handle_proxy_v5-Treated :
      (rs : List Round) (ends : ReadFault) (input : List ℕ) (w : Arrival) (m : ConnTrack)
      (s : AuthState cache cfg)
      → Treated ends input w s (
          handle_proxy_v5 l codec connects rules channels cache cfg config hex addr rs ends input w
            m s)
  unfolding handle_proxy_v5
  handle_proxy_v5-Treated rs ends input w m s =
      elim (first_connect_cases l codec connects rules channels cache cfg config hex addr
        (read_frame ends input)) [
          | inl none_read ↦
              rw (none_read, handle_proxy_v5)
                (unread
                  (λ f cp c is.
                    first_connect-IsConnect l codec connects rules channels cache cfg config hex
                      addr (read_frame ends input) f cp c is none_read)
                  (refl, refl, refl))
          | inr (f, cp, c, read, typed, packet, content, first) ↦
              rw (first, handle_proxy_v5)
                (after_inspection-Treated rs ends input w f cp c m s (read, typed, packet, content))
        ]
