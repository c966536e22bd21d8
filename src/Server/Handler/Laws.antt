-- ===== src/Server/Handler/Laws.antt =====
-- What a connection of internal/app/server/proxy_v5.go hands to the broker.
use meshtk.Prelude.{
  ℕ, List, [], ◌∷◌, true, false, Option, none, some, String, ◌≡◌, ◌⊎◌, inl, inr, refl, if-choice,
  Result, ok, err,
}
use meshtk.Credentials.{CacheLib, Credential, Settings, AuthState}
use meshtk.Credentials.Laws.{CacheLaws, Honest, Reachable}
use meshtk.Server.Connect.{
  Connect, ProxyConfig, has_auth_method, is_listed, swap_credentials, inspect_v5_connect,
}
use meshtk.Server.Connect.Laws.{Stripped, inspect_v5_connect-Issued}
use meshtk.Server.ConnTrack.{ConnTrack}
use meshtk.Server.Decider.{Rule}
use meshtk.Server.Handler.First.{first_connect_cases}
use meshtk.Server.Handler.{
  ConnectCodec, Arrival, write_first, forward_connect, after_inspection, handle_proxy_v5,
}
use meshtk.Server.Inspect.{Channel}
use meshtk.Server.Libs.{Libs}
use meshtk.Server.PacketType
use meshtk.Server.Session.{Session, Round}
use meshtk.Server.Session.Laws.{Forwards, stop, run-Forwards}
use meshtk.Server.Uplink.{Codec, Reason}
use meshtk.Wire.Frame.{ReadFault, Frame, read_frame}

module _ (l : Libs) (codec : Codec) (connects : ConnectCodec codec) (rules : List (Rule l))
    (channels : List (Channel l)) (cache : CacheLib) (cfg : Settings) (config : ProxyConfig)
    (hex : List ℕ → String) (addr : String) (Issued : String → Credential → Type 0) where
  open codec use {Packet, read_packet}
  open connects use {as_connect, write_connect}

  -- The CONNECT `c'` that stands for the client's `c` at the broker.
  abbrev pub Vetted : Connect → Connect → Type 0
  Vetted c c' =
      (has_auth_method (c.properties) ≡ false)
      × (((is_listed (c.username) (config.passthrough) ≡ true) × Stripped c c')
          ⊎ ((k : Credential) × Issued (c.username) k
              × (k.password ≡ c.password)
              × Stripped (swap_credentials config c) c'))

  -- What the broker is given begins with a vetted CONNECT, and goes on with what the frames behind
  -- it give.
  pub data Brokered (ends : ReadFault) (input : List ℕ) : List (List ℕ) → Type 0 where
    silent : Brokered ends input []
    spoken :
        {f : Frame} {cp : Packet} {c c' : Connect} {first : List ℕ} {later : List (List ℕ)}
        → read_frame ends input ≡ ok f
        → f.pkt_type ≡ PacketType.connect
        → read_packet f.raw ≡ some cp
        → as_connect cp ≡ some c
        → Vetted c c'
        → write_connect cp c' ≡ some first
        → Forwards l codec rules channels addr ends f.rest later
        → Brokered ends input (first ∷ later)

  write_first-Forwards :
      (rs : List Round) (ends : ReadFault) (rest : List ℕ) (w : Arrival) (m : ConnTrack)
      (out : List ℕ)
      → (later : List (List ℕ)) × ((write_first l codec connects rules channels cache cfg config hex
            addr rs ends rest w m
            (some out)).sent
          ≡ out ∷ later)
        × Forwards l codec rules channels addr ends rest later
  unfolding write_first
  write_first-Forwards rs ends rest w m out =
      if-choice
        (λ (s : Session).
          (later : List (List ℕ)) × (s.sent ≡ out ∷ later)
          × Forwards l codec rules channels addr ends rest later)
        w.write_ok _ _ (run-Forwards l codec rules channels addr rs ends rest _) ([], refl, stop)

  -- Nothing, or what was encoded followed by what the loop forwards.
  abbrev Begins : ReadFault → List ℕ → Option (List ℕ) → List (List ℕ) → Type 0
  Begins ends rest encoded sent =
      (sent ≡ [])
      ⊎ ((first : List ℕ) × (encoded ≡ some first)
          × ((later : List (List ℕ)) × (sent ≡ first ∷ later)
              × Forwards l codec rules channels addr ends rest later))

  forward_connect-Begins :
      (rs : List Round) (ends : ReadFault) (rest : List ℕ) (w : Arrival) (m : ConnTrack)
      (o : Option (List ℕ))
      → Begins ends rest o
          (forward_connect l codec connects rules channels cache cfg config hex addr rs ends rest w
            m o).sent
  unfolding forward_connect write_first
  forward_connect-Begins rs ends rest w m o =
      if-choice (λ (s : Session). Begins ends rest o s.sent) w.dial_ok _ _ (written o) (inl refl)
    where
      written :
          (o : Option (List ℕ))
          → Begins ends rest o
              (write_first l codec connects rules channels cache cfg config hex addr rs ends rest w
                m o).sent
      written none = inl refl
      written (some out) = inr (out, refl, write_first-Forwards rs ends rest w m out)

  after_inspection-Begins :
      (rs : List Round) (ends : ReadFault) (rest : List ℕ) (w : Arrival) (cp : Packet)
      (m : ConnTrack) (s : AuthState cache cfg) (r : Result Reason Connect)
      → ((after_inspection l codec connects rules channels cache cfg config hex addr rs ends rest w
            cp
            (m, s, r)).session.sent
          ≡ [])
        ⊎ ((c' : Connect) × (r ≡ ok c')
            × Begins ends rest
                (write_connect cp c')
                (after_inspection l codec connects rules channels cache cfg config hex addr rs ends
                  rest w cp
                  (m, s, r)).session.sent)
  unfolding after_inspection
  after_inspection-Begins rs ends rest w cp m s (err reason) = inl refl
  after_inspection-Begins rs ends rest w cp m s (ok c) =
      inr (c, refl, forward_connect-Begins rs ends rest w m (write_connect cp c))

  -- Over a cache with its laws and a store whose answers are issued, what a connection hands to the
  -- broker is allowed by the abstract connection: nothing, or first a re-encoded CONNECT without a
  -- Will and without topic aliases, of a listed user with its own credentials or of one whose
  -- password is that of a credential issued to it with the credentials of the proxy, and then what
  -- the frames behind it give.
  pub handle_proxy_v5-Brokered :
      CacheLaws cache
      → (rs : List Round) (ends : ReadFault) (input : List ℕ) (w : Arrival) (m : ConnTrack)
        (s : AuthState cache cfg)
      → Reachable cache cfg Issued s
      → ((f : Frame) (cp : Packet) (c : Connect)
          → read_frame ends input ≡ ok f
          → read_packet f.raw ≡ some cp
          → as_connect cp ≡ some c
          → Honest cache cfg Issued c.username w.answer w.flight)
      → Brokered ends input
          (handle_proxy_v5 l codec connects rules channels cache cfg config hex addr rs ends input w
            m s).session.sent
  unfolding handle_proxy_v5
  handle_proxy_v5-Brokered laws rs ends input w m s reached honest =
      elim (first_connect_cases l codec connects rules channels cache cfg config hex addr
        (read_frame ends input)) [
          | inl refused ↦ rw (refused, handle_proxy_v5) silent
          | inr (f, cp, c, read, typed, packet, content, first) ↦
              let (m', s', r) =
                inspect_v5_connect cache cfg config hex w.now addr w.answer w.flight c m s in
              rw (first, handle_proxy_v5)
                (elim (after_inspection-Begins rs ends f.rest w cp m' s' r) [
                  | inl quiet ↦ rw quiet silent
                  | inr (c', let_on, begins) ↦
                      let vetted =
                        inspect_v5_connect-Issued cache cfg config Issued laws hex w.now addr
                          w.answer w.flight c c' m s reached (honest f cp c read packet content)
                          let_on in
                      elim begins [
                        | inl quiet ↦ rw quiet silent
                        | inr (out, encoded, (later, sent, forwards)) ↦
                            rw sent (spoken read typed packet content vetted encoded forwards)
                      ]
                ])
        ]
