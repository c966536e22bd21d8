-- ===== src/Server/Handler/First.antt =====
-- The first frame of a connection of internal/app/server/proxy_v5.go.
use meshtk.Credentials.{CacheLib, Settings}
use meshtk.Prelude.{
  ℕ, List, true, Bool-cases, none, some, Option-cases, String, ◌≡◌, ◌≢◌, ◌⊎◌, inl, inr, refl, arith,
  ◌==◌, ==_iff, Result, ok, err,
}
use meshtk.Server.Connect.{Connect, ProxyConfig}
use meshtk.Server.Decider.{Rule}
use meshtk.Server.Handler.{ConnectCodec, first_connect}
use meshtk.Server.Inspect.{Channel}
use meshtk.Server.Libs.{Libs}
use meshtk.Server.PacketType
use meshtk.Server.Uplink.{Codec}
use meshtk.Wire.Frame.{FrameError, Frame}

module _ (l : Libs) (codec : Codec) (connects : ConnectCodec codec) (rules : List (Rule l))
    (channels : List (Channel l)) (cache : CacheLib) (cfg : Settings) (config : ProxyConfig)
    (hex : List ℕ → String) (addr : String) where
  open codec use {Packet, read_packet}
  open connects use {as_connect}

  -- A first frame that was taken for a CONNECT is one.
  pub first_connect_cases :
      (r : Result FrameError Frame)
      → (first_connect l codec connects rules channels cache cfg config hex addr r ≡ none)
        ⊎ ((f : Frame) × (cp : Packet) × (c : Connect) × (r ≡ ok f)
            × (f.pkt_type ≡ PacketType.connect)
            × (read_packet f.raw ≡ some cp)
            × (as_connect cp ≡ some c)
            × (first_connect l codec connects rules channels cache cfg config hex addr r
                ≡ some (cp, c, f.rest)))
  unfolding first_connect
  first_connect_cases (err e) = inl refl
  first_connect_cases (ok f) = elim (Bool-cases (f.pkt_type == PacketType.connect)) [
    | inr other ↦ inl (rw other refl)
    | inl typed ↦ elim (Option-cases (read_packet f.raw)) [
      | inl unread ↦ inl (rw (typed, unread, first_connect) refl)
      | inr (cp, read) ↦ elim (Option-cases (as_connect cp)) [
        | inl no_connect ↦ inl (ground arith)
        | inr (c, content) ↦
            inr (f, cp, c, refl, (==_iff _ _).0 typed, read, content, (ground arith))
      ]
    ]
  ]

  -- What was read is a CONNECT frame that the codec reads as a CONNECT.
  abbrev pub IsConnect : Result FrameError Frame → Frame → Packet → Connect → Type 0
  IsConnect r f cp c =
      (r ≡ ok f)
      × (f.pkt_type ≡ PacketType.connect)
      × (read_packet f.raw ≡ some cp)
      × (as_connect cp ≡ some c)

  pub first_connect-IsConnect :
      (r : Result FrameError Frame) (f : Frame) (cp : Packet) (c : Connect)
      → IsConnect r f cp c
      → first_connect l codec connects rules channels cache cfg config hex addr r ≢ none
  unfolding first_connect
  first_connect-IsConnect r f cp c (read, typed, packet, content) h =
      let same : (f.pkt_type == PacketType.connect) ≡ true = (==_iff _ _).1 typed in
      cc (rw (read, first_connect, same, packet, content) at h)
