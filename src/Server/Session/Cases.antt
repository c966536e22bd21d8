-- ===== src/Server/Session/Cases.antt =====
-- The ways a round of the loop goes, in `handleProxyV5` of internal/app/server/proxy_v5.go.
use meshtk.Prelude.{ℕ, List, ◌∷◌, true, false, Bool-choice, Result-choice, String, ◌≡◌, arith, ok}
use meshtk.Server.Decider.{Rule}
use meshtk.Server.Inspect.{Channel}
use meshtk.Server.Libs.{Libs}
use meshtk.Server.Session.{Session, Round, close_read, uplink_frame, run}
use meshtk.Server.Uplink.{Codec}
use meshtk.Wire.Frame.{ReadFault, FrameError, Frame, read_frame}

pub close_read-sent : (e : FrameError) (s : Session) → (close_read e s).sent ≡ s.sent
unfolding close_read
close_read-sent e s = ground arith

pub close_read-live : (e : FrameError) (s : Session) → (close_read e s).live ≡ false
unfolding close_read
close_read-live e s = ground arith

module _ (l : Libs) (codec : Codec) (rules : List (Rule l)) (channels : List (Channel l))
    (addr : String) where
  -- The ways a round of the loop goes: the read fails, or the frame ends the session, or it does not.
  pub run_cases :
      (P : Session → Type 0) (r : Round) (rs : List Round) (ends : ReadFault) (input : List ℕ)
      (s : Session)
      → P (record s { live = false })
      → ((e : FrameError) → P (close_read e s))
      → ((f : Frame)
          → read_frame ends input ≡ ok f
          → (uplink_frame l codec rules channels addr r f s).live ≡ false
          → P (uplink_frame l codec rules channels addr r f s))
      → ((f : Frame)
          → read_frame ends input ≡ ok f
          → (uplink_frame l codec rules channels addr r f s).live ≡ true
          → P (
              run l codec rules channels addr rs ends f.rest
                (uplink_frame l codec rules channels addr r f s)))
      → P (run l codec rules channels addr (r ∷ rs) ends input s)
  unfolding run
  run_cases P r rs ends input s cancelled failed over on =
      Bool-choice P r.is_cancelled _ _ (λ _. cancelled)
        (λ _.
          Result-choice P (read_frame ends input) _ _ (λ e _. failed e)
            (λ f read.
              Bool-choice P (uplink_frame l codec rules channels addr r f s).live _ _ (on f read)
                (over f read)))
