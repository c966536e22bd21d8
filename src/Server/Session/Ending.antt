-- ===== src/Server/Session/Ending.antt =====
-- That a session of internal/app/server/proxy_v5.go ends, and what is logged of it.
use meshtk.Prelude.{
  ℕ, ◌<◌, List, [], ◌∷◌, true, false, some, String, ◌≡◌, ◌≢◌, ◌↔◌, refl, arith, length,
}
use meshtk.Server.Decider.{Rule}
use meshtk.Server.Inspect.{Channel}
use meshtk.Server.Libs.{Libs}
use meshtk.Server.Session.{
  client_disconnect, close_reason, Session, Round, note_disconnect, close_read, dispatch,
  uplink_frame, run,
}
use meshtk.Server.Session.Cases.{close_read-live, run_cases}
use meshtk.Server.Uplink.{Codec}
use meshtk.Wire.Frame.{
  ReadFault, eof, unexpected_eof, deadline_exceeded, reset, malformed_length, frame_too_large,
  fault, FrameError, Frame,
}
use meshtk.Wire.Frame.Laws.{read_frame-shorter}

module _ (l : Libs) (codec : Codec) (rules : List (Rule l)) (channels : List (Channel l))
    (addr : String) where
  -- Each frame takes a byte at least, so a session ends within as many rounds as the client sends
  -- bytes, and one more.
  pub run-ends :
      (rs : List Round) (ends : ReadFault) (input : List ℕ) (s : Session)
      → length input < length rs
      → (run l codec rules channels addr rs ends input s).live ≡ false
  unfolding run
  run-ends [] ends input s h = absurd (omega arith)
  run-ends (r ∷ rs) ends input s h =
      run_cases l codec rules channels addr (λ t. t.live ≡ false) r rs ends input s refl
        (λ e. close_read-live e s) (λ f read over. over)
        (λ f read on.
          run-ends rs ends f.rest _ (omega (arith, read_frame-shorter ends input f read)))

  -- The reason that is logged accounts for the DISCONNECT.
  abbrev pub Settled : Session → Type 0
  Settled s = (s.reason ≡ client_disconnect) ↔ (s.saw_disconnect ≡ true)

  close_reason_of_error : (e : FrameError) → close_reason (some e) ≢ client_disconnect
  unfolding close_reason
  close_reason_of_error malformed_length h = cc
  close_reason_of_error frame_too_large h = cc
  close_reason_of_error (fault eof) h = cc
  close_reason_of_error (fault unexpected_eof) h = cc
  close_reason_of_error (fault deadline_exceeded) h = cc
  close_reason_of_error (fault reset) h = cc

  close_read-Settled : (e : FrameError) (s : Session) → Settled s → Settled (close_read e s)
  unfolding close_read
  close_read-Settled e s h = ground (arith, close_reason_of_error e)

  uplink_frame-Settled :
      (r : Round) (f : Frame) (s : Session)
      → Settled s
      → Settled (uplink_frame l codec rules channels addr r f s)
  unfolding uplink_frame dispatch note_disconnect
  uplink_frame-Settled r f s h = ground arith

  -- If the logged reason accounts for the DISCONNECT so far, then however the session goes on, it
  -- says that the client disconnected exactly when a DISCONNECT was read.
  pub run-Settled :
      (rs : List Round) (ends : ReadFault) (input : List ℕ) (s : Session)
      → Settled s
      → Settled (run l codec rules channels addr rs ends input s)
  unfolding run
  run-Settled [] ends input s h = h
  run-Settled (r ∷ rs) ends input s h =
      run_cases l codec rules channels addr Settled r rs ends input s h
        (λ e. close_read-Settled e s h) (λ f read over. uplink_frame-Settled r f s h)
        (λ f read on. run-Settled rs ends f.rest _ (uplink_frame-Settled r f s h))
