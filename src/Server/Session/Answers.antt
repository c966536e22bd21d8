-- ===== src/Server/Session/Answers.antt =====
-- What a session of internal/app/server/proxy_v5.go answers to its client.
use meshtk.Prelude.{
  ℕ, List, [], ◌∷◌, ◌++◌, append-nil, Bool, true, false, if-choice, none, String, ◌≡◌, ◌⊎◌, inl,
  inr, refl, ap, ◌∙◌, arith, ◌==◌,
}
use meshtk.Server.Uplink.Cases.{publish_uplink_cases, subscribe_uplink_cases}
use meshtk.Server.Decider.{Rule}
use meshtk.Server.Inspect.{Channel}
use meshtk.Server.Libs.{Libs}
use meshtk.Server.PacketType
use meshtk.Server.Session.{
  is_illegal, Session, Round, after, note_disconnect, close_read, refuse_frame, dispatch,
  uplink_frame, run,
}
use meshtk.Server.Session.Cases.{run_cases}
use meshtk.Server.Uplink.{
  Reason, refuse, fatal, protocol_error, malformed_packet, disconnect_with, forward_verdict, Codec,
  Handled, relay,
}
use meshtk.Wire.Frame.{ReadFault, FrameError, Frame}

-- At most one answer, a DISCONNECT, and then the session is over.
pub record OneAnswer (s : Session) : Type 0 where
  pub none_yet : s.live ≡ true → s.answers ≡ []
  pub at_most : (s.answers ≡ []) ⊎ ((why : Reason) × (s.answers ≡ disconnect_with why ∷ []))

-- A session whose client was told nothing.
pub untold : (s : Session) → s.answers ≡ [] → OneAnswer s
untold s e = record { none_yet = λ h. e; at_most = inl e }

told :
    (s : Session) (why : Reason)
    → s.live ≡ false
    → s.answers ≡ disconnect_with why ∷ []
    → OneAnswer s
told s why over e = record { none_yet = λ h. ground arith; at_most = inr (why, e) }

module _ (l : Libs) (codec : Codec) (rules : List (Rule l)) (channels : List (Channel l))
    (addr : String) where
  dispatch-OneAnswer :
      (now : ℕ) (write_ok : Bool) (t : ℕ) (frame : List ℕ) (s : Session)
      → s.answers ≡ []
      → OneAnswer (dispatch l codec rules channels addr now write_ok t frame s)
  unfolding dispatch forward_verdict
  dispatch-OneAnswer now write_ok t frame s e =
      if-choice OneAnswer (t == PacketType.publish) _ _
        (publish_uplink_cases l codec rules channels now addr write_ok frame s.track After
          (λ out m' same. quiet (relay write_ok out m') refl)
          (λ v m' stops same. quiet (refuse v m') refl))
        (if-choice OneAnswer (t == PacketType.subscribe) _ _
          (subscribe_uplink_cases l codec rules channels now addr write_ok frame s.track After
            (λ m' same. quiet (relay write_ok frame m') refl)
            (λ m' same. quiet (refuse fatal m') refl)
            (told _ malformed_packet refl (ap (λ x. x ++ disconnect_with malformed_packet ∷ []) e)))
          (if-choice OneAnswer (is_illegal t) (refuse_frame s)
            (after s (relay write_ok frame s.track))
            (told _ protocol_error refl (ap (λ x. x ++ disconnect_with protocol_error ∷ []) e))
            (quiet (relay write_ok frame s.track) refl)))
    where
      After : Handled → Type 0
      After h = OneAnswer (after s h)

      quiet : (h : Handled) → h.answered ≡ none → After h
      quiet h silent = untold _ (rw silent (append-nil s.answers ∙ e))

  note_disconnect-answers : (t : ℕ) (s : Session) → (note_disconnect t s).answers ≡ s.answers
  unfolding note_disconnect
  note_disconnect-answers t s = ground arith

  uplink_frame-OneAnswer :
      (r : Round) (f : Frame) (s : Session)
      → s.answers ≡ []
      → OneAnswer (uplink_frame l codec rules channels addr r f s)
  unfolding uplink_frame
  uplink_frame-OneAnswer r f s e =
      dispatch-OneAnswer r.now r.write_ok f.pkt_type f.raw _
        (note_disconnect-answers f.pkt_type s ∙ e)

  close_read-answers : (e : FrameError) (s : Session) → (close_read e s).answers ≡ s.answers
  unfolding close_read
  close_read-answers e s = ground arith

  -- A session that stands answers its client once at most, with a DISCONNECT, and then it is over.
  pub run-OneAnswer :
      (rs : List Round) (ends : ReadFault) (input : List ℕ) (s : Session)
      → s.answers ≡ []
      → OneAnswer (run l codec rules channels addr rs ends input s)
  unfolding run
  run-OneAnswer [] ends input s e = untold s e
  run-OneAnswer (r ∷ rs) ends input s e =
      run_cases l codec rules channels addr OneAnswer r rs ends input s (untold _ e)
        (λ failure. untold _ (close_read-answers failure s ∙ e))
        (λ f read over. uplink_frame-OneAnswer r f s e)
        (λ f read on. run-OneAnswer rs ends f.rest _ ((uplink_frame-OneAnswer r f s e).none_yet on))
