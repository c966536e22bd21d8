-- ===== src/Server/Session/Logins.antt =====
-- A session of internal/app/server/proxy_v5.go keeps the login of its client.
use meshtk.Prelude.{ℕ, List, [], ◌∷◌, Bool, if-choice, String, ◌≡◌, refl, arith, ◌==◌}
use meshtk.Server.ConnTrack.{touch_conn_track}
use meshtk.Server.ConnTrack.Logins.{SameLogins, SameLogins-trans, touch-SameLogins}
use meshtk.Server.Uplink.Logins.{publish_uplink-SameLogins, subscribe_uplink-SameLogins}
use meshtk.Server.Decider.{Rule}
use meshtk.Server.Inspect.{Channel}
use meshtk.Server.Libs.{Libs}
use meshtk.Server.PacketType
use meshtk.Server.Session.{
  is_illegal, Session, Round, after, note_disconnect, close_read, refuse_frame, dispatch,
  uplink_frame, run,
}
use meshtk.Server.Session.Cases.{run_cases}
use meshtk.Server.Uplink.{Codec, relay}
use meshtk.Wire.Frame.{ReadFault, FrameError, Frame}

module _ (l : Libs) (codec : Codec) (rules : List (Rule l)) (channels : List (Channel l))
    (addr : String) where
  dispatch-SameLogins :
      (now : ℕ) (write_ok : Bool) (t : ℕ) (frame : List ℕ) (s : Session)
      → SameLogins s.track (dispatch l codec rules channels addr now write_ok t frame s).track
  unfolding dispatch
  dispatch-SameLogins now write_ok t frame s =
      if-choice Kept (t == PacketType.publish) _ _
        (publish_uplink-SameLogins l codec rules channels now addr write_ok frame s.track)
        (if-choice Kept (t == PacketType.subscribe) _ _
          (subscribe_uplink-SameLogins l codec rules channels now addr write_ok frame s.track)
          (if-choice Kept (is_illegal t) (refuse_frame s) (after s (relay write_ok frame s.track))
            (λ a. refl) (λ a. refl)))
    where
      Kept : Session → Type 0
      Kept x = SameLogins s.track x.track

  note_disconnect-track : (t : ℕ) (s : Session) → (note_disconnect t s).track ≡ s.track
  unfolding note_disconnect
  note_disconnect-track t s = ground arith

  close_read-track : (e : FrameError) (s : Session) → (close_read e s).track ≡ s.track
  unfolding close_read
  close_read-track e s = ground arith

  uplink_frame-SameLogins :
      (r : Round) (f : Frame) (s : Session)
      → SameLogins s.track (uplink_frame l codec rules channels addr r f s).track
  unfolding uplink_frame
  uplink_frame-SameLogins r f s =
      let s' = note_disconnect f.pkt_type s in
      let m' = touch_conn_track r.now addr s'.track in
      SameLogins-trans s.track s'.track _ (λ a. rw (note_disconnect-track f.pkt_type s) refl)
        (SameLogins-trans s'.track m' _ (touch-SameLogins r.now addr s'.track)
          (dispatch-SameLogins r.now r.write_ok f.pkt_type f.raw (record s' { track = m' })))

  -- Whatever a client sends on a session that stands, nobody's login changes: behind each address
  -- are the client identifier, the user name, the password and the protocol level that its CONNECT
  -- gave, and no entry is made or removed.
  pub run-SameLogins :
      (rs : List Round) (ends : ReadFault) (input : List ℕ) (s : Session)
      → SameLogins s.track (run l codec rules channels addr rs ends input s).track
  unfolding run
  run-SameLogins [] ends input s = λ a. refl
  run-SameLogins (r ∷ rs) ends input s =
      run_cases l codec rules channels addr (λ t. SameLogins s.track t.track) r rs ends input s
        (λ a. refl) (λ e a. rw (close_read-track e s) refl)
        (λ f read over. uplink_frame-SameLogins r f s)
        (λ f read on.
          let s' = uplink_frame l codec rules channels addr r f s in
          SameLogins-trans s.track s'.track _ (uplink_frame-SameLogins r f s)
            (run-SameLogins rs ends f.rest s'))
