-- ===== src/Server/Session/Laws.antt =====
-- What a session of internal/app/server/proxy_v5.go hands to the broker.
use meshtk.Prelude.{
  ℕ, List, [], ◌∷◌, ◌++◌, append_assoc, append-nil, Bool, false, Bool-cases, Option, none, some,
  String, ◌≡◌, ◌≢◌, inl, inr, refl, sym, ap, subst, ◌∙◌, arith, ◌==◌, ==_iff, ok,
}
use mathlib.Core.Option.{none-ne-some, some-injective}
use meshtk.Server.ConnTrack.{ConnTrack, touch_conn_track}
use meshtk.Server.Decider.{Rule}
use meshtk.Server.Inspect.{Channel}
use meshtk.Server.Libs.{Libs}
use meshtk.Server.PacketType
use meshtk.Server.Session.{
  is_illegal, Session, Round, listed, note_disconnect, dispatch, uplink_frame, run,
}
use meshtk.Server.Session.Cases.{close_read-sent, run_cases}
use meshtk.Server.Uplink.{Codec, publish_uplink, subscribe_uplink}
use meshtk.Server.Uplink.Laws.{subscribe_uplink-Decided}
use meshtk.Wire.Frame.{ReadFault, Frame, read_frame}

module _ (l : Libs) (codec : Codec) (rules : List (Rule l)) (channels : List (Channel l))
    (addr : String) where
  -- What the broker may be given for one frame of an open session: nothing; the frame as it came,
  -- if it is neither a PUBLISH nor of a type that no client may send; for a PUBLISH, what its
  -- inspection handed on.
  pub data Gives (f : Frame) : List (List ℕ) → Type 0 where
    nothing : Gives f []
    as_captured :
        f.pkt_type ≢ PacketType.publish → is_illegal f.pkt_type ≡ false → Gives f (f.raw ∷ [])
    inspected :
        {out : List ℕ} (now : ℕ) (write_ok : Bool) (m : ConnTrack)
        → f.pkt_type ≡ PacketType.publish
        → (publish_uplink l codec rules channels now addr write_ok f.raw m).sent ≡ some out
        → Gives f (out ∷ [])

  -- The broker's side of a session: the frames of the input in turn, each with what it gives.
  pub data Forwards (ends : ReadFault) : List ℕ → List (List ℕ) → Type 0 where
    stop : {input : List ℕ} → Forwards ends input []
    next :
        {input : List ℕ} {f : Frame} {out later : List (List ℕ)}
        → read_frame ends input ≡ ok f
        → Gives f out
        → Forwards ends f.rest later
        → Forwards ends input (out ++ later)

  listed-Gives :
      (f : Frame) (o : Option (List ℕ))
      → ((b : List ℕ) → o ≡ some b → Gives f (b ∷ []))
      → Gives f (listed o)
  listed-Gives f none h = nothing
  listed-Gives f (some b) h = h b refl

  -- What the frame adds to the bytes that were sent.
  abbrev Adds : Frame → Session → Session → Type 0
  Adds f s t = (out : List (List ℕ)) × (t.sent ≡ s.sent ++ out) × Gives f out

  subscribed_raw :
      (now : ℕ) (write_ok : Bool) (frame b : List ℕ) (m : ConnTrack)
      → (subscribe_uplink l codec rules channels now addr write_ok frame m).sent ≡ some b
      → frame ≡ b
  subscribed_raw now write_ok frame b m e =
      let decided = subscribe_uplink-Decided l codec rules channels now addr write_ok frame m in
      some-injective _ _ (sym (decided.2 (λ none_sent. none-ne-some b (sym none_sent ∙ e))) ∙ e)

  subscribe-Gives :
      (now : ℕ) (write_ok : Bool) (f : Frame) (b : List ℕ) (m : ConnTrack)
      → f.pkt_type ≡ PacketType.subscribe
      → (subscribe_uplink l codec rules channels now addr write_ok f.raw m).sent ≡ some b
      → Gives f (b ∷ [])
  unfolding is_illegal
  subscribe-Gives now write_ok f b m typed e =
      subst (λ x. Gives f (x ∷ [])) (subscribed_raw now write_ok f.raw b m e)
        (as_captured (λ p. ground arith) (rw typed refl))

  dispatch-Adds :
      (now : ℕ) (write_ok : Bool) (f : Frame) (s : Session)
      → Adds f s (dispatch l codec rules channels addr now write_ok f.pkt_type f.raw s)
  unfolding dispatch is_illegal
  dispatch-Adds now write_ok f s = elim (Bool-cases (f.pkt_type == PacketType.publish)) [
    | inl p ↦
        let h = publish_uplink l codec rules channels now addr write_ok f.raw s.track in
        rw p (
          listed h.sent,
          refl,
          listed-Gives f h.sent (λ b e. inspected now write_ok s.track ((==_iff _ _).0 p) e),
        )
    | inr np ↦ elim (Bool-cases (f.pkt_type == PacketType.subscribe)) [
      | inl sub ↦
          let h = subscribe_uplink l codec rules channels now addr write_ok f.raw s.track in
          rw (np, sub)
            (
              listed h.sent,
              refl,
              listed-Gives f h.sent
                  (λ b e. subscribe-Gives now write_ok f b s.track ((==_iff _ _).0 sub) e),
            )
      | inr ns ↦ elim (Bool-cases (is_illegal f.pkt_type)) [
        | inl bad ↦ rw (np, ns, bad) ([], sym (append-nil s.sent), nothing)
        | inr fine ↦ rw (np, ns, fine) (f.raw ∷ [], refl, as_captured (λ e. ground arith) fine)
      ]
    ]
  ]

  note_disconnect-sent : (t : ℕ) (s : Session) → (note_disconnect t s).sent ≡ s.sent
  unfolding note_disconnect
  note_disconnect-sent t s = ground arith

  uplink_frame-Adds :
      (r : Round) (f : Frame) (s : Session)
      → Adds f s (uplink_frame l codec rules channels addr r f s)
  unfolding uplink_frame
  uplink_frame-Adds r f s =
      let (out, sent, gives) =
        dispatch-Adds r.now r.write_ok f (record (note_disconnect f.pkt_type s) {
          track = touch_conn_track r.now addr (note_disconnect f.pkt_type s).track;
        }) in
      (out, sent ∙ ap (λ x. x ++ out) (note_disconnect-sent f.pkt_type s), gives)

  -- The loop implements the broker's side: what a session adds to the bytes of the broker comes from
  -- the frames of its input in their order, each giving at most once: a PUBLISH what its inspection
  -- handed on, another frame itself, and a frame of a type that no client may send nothing.
  pub run-Forwards :
      (rs : List Round) (ends : ReadFault) (input : List ℕ) (s : Session)
      → (out : List (List ℕ)) × ((run l codec rules channels addr rs ends input s).sent
          ≡ s.sent ++ out)
        × Forwards ends input out
  unfolding run
  run-Forwards [] ends input s = ([], sym (append-nil s.sent), stop)
  run-Forwards (r ∷ rs) ends input s =
      run_cases l codec rules channels addr
        (λ t. (out : List (List ℕ)) × (t.sent ≡ s.sent ++ out) × Forwards ends input out) r rs ends
        input s ([], sym (append-nil s.sent), stop)
        (λ e. ([], close_read-sent e s ∙ sym (append-nil s.sent), stop))
        (λ f read over.
          let (out, sent, gives) = uplink_frame-Adds r f s in
          (out, sent, subst (Forwards ends input) (append-nil out) (next read gives stop)))
        (λ f read on.
          let s' = uplink_frame l codec rules channels addr r f s in
          let (out, sent, gives) = uplink_frame-Adds r f s in
          let (more, sent', later) = run-Forwards rs ends f.rest s' in
          (
            out ++ more,
            sent' ∙ ap (λ x. x ++ more) sent ∙ append_assoc s.sent out more,
            next read gives later,
          ))
