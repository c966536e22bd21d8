-- ===== src/Server/Classic/Laws.antt =====
-- What one packet of an MQTT 3.1.1 session makes `handleProxy` of internal/app/server/proxy.go send.
use meshtk.Prelude.{
  ℕ, List, [], ◌∷◌, ◌++◌, append-nil, Bool, true, false, Option, none, some, String, subst,
  Bool-cases, ◌≡◌, ◌≢◌, ◌⊎◌, inl, inr, refl, sym, ap, ◌∙◌, arith, if-cases, Result-cases,
}
use meshtk.Credentials.{CacheLib, Credential, Settings, AuthState}
use meshtk.Credentials.Laws.{CacheLaws, Honest, Reachable, verify-Issued}
use meshtk.Server.Classic.{
  Content, connecting, other, PahoCodec, ClassicRound, Inspected, inspect_raw_packet, Classic,
  judge, is_exempt, or_own, has_failed, kept_content, mark_disconnect, write_out, forward_judged,
  forward_inspected, uplink_packet,
}
use meshtk.Server.Connect.{Connect, ProxyConfig, authorize, strip_will, is_listed, swap_credentials}
use meshtk.Server.Connect.Laws.{authorize_cases, cleared-flag}
use meshtk.Server.ConnTrack.{ConnTrack}
use meshtk.Server.Decider.{Rule, block, decide}
use meshtk.Server.Inspect.{Channel}
use meshtk.Server.Inspector.{ControlPacket, publish, disconnect, RawPacket, InspectorPacket}
use meshtk.Server.Libs.{Libs}
use meshtk.Server.Session.{Session, listed}

-- The same CONNECT, but that no Will is asked for.
pub record Willless (c c' : Connect) : Type 0 where
  pub willless : c'.will.flag ≡ false
  pub same_but_will : c' ≡ record c { will = c'.will }

strip_will-Willless : (c : Connect) → Willless c (strip_will c)
strip_will-Willless c = record { willless = cleared-flag c.will; same_but_will = refl }

module _ (l : Libs) (paho : PahoCodec) (rules : List (Rule l)) (channels : List (Channel l))
    (cache : CacheLib) (cfg : Settings) (config : ProxyConfig) (hex : List ℕ → String)
    (to_lower : String → String) (addr : String) (Issued : String → Credential → Type 0) where
  open paho use {Packet, content, write}

  -- A packet that is no CONNECT, as it was inspected.
  abbrev pub inspected_as :
      ClassicRound → Packet → ControlPacket → ConnTrack → AuthState cache cfg → InspectorPacket l
  inspected_as w cp p m s =
      (inspect_raw_packet l paho rules channels cache cfg config hex to_lower addr w cp (other p) m
        s).packet

  -- What one packet may give the broker, in the state that the loop is in: nothing; a CONNECT whose
  -- user is on the passthrough list, or under the proxy's credentials once its password was that of
  -- a credential issued to it; any other packet as it was inspected, if the client is
  -- exempt from the rules, and as they left it, if they do not block it, otherwise.
  pub data GivesClassic (w : ClassicRound)
      (s : Classic l paho rules channels cache cfg config hex to_lower addr) (cp : Packet)
      : List (List ℕ) → Type 0 where
    nothing : GivesClassic w s cp []
    as_itself :
        {c c' : Connect} {out : List ℕ}
        → content cp ≡ connecting c
        → is_listed c.username config.passthrough ≡ true
        → Willless c c'
        → write cp (connecting c') ≡ some out
        → GivesClassic w s cp (out ∷ [])
    as_proxy :
        {c c' : Connect} {k : Credential} {out : List ℕ}
        → content cp ≡ connecting c
        → Issued c.username k
        → k.password ≡ c.password
        → Willless (swap_credentials config c) c'
        → write cp (connecting c') ≡ some out
        → GivesClassic w s cp (out ∷ [])
    unjudged :
        {p : ControlPacket} {out : List ℕ}
        → content cp ≡ other p
        → is_exempt to_lower ((inspected_as w cp p s.session.track s.auth).track.client_id) ≡ true
        → write cp (kept_content (other p) (inspected_as w cp p s.session.track s.auth).raw)
          ≡ some out
        → GivesClassic w s cp (out ∷ [])
    judged :
        {p : ControlPacket} {out : List ℕ}
        → content cp ≡ other p
        → is_exempt to_lower ((inspected_as w cp p s.session.track s.auth).track.client_id) ≡ false
        → (decide l rules (inspected_as w cp p s.session.track s.auth)).1.decision ≢ block
        → write cp (
            kept_content
              (other p)
              (decide l rules (inspected_as w cp p s.session.track s.auth)).0.raw)
          ≡ some out
        → GivesClassic w s cp (out ∷ [])

  -- What lets a packet go on, and as what.
  judge_cases :
      (ip : InspectorPacket l)
      → (judge l paho rules channels cache cfg config hex to_lower addr ip).1 ≡ true
      → ((is_exempt to_lower (ip.track.client_id) ≡ true)
          × ((judge l paho rules channels cache cfg config hex to_lower addr ip).0 ≡ ip))
        ⊎ ((is_exempt to_lower (ip.track.client_id) ≡ false)
            × ((decide l rules ip).1.decision ≢ block)
            × ((judge l paho rules channels cache cfg config hex to_lower addr ip).0
                ≡ (decide l rules ip).0))
  unfolding judge
  judge_cases ip go_on = elim (Bool-cases (is_exempt to_lower (ip.track.client_id))) [
    | inl is ↦ inl (is, rw (is, judge) refl)
    | inr no_exemption ↦
        let passes = rw (no_exemption, judge) at go_on in
        inr (no_exemption, (λ h. cc (rw h at passes)), rw (no_exemption, judge) refl)
  ]

  -- What was written of an inspected packet, if anything.
  abbrev Written :
      Packet
      → Inspected l paho rules channels cache cfg config hex to_lower addr
      → List (List ℕ)
      → Type 0
  Written cp i out =
      (out ≡ [])
      ⊎ ((b : List ℕ) × (out ≡ b ∷ [])
          × (i.packet.auth_rejected ≡ false)
          × ((judge l paho rules channels cache cfg config hex to_lower addr i.packet).1 ≡ true)
          × (write cp (
                kept_content i.content
                  (judge l paho rules channels cache cfg config hex to_lower addr i.packet).0.raw)
              ≡ some b))

  write_out-sent :
      (write_ok : Bool) (s : Session) (o : Option (List ℕ))
      → ((write_out l paho rules channels cache cfg config hex to_lower addr write_ok s o).sent
          ≡ s.sent)
        ⊎ ((b : List ℕ) × (o ≡ some b)
            × ((write_out l paho rules channels cache cfg config hex to_lower addr write_ok s
                  o).sent
                ≡ s.sent ++ b ∷ []))
  write_out-sent write_ok s none = inl refl
  write_out-sent write_ok s (some b) = inr (b, refl, refl)

  forward_judged-sent :
      (write_ok : Bool) (cp : Packet) (c : Content) (s : Session) (j : InspectorPacket l × Bool)
      → ((forward_judged l paho rules channels cache cfg config hex to_lower addr write_ok cp c s
            j).sent
          ≡ s.sent)
        ⊎ ((b : List ℕ) × (j.1 ≡ true)
            × (write cp (kept_content c j.0.raw) ≡ some b)
            × ((forward_judged l paho rules channels cache cfg config hex to_lower addr write_ok cp
                  c s j).sent
                ≡ s.sent ++ b ∷ []))
  forward_judged-sent write_ok cp c s (ip, false) = inl refl
  forward_judged-sent write_ok cp c s (ip, true) =
      elim (write_out-sent write_ok s (write cp (kept_content c ip.raw))) [
        | inl quiet ↦ inl quiet
        | inr (b, written, sent) ↦ inr (b, refl, written, sent)
      ]

  forward_inspected-Written :
      (write_ok : Bool) (cp : Packet) (s : Session)
      (i : Inspected l paho rules channels cache cfg config hex to_lower addr)
      → (out : List (List ℕ)) × ((forward_inspected l paho rules channels cache cfg config hex
            to_lower addr write_ok cp s i).sent
          ≡ s.sent ++ out)
        × Written cp i out
  unfolding forward_inspected
  forward_inspected-Written write_ok cp s i =
      if-cases Sends i.packet.auth_rejected _ _
        (λ rejected. ([], sym (append-nil s.sent), inl refl))
        (λ kept.
          elim (forward_judged-sent write_ok cp i.content
            (record s { track = i.track; answers = s.answers ++ listed i.answered })
            (judge l paho rules channels cache cfg config hex to_lower addr i.packet)) [
              | inl quiet ↦ ([], quiet ∙ sym (append-nil s.sent), inl refl)
              | inr (b, go_on, written, sent) ↦ (b ∷ [], sent, inr (b, refl, kept, go_on, written))
            ])
    where
      Sends : Session → Type 0
      Sends t = (out : List (List ℕ)) × (t.sent ≡ s.sent ++ out) × Written cp i out

  inspected-content :
      (w : ClassicRound) (cp : Packet) (p : ControlPacket) (m : ConnTrack) (s : AuthState cache cfg)
      → (inspect_raw_packet l paho rules channels cache cfg config hex to_lower addr w cp
          (other p)
          m
          s).content
        ≡ other p
  unfolding inspect_raw_packet
  inspected-content w cp (publish topic payload) m s = refl
  inspected-content w cp _ m s = refl

  connect_sends :
      CacheLaws cache
      → (w : ClassicRound) (s : Classic l paho rules channels cache cfg config hex to_lower addr)
        (cp : Packet) (c : Connect) (m : ConnTrack) (raw : RawPacket) (b : List ℕ)
      → Reachable cache cfg Issued s.auth
      → Honest cache cfg Issued c.username w.answer w.flight
      → content cp ≡ connecting c
      → let i =
          inspect_raw_packet l paho rules channels cache cfg config hex to_lower addr w cp
            (connecting c)
            m
            s.auth in
        i.packet.auth_rejected ≡ false
        → write cp (kept_content i.content raw) ≡ some b
        → GivesClassic w s cp (b ∷ [])
  unfolding inspect_raw_packet
  connect_sends laws w s cp c m raw b reached honest is kept written =
      let r = (authorize cache cfg config w.now w.answer w.flight c s.auth).1 in
      elim (Result-cases r) [
        | inr (why, refused) ↦ absurd ground (arith, sym (ap has_failed refused) ∙ kept)
        | inl (c', let_on) ↦
            elim (authorize_cases cache cfg config w.now w.answer w.flight c s.auth let_on) [
              | inl (listed, same) ↦ as_itself is listed (strip_will-Willless c) (
                  ap (λ x. write cp (connecting (strip_will x))) (sym (ap (or_own c) let_on ∙ same))
                  ∙ written)
              | inr (accepted, swapped) ↦
                  let (k, issued, fits) =
                    verify-Issued cache cfg Issued laws w.now w.answer w.flight c.username
                      c.password reached honest accepted in
                  as_proxy is issued fits (strip_will-Willless (swap_credentials config c)) (
                    ap (λ x. write cp (connecting (strip_will x)))
                      (sym (ap (or_own c) let_on ∙ swapped))
                    ∙ written)
            ]
      ]

  mark_disconnect-sent : (c : Content) (s : Session) → (mark_disconnect c s).sent ≡ s.sent
  mark_disconnect-sent (connecting c) s = refl
  mark_disconnect-sent (other disconnect) s = refl
  mark_disconnect-sent (other _) s = refl

  mark_disconnect-track : (c : Content) (s : Session) → (mark_disconnect c s).track ≡ s.track
  mark_disconnect-track (connecting c) s = refl
  mark_disconnect-track (other disconnect) s = refl
  mark_disconnect-track (other _) s = refl

  other_gives :
      (w : ClassicRound) (s : Classic l paho rules channels cache cfg config hex to_lower addr)
      (cp : Packet) (p : ControlPacket) (m : ConnTrack) (b : List ℕ)
      → content cp ≡ other p
      → m ≡ s.session.track
      → let j =
          judge l paho rules channels cache cfg config hex to_lower addr
            (inspected_as w cp p m s.auth) in
        j.1 ≡ true
        → write cp (kept_content (other p) j.0.raw) ≡ some b
        → GivesClassic w s cp (b ∷ [])
  other_gives w s cp p m b is same go_on written =
      let Goes : InspectorPacket l × Bool → Type 0 =
        λ j. (j.1 ≡ true) × (write cp (kept_content (other p) j.0.raw) ≡ some b) in
      let (go_on', written') =
        subst
          (λ x. Goes (
            judge l paho rules channels cache cfg config hex to_lower addr
              (inspected_as w cp p x s.auth)))
          same (go_on, written) in
      elim (judge_cases (inspected_as w cp p s.session.track s.auth) go_on') [
        | inl (exempt, kept) ↦
            unjudged is exempt
              (ap (λ x. write cp (kept_content (other p) x.raw)) (sym kept) ∙ written')
        | inr (no_exemption, passes, left) ↦
            judged is no_exemption passes
              (ap (λ x. write cp (kept_content (other p) x.raw)) (sym left) ∙ written')
      ]

  -- Over a cache with its laws and a store whose answers are issued, a packet adds at most one write
  -- to what the broker was sent: a CONNECT of a listed user, or under the credentials of the proxy
  -- once its password is that of an issued credential, without its Will; or another packet, which is
  -- written as it was inspected if the client identifier in lower case holds "kphkphkph", and as the
  -- rules left it, if they do not block it, otherwise.
  pub uplink_packet-GivesClassic :
      CacheLaws cache
      → (w : ClassicRound) (s : Classic l paho rules channels cache cfg config hex to_lower addr)
        (cp : Packet)
      → Reachable cache cfg Issued s.auth
      → ((c : Connect)
          → content cp ≡ connecting c
          → Honest cache cfg Issued c.username w.answer w.flight)
      → (out : List (List ℕ)) × ((uplink_packet l paho rules channels cache cfg config hex to_lower
            addr w cp s).session.sent
          ≡ s.session.sent ++ out)
        × GivesClassic w s cp out
  unfolding uplink_packet
  uplink_packet-GivesClassic laws w s cp reached honest =
      let s' = mark_disconnect (content cp) s.session in
      let (out, sent, wrote) = forward_inspected-Written w.write_ok cp s' (
        inspect_raw_packet l paho rules channels cache cfg config hex to_lower addr w cp
          (content cp) s'.track s.auth) in
      (
        out,
        sent ∙ ap (λ x. x ++ out) (mark_disconnect-sent (content cp) s.session),
        gives (content cp) refl s'.track (mark_disconnect-track (content cp) s.session) out wrote,
      )
    where
      gives :
          (c : Content)
          → content cp ≡ c
          → (m : ConnTrack) → m ≡ s.session.track
          → (out : List (List ℕ))
          → Written cp
              (inspect_raw_packet l paho rules channels cache cfg config hex to_lower addr w cp c m
                s.auth)
              out
          → GivesClassic w s cp out
      gives c is m same out (inl e) = rw e nothing
      gives (connecting c) is m same out (inr (b, e, kept, go_on, written)) = rw e (
          connect_sends laws w s cp c m
            (judge l paho rules channels cache cfg config hex to_lower addr
              (inspect_raw_packet l paho rules channels cache cfg config hex to_lower addr w cp
                (connecting c) m s.auth).packet).0.raw
            b reached (honest c is) is kept written)
      gives (other p) is m same out (inr (b, e, kept, go_on, written)) =
          let ip = inspected_as w cp p m s.auth in
          let as_other =
            ap
              (λ x. write cp (
                kept_content x
                  (judge l paho rules channels cache cfg config hex to_lower addr ip).0.raw))
              (sym (inspected-content w cp p m s.auth))
            ∙ written in
          rw e (other_gives w s cp p m b is same go_on as_other)
