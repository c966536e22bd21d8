-- ===== src/Examples/Session.antt =====
-- A session of MQTT 5.0 from its frames: a PINGREQ, then a DISCONNECT, then the end of the input.
use meshtk.Prelude.{ℕ, ◌≡◌, refl, List, [], ◌∷◌, ◌++◌, true, false, ok, ltb→lt}
use meshtk.Examples.Libraries.{libs}
use meshtk.Examples.Uplink.{blind, channels, tracked, here}
use meshtk.Server.ConnTrack.Logins.{SameLogins}
use meshtk.Server.Rules.{installed_rules}
use meshtk.Server.Session.{Round, opened, run}
use meshtk.Server.Session.Ending.{run-ends}
use meshtk.Server.Session.Laws.{Forwards, run-Forwards}
use meshtk.Server.Session.Logins.{run-SameLogins}
use meshtk.Wire.Frame.{ReadFault, eof, Frame, read_frame, read_length}
use meshtk.Wire.Frame.Laws.{read_frame-lem}
use meshtk.Wire.Publish.{framed_at}

abbrev pub pings : List ℕ
pings = 0xC0 ∷ 0 ∷ 0xE0 ∷ 0 ∷ []

abbrev pub round : Round
round = record { now = 50; is_cancelled = false; write_ok = true }

abbrev rounds : List Round
rounds = round ∷ round ∷ round ∷ round ∷ round ∷ []

abbrev ping : Frame
ping = record { raw = 0xC0 ∷ 0 ∷ []; pkt_type = 12; rest = 0xE0 ∷ 0 ∷ [] }

pinged : read_frame eof pings ≡ ok ping
unfolding read_frame read_length
pinged = refl

read_frame-lem_example :
    (ping.raw ++ ping.rest ≡ pings)
    × ((at : ℕ) × (framed_at (ping.raw) ≡ ok at))
    × ((ends' : ReadFault) (more : List ℕ)
        → read_frame ends' (ping.raw ++ more) ≡ ok (record ping { rest = more }))
read_frame-lem_example = read_frame-lem eof pings ping pinged

run-Forwards_example :
    (out : List (List ℕ)) × ((run libs blind
        (installed_rules libs)
        channels
        here
        rounds
        eof
        pings
        (opened tracked)).sent
      ≡ out)
    × Forwards libs blind (installed_rules libs) channels here eof pings out
run-Forwards_example =
    run-Forwards libs blind (installed_rules libs) channels here rounds eof pings (opened tracked)

run-ends_example :
    (run libs blind (installed_rules libs) channels here rounds eof pings (opened tracked)).live
    ≡ false
run-ends_example =
    run-ends libs blind (installed_rules libs) channels here rounds eof pings (opened tracked)
      (ltb→lt 4 5 refl)

run-SameLogins_example :
    SameLogins tracked
      (run libs blind (installed_rules libs) channels here rounds eof pings (opened tracked)).track
run-SameLogins_example =
    run-SameLogins libs blind (installed_rules libs) channels here rounds eof pings (opened tracked)
