-- ===== src/Snapshot/Laws.antt =====
-- The reset by the operator is edge-triggered, and nothing else empties the database.
use meshtk.Prelude.{
  ℕ, List, [], ◌∷◌, Bool, true, false, ◌&&◌, ◌||◌, not, ◌+◌, ◌≤◌, none, some, if◌then◌else◌, length,
  ◌≡◌, ◌≢◌, inl, inr, refl, arith, Bool-cases, ap, sym, ◌∙◌,
}
use meshtk.Snapshot.{
  Json, Got, got, no_snapshot, unreachable, SnapshotState, Ticked, is_empty_snapshot, is_populated,
  write_marshalled, write_snapshot, tick_got, tick, restore_snapshot,
}

module _ (Node : Type 0) (j : Json Node) where
  write_snapshot-kept :
      (put_ok : Bool) (s : SnapshotState Node j)
      → let out = write_snapshot Node j put_ok s in (out.state.db ≡ s.db) × (out.reset ≡ false)
  unfolding write_snapshot write_marshalled
  write_snapshot-kept put_ok s = ground arith

  -- Whether a reset is due, by what the read found.
  abbrev pub edge : Bool → SnapshotState Node j → Bool
  edge is_empty s = is_empty && not (s.saw_empty) && is_populated Node j (s.db)

  tick_got_reset :
      (put_ok is_empty : Bool) (s : SnapshotState Node j)
      → edge is_empty s ≡ true
      → let out = tick_got Node j put_ok is_empty s in
        (out.reset ≡ true)
        × (out.state.db ≡ [])
        × (out.state.saw_empty ≡ true)
        × (out.put ≡ none)
        × (out.wrote ≡ false)
  unfolding tick_got
  tick_got_reset put_ok is_empty s h = rw h (refl, refl, ground arith, refl, refl)

  tick_got_written :
      (put_ok is_empty : Bool) (s : SnapshotState Node j)
      → edge is_empty s ≡ false
      → tick_got Node j put_ok is_empty s
        ≡ write_snapshot Node j put_ok (record s { saw_empty = is_empty })
  unfolding tick_got
  tick_got_written put_ok is_empty s h = rw h refl

  -- A reset is due: the read succeeded and found an empty object, the previous look at the remote
  -- did not, and the database has nodes.
  abbrev pub due : Got → SnapshotState Node j → Bool
  due (got b) s = edge (is_empty_snapshot Node j b) s
  due _ s = false

  tick-due :
      (answer : Got) (put_ok : Bool) (s : SnapshotState Node j)
      → due answer s ≡ true
      → let out = tick Node j answer put_ok s in
        (out.reset ≡ true)
        × (out.state.db ≡ [])
        × (out.state.saw_empty ≡ true)
        × (out.put ≡ none)
        × (out.wrote ≡ false)
  unfolding tick
  tick-due (got b) put_ok s h = tick_got_reset put_ok (is_empty_snapshot Node j b) s h
  tick-due no_snapshot put_ok s h = ground arith
  tick-due unreachable put_ok s h = ground arith

  tick_not_due :
      (answer : Got) (put_ok : Bool) (s : SnapshotState Node j)
      → due answer s ≡ false
      → (s' : SnapshotState Node j) × (tick Node j answer put_ok s
          ≡ write_snapshot Node j put_ok s')
        × (s'.db ≡ s.db)
  unfolding tick
  tick_not_due (got b) put_ok s h = (
    record s { saw_empty = is_empty_snapshot Node j b },
    tick_got_written put_ok (is_empty_snapshot Node j b) s h,
    refl,
  )
  tick_not_due no_snapshot put_ok s h = (record s { saw_empty = false }, refl, refl)
  tick_not_due unreachable put_ok s h = (s, refl, refl)

  -- The database is emptied exactly when a reset is due, and nothing is written then.
  pub tick-reset :
      (answer : Got) (put_ok : Bool) (s : SnapshotState Node j)
      → let out = tick Node j answer put_ok s in
        (out.reset ≡ due answer s)
        × (out.state.db ≡ (if due answer s then [] else s.db))
        × (due answer s ≡ true → out.put ≡ none)
  tick-reset answer put_ok s = elim (Bool-cases (due answer s)) [
    | inl h ↦
        let (reset, emptied, _, nothing, _) = tick-due answer put_ok s h in
        (reset ∙ sym h, emptied ∙ (ground arith), λ _. nothing)
    | inr h ↦
        let (s', is, same) = tick_not_due answer put_ok s h in
        let (kept, no_reset) = write_snapshot-kept put_ok s' in
        rw is (no_reset ∙ sym h, kept ∙ same ∙ (ground arith), λ e. ground arith)
  ]

  due-saw_empty :
      (answer : Got) (s : SnapshotState Node j) → s.saw_empty ≡ true → due answer s ≡ false
  due-saw_empty answer s h = ground arith

  -- A reset is never followed by another one: the next tick, whatever it reads, keeps the
  -- database that traffic filled again.
  tick-tick_after_reset :
      (first second : Got) (put_ok put_ok' : Bool) (s : SnapshotState Node j) (db : List (ℕ × Node))
      → due first s ≡ true
      → let filled = record ((tick Node j first put_ok s).state) { db = db } in
        let out = tick Node j second put_ok' filled in (out.reset ≡ false) × (out.state.db ≡ db)
  tick-tick_after_reset first second put_ok put_ok' s db h =
      let (_, _, seen, _, _) = tick-due first put_ok s h in
      let filled = record ((tick Node j first put_ok s).state) { db = db } in
      let (s', is, same) = tick_not_due second put_ok' filled (due-saw_empty second filled seen) in
      let (kept, no_reset) = write_snapshot-kept put_ok' s' in rw is (no_reset, kept ∙ same)

  -- What comes to the snapshotter: traffic and clients change the database as they like, and a tick
  -- reads the store, where anyone may have put anything, and writes to it.
  pub data Event : Type 0 where
    changed : List (ℕ × Node) → Event
    ticked : Got → Bool → Event

  -- What the tick in a state tells of the remote: it found an object that is not empty or none at
  -- all, or it wrote a database with nodes.
  abbrev pub found_other : Got → Bool
  found_other (got b) = not (is_empty_snapshot Node j b)
  found_other no_snapshot = true
  found_other unreachable = false

  abbrev pub rearms : Got → Bool → SnapshotState Node j → Bool
  rearms answer put_ok s =
      found_other answer || ((tick Node j answer put_ok s).wrote && is_populated Node j (s.db))

  abbrev pub after_event : Event → SnapshotState Node j → SnapshotState Node j
  after_event (changed db) s = record s { db = db }
  after_event (ticked answer put_ok) s = (tick Node j answer put_ok s).state

  abbrev pub one_if : Bool → ℕ
  one_if b = if b then 1 else 0

  -- How often the database was reset, and how often a tick told that the remote is not empty.
  unfoldable pub resets : List Event → SnapshotState Node j → ℕ
  resets [] s = 0
  resets (changed db ∷ events) s = resets events (after_event (changed db) s)
  resets (ticked answer put_ok ∷ events) s =
      one_if ((tick Node j answer put_ok s).reset)
      + resets events (after_event (ticked answer put_ok) s)

  unfoldable pub rearmed : List Event → SnapshotState Node j → ℕ
  rearmed [] s = 0
  rearmed (changed db ∷ events) s = rearmed events (after_event (changed db) s)
  rearmed (ticked answer put_ok ∷ events) s =
      one_if (rearms answer put_ok s) + rearmed events (after_event (ticked answer put_ok) s)

  abbrev armed : SnapshotState Node j → ℕ
  armed s = if s.saw_empty then 0 else 1

  -- A tick that resets takes the edge, and only what tells that the remote is not empty gives it
  -- back.
  write-armed :
      (put_ok : Bool) (s : SnapshotState Node j)
      → let out = write_snapshot Node j put_ok s in
        (out.reset ≡ false)
        × (armed (out.state) ≤ armed s + one_if (out.wrote && is_populated Node j (s.db)))
  unfolding write_snapshot write_marshalled
  write-armed put_ok s = ground arith

  tick_got-armed :
      (put_ok is_empty : Bool) (s : SnapshotState Node j)
      → let out = tick_got Node j put_ok is_empty s in
        one_if (out.reset) + armed (out.state)
        ≤ armed s + one_if (not is_empty || (out.wrote && is_populated Node j (s.db)))
  tick_got-armed put_ok is_empty s = elim (Bool-cases (edge is_empty s)) [
    | inl h ↦
        let (reset, _, seen, _, _) = tick_got_reset put_ok is_empty s h in
        ground (arith, reset, seen, h)
    | inr h ↦
        rw (tick_got_written put_ok is_empty s h)
          (ground (arith, write-armed put_ok (record s { saw_empty = is_empty })))
  ]

  tick-armed :
      (answer : Got) (put_ok : Bool) (s : SnapshotState Node j)
      → let out = tick Node j answer put_ok s in
        one_if (out.reset) + armed (out.state) ≤ armed s + one_if (rearms answer put_ok s)
  unfolding tick
  tick-armed (got b) put_ok s = tick_got-armed put_ok (is_empty_snapshot Node j b) s
  tick-armed no_snapshot put_ok s =
      ground (arith, write-armed put_ok (record s { saw_empty = false }))
  tick-armed unreachable put_ok s = ground (arith, write-armed put_ok s)

  resets-armed :
      (events : List Event) (s : SnapshotState Node j)
      → resets events s ≤ armed s + rearmed events s
  unfolding resets rearmed
  resets-armed [] s = omega arith
  resets-armed (changed db ∷ events) s = resets-armed events (record s { db = db })
  resets-armed (ticked answer put_ok ∷ events) s = omega (
    arith,
    tick-armed answer put_ok s,
    resets-armed events (after_event (ticked answer put_ok) s),
  )

  -- However the database changes and whatever the store holds and answers, ticks reset the database
  -- at most once more than ticks told that the remote is not empty: by an object that is not empty, by
  -- none, or by writing a database with nodes. So an empty object that stays there resets it once.
  pub resets-le-rearmed :
      (events : List Event) (s : SnapshotState Node j) → resets events s ≤ 1 + rearmed events s
  resets-le-rearmed events s =
      let at_most_one : armed s ≤ 1 = ground arith in
      omega (arith, resets-armed events s, at_most_one)

  write_snapshot-wrote :
      (put_ok : Bool) (s : SnapshotState Node j) (b : List ℕ)
      → let out = write_snapshot Node j put_ok s in
        out.wrote ≡ true
        → out.put ≡ some b
        → (j.marshal (s.db) ≡ some b) × (out.state.saw_empty ≡ not (is_populated Node j (s.db)))
  unfolding write_snapshot write_marshalled
  write_snapshot-wrote put_ok s b wrote handed = ground arith

  -- What the Snapshotter remembers of the remote it wrote fits what it will read there.
  remembered :
      (nodes : List (ℕ × Node)) (b : List ℕ) (s : SnapshotState Node j)
      → j.keys b ≡ some (length nodes)
      → s.saw_empty ≡ not (is_populated Node j nodes)
      → due (got b) s ≡ false
  unfolding is_empty_snapshot
  remembered [] b s counted saw = due-saw_empty (got b) s saw
  remembered (n ∷ nodes) b s counted saw = ground (arith, counted)

  -- Where a database that is marshalled is an object with as many entries, what a tick wrote is never
  -- taken for a reset when the next tick reads it back, however the database has changed in between.
  pub tick-tick_after_write :
      ((nodes : List (ℕ × Node)) (b : List ℕ)
        → j.marshal nodes ≡ some b
        → j.keys b ≡ some (length nodes))
      → (answer : Got) (put_ok put_ok' : Bool) (s : SnapshotState Node j) (b : List ℕ)
        (db : List (ℕ × Node))
      → (tick Node j answer put_ok s).wrote ≡ true
      → (tick Node j answer put_ok s).put ≡ some b
      → let changed = record ((tick Node j answer put_ok s).state) { db = db } in
        (tick Node j (got b) put_ok' changed).reset ≡ false
  tick-tick_after_write counts answer put_ok put_ok' s b db wrote handed =
      elim (Bool-cases (due answer s)) [
        | inl h ↦
            let (_, _, _, _, not_wrote) = tick-due answer put_ok s h in
            ground (arith, not_wrote, wrote)
        | inr h ↦
            let (s', is, _) = tick_not_due answer put_ok s h in
            let (marshalled, saw) =
              write_snapshot-wrote put_ok s' b
                (sym (ap (λ (t : Ticked Node j). t.wrote) is) ∙ wrote)
                (sym (ap (λ (t : Ticked Node j). t.put) is) ∙ handed) in
            let changed = record ((tick Node j answer put_ok s).state) { db = db } in
            let calm =
              remembered (s'.db) b changed (counts (s'.db) b marshalled)
                (ap (λ (t : Ticked Node j). t.state.saw_empty) is ∙ saw) in
            (tick-reset (got b) put_ok' changed).0 ∙ calm
      ]

  -- A cold start: a populated database is never overwritten, a missing snapshot is no error, and
  -- what is reported as restored is there.
  restore_snapshot-lem :
      (db : List (ℕ × Node)) (answer : Got)
      → let (db', did, error) = restore_snapshot Node j db answer in
        (db ≢ [] → (db' ≡ db) × (did ≡ false) × (error ≡ none))
        × (did ≡ true → (db' ≢ []) × (error ≡ none))
        × (answer ≡ no_snapshot → (db' ≡ db) × (error ≡ none))
  unfolding restore_snapshot
  restore_snapshot-lem db answer = ground arith
