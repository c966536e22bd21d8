-- ===== src/Examples/Fleet.antt =====
-- Radios that ask, and a node database of one node.
use meshtk.Prelude.{
  ℕ, ◌+◌, ◌-◌, ◌*◌, ◌/◌, ◌≤◌, min, ◌≡◌, refl, arith, List, [], ◌∷◌, true, false, none, some, ltb,
  le→ltb, ltb→lt, length,
}
use meshtk.RateLimit.{Floats, fresh, take_all_tokens, allow_all}
use meshtk.RateLimit.Laws.{CountLaws, take_all_tokens-burst}
use meshtk.RateLimit.Prune.{FloatLaws, unpruned_all, allow_all-unpruned}
use meshtk.Snapshot.{
  Json, got, no_snapshot, SnapshotState, tick, tick_got, write_snapshot, write_marshalled,
  is_empty_snapshot,
}
use meshtk.Snapshot.Laws.{
  Event, changed, ticked, resets, rearmed, resets-le-rearmed, tick-tick_after_write,
}

-- Whole numbers for the floats, where a second is counted by its nanoseconds.
abbrev whole : Floats
whole = record {
  Float = ℕ;
  of_count = λ n. n;
  seconds = λ n. n;
  add = λ a b. a + b;
  sub = λ a b. a - b;
  mul = λ a b. a * b;
  div = λ a b. a / b;
  lt = ltb;
}

whole-CountLaws : CountLaws whole
whole-CountLaws = record {
  sub_one = λ n h. (omega arith);
  not_lt_self = refl;
  lt_one = refl;
  one_le = λ n. (ground arith);
  pos_suc = λ n. (ground arith);
}

whole-mul_mono : (a b c : ℕ) → ltb b a ≡ false → ltb (b * c) (a * c) ≡ false
whole-mul_mono a b c h = let le : a ≤ b = ground arith in le→ltb (b * c) (a * c) (grind (arith, le))

whole-div_mono : (a b c : ℕ) → ltb b a ≡ false → ltb (b / c) (a / c) ≡ false
whole-div_mono a b c h = let le : a ≤ b = ground arith in le→ltb (b / c) (a / c) (grind (arith, le))

whole-FloatLaws : FloatLaws whole
whole-FloatLaws = record {
  le_trans = λ a b c h k. (ground arith);
  le_antisym = λ a b h k. (ground arith);
  le_add = λ a b. (ground arith);
  mul_mono = whole-mul_mono;
  div_mono = whole-div_mono;
  seconds_mono = λ m n h. (ground arith);
}

-- Three calls at once under a ceiling of two, the last as the clock steps back.
take_all_tokens-burst_example :
    (take_all_tokens whole 2 10 (6 ∷ 6 ∷ 3 ∷ []) (fresh whole)).1 ≡ min 3 2
take_all_tokens-burst_example =
    take_all_tokens-burst whole whole-CountLaws 10 (ltb→lt 0 10 refl) 2 6 (6 ∷ 3 ∷ []) (omega arith)
      ((omega arith), ((omega arith), tt))

-- Two radios, of which one is pruned before it asks again.
abbrev asked : List (ℕ × ℕ)
asked = (7, 1) ∷ (7, 2) ∷ (9, 3) ∷ (7, 4) ∷ (7, 20) ∷ (9, 21) ∷ []

allow_all-unpruned_example :
    allow_all whole 2 10 asked (λ k. none) ≡ unpruned_all whole 2 10 asked (λ k. none)
allow_all-unpruned_example =
    allow_all-unpruned whole whole-FloatLaws 2 10 (ltb→lt 0 10 refl) refl refl asked (λ k. none)
      (omega arith)

-- A database of numbers, written as its length.
abbrev json : Json ℕ
json = record {
  marshal = λ db. some (length db ∷ []);
  unmarshal = λ b. ((7, 7) ∷ [], true);
  keys = λ b. elim b [ [] ↦ none | n ∷ _ ↦ some n ];
}

abbrev running : SnapshotState ℕ json
running = record { db = (7, 7) ∷ []; saw_empty = false }

-- The operator empties the object, traffic comes back, and the object stays empty.
abbrev cleared_once : List (Event ℕ json)
cleared_once =
    ticked (got (1 ∷ [])) true
    ∷ ticked (got (0 ∷ [])) true
    ∷ changed ((7, 8) ∷ [])
    ∷ ticked (got (0 ∷ [])) false
    ∷ ticked (got (0 ∷ [])) false
    ∷ []

reset_once : resets ℕ json cleared_once running ≡ 1
unfolding resets tick tick_got write_snapshot write_marshalled is_empty_snapshot
reset_once = refl

resets-le-rearmed_example :
    resets ℕ json cleared_once running ≤ 1 + rearmed ℕ json cleared_once running
resets-le-rearmed_example = resets-le-rearmed ℕ json cleared_once running

json-counts :
    (nodes : List (ℕ × ℕ)) (b : List ℕ)
    → json.marshal nodes ≡ some b
    → json.keys b ≡ some (length nodes)
json-counts nodes [] h = cc
json-counts nodes (n ∷ b) h = ground arith

wrote : (tick ℕ json no_snapshot true running).wrote ≡ true
unfolding tick write_snapshot write_marshalled
wrote = refl

handed : (tick ℕ json no_snapshot true running).put ≡ some (1 ∷ [])
unfolding tick write_snapshot write_marshalled
handed = refl

-- A database that traffic empties after it was written, and fills again.
tick-tick_after_write_example :
    (tick ℕ json
      (got (1 ∷ []))
      true
      (record ((tick ℕ json no_snapshot true running).state) { db = [] })).reset
    ≡ false
tick-tick_after_write_example =
    tick-tick_after_write ℕ json json-counts no_snapshot true true running (1 ∷ []) [] wrote handed
