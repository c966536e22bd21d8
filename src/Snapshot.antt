-- ===== src/Snapshot.antt =====
-- The durable snapshot of the node database: internal/mqtt/snapshot.go. The object store and the
-- JSON library are parameters. `keys` counts the entries of a JSON object, if the bytes are one, as
-- the probe of `isEmptySnapshot` does; the answers of the store are arguments of each call.
pub mod Laws
use meshtk.Prelude.{
  ℕ, List, [], ◌∷◌, Bool, true, false, ◌&&◌, not, Option, none, some, ◌==◌, if◌then◌else◌, ltb,
  length, ◌≡◌,
}

pub record Json (Node : Type 0) : Type 0 where
  pub marshal : List (ℕ × Node) → Option (List ℕ)
  -- What was read into the empty database, and whether there was no error.
  pub unmarshal : List ℕ → List (ℕ × Node) × Bool
  pub keys : List ℕ → Option ℕ

-- `SnapshotStore.Get`
pub data Got : Type 0 where
  got : List ℕ → Got
  no_snapshot unreachable : Got

pub data SnapshotError : Type 0 where
  get_failed unmarshal_failed marshal_failed put_failed : SnapshotError

module _ (Node : Type 0) (j : Json Node) where
  open j use {marshal, unmarshal, keys}

  -- The database and the memory of the Snapshotter.
  pub record SnapshotState : Type 0 where
    pub db : List (ℕ × Node)
    pub saw_empty : Bool

  -- What a tick did: the result, the error, and the bytes that it handed to the store.
  pub record Ticked : Type 0 where
    pub state : SnapshotState
    pub reset : Bool
    pub wrote : Bool
    pub error : Option SnapshotError
    pub put : Option (List ℕ)

  unfoldable pub is_empty_snapshot : List ℕ → Bool
  is_empty_snapshot b = elim (keys b) [ none ↦ false | some n ↦ n == 0 ]

  abbrev pub is_populated : List (ℕ × Node) → Bool
  is_populated [] = false
  is_populated (_ ∷ _) = true

  -- The write, with what `MarshalSnapshot` returned.
  unfoldable pub write_marshalled : Bool → SnapshotState → Option (List ℕ) → Ticked
  write_marshalled put_ok s none = record {
    state = s;
    reset = false;
    wrote = false;
    error = some marshal_failed;
    put = none;
  }
  write_marshalled put_ok s (some out) =
      if put_ok
      then record {
        state = record s { saw_empty = not (is_populated (s.db)) };
        reset = false;
        wrote = true;
        error = none;
        put = some out;
      }
      else record {
        state = s;
        reset = false;
        wrote = false;
        error = some put_failed;
        put = some out;
      }

  unfoldable pub write_snapshot : Bool → SnapshotState → Ticked
  write_snapshot put_ok s = write_marshalled put_ok s (marshal (s.db))

  unfoldable pub tick_got : Bool → Bool → SnapshotState → Ticked
  tick_got put_ok is_empty s =
      let s' = record s { saw_empty = is_empty } in
      let written = write_snapshot put_ok s' in
      if is_empty && not (s.saw_empty) && is_populated (s.db)
      then record {
        state = record s' { db = [] };
        reset = true;
        wrote = false;
        error = none;
        put = none;
      }
      else written

  -- A missing object disarms the edge; a failed read falls through to the write.
  unfoldable pub tick : Got → Bool → SnapshotState → Ticked
  unfolding tick_got is_empty_snapshot
  tick (got b) put_ok s = tick_got put_ok (is_empty_snapshot b) s
  tick no_snapshot put_ok s = write_snapshot put_ok (record s { saw_empty = false })
  tick unreachable put_ok s = write_snapshot put_ok s

  abbrev pub restored : List (ℕ × Node) × Bool → List (ℕ × Node) × Bool × Option SnapshotError
  restored (read, false) = (read, false, some unmarshal_failed)
  restored (read, true) = (read, is_populated read, none)

  unfoldable pub restore_snapshot :
      List (ℕ × Node) → Got → List (ℕ × Node) × Bool × Option SnapshotError
  restore_snapshot (n ∷ db) answer = (n ∷ db, false, none)
  restore_snapshot [] (got b) = restored (unmarshal b)
  restore_snapshot [] no_snapshot = ([], false, none)
  restore_snapshot [] unreachable = ([], false, some get_failed)
