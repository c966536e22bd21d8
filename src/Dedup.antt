-- ===== src/Dedup.antt =====
-- The guard against a radio's own retransmissions, `dedupRequest` of internal/app/fleet/cmd.go. Times
-- are numbers of nanoseconds, and a map is the list of its entries.
pub mod Laws
use meshtk.Prelude.{
  ℕ, ◌+◌, List, [], ◌∷◌, Bool, true, false, Option, none, some, String, str_eq, leb, if◌then◌else◌,
}
use meshtk.Node.{expire, delete_key}

abbrev pub request_dedup_window : ℕ
request_dedup_window = 30000000000

abbrev pub Requests : Type 0
Requests = List (String × ℕ)

unfoldable pub find_time : String → Requests → Option ℕ
find_time key [] = none
find_time key ((k, t) ∷ rest) =
    let found = find_time key rest in if str_eq k key then some t else found

-- `now.Sub(t) <= window`
unfoldable pub is_recent : ℕ → ℕ → Option ℕ → Bool
is_recent now window none = false
is_recent now window (some t) = leb now (t + window)

-- Whether the request is a repetition, and the map afterwards.
unfoldable pub dedup_request : String → ℕ → ℕ → Requests → Bool × Requests
dedup_request key now window seen =
    let live = expire now window seen in
    if is_recent now window (find_time key live)
    then (true, live)
    else (false, (key, now) ∷ delete_key str_eq "" key live)

-- The answers to requests as they come, each with its key and its time.
unfoldable pub dedup_all : ℕ → Requests → Requests → List Bool
dedup_all window seen [] = []
dedup_all window seen ((key, now) ∷ rest) =
    let (answer, after) = dedup_request key now window seen in answer ∷ dedup_all window after rest
