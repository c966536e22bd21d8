-- ===== src/Otp.antt =====
-- The delivery of one-time codes and welcomes to radios: `processOtpQueue` of
-- internal/app/fleet/otpsend.go over the queue of internal/otpqueue/types.go. A pass is the list of
-- calls that it makes, in their order, with its tally. The store only logs its errors here, and what
-- the radio side answers is a parameter.
pub mod Queue
pub mod Laws
use meshtk.Prelude.{
  ℕ, ◌+◌, ◌*◌, List, [], ◌∷◌, ◌++◌, Bool, not, Option, none, some, String, ltb, leb, if◌then◌else◌,
}

-- Milliseconds.
abbrev pub max_age_ms : ℕ
max_age_ms = 24 * 60 * 60 * 1000

abbrev pub max_attempts : ℕ
max_attempts = 10

pub record Item : Type 0 where
  pub node_id : String
  pub node_num : ℕ
  pub code : String
  pub public_key : String
  pub user_id : String
  pub attempts : ℕ
  pub created_at : ℕ

pub record WelcomeItem : Type 0 where
  pub node_id : String
  pub node_num : ℕ
  pub message : String
  pub user_id : String
  pub attempts : ℕ
  pub created_at : ℕ

-- `otpSendDeps`: the clock when an item is looked at and when its code was sent, the key of the
-- radio, whether a message went out, and whether the radio is heard.
pub record Deps : Type 0 where
  pub now_ms : String → ℕ
  pub sent_ms : String → ℕ
  pub resolve_pub_key_hex : Item → Option String
  pub send_code : ℕ → String → String → Bool
  pub send_welcome : WelcomeItem → String → Bool
  pub node_alive_now : ℕ → Bool

pub data Call : Type 0 where
  send_code : ℕ → String → String → Call
  send_welcome : WelcomeItem → String → Call
  delete : String → Call
  bump_attempts : String → ℕ → Call
  mark_radio_code_sent : ℕ → ℕ → Call
  delete_welcome : String → Call
  bump_welcome_attempts : String → ℕ → Call

pub data Fate : Type 0 where
  sent welcomed waiting reaped failed : Fate

pub record Tally : Type 0 where
  pub sent : ℕ
  pub welcome : ℕ
  pub waiting : ℕ
  pub reaped : ℕ
  pub failed : ℕ

abbrev pub no_tally : Tally
no_tally = record { sent = 0; welcome = 0; waiting = 0; reaped = 0; failed = 0 }

abbrev pub count : Fate → Tally → Tally
count Fate.sent t = record t { sent = t.sent + 1 }
count welcomed t = record t { welcome = t.welcome + 1 }
count Fate.waiting t = record t { waiting = t.waiting + 1 }
count Fate.reaped t = record t { reaped = t.reaped + 1 }
count Fate.failed t = record t { failed = t.failed + 1 }

-- `now - CreatedAt > MaxAgeMs`, said as a sum.
abbrev pub is_expired : ℕ → ℕ → Bool
is_expired now created_at = ltb (created_at + max_age_ms) now

-- The item that the key of a welcome's radio is asked for with.
abbrev pub bare_item : WelcomeItem → Item
bare_item w = record {
  node_id = w.node_id;
  node_num = w.node_num;
  code = "";
  public_key = "";
  user_id = "";
  attempts = 0;
  created_at = 0;
}

module _ (deps : Deps) where
  abbrev pub try_code : Item → String → List Call × Fate
  try_code it key =
      let call = Call.send_code (it.node_num) key (it.code) in
      if deps.send_code (it.node_num) key (it.code)
      then (
        call
            ∷ delete (it.node_id)
            ∷ mark_radio_code_sent (it.node_num) (deps.sent_ms (it.node_id))
            ∷ [],
        Fate.sent,
      )
      else (call ∷ bump_attempts (it.node_id) (it.attempts + 1) ∷ [], Fate.failed)

  -- The `switch` on an item.
  unfoldable pub handle_item : Item → List Call × Fate
  handle_item it =
      if is_expired (deps.now_ms (it.node_id)) (it.created_at)
      then (delete (it.node_id) ∷ [], Fate.reaped)
      else if leb max_attempts (it.attempts)
      then (delete (it.node_id) ∷ [], Fate.reaped)
      else (elim (deps.resolve_pub_key_hex it) [
        | none ↦ ([], Fate.waiting)
        | some key ↦ try_code it key
      ])

  abbrev pub try_welcome : WelcomeItem → String → List Call × Fate
  try_welcome w key =
      let call = Call.send_welcome w key in
      if deps.send_welcome w key
      then (call ∷ delete_welcome (w.node_id) ∷ [], welcomed)
      else (call ∷ bump_welcome_attempts (w.node_id) (w.attempts + 1) ∷ [], Fate.failed)

  -- The `switch` on a welcome, which is held until the radio is heard.
  unfoldable pub handle_welcome : WelcomeItem → List Call × Fate
  handle_welcome w =
      if is_expired (deps.now_ms (w.node_id)) (w.created_at)
      then (delete_welcome (w.node_id) ∷ [], Fate.reaped)
      else if leb max_attempts (w.attempts)
      then (delete_welcome (w.node_id) ∷ [], Fate.reaped)
      else if not (deps.node_alive_now (w.node_num))
      then ([], Fate.waiting)
      else (elim (deps.resolve_pub_key_hex (bare_item w)) [
        | none ↦ ([], Fate.waiting)
        | some key ↦ try_welcome w key
      ])

-- The loop over a list, which is the same for both.
unfoldable pub pass_over :
    {A : Type 0} → (A → List Call × Fate) → List A → Tally → List Call × Tally
pass_over handle [] t = ([], t)
pass_over handle (a ∷ rest) t =
    let (calls, fate) = handle a in
    let (later, t') = pass_over handle rest (count fate t) in (calls ++ later, t')

-- The queue as `List` gave it, or its error.
unfoldable pub process_otp_queue : Deps → Option (List Item × List WelcomeItem) → List Call × Tally
process_otp_queue deps none = ([], no_tally)
process_otp_queue deps (some (items, welcomes)) =
    let (calls, t) = pass_over (handle_item deps) items no_tally in
    let (later, t') = pass_over (handle_welcome deps) welcomes t in (calls ++ later, t')
