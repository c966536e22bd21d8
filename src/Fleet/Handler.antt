-- ===== src/Fleet/Handler.antt =====
-- The text branch of `FleetNodeHandler` of internal/app/fleet/cmd.go, with `guardText` of guard.go. A text
-- is the list of its bytes. The answers of the code window, of the guard and of the clock are part of
-- the message; `request_key` is `fmt.Sprintf("%d:%s", ...)` and `to_lower` is `strings.ToLower`.
pub mod Laws
use meshtk.Dedup.{Requests, dedup_request, request_dedup_window}
use meshtk.Prelude.{
  ℕ, ◌+◌, List, [], ◌∷◌, ◌++◌, Bool, true, false, ◌&&◌, ◌||◌, not, Option, none, some, String,
  str_eq, ltb, ◌==◌, if◌then◌else◌, contains,
}

abbrev pub Text : Type 0
Text = List ℕ

unfoldable pub contains_any : Text → List Text → Bool
unfolding contains
contains_any message [] = false
contains_any message (code ∷ codes) = contains message code || contains_any message codes

-- What became of the request to the guard; an empty address skips it.
pub data GuardAnswer : Type 0 where
  not_configured not_built unreachable bad_status undecodable : GuardAnswer
  verdict : Bool → String → GuardAnswer

-- Whether the text is allowed, and the reason. `fail_closed` blocks where there is no verdict.
unfoldable pub guard_text : Bool → GuardAnswer → Bool × String
guard_text fail_closed not_configured = (true, "")
guard_text fail_closed not_built = (not fail_closed, "guard-build-error")
guard_text fail_closed unreachable = (not fail_closed, "guard-unreachable")
guard_text fail_closed bad_status = (not fail_closed, "guard-status")
guard_text fail_closed undecodable = (not fail_closed, "guard-decode")
guard_text fail_closed (verdict allowed reason) = (allowed, reason)

unfoldable pub is_guard_outage_reason : String → Bool
is_guard_outage_reason reason =
    str_eq reason "guard-build-error"
    || str_eq reason "guard-unreachable"
    || str_eq reason "guard-status"
    || str_eq reason "guard-decode"

pub data Action : Type 0 where
  reply : String → Action
  degraded_reply canned_refusal flag_reveal index_panic : Action
  lyrics : String → Action
  chat : Text → String → Action
  award : String → Action

unfoldable pub guard_refusal_message : String → Action
unfolding is_guard_outage_reason
guard_refusal_message reason =
    if is_guard_outage_reason reason then degraded_reply else canned_refusal

pub record ChatBot : Type 0 where
  pub kind : String
  pub message : List String
  pub unlocks_chat_mode : Bool

pub record FlagChallenge : Type 0 where
  pub triggers : List Text

pub record Ghost : Type 0 where
  pub id : String
  pub chat_bots : List ChatBot
  pub system_prompt : String
  pub has_otp_handler : Bool
  pub challenge : Option FlagChallenge
  pub fail_closed : Bool

pub record Unlock : Type 0 where
  pub unlock_timestamp : ℕ
  pub unlock_message : Text

abbrev pub Unlocks : Type 0
Unlocks = List (ℕ × Unlock)

pub record GhostState : Type 0 where
  pub otp_unlocks : Unlocks
  pub recent_req : Requests

-- A direct message to the ghost. `codes` is empty where `ValidCodesWindow` failed.
pub record DirectMessage : Type 0 where
  pub from : ℕ
  pub message : Text
  pub time : ℕ
  pub codes : Option (List Text)
  pub guard : GuardAnswer

-- The map of the bots by their kind: a later one replaces an earlier one.
unfoldable pub or_this : Option ChatBot → ChatBot → String → Option ChatBot
or_this (some later) b kind = some later
or_this none b kind = if str_eq (b.kind) kind then some b else none

unfoldable pub find_bot : String → List ChatBot → Option ChatBot
unfolding or_this
find_bot kind [] = none
find_bot kind (b ∷ bots) = or_this (find_bot kind bots) b kind

unfoldable pub find_unlock : ℕ → Unlocks → Option Unlock
find_unlock radio [] = none
find_unlock radio ((r, u) ∷ rest) = if r == radio then some u else find_unlock radio rest

unfoldable pub delete_unlock : ℕ → Unlocks → Unlocks
delete_unlock radio [] = []
delete_unlock radio ((r, u) ∷ rest) =
    let kept = delete_unlock radio rest in if r == radio then kept else (r, u) ∷ kept

unfoldable pub put_unlock : ℕ → Unlock → Unlocks → Unlocks
unfolding delete_unlock
put_unlock radio u unlocks = (radio, u) ∷ delete_unlock radio unlocks

-- An hour.
abbrev pub unlock_ttl : ℕ
unlock_ttl = 3600000000000

unfoldable pub unlock_is_over : ℕ → Option Unlock → Bool
unlock_is_over now none = false
unlock_is_over now (some u) = ltb (u.unlock_timestamp + unlock_ttl) now

abbrev pub set_unlocks : Unlocks → GhostState → GhostState
set_unlocks unlocks s = record s { otp_unlocks = unlocks }

unfoldable pub replies : List String → List Action
replies [] = []
replies (text ∷ texts) = reply text ∷ replies texts

-- `Message[0]` panics on a bot without messages. `lyrics` stands for all that `handleLyricsChat` starts,
-- its award at the end of the song included.
unfoldable pub lyrics_of : ChatBot → List Action
lyrics_of b = elim (b.message) [ [] ↦ index_panic ∷ [] | first ∷ _ ↦ lyrics first ∷ [] ]

unfoldable pub matches_any : (Text → Text) → List Text → Text → Bool
unfolding contains
matches_any to_lower [] low = false
matches_any to_lower ([] ∷ triggers) low = matches_any to_lower triggers low
matches_any to_lower ((c ∷ t) ∷ triggers) low =
    contains low (to_lower (c ∷ t)) || matches_any to_lower triggers low

unfoldable pub matches_trigger : (Text → Text) → Option FlagChallenge → Text → Bool
unfolding matches_any
matches_trigger to_lower none message = false
matches_trigger to_lower (some ch) message = matches_any to_lower (ch.triggers) (to_lower message)

module _ (to_lower : Text → Text) (request_key : ℕ → Text → String) (g : Ghost) where
  -- The reply to what the guard let through or not.
  unfoldable pub guarded : DirectMessage → Bool × String → List Action
  unfolding guard_refusal_message matches_trigger
  guarded d (false, reason) = guard_refusal_message reason ∷ []
  guarded d (true, reason) =
      if matches_trigger to_lower (g.challenge) (d.message)
      then flag_reveal ∷ []
      else chat (d.message) (g.system_prompt) ∷ []

  unfoldable pub unlocked_reply : DirectMessage → Option ChatBot → Option ChatBot → List Action
  unfolding guarded lyrics_of
  unlocked_reply d (some gpt) _ = guarded d (guard_text (g.fail_closed) (d.guard))
  unlocked_reply d none (some b) = lyrics_of b
  unlocked_reply d none none = []

  abbrev pub unlocking : DirectMessage → GhostState → GhostState
  unlocking d s =
      set_unlocks
        (put_unlock (d.from) (record { unlock_timestamp = d.time; unlock_message = d.message })
          (s.otp_unlocks))
        s

  unfoldable pub otp_success :
      DirectMessage → GhostState → Option ChatBot → GhostState × List Action
  unfolding replies put_unlock
  otp_success d s none = (s, [])
  otp_success d s (some b) =
      if b.unlocks_chat_mode
      then (unlocking d s, replies (b.message) ++ award (g.id) ∷ [])
      else (s, replies (b.message))

  unfoldable pub lyrics_if : Option ChatBot → List Action
  unfolding lyrics_of
  lyrics_if none = []
  lyrics_if (some b) = lyrics_of b

  unfoldable pub otp_failure :
      DirectMessage → GhostState → Option ChatBot → GhostState × List Action
  unfolding replies lyrics_if put_unlock
  otp_failure d s none = (s, [])
  otp_failure d s (some b) =
      if b.unlocks_chat_mode
      then (unlocking d s, lyrics_if (find_bot "chatmode_lyrics" (g.chat_bots)))
      else (s, replies (b.message))

  unfoldable pub by_unlock :
      DirectMessage → Bool → GhostState → Option Unlock → GhostState × List Action
  unfolding unlocked_reply otp_success otp_failure
  by_unlock d has_otp s (some u) = (
    s,
    unlocked_reply d (find_bot "chatmode_unlocked" (g.chat_bots))
        (find_bot "chatmode_lyrics" (g.chat_bots)),
  )
  by_unlock d has_otp s none =
      if has_otp
      then otp_success d s (find_bot "otp_success" (g.chat_bots))
      else otp_failure d s (find_bot "otp_failure" (g.chat_bots))

  -- An unlock that is over is deleted first.
  unfoldable pub after_codes :
      DirectMessage → GhostState → Option (List Text) → GhostState × List Action
  unfolding by_unlock unlock_is_over
  after_codes d s none = (s, [])
  after_codes d s (some codes) =
      let found = find_unlock (d.from) (s.otp_unlocks) in
      let has_otp = contains_any (d.message) codes in
      if unlock_is_over (d.time) found
      then by_unlock d has_otp (set_unlocks (delete_unlock (d.from) (s.otp_unlocks)) s) none
      else by_unlock d has_otp s found

  unfoldable pub handle_text : DirectMessage → GhostState → GhostState × List Action
  unfolding after_codes
  handle_text d s =
      let (again, seen) =
        dedup_request (request_key (d.from) (d.message)) (d.time) request_dedup_window
          (s.recent_req) in
      let s' = record s { recent_req = seen } in
      if again then (s', []) else after_codes d s' (if g.has_otp_handler then d.codes else some [])

  -- The state that messages leave, the last one standing first.
  unfoldable pub after_all : List DirectMessage → GhostState → GhostState
  unfolding handle_text
  after_all [] s = s
  after_all (d ∷ before) s = (handle_text d (after_all before s)).0
