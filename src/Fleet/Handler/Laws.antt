-- ===== src/Fleet/Handler/Laws.antt =====
-- Who the ghosts of internal/app/fleet/cmd.go chat with and sing to.
use meshtk.Dedup.{dedup_request, request_dedup_window}
use meshtk.Fleet.Handler.{
  Text, contains_any, guard_text, guard_refusal_message, Action, flag_reveal, lyrics, chat, award,
  ChatBot, Ghost, Unlock, Unlocks, GhostState, DirectMessage, find_bot, find_unlock, delete_unlock,
  put_unlock, unlock_ttl, unlock_is_over, set_unlocks, replies, lyrics_of, guarded, unlocked_reply,
  unlocking, otp_success, otp_failure, by_unlock, after_codes, handle_text, after_all,
}
use meshtk.Node.Oldest.{In, here, there}
use meshtk.Prelude.{
  ℕ, ◌+◌, ◌≤◌, List, [], ◌∷◌, ◌++◌, Bool, true, false, Bool-cases, if-cases, Option, Option-cases,
  none, some, String, ◌≡◌, ◌⊎◌, ◌||◌, inl, inr, refl, sym, ap, ◌∙◌, arith, ◌==◌, ==_iff, ltb,
  if◌then◌else◌,
}

find_unlock-delete_self :
    (radio : ℕ) (unlocks : Unlocks) → find_unlock radio (delete_unlock radio unlocks) ≡ none
unfolding find_unlock delete_unlock
find_unlock-delete_self radio [] = refl
find_unlock-delete_self radio ((k, v) ∷ rest) = ground (arith, find_unlock-delete_self radio rest)

find_unlock-delete :
    (radio r : ℕ) (u : Unlock) (unlocks : Unlocks)
    → find_unlock r (delete_unlock radio unlocks) ≡ some u
    → find_unlock r unlocks ≡ some u
unfolding find_unlock delete_unlock
find_unlock-delete radio r u [] h = h
find_unlock-delete radio r u ((k, v) ∷ rest) h =
    ground (arith, find_unlock-delete radio r u rest, find_unlock-delete_self radio rest)

find_unlock-put :
    (radio r : ℕ) (v u : Unlock) (unlocks : Unlocks)
    → find_unlock radio (put_unlock r v unlocks) ≡ some u
    → (find_unlock radio unlocks ≡ some u) ⊎ ((radio ≡ r) × (v ≡ u))
unfolding find_unlock put_unlock
find_unlock-put radio r v u unlocks h = elim (Bool-cases (r == radio)) [
  | inl same ↦ inr (sym ((==_iff r radio).0 same), ground arith)
  | inr other ↦ inl (find_unlock-delete r radio u unlocks (rw other at h))
]

-- A message that holds a code that is valid as it comes.
abbrev pub HoldsCode : DirectMessage → Type 0
HoldsCode d = (codes : List Text) × (d.codes ≡ some codes) × (contains_any (d.message) codes ≡ true)

-- An unlock comes from a message of its radio, at its time, that held a valid code.
abbrev Earned : List DirectMessage → ℕ → Unlock → Type 0
Earned before radio u =
    (d : DirectMessage) × In d before
    × (d.from ≡ radio)
    × (d.time ≡ u.unlock_timestamp)
    × HoldsCode d

abbrev AllEarned : List DirectMessage → Unlocks → Type 0
AllEarned before unlocks =
    (radio : ℕ) (u : Unlock) → find_unlock radio unlocks ≡ some u → Earned before radio u

-- The talk with the model, and the flag that it shows.
abbrev pub talk : Action → Bool
talk (chat _ _) = true
talk flag_reveal = true
talk _ = false

abbrev pub talks : List Action → Bool
talks [] = false
talks (a ∷ actions) = talk a || talks actions

-- What an unlock opens: the talk and the song.
abbrev pub opened_by_unlock : Action → Bool
opened_by_unlock (lyrics _) = true
opened_by_unlock a = talk a

abbrev pub performs : List Action → Bool
performs [] = false
performs (a ∷ actions) = opened_by_unlock a || performs actions

performs-append : (xs ys : List Action) → performs (xs ++ ys) ≡ (performs xs || performs ys)
performs-append [] ys = refl
performs-append (a ∷ xs) ys = ground (arith, performs-append xs ys)

performs-replies : (texts : List String) → performs (replies texts) ≡ false
unfolding replies
performs-replies [] = refl
performs-replies (text ∷ texts) = performs-replies texts

talks-lyrics_of : (b : ChatBot) → talks (lyrics_of b) ≡ false
unfolding lyrics_of
talks-lyrics_of b = ground arith

-- Without a handler no message holds a code.
codes_of :
    (b : Bool) (o : Option (List Text)) (codes : List Text) (message : Text)
    → (if b then o else some []) ≡ some codes
    → contains_any message codes ≡ true
    → o ≡ some codes
unfolding contains_any
codes_of true o codes message e h = e
codes_of false o [] message e h = cc
codes_of false o (c ∷ codes) message e h = cc

module _ (to_lower : Text → Text) (request_key : ℕ → Text → String) (g : Ghost) where
  -- Only a code unlocks: a bot for wrong codes does not.
  abbrev pub CodesUnlock : Type 0
  CodesUnlock =
      (b : ChatBot) → find_bot "otp_failure" (g.chat_bots) ≡ some b → b.unlocks_chat_mode ≡ false

  -- The unlocks afterwards are those before, but for one that a code opened.
  abbrev Grown : DirectMessage → Bool → Unlocks → Unlocks → Type 0
  Grown d has_otp before after =
      (radio : ℕ) (u : Unlock)
      → find_unlock radio after ≡ some u
      → (find_unlock radio before ≡ some u)
        ⊎ ((radio ≡ d.from) × (u.unlock_timestamp ≡ d.time) × (has_otp ≡ true))

  opened :
      (d : DirectMessage) (s : GhostState)
      → Grown d true (s.otp_unlocks) ((unlocking to_lower request_key g d s).otp_unlocks)
  opened d s radio u h =
      elim (find_unlock-put radio (d.from)
        (record { unlock_timestamp = d.time; unlock_message = d.message }) u (s.otp_unlocks) h) [
          | inl old ↦ inl old
          | inr (same, e) ↦ inr (same, sym (ap (λ x. x.unlock_timestamp) e), refl)
        ]

  -- A step for a radio that is not unlocked.
  locked_step :
      (d : DirectMessage) (has_otp : Bool) (s : GhostState)
      → CodesUnlock
      → let (s', actions) = by_unlock to_lower request_key g d has_otp s none in
        (performs actions ≡ false) × Grown d has_otp (s.otp_unlocks) (s'.otp_unlocks)
  unfolding by_unlock otp_success otp_failure
  locked_step d true s only = elim (Option-cases (find_bot "otp_success" (g.chat_bots))) [
    | inl e ↦ rw e (refl, λ radio u h. inl h)
    | inr (b, e) ↦ rw e (elim (Bool-cases (b.unlocks_chat_mode)) [
      | inr keeps ↦ rw keeps (performs-replies (b.message), λ radio u h. inl h)
      | inl opens ↦ rw opens (
        performs-append (replies (b.message)) (award (g.id) ∷ [])
            ∙ rw (performs-replies (b.message)) refl,
        opened d s,
      )
    ])
  ]
  locked_step d false s only = elim (Option-cases (find_bot "otp_failure" (g.chat_bots))) [
    | inl e ↦ rw e (refl, λ radio u h. inl h)
    | inr (b, e) ↦ rw (e, only b e) (performs-replies (b.message), λ radio u h. inl h)
  ]

  -- The guard let the message through, or the ghost only sings.
  abbrev pub LetThrough : DirectMessage → List Action → Type 0
  LetThrough d actions =
      ((guard_text (g.fail_closed) (d.guard)).0 ≡ true)
      ⊎ ((find_bot "chatmode_unlocked" (g.chat_bots) ≡ none) × (talks actions ≡ false))

  refusal-silent : (reason : String) → opened_by_unlock (guard_refusal_message reason) ≡ false
  unfolding guard_refusal_message
  refusal-silent reason = ground arith

  unlocked_reply-LetThrough :
      (d : DirectMessage) (gpt b : Option ChatBot)
      → find_bot "chatmode_unlocked" (g.chat_bots) ≡ gpt
      → performs (unlocked_reply to_lower request_key g d gpt b) ≡ true
      → LetThrough d (unlocked_reply to_lower request_key g d gpt b)
  unfolding unlocked_reply guarded
  unlocked_reply-LetThrough d none none e h = cc
  unlocked_reply-LetThrough d none (some b) e h = inr (e, talks-lyrics_of b)
  unlocked_reply-LetThrough d (some gpt) b e h =
      inl (by_guard (guard_text (g.fail_closed) (d.guard)) h)
    where
      by_guard :
          (r : Bool × String) → performs (guarded to_lower request_key g d r) ≡ true → r.0 ≡ true
      by_guard (true, reason) k = refl
      by_guard (false, reason) k = let e = refusal-silent reason in ground arith

  -- A step that performs is for a radio whose unlock is no older than an hour, and for a message that
  -- was let through.
  abbrev Stepped : DirectMessage → Unlocks → GhostState × List Action → Type 0
  Stepped d before (s', actions) =
      (performs actions ≡ true
        → (u : Unlock) × (find_unlock (d.from) before ≡ some u)
          × (d.time ≤ u.unlock_timestamp + unlock_ttl)
          × LetThrough d actions)
      × ((radio : ℕ) (u : Unlock)
          → find_unlock radio (s'.otp_unlocks) ≡ some u
          → (find_unlock radio before ≡ some u)
            ⊎ ((radio ≡ d.from) × (u.unlock_timestamp ≡ d.time) × HoldsCode d))

  from_locked :
      (d : DirectMessage) (before : Unlocks) (has_otp : Bool) (s : GhostState)
      → CodesUnlock
      → (has_otp ≡ true → HoldsCode d)
      → ((radio : ℕ) (u : Unlock)
          → find_unlock radio (s.otp_unlocks) ≡ some u
          → find_unlock radio before ≡ some u)
      → Stepped d before (by_unlock to_lower request_key g d has_otp s none)
  from_locked d before has_otp s only codes sub =
      let (quiet, grown) = locked_step d has_otp s only in
      (
        (λ h. cc),
        λ radio u h. elim (grown radio u h) [
          | inl old ↦ inl (sub radio u old)
          | inr (a, b, e) ↦ inr (a, b, codes e)
        ],
      )

  found_step :
      (d : DirectMessage) (has_otp : Bool) (s : GhostState) (o : Option Unlock)
      → CodesUnlock
      → (has_otp ≡ true → HoldsCode d)
      → find_unlock (d.from) (s.otp_unlocks) ≡ o
      → Stepped d (s.otp_unlocks) (
          if unlock_is_over (d.time) o
          then by_unlock to_lower request_key g d has_otp
              (set_unlocks (delete_unlock (d.from) (s.otp_unlocks)) s)
              none
          else by_unlock to_lower request_key g d has_otp s o)
  unfolding unlock_is_over by_unlock
  found_step d has_otp s none only codes e =
      from_locked d (s.otp_unlocks) has_otp s only codes (λ radio u h. h)
  found_step d has_otp s (some u) only codes e =
      elim (Bool-cases (ltb (u.unlock_timestamp + unlock_ttl) (d.time))) [
        | inl over ↦ rw over (
            from_locked d (s.otp_unlocks) has_otp
              (set_unlocks (delete_unlock (d.from) (s.otp_unlocks)) s) only codes
              (λ radio v h. find_unlock-delete (d.from) radio v (s.otp_unlocks) h))
        | inr young ↦ rw young (
          (λ h. (u, e, (ground arith), unlocked_reply-LetThrough d _ _ refl h)),
          λ radio v h. inl h,
        )
      ]

  codes_step :
      (d : DirectMessage) (s : GhostState) (o : Option (List Text))
      → CodesUnlock
      → ((codes : List Text) → o ≡ some codes → contains_any (d.message) codes ≡ true → HoldsCode d)
      → Stepped d (s.otp_unlocks) (after_codes to_lower request_key g d s o)
  unfolding after_codes
  codes_step d s none only codes = ((λ h. cc), λ radio u h. inl h)
  codes_step d s (some cs) only codes =
      found_step d (contains_any (d.message) cs) s (find_unlock (d.from) (s.otp_unlocks)) only
        (codes cs refl) refl

  text_step :
      (d : DirectMessage) (s : GhostState)
      → CodesUnlock
      → Stepped d (s.otp_unlocks) (handle_text to_lower request_key g d s)
  unfolding handle_text
  text_step d s only =
      let seen =
        (dedup_request (request_key (d.from) (d.message)) (d.time) request_dedup_window
          (s.recent_req)).1 in
      if-cases (Stepped d (s.otp_unlocks)) _ _ _ (λ _. ((λ h. cc), λ radio u h. inl h))
        (λ _.
          codes_step d (record s { recent_req = seen })
            (if g.has_otp_handler then d.codes else some []) only
            (λ cs e h. (cs, codes_of (g.has_otp_handler) (d.codes) cs (d.message) e h, h)))

  after_all-AllEarned :
      (before : List DirectMessage) (s : GhostState)
      → CodesUnlock
      → s.otp_unlocks ≡ []
      → AllEarned before ((after_all to_lower request_key g before s).otp_unlocks)
  unfolding after_all find_unlock
  after_all-AllEarned [] s only empty radio u h =
      let e : find_unlock radio (s.otp_unlocks) ≡ none = ap (find_unlock radio) empty in cc
  after_all-AllEarned (d ∷ before) s only empty radio u h =
      let s' = after_all to_lower request_key g before s in
      elim ((text_step d s' only).1 radio u h) [
        | inl old ↦
            let (d', i, same, time, code) = after_all-AllEarned before s only empty radio u old in
            (d', there i, same, time, code)
        | inr (same, time, code) ↦ (d, here, sym same, sym time, code)
      ]

-- A ghost whose bot for wrong codes opens no chat, and that starts with nothing unlocked, chats with a
-- radio, shows it the flag or starts its song only if one of the messages before was of that radio,
-- came no more than an hour earlier and held a code that was valid as it came, and only if the guard
-- lets the message through, or if the ghost has no bot for the unlocked chat and neither chats nor
-- shows the flag.
pub handle_text-performs :
    (to_lower : Text → Text) (request_key : ℕ → Text → String) (g : Ghost)
    (before : List DirectMessage) (d : DirectMessage) (s : GhostState)
    → CodesUnlock to_lower request_key g
    → s.otp_unlocks ≡ []
    → let actions =
        (handle_text to_lower request_key g d (after_all to_lower request_key g before s)).1 in
      performs actions ≡ true
      → ((d' : DirectMessage) × In d' before
          × (d'.from ≡ d.from)
          × (d.time ≤ d'.time + unlock_ttl)
          × HoldsCode d')
        × LetThrough to_lower request_key g d actions
handle_text-performs to_lower request_key g before d s only empty h =
    let s' = after_all to_lower request_key g before s in
    let (u, found, young, let_through) = (text_step to_lower request_key g d s' only).0 h in
    let (d', i, radio, time, code) =
      after_all-AllEarned to_lower request_key g before s only empty (d.from) u found in
    ((d', i, radio, (omega arith), code), let_through)
