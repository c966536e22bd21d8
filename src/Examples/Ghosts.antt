-- ===== src/Examples/Ghosts.antt =====
-- A radio that unlocks a ghost with a code and talks to it, a reply that waits, and one that is split.
use meshtk.Prelude.{
  ℕ, ◌+◌, ◌*◌, ◌≤◌, List, [], ◌∷◌, true, false, none, some, String, ◌≡◌, refl, length, ◌==◌,
  if◌then◌else◌,
}
use meshtk.Dedup.{dedup_request, find_time, is_recent}
use meshtk.Fleet.Chat.{
  is_space, width, split_messages, all_messages, lines_from, max_chat_messages, chat_hard_limit,
}
use meshtk.Fleet.Chat.Laws.{Short, solid_all, words, split_messages_lem}
use meshtk.Fleet.Handler.{
  Text, Ghost, GhostState, DirectMessage, verdict, not_configured, guard_text, find_bot,
  contains_any, find_unlock, handle_text, after_all, unlock_ttl,
}
use meshtk.Fleet.Handler.Laws.{CodesUnlock, HoldsCode, performs, LetThrough, handle_text-performs}
use meshtk.Fleet.Pending.{PendingReply, queued, seen, resent, PendingEvent, select_due_flushes}
use meshtk.Fleet.Pending.Laws.{replies_queued, length-resent}
use meshtk.Node.{expire, delete_key}
use meshtk.Node.Oldest.{In}

abbrev ghost : Ghost
ghost = record {
  id = "condor";
  chat_bots =
      record { kind = "chatmode_unlocked"; message = []; unlocks_chat_mode = false }
      ∷ record { kind = "otp_success"; message = "welcome" ∷ []; unlocks_chat_mode = true }
      ∷ [];
  system_prompt = "be brief";
  has_otp_handler = true;
  challenge = none;
  fail_closed = true;
}

abbrev opening : DirectMessage
opening = record {
  from = 7;
  message = b'4' ∷ b'2' ∷ [];
  time = 1000;
  codes = some ((b'4' ∷ b'2' ∷ []) ∷ []);
  guard = not_configured;
}

abbrev question : DirectMessage
question = record {
  from = 7;
  message = b'h' ∷ b'i' ∷ [];
  time = 2000;
  codes = some ((b'4' ∷ b'3' ∷ []) ∷ []);
  guard = verdict true "";
}

abbrev start : GhostState
start = record { otp_unlocks = []; recent_req = [] }

abbrev key_of : ℕ → Text → String
key_of n (c ∷ _) = if c == b'4' then "7:42" else "7:hi"
key_of n [] = ""

no_wrong_code : CodesUnlock (λ t. t) key_of ghost
unfolding find_bot
no_wrong_code b h = cc

abbrev waiting : PendingReply
waiting = record {
  fleet_idx = 0;
  ghost = 5;
  to = 7;
  topic = "msh";
  envelope = 1 ∷ [];
  created = 0;
  flushes = 0;
  last_flush = 0;
}

abbrev sightings : List PendingEvent
sightings =
    queued waiting 0
    ∷ seen 7 20000000000
    ∷ seen 7 30000000000
    ∷ seen 7 50000000000
    ∷ seen 7 90000000000
    ∷ []

resent_twice : length (resent [] sightings) ≡ 2
unfolding resent select_due_flushes
resent_twice = refl

length-resent_example : length (resent [] sightings) ≤ 2 * replies_queued sightings
length-resent_example = length-resent sightings

abbrev two_lines : List ℕ
two_lines = b'y' ∷ b'o' ∷ 0x2014 ∷ b'h' ∷ b'i' ∷ 10 ∷ 10 ∷ b'b' ∷ b'y' ∷ b'e' ∷ []

two_lines_split :
    split_messages two_lines
    ≡ ((b'y' ∷ b'o' ∷ b',' ∷ b' ' ∷ b'h' ∷ b'i' ∷ []) ∷ (b'b' ∷ b'y' ∷ b'e' ∷ []) ∷ [], 0)
unfolding split_messages is_space width
two_lines_split = refl

split_messages_lem_example :
    let (messages, dropped) = split_messages two_lines in
    (length messages ≤ max_chat_messages)
    × Short chat_hard_limit messages
    × (length messages + dropped ≡ length (all_messages (lines_from [] two_lines)))
    × (dropped ≡ 0 → solid_all messages ≡ words (lines_from [] two_lines))
split_messages_lem_example = split_messages_lem two_lines

it_talks :
    performs
      (handle_text
        (λ t. t)
        key_of
        ghost
        question
        (after_all (λ t. t) key_of ghost (opening ∷ []) start)).1
    ≡ true
unfolding handle_text dedup_request is_recent find_time expire after_all find_unlock contains_any
    find_bot delete_key guard_text
it_talks = refl

handle_text-performs_example :
    ((d : DirectMessage) × In d (opening ∷ [])
      × (d.from ≡ 7)
      × (2000 ≤ d.time + unlock_ttl)
      × HoldsCode d)
    × LetThrough
        (λ t. t)
        key_of
        ghost
        question
        (handle_text
          (λ t. t)
          key_of
          ghost
          question
          (after_all (λ t. t) key_of ghost (opening ∷ []) start)).1
handle_text-performs_example =
    handle_text-performs (λ t. t) key_of ghost (opening ∷ []) question start no_wrong_code refl
      it_talks
