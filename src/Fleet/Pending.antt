-- ===== src/Fleet/Pending.antt =====
-- Replies that are sent again once their recipient is heard: `selectDueFlushes`, `queuePendingReply`,
-- `onNodeSeen` and `staggerDelay` of internal/app/fleet/cmd.go. Times are nanoseconds; the entries that
-- the queue and a flush share are written out in both.
pub mod Laws
use meshtk.Prelude.{
  ℕ, ◌+◌, ◌-◌, List, [], ◌∷◌, ◌++◌, Bool, true, false, ◌||◌, String, ltb, leb, ◌==◌, if◌then◌else◌,
}

abbrev pub pending_reply_ttl : ℕ
pending_reply_ttl = 600000000000

abbrev pub pending_max_flush : ℕ
pending_max_flush = 2

abbrev pub pending_flush_cooldown : ℕ
pending_flush_cooldown = 20000000000

abbrev pub pending_flush_spacing : ℕ
pending_flush_spacing = 2000000000

pub record PendingReply : Type 0 where
  pub fleet_idx : ℕ
  pub ghost : ℕ
  pub to : ℕ
  pub topic : String
  pub envelope : List ℕ
  pub created : ℕ
  pub flushes : ℕ
  pub last_flush : ℕ

abbrev pub flushed : ℕ → PendingReply → PendingReply
flushed now e = record e { flushes = e.flushes + 1; last_flush = now }

abbrev pub is_over : ℕ → PendingReply → Bool
is_over now e = ltb (e.created + pending_reply_ttl) now || leb pending_max_flush (e.flushes)

abbrev pub is_due : ℕ → PendingReply → Bool
is_due now e = leb (e.last_flush + pending_flush_cooldown) now

-- What is kept, and what is sent now.
unfoldable pub select_due_flushes : List PendingReply → ℕ → List PendingReply × List PendingReply
select_due_flushes [] now = ([], [])
select_due_flushes (e ∷ entries) now =
    let (kept, due) = select_due_flushes entries now in
    if is_over now e
    then (kept, due)
    else if is_due now e
    then (flushed now e ∷ kept, flushed now e ∷ due)
    else (e ∷ kept, due)

-- The map of the queues by their recipient.
abbrev pub Pending : Type 0
Pending = List (ℕ × List PendingReply)

unfoldable pub queue_pending_reply : PendingReply → ℕ → Pending → Pending
queue_pending_reply e now [] =
    (e.to, record e { created = now; flushes = 0; last_flush = now } ∷ []) ∷ []
queue_pending_reply e now ((to, entries) ∷ rest) =
    let later = queue_pending_reply e now rest in
    if to == e.to
    then (to, entries ++ record e { created = now; flushes = 0; last_flush = now } ∷ []) ∷ rest
    else (to, entries) ∷ later

unfoldable pub unless_empty : ℕ → List PendingReply → Pending → Pending
unless_empty node [] rest = rest
unless_empty node (e ∷ kept) rest = (node, e ∷ kept) ∷ rest

-- The queues afterwards, and what goes out.
unfoldable pub on_node_seen : ℕ → ℕ → Pending → Pending × List PendingReply
unfolding unless_empty
on_node_seen node now [] = ([], [])
on_node_seen node now ((to, entries) ∷ rest) =
    let (later, sent) = on_node_seen node now rest in
    let (kept, due) = select_due_flushes entries now in
    if to == node then (unless_empty to kept rest, due) else ((to, entries) ∷ later, sent)

-- How long a send waits, and when the next one may go.
unfoldable pub stagger_delay : ℕ → ℕ → ℕ → ℕ × ℕ
stagger_delay next_at now spacing =
    let delay = if ltb now next_at then next_at - now else 0 in (delay, now + (delay + spacing))

-- What happens to the queues: a reply is queued, or a node is heard.
pub data PendingEvent : Type 0 where
  queued : PendingReply → ℕ → PendingEvent
  seen : ℕ → ℕ → PendingEvent

-- The replies that go out again over a run, in their order.
unfoldable pub resent : Pending → List PendingEvent → List PendingReply
unfolding queue_pending_reply on_node_seen
resent pending [] = []
resent pending (queued e now ∷ events) = resent (queue_pending_reply e now pending) events
resent pending (seen node now ∷ events) =
    let (later, sent) = on_node_seen node now pending in sent ++ resent later events
