-- ===== src/Fleet/Pending/Laws.antt =====
-- How often the replies of internal/app/fleet/cmd.go are sent again.
use meshtk.Fleet.Pending.{
  PendingReply, select_due_flushes, Pending, queue_pending_reply, unless_empty, on_node_seen,
  PendingEvent, queued, seen, resent,
}
use meshtk.Prelude.{
  ℕ, suc, ◌+◌, ◌-◌, ◌*◌, ◌≤◌, List, [], ◌∷◌, ◌++◌, ◌≡◌, refl, arith, length, length-append,
}

-- How often entries may still be sent.
abbrev credit : List PendingReply → ℕ
credit [] = 0
credit (e ∷ entries) = (2 - e.flushes) + credit entries

abbrev credit_all : Pending → ℕ
credit_all [] = 0
credit_all ((to, entries) ∷ rest) = credit entries + credit_all rest

credit-append : (xs ys : List PendingReply) → credit (xs ++ ys) ≡ credit xs + credit ys
credit-append [] ys = omega arith
credit-append (e ∷ xs) ys = omega (arith, credit-append xs ys)

select_due_flushes-credit :
    (entries : List PendingReply) (now : ℕ)
    → let (kept, due) = select_due_flushes entries now in credit kept + length due ≤ credit entries
unfolding select_due_flushes
select_due_flushes-credit [] now = omega arith
select_due_flushes-credit (e ∷ entries) now =
    let rec = select_due_flushes-credit entries now in ground arith

unless_empty-credit :
    (node : ℕ) (kept : List PendingReply) (rest : Pending)
    → credit_all (unless_empty node kept rest) ≡ credit kept + credit_all rest
unfolding unless_empty
unless_empty-credit node [] rest = omega arith
unless_empty-credit node (e ∷ kept) rest = refl

on_node_seen-credit :
    (node now : ℕ) (pending : Pending)
    → let (later, sent) = on_node_seen node now pending in
      credit_all later + length sent ≤ credit_all pending
unfolding on_node_seen
on_node_seen-credit node now [] = omega arith
on_node_seen-credit node now ((to, entries) ∷ rest) =
    let rec = on_node_seen-credit node now rest in
    let here = select_due_flushes-credit entries now in
    let kept = unless_empty-credit to (select_due_flushes entries now).0 rest in ground arith

queue_pending_reply-credit :
    (e : PendingReply) (now : ℕ) (pending : Pending)
    → credit_all (queue_pending_reply e now pending) ≡ credit_all pending + 2
unfolding queue_pending_reply
queue_pending_reply-credit e now [] = omega arith
queue_pending_reply-credit e now ((to, entries) ∷ rest) =
    let new = record e { created = now; flushes = 0; last_flush = now } in
    ground (arith, queue_pending_reply-credit e now rest, credit-append entries (new ∷ []))

abbrev pub replies_queued : List PendingEvent → ℕ
replies_queued [] = 0
replies_queued (queued _ _ ∷ events) = suc (replies_queued events)
replies_queued (seen _ _ ∷ events) = replies_queued events

resent-credit :
    (pending : Pending) (events : List PendingEvent)
    → length (resent pending events) ≤ credit_all pending + 2 * replies_queued events
unfolding resent
resent-credit pending [] = omega arith
resent-credit pending (queued e now ∷ events) = omega (
  arith,
  resent-credit (queue_pending_reply e now pending) events,
  queue_pending_reply-credit e now pending,
)
resent-credit pending (seen node now ∷ events) =
    let (later, sent) = on_node_seen node now pending in
    omega (
      arith,
      resent-credit later events,
      on_node_seen-credit node now pending,
      length-append sent (resent later events),
    )

-- However replies are queued and radios heard, from an empty queue no more are sent again than two for
-- each that was queued.
pub length-resent :
    (events : List PendingEvent) → length (resent [] events) ≤ 2 * replies_queued events
length-resent events = omega (arith, resent-credit [] events)
