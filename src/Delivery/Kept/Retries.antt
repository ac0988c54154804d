-- ===== src/Delivery/Kept/Retries.antt =====
-- Retries, new messages, due messages and consumers keep the dead-lettered messages in their list.
use go_redis_smq.Prelude.{
  ℕ, ◌≡◌, refl, ◌∙◌, false, none, some, List, [], ◌∷◌, ◌==◌, ltb, arith, inl, inr, Option-cases,
  Bool-cases, if◌then◌else◌, ◌+◌, ◌||◌,
}
use go_redis_smq.Scheduling.{milliseconds}
use go_redis_smq.Delivery.Entries
use go_redis_smq.Delivery.Entries.{
  Entry, removed, remove, lpush, rpush, zadd, last_of, drop_last, lowest,
}
use go_redis_smq.Delivery.Data.{Db, refusal, type_lifo, type_fifo}
use go_redis_smq.Delivery.Requeue.{
  Retry, Outcome, each, group_exists, back_to_pending, mark_retried, mark_dead, mark_delaying,
  retry_now, requeue_one, requeue_due_one, requeue_outcome, now_outcome, requeue_immediate,
  requeue_delayed,
}
use go_redis_smq.Delivery.Kept.{
  IsKept, InDead, removed-remove, rpush-InDead, dead_last, dead_added, zadd-InDead, move-IsKept,
}

-- A message that leaves another key.
abbrev stays :
    (kind : ℕ) (id : ℕ) (es : List Entry)
    → (Entries.dead_lettered == kind) ≡ false
    → (j : ℕ) → InDead j es
    → InDead j (remove kind [] id es)
stays kind id es other j f = removed-remove Entries.dead_lettered kind [] [] j id es other ∙ f

back_to_pending-InDead :
    (queue_type now : ℕ) (r : Retry) (j : ℕ) (es : List Entry)
    → InDead j es
    → InDead j (back_to_pending queue_type now r es)
unfolding back_to_pending
back_to_pending-InDead queue_type now r j es f =
    elim (Bool-cases (queue_type == type_fifo || queue_type == type_lifo)) [
      | inl listed ↦ rw listed (rpush-InDead Entries.pending r.group j r.id 0 es refl f)
      | inr ranked ↦ rw ranked (
          zadd-InDead Entries.priority r.group j r.id (elim r.priority [ none ↦ 0 | some n ↦ n ]) es
            refl f)
    ]

retry_now-IsKept :
    (kind queue_type now : ℕ) (r : Retry) (d : Db)
    → (Entries.dead_lettered == kind) ≡ false
    → IsKept d.entries d.message
    → let d' = retry_now queue_type now r (remove kind [] r.id d.entries) d in
      IsKept d'.entries d'.message
unfolding retry_now mark_retried mark_dead
retry_now-IsKept kind queue_type now r d other h =
    let rest = remove kind [] r.id d.entries in
    elim (Bool-cases (group_exists r.group d)) [
      | inl exists ↦ rw exists (
          move-IsKept r.id (mark_retried now) d.entries (back_to_pending queue_type now r rest)
            d.message h
            (λ j f.
              back_to_pending-InDead queue_type now r j rest (stays kind r.id d.entries other j f))
            (λ m s. ground (arith, s)))
      | inr gone ↦ rw gone (
          move-IsKept r.id (mark_dead now) d.entries (rpush Entries.dead_lettered [] r.id rest)
            d.message h (λ j f. dead_added j r.id rest (stays kind r.id d.entries other j f))
            (λ m s. dead_last r.id rest))
    ]

requeue_one-IsKept :
    (queue_type now : ℕ) (r : Retry) (d : Db)
    → IsKept d.entries d.message
    → let d' = requeue_one queue_type now r d in IsKept d'.entries d'.message
unfolding requeue_one
requeue_one-IsKept queue_type now r d h =
    let rest = remove Entries.requeued [] r.id d.entries in
    let due = if ltb 0 r.retry_delay then now + milliseconds r.retry_delay else 0 in
    elim (Bool-cases (milliseconds r.retry_delay == 0)) [
      | inl soon ↦ rw soon (retry_now-IsKept Entries.requeued queue_type now r d refl h)
      | inr late ↦ rw late (
          move-IsKept r.id mark_delaying d.entries (zadd Entries.delayed [] due r.id rest) d.message
            h
            (λ j f.
              zadd-InDead Entries.delayed [] j r.id due rest refl
                (stays Entries.requeued r.id d.entries refl j f))
            (λ m s. ground (arith, s)))
    ]

requeue_due_one-IsKept :
    (queue_type now : ℕ) (r : Retry) (d : Db)
    → IsKept d.entries d.message
    → let d' = requeue_due_one queue_type now r d in IsKept d'.entries d'.message
unfolding requeue_due_one
requeue_due_one-IsKept queue_type now r d h =
    retry_now-IsKept Entries.delayed queue_type now r d refl h

each-IsKept :
    (kind : ℕ) (move : Retry → Db → Db) (outcome : Retry → Db → Outcome) (rs : List Retry) (d : Db)
    → ((r : Retry) (d : Db)
        → IsKept d.entries d.message
        → IsKept (move r d).entries (move r d).message)
    → IsKept d.entries d.message
    → let (d', _) = each kind move outcome rs d in IsKept d'.entries d'.message
unfolding each
each-IsKept kind move outcome [] d keep h = h
each-IsKept kind move outcome (r ∷ rs) d keep h =
    elim (Bool-cases (removed kind [] r.id d.entries)) [
      | inl found ↦ rw found (each-IsKept kind move outcome rs (move r d) keep (keep r d h))
      | inr missing ↦ rw missing (each-IsKept kind move outcome rs d keep h)
    ]

pub requeue_immediate-IsKept :
    (now : ℕ) (rs : List Retry) (d : Db)
    → IsKept d.entries d.message
    → let (d', _) = requeue_immediate now rs d in IsKept d'.entries d'.message
unfolding requeue_immediate
requeue_immediate-IsKept now rs d h = elim (Option-cases d.queue_type) [
  | inl n ↦ rw (n, requeue_immediate) h
  | inr (t, n) ↦ elim (Option-cases (refusal d)) [
    | inl open' ↦
        rw (n, requeue_immediate, open')
          (each-IsKept Entries.requeued (requeue_one t now) requeue_outcome rs d
            (requeue_one-IsKept t now) h)
    | inr (reason, shut) ↦ rw (n, requeue_immediate, shut) h
  ]
]

pub requeue_delayed-IsKept :
    (now : ℕ) (rs : List Retry) (d : Db)
    → IsKept d.entries d.message
    → let (d', _) = requeue_delayed now rs d in IsKept d'.entries d'.message
unfolding requeue_delayed
requeue_delayed-IsKept now rs d h = elim (Option-cases d.queue_type) [
  | inl n ↦ rw (n, requeue_delayed) h
  | inr (t, n) ↦ elim (Option-cases (refusal d)) [
    | inl open' ↦
        rw (n, requeue_delayed, open')
          (each-IsKept Entries.delayed (requeue_due_one t now) now_outcome rs d
            (requeue_due_one-IsKept t now) h)
    | inr (reason, shut) ↦ rw (n, requeue_delayed, shut) h
  ]
]
