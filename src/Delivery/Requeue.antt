-- ===== src/Delivery/Requeue.antt =====
-- internal/consumer/{immediate,delayed}_requeuer.go, with the scripts requeue-immediate.lua and
-- requeue-delayed.lua: messages that failed go back to their queue, at once or later.
use go_redis_smq.Prelude.{
  ℕ, ◌+◌, Bool, ◌||◌, Option, none, some, List, [], ◌∷◌, any, ◌==◌, ltb, if◌then◌else◌,
}
use go_redis_smq.Prelude.Int.{pos, ◌+ℤ◌, ◌-ℤ◌}
use go_redis_smq.Prelude.Text.{Text, text_eq}
use go_redis_smq.QueueState.Script.{is_empty}
use go_redis_smq.Scheduling.{milliseconds}
use go_redis_smq.Delivery.Entries
use go_redis_smq.Delivery.Entries.{Entry, rpush, zadd, remove, removed}
use go_redis_smq.Delivery.Data.{
  Db, Fields, update, status_pending, status_dead_lettered, status_unack_delaying, type_lifo,
  type_fifo, Refusal, refusal,
}

-- A message that is requeued: its id, priority, retry delay in nanoseconds and consumer group.
pub record Retry : Type 0 where
  pub id : ℕ
  pub priority : Option ℕ
  pub retry_delay : ℕ
  pub group : Text

abbrev pub group_exists : Text → Db → Bool
group_exists group d = is_empty group || any (text_eq group) d.groups

-- Where a message goes.
pub data Outcome : Type 0 where
  to_pending : Outcome
  to_delayed : Outcome
  to_dead_letter : Outcome

-- To the end that is consumed next; a priority queue takes it by its priority.
unfoldable pub back_to_pending : ℕ → ℕ → Retry → List Entry → List Entry
back_to_pending queue_type now r es =
    if queue_type == type_fifo || queue_type == type_lifo
    then rpush Entries.pending r.group r.id es
    else zadd Entries.priority r.group (elim r.priority [ none ↦ 0 | some n ↦ n ]) r.id es

unfoldable pub mark_retried : ℕ → Fields → Fields
mark_retried now m = record m { status = some status_pending; last_retried_attempt_at = some now }

unfoldable pub mark_dead : ℕ → Fields → Fields
mark_dead now m = record m { status = some status_dead_lettered; dead_lettered_at = some now }

abbrev pub mark_delaying : Fields → Fields
mark_delaying m = record m { status = some status_unack_delaying }

-- The retry of a message that has left its list: at once, or to the dead letters if its consumer
-- group is gone.
unfoldable pub retry_now : ℕ → ℕ → Retry → List Entry → Db → Db
unfolding back_to_pending mark_retried mark_dead update
retry_now queue_type now r rest d =
    if group_exists r.group d
    then record d {
      entries = back_to_pending queue_type now r rest;
      message = update r.id (mark_retried now) d.message;
    }
    else record d {
      entries = rpush Entries.dead_lettered [] r.id rest;
      message = update r.id (mark_dead now) d.message;
    }

abbrev pub now_outcome : Retry → Db → Outcome
now_outcome r d = if group_exists r.group d then to_pending else to_dead_letter

-- A round of the loop of requeue-immediate, for a message in the requeue list.
unfoldable pub requeue_one : ℕ → ℕ → Retry → Db → Db
unfolding retry_now
requeue_one queue_type now r d =
    let rest = remove Entries.requeued [] r.id d.entries in
    if milliseconds r.retry_delay == 0 then retry_now queue_type now r rest d else record d {
      entries =
          zadd Entries.delayed []
            (if ltb 0 r.retry_delay then now + milliseconds r.retry_delay else 0) r.id rest;
      message = update r.id mark_delaying d.message;
    }

abbrev pub requeue_outcome : Retry → Db → Outcome
requeue_outcome r d = if milliseconds r.retry_delay == 0 then now_outcome r d else to_delayed

-- A round of the loop of requeue-delayed, for a message in the delayed set.
unfoldable pub requeue_due_one : ℕ → ℕ → Retry → Db → Db
unfolding retry_now
requeue_due_one queue_type now r d =
    retry_now queue_type now r (remove Entries.delayed [] r.id d.entries) d

-- How many messages went where.
pub record Tally : Type 0 where
  pub pendings : ℕ
  pub delays : ℕ
  pub deads : ℕ

abbrev pub no_tally : Tally
no_tally = record { pendings = 0; delays = 0; deads = 0 }

abbrev pub tally : Outcome → Tally → Tally
tally to_pending t = record t { pendings = 1 + t.pendings }
tally to_delayed t = record t { delays = 1 + t.delays }
tally to_dead_letter t = record t { deads = 1 + t.deads }

abbrev pub total : Tally → ℕ
total t = t.pendings + t.delays + t.deads

-- The loop over the messages that stand in the list or set of a kind.
unfoldable pub each : ℕ → (Retry → Db → Db) → (Retry → Db → Outcome) → List Retry → Db → Db × Tally
each kind move outcome [] d = (d, no_tally)
each kind move outcome (r ∷ rs) d =
    let found = removed kind [] r.id d.entries in
    let (d', t) = each kind move outcome rs (if found then move r d else d) in
    (d', if found then tally (outcome r d) t else t)

pub data Reply : Type 0 where
  refused : Refusal → Reply
  processed : ℕ → Reply

-- The script requeue-immediate.
unfoldable pub requeue_immediate : ℕ → List Retry → Db → Db × Reply
unfolding each requeue_one
requeue_immediate now rs d = elim d.queue_type [
  | none ↦ (d, processed 0)
  | some queue_type ↦ elim (refusal d) [
    | some reason ↦ (d, refused reason)
    | none ↦
        let (d', t) = each Entries.requeued (requeue_one queue_type now) requeue_outcome rs d in
        (
          record d' {
            requeued_count = d'.requeued_count -ℤ pos (total t);
            delayed_count = d'.delayed_count +ℤ pos t.delays;
            pending_count = d'.pending_count +ℤ pos t.pendings;
            dead_lettered_count = d'.dead_lettered_count +ℤ pos t.deads;
          },
          processed (total t),
        )
  ]
]

-- The script requeue-delayed.
unfoldable pub requeue_delayed : ℕ → List Retry → Db → Db × Reply
unfolding each requeue_due_one
requeue_delayed now rs d = elim d.queue_type [
  | none ↦ (d, processed 0)
  | some queue_type ↦ elim (refusal d) [
    | some reason ↦ (d, refused reason)
    | none ↦
        let (d', t) = each Entries.delayed (requeue_due_one queue_type now) now_outcome rs d in
        (
          record d' {
            pending_count = d'.pending_count +ℤ pos t.pendings;
            dead_lettered_count = d'.dead_lettered_count +ℤ pos t.deads;
            delayed_count = d'.delayed_count -ℤ pos (total t);
          },
          processed (total t),
        )
  ]
]
