-- ===== src/Delivery/Scheduled.antt =====
-- internal/redis/scripts/scripts/core/publish-scheduled.lua, with the arguments that
-- `enqueueScheduled` of internal/consumer/scheduled_publisher.go gives it: due messages go to their
-- queue, and those that repeat stay scheduled and send a clone.
use go_redis_smq.Prelude.{
  ℕ, ◌+◌, Bool, true, Option, none, some, List, [], ◌∷◌, ◌==◌, if◌then◌else◌, Result, ok, err,
}
use go_redis_smq.Prelude.Int.{pos, ◌+ℤ◌, ◌-ℤ◌}
use go_redis_smq.Prelude.Text.{Text}
use go_redis_smq.Delivery.Entries
use go_redis_smq.Delivery.Entries.{lpush, rpush, zadd, remove, removed}
use go_redis_smq.Delivery.Data.{Db, update, status_pending, type_lifo, type_fifo, refusal}
use go_redis_smq.Delivery.Publish.{Publication, published_ok, publish_message}
use go_redis_smq.Delivery.Publish
use go_redis_smq.Delivery.Requeue.{group_exists, mark_dead}

-- A due message: its priority and consumer group, and, if it repeats, when it is due again and the
-- clone that is published.
pub record Due : Type 0 where
  pub id : ℕ
  pub priority : Option ℕ
  pub group : Text
  pub published_at : Option ℕ
  pub repetition : Option (ℕ × Publication)

-- A message that is due for the last time, and stands in the scheduled set.
unfoldable pub deliver : ℕ → ℕ → Due → Db → Db
unfolding update mark_dead
deliver queue_type now m d =
    let rest = remove Entries.scheduled [] m.id d.entries in
    if group_exists m.group d
    then record d {
      scheduled_count = d.scheduled_count -ℤ pos 1;
      entries =
          if queue_type == type_fifo
          then lpush Entries.pending m.group m.id rest
          else (if queue_type == type_lifo
              then rpush Entries.pending m.group m.id rest
              else zadd Entries.priority m.group (elim m.priority [ none ↦ 0 | some n ↦ n ]) m.id
                  rest);
      pending_count = d.pending_count +ℤ pos 1;
      message =
          update m.id
            (λ f. record f { status = some status_pending; published_at = m.published_at })
            d.message;
    }
    else record d {
      scheduled_count = d.scheduled_count -ℤ pos 1;
      entries = rpush Entries.dead_lettered [] m.id rest;
      dead_lettered_count = d.dead_lettered_count +ℤ pos 1;
      message = update m.id (mark_dead now) d.message;
    }

-- A message that is due and repeats. `err` is the reply of the publication that failed.
unfoldable pub repeat_message :
    ℕ → Due → ℕ → Publication → Db → Db × Result Publish.Reply (Unit {0})
unfolding update publish_message mark_dead
repeat_message now m next clone d =
    if group_exists m.group d
    then (let (d', reply) =
          publish_message clone
            (record d { entries = zadd Entries.scheduled [] next m.id d.entries }) in
        (d', elim reply [ published_ok ↦ ok tt | other ↦ err other ]))
    else (
      if removed Entries.scheduled [] m.id d.entries
          then record d {
            entries =
                rpush Entries.dead_lettered [] m.id (remove Entries.scheduled [] m.id d.entries);
            message = update m.id (mark_dead now) d.message;
            scheduled_count = d.scheduled_count -ℤ pos 1;
            dead_lettered_count = d.dead_lettered_count +ℤ pos 1;
          }
          else d,
      ok tt,
    )

-- A round of the loop: whether the message counts as processed, or the reply that ends the script.
unfoldable pub publish_due_one : ℕ → ℕ → Due → Db → Db × Result Publish.Reply Bool
unfolding deliver repeat_message
publish_due_one queue_type now m d = elim m.repetition [
  | none ↦
      let found = removed Entries.scheduled [] m.id d.entries in
      (if found then deliver queue_type now m d else d, ok found)
  | some (next, clone) ↦
      let (d', result) = repeat_message now m next clone d in
      (d', elim result [ err reply ↦ err reply | ok _ ↦ ok true ])
]

unfoldable pub publish_due : ℕ → ℕ → List Due → Db → Db × Result Publish.Reply ℕ
unfolding publish_due_one
publish_due queue_type now [] d = (d, ok 0)
publish_due queue_type now (m ∷ ms) d =
    let (d', result) = publish_due_one queue_type now m d in
    elim result [
      | err reply ↦ (d', err reply)
      | ok found ↦
          let (d'', rest) = publish_due queue_type now ms d' in
          (d'', elim rest [ err reply ↦ err reply | ok n ↦ ok ((if found then 1 else 0) + n) ])
    ]

-- The script publish-scheduled: the number of messages, or the reply that ended it.
unfoldable pub publish_scheduled : ℕ → List Due → Db → Db × Result Publish.Reply ℕ
unfolding publish_due
publish_scheduled now ms d = elim d.queue_type [
  | none ↦ (d, ok 0)
  | some queue_type ↦ elim (refusal d) [
    | some _ ↦ (d, ok 0)
    | none ↦ publish_due queue_type now ms d
  ]
]
