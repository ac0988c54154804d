-- ===== src/Delivery/Checkout.antt =====
-- internal/consumer/dequeue_message.go: how a consumer takes a message, with the scripts
-- commands/zpoplpush.lua and core/checkout-message.lua.
use go_redis_smq.Prelude.{ℕ, ◌+◌, Option, none, some, ◌==◌, if◌then◌else◌, Result, ok, err}
use go_redis_smq.Prelude.Int.{pos, ◌+ℤ◌, ◌-ℤ◌}
use go_redis_smq.Prelude.Text.{Text}
use go_redis_smq.Consumer.{
  UnacknowledgeCause, cause_queue_stopped, cause_queue_locked, cause_queue_invalid_state,
}
use go_redis_smq.Delivery.Entries
use go_redis_smq.Delivery.Entries.{Entry, lpush, last_of, drop_last, lowest, remove}
use go_redis_smq.Delivery.Data.{
  Db, Fields, update, status_pending, status_processing, type_priority, Refusal, queue_stopped,
  queue_locked, queue_invalid_state, refusal,
}

-- The consumer: its own id, the group that it consumes for, empty if none, and the type of the queue.
pub record Dequeuer : Type 0 where
  pub consumer : Text
  pub group : Text
  pub queue_type : ℕ

-- RPOPLPUSH, or BRPOPLPUSH when a message is there.
unfoldable pub pop_fifo : Dequeuer → Db → Db × Option ℕ
unfolding last_of drop_last
pop_fifo c d = elim (last_of Entries.pending c.group d.entries) [
  | none ↦ (d, none)
  | some id ↦ (
    record d {
      entries =
          lpush Entries.processing c.consumer id (drop_last Entries.pending c.group d.entries);
    },
    some id,
  )
]

-- The script zpoplpush.
unfoldable pub pop_priority : Dequeuer → Db → Db × Option ℕ
unfolding lowest remove
pop_priority c d = elim (lowest Entries.priority c.group d.entries) [
  | none ↦ (d, none)
  | some e ↦ (
    record d {
      entries =
          lpush Entries.processing c.consumer e.id (remove Entries.priority c.group e.id d.entries);
    },
    some e.id,
  )
]

unfoldable pub pop : Dequeuer → Db → Db × Option ℕ
unfolding pop_fifo pop_priority
pop c d = if c.queue_type == type_priority then pop_priority c d else pop_fifo c d

pub data Reply : Type 0 where
  refused : Refusal → Reply
  message_not_found : Reply
  message_not_pending : Reply
  message_hash : Fields → Reply

-- What the script does to the hash of a message that it claims.
unfoldable pub claim : ℕ → Fields → Fields
claim now m = record m {
  status = some status_processing;
  processing_started_at = elim m.processing_started_at [
    | none ↦ some now
    | some started ↦ some started
  ];
  last_processed_at = some now;
  attempts = m.attempts + 1;
}

-- The script checkout-message.
unfoldable pub checkout_message : ℕ → ℕ → Db → Db × Reply
unfolding claim update
checkout_message now id d = elim (refusal d) [
  | some reason ↦ (d, refused reason)
  | none ↦ elim (d.message id).status [
    | none ↦ (d, message_not_found)
    | some status ↦
        if status == status_pending
        then (
          record d {
            message = update id (claim now) d.message;
            processing_count = d.processing_count +ℤ pos 1;
            pending_count = d.pending_count -ℤ pos 1;
          },
          message_hash (claim now (d.message id)),
        )
        else (d, message_not_pending)
  ]
]

-- `checkout`: the hash that was claimed, nothing, or why the queue refuses.
unfoldable pub checkout : ℕ → ℕ → Db → Db × Result Refusal (Option Fields)
unfolding checkout_message
checkout now id d =
    let (d', reply) = checkout_message now id d in
    (
      d',
      elim reply [
        | refused reason ↦ err reason
        | message_not_found ↦ ok none
        | message_not_pending ↦ ok none
        | message_hash m ↦ ok (some m)
      ],
    )

-- `causeFromCheckoutError`
unfoldable pub cause_from_checkout_error : Refusal → UnacknowledgeCause
cause_from_checkout_error queue_stopped = cause_queue_stopped
cause_from_checkout_error queue_locked = cause_queue_locked
cause_from_checkout_error queue_invalid_state = cause_queue_invalid_state
