-- ===== src/Delivery/Publish.antt =====
-- internal/redis/scripts/scripts/core/shared-procedures/publish-message.lua, and `dispatch` of
-- internal/producer/producer.go with its arguments, which internal/producer/publish_args.go builds.
use go_redis_smq.Prelude.{
  ℕ, not, ◌&&◌, ◌||◌, Option, none, some, is_some, List, [], any, ◌==◌, ltb, if◌then◌else◌, Result,
  ok, err,
}
use go_redis_smq.Prelude.Int.{pos, ◌+ℤ◌}
use go_redis_smq.Prelude.Text.{Text, text_eq}
use go_redis_smq.QueueState.{state_active, state_paused, state_stopped, state_locked}
use go_redis_smq.QueueState.Script.{is_empty}
use go_redis_smq.Scheduling.{Message, next_scheduled_timestamp}
use go_redis_smq.Scheduling.Publisher.{new_state}
use go_redis_smq.Delivery.Entries
use go_redis_smq.Delivery.Entries.{Entry, lpush, rpush, zadd}
use go_redis_smq.Delivery.Data.{
  Db, Fields, no_fields, update, current_state, has_status, status_pending, status_scheduled,
  type_lifo, type_fifo, type_priority,
}

-- What the script is given: the id of the message, its hash, the priority, the time to schedule it
-- at, the consumer group and the id of the operation's lock, empty where there is none.
pub record Publication : Type 0 where
  pub id : ℕ
  pub fields : Fields
  pub priority : Option ℕ
  pub scheduled_timestamp : ℕ
  pub group : Text
  pub operation_lock_id : Text

pub data Reply : Type 0 where
  published_ok : Reply
  queue_not_found : Reply
  consumer_group_not_found : Reply
  message_priority_required : Reply
  priority_queuing_not_enabled : Reply
  unknown_queue_type : Reply
  queue_stopped : Reply
  queue_locked : Reply
  queue_invalid_state : Reply

-- The checks before anything is written: the first that fails, if any.
unfoldable pub objection : Db → ℕ → Publication → Option Reply
unfolding text_eq
objection d queue_type p =
    if current_state d == state_stopped
    then some queue_stopped
    else (if current_state d == state_locked
          && (is_empty p.operation_lock_id
              || is_empty d.lock_id
              || not (text_eq p.operation_lock_id d.lock_id))
        then some queue_locked
        else (if not (
              current_state d == state_locked
              || current_state d == state_paused
              || current_state d == state_active)
            then some queue_invalid_state
            else (if not (is_empty p.group) && not (any (text_eq p.group) d.groups)
                then some consumer_group_not_found
                else (if queue_type == type_priority && not (is_some p.priority)
                    then some message_priority_required
                    else (if not (queue_type == type_priority) && is_some p.priority
                        then some priority_queuing_not_enabled
                        else (if has_status status_pending p.fields.status
                              && not (
                                  queue_type == type_priority
                                  || queue_type == type_lifo
                                  || queue_type == type_fifo)
                            then some unknown_queue_type
                            else none))))))

-- A message goes to the end of its queue that is consumed last, or first if the queue is LIFO, or by
-- its priority.
unfoldable pub enqueue_new : ℕ → Publication → List Entry → List Entry
enqueue_new queue_type p es =
    if queue_type == type_priority
    then zadd Entries.priority p.group (elim p.priority [ none ↦ 0 | some n ↦ n ]) p.id es
    else (if queue_type == type_lifo
        then rpush Entries.pending p.group p.id es
        else lpush Entries.pending p.group p.id es)

-- What is written of it beside its hash, by its status.
unfoldable pub put : ℕ → Publication → Db → Db
unfolding enqueue_new
put queue_type p d =
    if has_status status_pending p.fields.status
    then record d {
      entries = enqueue_new queue_type p d.entries;
      pending_count = d.pending_count +ℤ pos 1;
    }
    else record d {
      entries = zadd Entries.scheduled [] p.scheduled_timestamp p.id d.entries;
      scheduled_count = d.scheduled_count +ℤ pos 1;
    }

unfoldable pub record_message : Publication → Db → Db
unfolding update
record_message p d = record d {
  entries = rpush Entries.published [] p.id d.entries;
  message = update p.id (λ _. p.fields) d.message;
  messages_count = d.messages_count +ℤ pos 1;
}

-- `publish_message`
unfoldable pub publish_message : Publication → Db → Db × Reply
unfolding put record_message
publish_message p d = elim d.queue_type [
  | none ↦ (d, queue_not_found)
  | some queue_type ↦ elim (objection d queue_type p) [
    | some reply ↦ (d, reply)
    | none ↦ (record_message p (put queue_type p d), published_ok)
  ]
]

-- The errors of `dispatch`.
pub data Error : Type 0 where
  not_found : Error
  group_not_found : Error
  priority_required : Error
  priority_not_enabled : Error
  queue_type_unknown : Error
  not_operational : Error
  locked : Error
  invalid_queue_state : Error

unfoldable pub interpret : ℕ → Reply → Result Error ℕ
interpret id published_ok = ok id
interpret id queue_not_found = err not_found
interpret id consumer_group_not_found = err group_not_found
interpret id message_priority_required = err priority_required
interpret id priority_queuing_not_enabled = err priority_not_enabled
interpret id unknown_queue_type = err queue_type_unknown
interpret id queue_stopped = err not_operational
interpret id queue_locked = err locked
interpret id queue_invalid_state = err invalid_queue_state

-- The envelope of a message that is sent, as far as `dispatch` reads it; `json` is its encoding.
pub record Outgoing : Type 0 where
  pub id : ℕ
  pub content : Message
  pub priority : Option ℕ
  pub group : Text
  pub json : Text

-- `BuildPublishArgs` for a message that is new.
unfoldable pub build_publish_args : ℕ → ℕ → Outgoing → Publication
build_publish_args now timestamp e = record {
  id = e.id;
  fields =
      if ltb 0 timestamp
      then record no_fields {
        status = some status_scheduled;
        message = e.json;
        scheduled_at = some timestamp;
      }
      else record no_fields {
        status = some status_pending;
        message = e.json;
        published_at = some now;
      };
  priority = e.priority;
  scheduled_timestamp = timestamp;
  group = e.group;
  operation_lock_id = [];
}

module _ (next_tick : Text → ℕ → Option ℕ) where
  -- `dispatch`
  unfoldable pub dispatch : ℕ → Outgoing → Db → Db × Result Error ℕ
  unfolding build_publish_args publish_message interpret next_scheduled_timestamp new_state
  dispatch now e d =
      let (_, timestamp) = next_scheduled_timestamp next_tick now e.content (new_state e.content) in
      let (d', reply) = publish_message (build_publish_args now timestamp e) d in
      (d', interpret e.id reply)
