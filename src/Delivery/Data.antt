-- ===== src/Delivery/Data.antt =====
-- What Redis keeps of a queue and of its messages, as far as the scripts read and write it:
-- internal/queue/schema, internal/message/schema and internal/redis/keys/queue.go.
use go_redis_smq.Prelude.{ℕ, Bool, false, Option, none, some, List, [], ◌==◌, if◌then◌else◌}
use go_redis_smq.Prelude.Int.{ℤ}
use go_redis_smq.Prelude.Text.{Text}
use go_redis_smq.QueueState.{state_active, state_paused, state_stopped, state_locked}
use go_redis_smq.Consumer.{UnacknowledgeAction, UnacknowledgeCause}
use go_redis_smq.Delivery.Entries.{Entry}

-- `Status` of pkg/message.
abbrev pub status_new : ℕ
status_new = 0

abbrev pub status_pending : ℕ
status_pending = 1

abbrev pub status_processing : ℕ
status_processing = 2

abbrev pub status_scheduled : ℕ
status_scheduled = 3

abbrev pub status_acknowledged : ℕ
status_acknowledged = 4

abbrev pub status_unack_requeuing : ℕ
status_unack_requeuing = 5

abbrev pub status_unack_delaying : ℕ
status_unack_delaying = 6

abbrev pub status_dead_lettered : ℕ
status_dead_lettered = 7

-- `Type` of pkg/queue.
abbrev pub type_lifo : ℕ
type_lifo = 0

abbrev pub type_fifo : ℕ
type_fifo = 1

abbrev pub type_priority : ℕ
type_priority = 2

-- The hash of a message. A time that is not set is an empty text; a hash that does not exist has no
-- status.
pub record Fields : Type 0 where
  pub status : Option ℕ
  pub message : Text
  pub scheduled_at : Option ℕ
  pub published_at : Option ℕ
  pub processing_started_at : Option ℕ
  pub last_processed_at : Option ℕ
  pub acknowledged_at : Option ℕ
  pub unacknowledged_at : Option ℕ
  pub last_unacknowledged_at : Option ℕ
  pub dead_lettered_at : Option ℕ
  pub last_retried_attempt_at : Option ℕ
  pub attempts : ℕ
  pub expired : Bool
  pub unacknowledged_count : ℕ

abbrev pub no_fields : Fields
no_fields = record {
  status = none;
  message = [];
  scheduled_at = none;
  published_at = none;
  processing_started_at = none;
  last_processed_at = none;
  acknowledged_at = none;
  unacknowledged_at = none;
  last_unacknowledged_at = none;
  dead_lettered_at = none;
  last_retried_attempt_at = none;
  attempts = 0;
  expired = false;
  unacknowledged_count = 0;
}

-- A record of the unacknowledgement history.
pub record Attempt : Type 0 where
  pub cause : UnacknowledgeCause
  pub action : UnacknowledgeAction
  pub attempts : ℕ
  pub timestamp : ℕ

-- A queue that does not exist has no type. Counters are the integers of HINCRBY.
pub record Db : Type 0 where
  pub queue_type : Option ℕ
  pub operational_state : Option ℕ
  pub lock_id : Text
  pub messages_count : ℤ
  pub pending_count : ℤ
  pub processing_count : ℤ
  pub requeued_count : ℤ
  pub delayed_count : ℤ
  pub scheduled_count : ℤ
  pub acknowledged_count : ℤ
  pub dead_lettered_count : ℤ
  pub groups : List Text
  pub entries : List Entry
  pub message : ℕ → Fields
  pub history : ℕ → List Attempt

-- HSET and the like on the hash of one message.
unfoldable pub update : ℕ → (Fields → Fields) → (ℕ → Fields) → ℕ → Fields
update id f message j = if id == j then f (message j) else message j

-- Whether a hash has a status.
abbrev pub has_status : ℕ → Option ℕ → Bool
has_status code none = false
has_status code (some status) = status == code

-- A state that is not stored is the active one.
abbrev pub current_state : Db → ℕ
current_state d = elim d.operational_state [ none ↦ state_active | some state ↦ state ]

-- Why a script does nothing in the state of the queue.
pub data Refusal : Type 0 where
  queue_stopped : Refusal
  queue_locked : Refusal
  queue_invalid_state : Refusal

-- The check that the scripts of the consumers begin with.
unfoldable pub refusal : Db → Option Refusal
refusal d =
    if current_state d == state_stopped
    then some queue_stopped
    else (if current_state d == state_locked
        then some queue_locked
        else (if current_state d == state_paused
            then none
            else (if current_state d == state_active then none else some queue_invalid_state)))
