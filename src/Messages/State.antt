-- ===== src/Messages/State.antt =====
-- `State` of pkg/message/state.go: what is known of a message in the course of its life. Instants are
-- in milliseconds, as they are set and read.
use go_redis_smq.Prelude.{ℕ, Bool, false, Option, none, some, []}
use go_redis_smq.Prelude.Text.{Text}

pub record State : Type 0 where
  pub id : Text
  pub scheduled_at : Option ℕ
  pub published_at : Option ℕ
  pub requeued_at : Option ℕ
  pub processing_started_at : Option ℕ
  pub acknowledged_at : Option ℕ
  pub unacknowledged_at : Option ℕ
  pub dead_lettered_at : Option ℕ
  pub last_requeued_at : Option ℕ
  pub last_unacknowledged_at : Option ℕ
  pub last_scheduled_at : Option ℕ
  pub last_retried_attempt_at : Option ℕ
  pub last_processed_at : Option ℕ
  pub scheduled_cron_fired : Bool
  pub attempts : ℕ
  pub scheduled_repeat_count : ℕ
  pub requeue_count : ℕ
  pub expired : Bool
  pub effective_scheduled_delay : ℕ
  pub scheduled_times : ℕ
  pub scheduled_message_parent_id : Text
  pub requeued_message_parent_id : Text

-- `NewMessageState`; the id is drawn by the caller.
unfoldable pub new_message_state : Text → State
new_message_state id = record {
  id = id;
  scheduled_at = none;
  published_at = none;
  requeued_at = none;
  processing_started_at = none;
  acknowledged_at = none;
  unacknowledged_at = none;
  dead_lettered_at = none;
  last_requeued_at = none;
  last_unacknowledged_at = none;
  last_scheduled_at = none;
  last_retried_attempt_at = none;
  last_processed_at = none;
  scheduled_cron_fired = false;
  attempts = 0;
  scheduled_repeat_count = 0;
  requeue_count = 0;
  expired = false;
  effective_scheduled_delay = 0;
  scheduled_times = 0;
  scheduled_message_parent_id = [];
  requeued_message_parent_id = [];
}

-- The setters, by the names of the fields.
unfoldable pub set_id : Text → State → State
set_id x s = record s { id = x }

unfoldable pub set_scheduled_cron_fired : Bool → State → State
set_scheduled_cron_fired x s = record s { scheduled_cron_fired = x }

unfoldable pub set_attempts : ℕ → State → State
set_attempts x s = record s { attempts = x }

unfoldable pub set_scheduled_repeat_count : ℕ → State → State
set_scheduled_repeat_count x s = record s { scheduled_repeat_count = x }

unfoldable pub set_requeue_count : ℕ → State → State
set_requeue_count x s = record s { requeue_count = x }

unfoldable pub set_expired : Bool → State → State
set_expired x s = record s { expired = x }

unfoldable pub set_effective_scheduled_delay : ℕ → State → State
set_effective_scheduled_delay x s = record s { effective_scheduled_delay = x }

unfoldable pub set_scheduled_times : ℕ → State → State
set_scheduled_times x s = record s { scheduled_times = x }

unfoldable pub set_scheduled_message_parent_id : Text → State → State
set_scheduled_message_parent_id x s = record s { scheduled_message_parent_id = x }

unfoldable pub set_requeued_message_parent_id : Text → State → State
set_requeued_message_parent_id x s = record s { requeued_message_parent_id = x }

unfoldable pub set_scheduled_at : ℕ → State → State
set_scheduled_at ts s = record s { scheduled_at = some ts }

unfoldable pub set_published_at : ℕ → State → State
set_published_at ts s = record s { published_at = some ts }

unfoldable pub set_requeued_at : ℕ → State → State
set_requeued_at ts s = record s { requeued_at = some ts }

unfoldable pub set_processing_started_at : ℕ → State → State
set_processing_started_at ts s = record s { processing_started_at = some ts }

unfoldable pub set_acknowledged_at : ℕ → State → State
set_acknowledged_at ts s = record s { acknowledged_at = some ts }

unfoldable pub set_unacknowledged_at : ℕ → State → State
set_unacknowledged_at ts s = record s { unacknowledged_at = some ts }

unfoldable pub set_dead_lettered_at : ℕ → State → State
set_dead_lettered_at ts s = record s { dead_lettered_at = some ts }

unfoldable pub set_last_requeued_at : ℕ → State → State
set_last_requeued_at ts s = record s { last_requeued_at = some ts }

unfoldable pub set_last_unacknowledged_at : ℕ → State → State
set_last_unacknowledged_at ts s = record s { last_unacknowledged_at = some ts }

unfoldable pub set_last_scheduled_at : ℕ → State → State
set_last_scheduled_at ts s = record s { last_scheduled_at = some ts }

unfoldable pub set_last_retried_attempt_at : ℕ → State → State
set_last_retried_attempt_at ts s = record s { last_retried_attempt_at = some ts }

unfoldable pub set_last_processed_at : ℕ → State → State
set_last_processed_at ts s = record s { last_processed_at = some ts }
