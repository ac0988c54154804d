-- ===== src/Scheduling/Publisher.antt =====
-- The rounds of internal/consumer/scheduled_publisher.go on one message, which Redis keeps between
-- them: its parameters, encoded once, by `ToParams` of pkg/message, and the fields of its state that
-- the script writes back. Each round decodes both by internal/message/codec.go. A message whose
-- consumer group is gone, and a queue that refuses to publish, are left out.
use go_redis_smq.Prelude.{
  ℕ, ◌+◌, ◌*◌, Bool, true, false, ◌&&◌, Option, none, some, List, [], ◌∷◌, ltb, if◌then◌else◌,
}
use go_redis_smq.Prelude.Text.{Text}
use mathlib.Core.Option
use go_redis_smq.Scheduling.{Message, State, milliseconds, is_periodic, next_scheduled_timestamp}

-- `Params`: durations in milliseconds.
pub record MessageParams : Type 0 where
  pub cron : Text
  pub delay : Option ℕ
  pub repeat : ℕ
  pub repeat_period : Option ℕ

-- `NewEnvelope`
unfoldable pub new_state : Message → State
new_state m = record {
  effective_scheduled_delay = elim m.scheduled_delay [ none ↦ 0 | some d ↦ milliseconds d ];
  scheduled_cron_fired = false;
  scheduled_repeat_count = 0;
}

-- `ToParams`
unfoldable pub to_params : Message → MessageParams
to_params m = record {
  cron = m.scheduled_cron;
  delay = Option.map milliseconds m.scheduled_delay;
  repeat = m.scheduled_repeat;
  repeat_period = Option.map milliseconds m.scheduled_repeat_period;
}

abbrev pub nanoseconds : ℕ → ℕ
nanoseconds d = d * 1000000

-- `rebuildMessage`
unfoldable pub rebuild_message : MessageParams → Message
rebuild_message p = record {
  scheduled_cron = p.cron;
  scheduled_delay = Option.map nanoseconds p.delay;
  scheduled_repeat = p.repeat;
  scheduled_repeat_period = Option.map nanoseconds p.repeat_period;
}

-- What `DecodeEnvelope` does to the state that it has decoded.
unfoldable pub restore_delay : MessageParams → State → State
restore_delay p s = elim p.delay [ none ↦ s | some d ↦ record s { effective_scheduled_delay = d } ]

module _ (next_tick : Text → ℕ → Option ℕ) where
  -- `NextScheduledTimestamp` of a message that has been decoded.
  unfoldable pub next_of_decoded : ℕ → MessageParams → State → State × ℕ
  unfolding rebuild_message restore_delay next_scheduled_timestamp
  next_of_decoded now p s =
      next_scheduled_timestamp next_tick now (rebuild_message p) (restore_delay p s)

  -- `enqueueScheduled` at each of these times, while the message is scheduled: how often it
  -- publishes, the message or a clone of it, and whether the message is still scheduled.
  unfoldable pub enqueue_scheduled : List ℕ → MessageParams → State → ℕ × Bool
  unfolding next_of_decoded is_periodic
  enqueue_scheduled [] p s = (0, true)
  enqueue_scheduled (now ∷ nows) p s =
      let (s', next) = next_of_decoded now p s in
      let (published, scheduled) = enqueue_scheduled nows p s' in
      if ltb 0 next && is_periodic (rebuild_message p)
      then (1 + published, scheduled)
      else (1, false)
