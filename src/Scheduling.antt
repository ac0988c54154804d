-- ===== src/Scheduling.antt =====
-- internal/message/envelope.go: when a message is delivered next. Of the message and its state, the
-- records hold the fields that the schedule reads and writes. Durations are in nanoseconds, and
-- instants in milliseconds, as `UnixMilli` returns them. The setters of pkg/message/message_types.go
-- admit no negative numbers.
pub mod Bounds
pub mod Publisher
pub mod Delayed
pub mod Repeats
use go_redis_smq.Prelude.{
  ℕ, ◌+◌, ◌/◌, ◌≡◌, Bool, true, false, not, ◌&&◌, ◌||◌, Option, none, some, List, [], ◌∷◌, ltb,
  ◌==◌, if◌then◌else◌,
}
use go_redis_smq.Prelude.Text.{Text, text_eq}

-- `ProducibleMessage`
pub record Message : Type 0 where
  pub scheduled_cron : Text
  pub scheduled_delay : Option ℕ
  pub scheduled_repeat : ℕ
  pub scheduled_repeat_period : Option ℕ

-- `State`
pub record State : Type 0 where
  pub effective_scheduled_delay : ℕ
  pub scheduled_cron_fired : Bool
  pub scheduled_repeat_count : ℕ

-- `Duration.Milliseconds`
abbrev pub milliseconds : ℕ → ℕ
milliseconds duration = duration / 1000000

abbrev pub has_cron : Message → Bool
has_cron m = not (text_eq m.scheduled_cron [])

-- `IsPeriodic`
unfoldable pub is_periodic : Message → Bool
unfolding text_eq
is_periodic m = has_cron m || ltb 0 m.scheduled_repeat

-- `HasNextDelay`
unfoldable pub has_next_delay : State → Bool
has_next_delay s = ltb 0 s.effective_scheduled_delay

-- `IsSchedulable`
unfoldable pub is_schedulable : Message → State → Bool
unfolding is_periodic has_next_delay
is_schedulable m s = has_next_delay s || is_periodic m

-- The timestamp of the next repeat at the time `now`, 0 if there is none.
unfoldable pub repeat_timestamp : ℕ → Message → State → ℕ
unfolding text_eq
repeat_timestamp now m s =
    if ltb s.scheduled_repeat_count m.scheduled_repeat
      && (not (has_cron m) || s.scheduled_cron_fired)
    then (elim m.scheduled_repeat_period [
      | none ↦ 0
      | some period ↦
          if has_cron m
          then now + milliseconds period
          else (if ltb 0 s.scheduled_repeat_count then now + milliseconds period else now)
    ])
    else 0

abbrev pub fire_cron : State → State
fire_cron s = record s { scheduled_repeat_count = 0; scheduled_cron_fired = true }

abbrev pub count_repeat : State → State
count_repeat s = record s { scheduled_repeat_count = s.scheduled_repeat_count + 1 }

-- The choice at the end, between the next tick and the next repeat.
unfoldable pub choose : ℕ → ℕ → State → State × ℕ
choose cron repeat s =
    if ltb 0 cron && ltb 0 repeat
    then (if ltb repeat cron then (count_repeat s, repeat) else (fire_cron s, cron))
    else (if ltb 0 cron
        then (fire_cron s, cron)
        else (if ltb 0 repeat then (count_repeat s, repeat) else (s, 0)))

-- `next_tick` stands for `ParseCron` and `NextTick` of internal/util/cron: the next time, in
-- milliseconds, at which an expression fires, if it parses and there is one.
module _ (next_tick : Text → ℕ → Option ℕ) where
  unfoldable pub cron_timestamp : ℕ → Message → ℕ
  unfolding text_eq
  cron_timestamp now m =
      if has_cron m then (elim (next_tick m.scheduled_cron now) [ none ↦ 0 | some t ↦ t ]) else 0

  -- `NextScheduledTimestamp`
  unfoldable pub next_scheduled_timestamp : ℕ → Message → State → State × ℕ
  unfolding text_eq is_schedulable repeat_timestamp choose cron_timestamp
  next_scheduled_timestamp now m s =
      if not (is_schedulable m s)
      then (s, 0)
      else (if ltb 0 s.effective_scheduled_delay
          then (record s { effective_scheduled_delay = 0 }, now + s.effective_scheduled_delay)
          else (if not (has_cron m) && m.scheduled_repeat == 0
              then (s, 0)
              else choose (cron_timestamp now m) (repeat_timestamp now m s) s))
