-- ===== src/Tests/Schedules.antt =====
-- internal/message/envelope.go on concrete messages.
use go_redis_smq.Prelude.{
  ℕ, ◌+◌, ◌≡◌, ◌≤◌, ◌<◌, refl, true, false, ◌&&◌, Option, none, some, [], ◌∷◌, ltb, arith,
}
use go_redis_smq.Prelude.Text.{Text, text_eq}
use go_redis_smq.Scheduling.{Message, State, next_scheduled_timestamp, is_periodic}
use go_redis_smq.Scheduling.Bounds.{next_scheduled_timestamp_bounds}
use go_redis_smq.Scheduling.Publisher.{
  MessageParams, new_state, to_params, rebuild_message, enqueue_scheduled,
}
use go_redis_smq.Scheduling.Delayed.{enqueue_scheduled-endless}
use go_redis_smq.Scheduling.Repeats.{enqueue_scheduled-repeats}

-- Every expression fires after 50 milliseconds.
abbrev next_tick : Text → ℕ → Option ℕ
next_tick c now = some (now + 50)

abbrev repeats : Message
repeats = record {
  scheduled_cron = [];
  scheduled_delay = none;
  scheduled_repeat = 2;
  scheduled_repeat_period = some 30000000;
}

abbrev ticks : Message
ticks = record {
  scheduled_cron = 42 ∷ [];
  scheduled_delay = none;
  scheduled_repeat = 2;
  scheduled_repeat_period = some 30000000;
}

abbrev fresh : State
fresh = record {
  effective_scheduled_delay = 0;
  scheduled_cron_fired = false;
  scheduled_repeat_count = 0;
}

abbrev fired : State
fired = record fresh { scheduled_cron_fired = true }

first_repeat :
    next_scheduled_timestamp next_tick 100 repeats fresh
    ≡ (record fresh { scheduled_repeat_count = 1 }, 100)
unfolding next_scheduled_timestamp
first_repeat = refl

tick_first : next_scheduled_timestamp next_tick 100 ticks fresh ≡ (fired, 150)
unfolding next_scheduled_timestamp
tick_first = refl

repeat_in_cycle :
    next_scheduled_timestamp next_tick 100 ticks fired
    ≡ (record fired { scheduled_repeat_count = 1 }, 130)
unfolding next_scheduled_timestamp
repeat_in_cycle = refl

delayed :
    next_scheduled_timestamp next_tick 100 repeats (record fresh { effective_scheduled_delay = 7 })
    ≡ (fresh, 107)
unfolding next_scheduled_timestamp
delayed = refl

later : (c : Text) (n t : ℕ) → next_tick c n ≡ some t → n < t
later c n t e = ground (arith, e)

next_scheduled_timestamp_bounds_example :
    let (after, timestamp) = next_scheduled_timestamp next_tick 100 ticks fired in
    (ltb 0 timestamp && ltb timestamp 100 ≡ false) × (after.scheduled_repeat_count ≤ 2)
next_scheduled_timestamp_bounds_example =
    next_scheduled_timestamp_bounds next_tick 100 ticks fired later (omega arith)

abbrev often : MessageParams
often = record { cron = []; delay = some 10; repeat = 2; repeat_period = some 60 }

enqueue_scheduled-repeats_example :
    let (s, timestamp) = next_scheduled_timestamp next_tick 100 repeats (new_state repeats) in
    (timestamp ≡ 100)
    × (enqueue_scheduled next_tick (100 ∷ 130 ∷ 160 ∷ []) (to_params repeats) s ≡ (2, false))
enqueue_scheduled-repeats_example =
    enqueue_scheduled-repeats next_tick (100 ∷ 130 ∷ 160 ∷ []) 100 2 30000000
      (omega arith, (omega arith, (omega arith, (omega arith, tt)))) (omega arith) (omega arith)

enqueue_scheduled-endless_example :
    enqueue_scheduled next_tick (10 ∷ 20 ∷ 30 ∷ 40 ∷ []) often fresh ≡ (4, true)
unfolding rebuild_message is_periodic text_eq
enqueue_scheduled-endless_example =
    enqueue_scheduled-endless next_tick (10 ∷ 20 ∷ 30 ∷ 40 ∷ []) often fresh 10 refl (omega arith)
      refl
