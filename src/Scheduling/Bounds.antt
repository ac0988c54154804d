-- ===== src/Scheduling/Bounds.antt =====
-- internal/message/envelope.go: a schedule never leads into the past, and ends.
use go_redis_smq.Prelude.{
  ℕ, ◌≡◌, ◌≤◌, ◌<◌, false, ◌&&◌, inl, inr, Option, some, ltb, arith, Option-cases,
}
use go_redis_smq.Prelude.Text.{Text}
use go_redis_smq.Scheduling.{
  Message, State, choose, repeat_timestamp, cron_timestamp, next_scheduled_timestamp,
}

choose_in_future :
    (now cron repeat : ℕ) (s : State)
    → (0 < cron → now ≤ cron)
    → (0 < repeat → now ≤ repeat)
    → 0 < (choose cron repeat s).1
    → now ≤ (choose cron repeat s).1
unfolding choose
choose_in_future now cron repeat s hc hr h = ground arith

repeat_in_future :
    (now : ℕ) (m : Message) (s : State)
    → 0 < repeat_timestamp now m s
    → now ≤ repeat_timestamp now m s
unfolding repeat_timestamp
repeat_in_future now m s h = ground arith

-- The count of repeats stays within the limit of the message.
choose_bounded :
    (cron repeat limit : ℕ) (s : State)
    → s.scheduled_repeat_count ≤ limit
    → (0 < repeat → s.scheduled_repeat_count < limit)
    → (choose cron repeat s).0.scheduled_repeat_count ≤ limit
unfolding choose
choose_bounded cron repeat limit s h hr = ground arith

repeat_within :
    (now : ℕ) (m : Message) (s : State)
    → 0 < repeat_timestamp now m s
    → s.scheduled_repeat_count < m.scheduled_repeat
unfolding repeat_timestamp
repeat_within now m s h = ground arith

module _ (next_tick : Text → ℕ → Option ℕ) where
  cron_in_future :
      (now : ℕ) (m : Message)
      → ((c : Text) (n t : ℕ) → next_tick c n ≡ some t → n < t)
      → 0 < cron_timestamp next_tick now m
      → now ≤ cron_timestamp next_tick now m
  unfolding cron_timestamp
  cron_in_future now m later h = elim (Option-cases (next_tick m.scheduled_cron now)) [
    | inl e ↦ ground (arith, e)
    | inr (t, e) ↦ ground (arith, e, later m.scheduled_cron now t e)
  ]

  -- `NextScheduledTimestamp` returns 0 or a time that is not past, if a cron expression fires only
  -- after the time it is asked at; and it keeps the count of repeats within the message's limit.
  pub next_scheduled_timestamp_bounds :
      (now : ℕ) (m : Message) (s : State)
      → ((c : Text) (n t : ℕ) → next_tick c n ≡ some t → n < t)
      → s.scheduled_repeat_count ≤ m.scheduled_repeat
      → let (after, timestamp) = next_scheduled_timestamp next_tick now m s in
        (ltb 0 timestamp && ltb timestamp now ≡ false)
        × (after.scheduled_repeat_count ≤ m.scheduled_repeat)
  unfolding next_scheduled_timestamp
  next_scheduled_timestamp_bounds now m s later h = (
    ground (
      arith,
      choose_in_future now (cron_timestamp next_tick now m) (repeat_timestamp now m s) s
          (cron_in_future now m later) (repeat_in_future now m s),
    ),
    ground (
      arith,
      choose_bounded (cron_timestamp next_tick now m) (repeat_timestamp now m s) m.scheduled_repeat
          s h (repeat_within now m s),
    ),
  )
