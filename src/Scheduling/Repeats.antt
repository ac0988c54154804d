-- ===== src/Scheduling/Repeats.antt =====
-- internal/message/envelope.go: a message that only repeats is delivered as often as it says.
use go_redis_smq.Prelude.{
  ℕ, ◌*◌, refl, none, ◌≡◌, ◌≤◌, ◌<◌, ◌∙◌, false, inl, inr, Option, some, List, [], ◌∷◌, ltb, ◌-◌,
  suc, arith, length, All, Bool-cases,
}
use go_redis_smq.Prelude.Text.{Text, text_eq}
use go_redis_smq.Scheduling.Publisher.{
  MessageParams, new_state, to_params, rebuild_message, restore_delay, next_of_decoded,
  enqueue_scheduled,
}
use go_redis_smq.Scheduling.{
  Message, State, milliseconds, has_cron, choose, repeat_timestamp, cron_timestamp, is_schedulable,
  is_periodic, has_next_delay, next_scheduled_timestamp, count_repeat,
}

repeat_timestamp_positive :
    (now : ℕ) (m : Message) (s : State) (period : ℕ)
    → 0 < now
    → m.scheduled_repeat_period ≡ some period
    → has_cron m ≡ false
    → s.scheduled_repeat_count < m.scheduled_repeat
    → 0 < repeat_timestamp now m s
unfolding repeat_timestamp
repeat_timestamp_positive now m s period p ep ec h = ground (arith, ep, ec)

repeat_timestamp_over :
    (now : ℕ) (m : Message) (s : State)
    → m.scheduled_repeat ≤ s.scheduled_repeat_count
    → repeat_timestamp now m s ≡ 0
unfolding repeat_timestamp
repeat_timestamp_over now m s h = ground arith

choose_repeat : (repeat : ℕ) (s : State) → 0 < repeat → choose 0 repeat s ≡ (count_repeat s, repeat)
unfolding choose
choose_repeat repeat s p = ground arith

-- The parameters of a message that only repeats.
abbrev pub repeating : ℕ → ℕ → MessageParams
repeating limit period = record {
  cron = [];
  delay = none;
  repeat = limit;
  repeat_period = some period;
}

-- A message that only repeats.
abbrev pub repeat_only : ℕ → ℕ → Message
repeat_only limit period = record {
  scheduled_cron = [];
  scheduled_delay = none;
  scheduled_repeat = limit;
  scheduled_repeat_period = some period;
}

-- The first repeat is due at once.
repeat_timestamp_first :
    (now limit period : ℕ)
    → 0 < limit
    → repeat_timestamp now (repeat_only limit period) (new_state (repeat_only limit period)) ≡ now
unfolding repeat_timestamp new_state text_eq
repeat_timestamp_first now limit period h = ground arith

module _ (next_tick : Text → ℕ → Option ℕ) where
  -- A message without a cron expression and without a delay.
  next-repeat :
      (now : ℕ) (m : Message) (s : State)
      → has_cron m ≡ false
      → s.effective_scheduled_delay ≡ 0
      → next_scheduled_timestamp next_tick now m s ≡ choose 0 (repeat_timestamp now m s) s
  unfolding next_scheduled_timestamp is_schedulable is_periodic has_next_delay cron_timestamp choose
      repeat_timestamp
  next-repeat now m s ec ed = ground (arith, ec, ed)

  next-due :
      (now : ℕ) (m : Message) (s : State) (period : ℕ)
      → 0 < now
      → m.scheduled_repeat_period ≡ some period
      → has_cron m ≡ false
      → s.effective_scheduled_delay ≡ 0
      → s.scheduled_repeat_count < m.scheduled_repeat
      → next_scheduled_timestamp next_tick now m s ≡ (count_repeat s, repeat_timestamp now m s)
  next-due now m s period p ep ec ed h =
      next-repeat now m s ec ed
      ∙ choose_repeat (repeat_timestamp now m s) s
          (repeat_timestamp_positive now m s period p ep ec h)

  next-over :
      (now : ℕ) (m : Message) (s : State)
      → has_cron m ≡ false
      → s.effective_scheduled_delay ≡ 0
      → m.scheduled_repeat ≤ s.scheduled_repeat_count
      → next_scheduled_timestamp next_tick now m s ≡ (s, 0)
  unfolding choose
  next-over now m s ec ed h = rw (next-repeat now m s ec ed, repeat_timestamp_over now m s h)

  next_of_decoded-due :
      (now limit period : ℕ) (s : State)
      → 0 < now
      → s.effective_scheduled_delay ≡ 0
      → s.scheduled_repeat_count < limit
      → next_of_decoded next_tick now (repeating limit period) s
        ≡ (count_repeat s, repeat_timestamp now (rebuild_message (repeating limit period)) s)
  unfolding next_of_decoded restore_delay rebuild_message text_eq
  next_of_decoded-due now limit period s h ed lt =
      next-due now (rebuild_message (repeating limit period)) s (period * 1000000) h refl refl ed lt

  next_of_decoded-over :
      (now limit period : ℕ) (s : State)
      → s.effective_scheduled_delay ≡ 0
      → limit ≤ s.scheduled_repeat_count
      → next_of_decoded next_tick now (repeating limit period) s ≡ (s, 0)
  unfolding next_of_decoded restore_delay rebuild_message text_eq
  next_of_decoded-over now limit period s ed le =
      next-over now (rebuild_message (repeating limit period)) s refl ed le

  -- A message that only repeats and is scheduled already is published once for each repeat that is left and once
  -- more, and is then not scheduled any longer.
  enqueue_scheduled-ends :
      (nows : List ℕ) (limit period : ℕ) (s : State)
      → All (λ now. 0 < now) nows
      → s.effective_scheduled_delay ≡ 0
      → limit - s.scheduled_repeat_count < length nows
      → enqueue_scheduled next_tick nows (repeating limit period) s
        ≡ (suc (limit - s.scheduled_repeat_count), false)
  unfolding enqueue_scheduled is_periodic rebuild_message text_eq
  enqueue_scheduled-ends [] limit period s ps ed h = ground arith
  enqueue_scheduled-ends (now ∷ nows) limit period s (q, qs) ed h =
      elim (Bool-cases (ltb s.scheduled_repeat_count limit)) [
        | inl e ↦
            let lt : s.scheduled_repeat_count < limit = ground (arith, e) in
            let later =
              enqueue_scheduled-ends nows limit period (count_repeat s) qs ed
                (omega (arith, h, lt)) in
            let r =
              repeat_timestamp_positive now (rebuild_message (repeating limit period)) s
                (period * 1000000) q refl refl lt in
            ground (arith, later, r, next_of_decoded-due now limit period s q ed lt)
        | inr e ↦ ground (arith, next_of_decoded-over now limit period s ed (ground (arith, e)))
      ]

  -- A message that has a period and a positive number of repeats, and neither a cron expression nor
  -- a delay, is published exactly as often as it has repeats, by as many rounds or more of the
  -- publisher, and is then not scheduled any longer, if the clock is positive.
  pub enqueue_scheduled-repeats :
      (nows : List ℕ) (now limit period : ℕ)
      → All (λ n. 0 < n) (now ∷ nows)
      → 0 < limit
      → limit ≤ length nows
      → let m = repeat_only limit period in
        let (s, timestamp) = next_scheduled_timestamp next_tick now m (new_state m) in
        (timestamp ≡ now) × (enqueue_scheduled next_tick nows (to_params m) s ≡ (limit, false))
  unfolding to_params new_state repeat_timestamp text_eq
  enqueue_scheduled-repeats nows now limit period (p, ps) h le =
      let m = repeat_only limit period in
      let first = next-due now m (new_state m) period p refl refl refl h in
      let rest =
        enqueue_scheduled-ends nows limit (milliseconds period) (count_repeat (new_state m)) ps refl
          (omega (arith, h, le)) in
      (rw first (repeat_timestamp_first now limit period h), rw (first, rest) (ground (arith, h)))
