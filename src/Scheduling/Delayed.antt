-- ===== src/Scheduling/Delayed.antt =====
-- internal/message/codec.go: a message that is decoded has its delay again.
use go_redis_smq.Prelude.{
  ℕ, ◌+◌, ◌≡◌, ◌<◌, refl, true, Option, some, List, [], ◌∷◌, ltb, arith, length,
}
use go_redis_smq.Prelude.Text.{Text}
use go_redis_smq.Scheduling.Publisher.{
  MessageParams, rebuild_message, restore_delay, next_of_decoded, enqueue_scheduled,
}
use go_redis_smq.Scheduling.{
  State, is_periodic, is_schedulable, has_next_delay, next_scheduled_timestamp,
}

ltb-add : (now d : ℕ) → 0 < d → ltb 0 (now + d) ≡ true
ltb-add now d h = ground arith

module _ (next_tick : Text → ℕ → Option ℕ) where
  next_of_decoded-delayed :
      (now : ℕ) (p : MessageParams) (s : State) (d : ℕ)
      → p.delay ≡ some d
      → 0 < d
      → next_of_decoded next_tick now p s ≡ (record s { effective_scheduled_delay = 0 }, now + d)
  unfolding next_of_decoded restore_delay next_scheduled_timestamp is_schedulable has_next_delay
  next_of_decoded-delayed now p s d e h = ground (arith, e)

  -- A message that has a positive delay and a cron expression or a number of repeats is published by
  -- every round of the publisher that meets it, and stays scheduled, whatever the number of its
  -- repeats and their count.
  pub enqueue_scheduled-endless :
      (nows : List ℕ) (p : MessageParams) (s : State) (d : ℕ)
      → p.delay ≡ some d
      → 0 < d
      → is_periodic (rebuild_message p) ≡ true
      → enqueue_scheduled next_tick nows p s ≡ (length nows, true)
  unfolding enqueue_scheduled
  enqueue_scheduled-endless [] p s d e h periodic = refl
  enqueue_scheduled-endless (now ∷ nows) p s d e h periodic =
      rw
        (
          next_of_decoded-delayed now p s d e h,
          ltb-add now d h,
          periodic,
          enqueue_scheduled-endless nows p (record s { effective_scheduled_delay = 0 }) d e h
              periodic,
        )
        (ground arith)
