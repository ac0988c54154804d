-- ===== src/Batches.antt =====
-- internal/consumer/batch_acker.go and batch_unacker.go, which are alike: what is to be acknowledged,
-- or unacknowledged, is buffered and handed over in batches. `A` is an id, or an entry with its cause.
-- `Ack`, `Flush` and `Shutdown` hold the mutex. The timer calls `flush` without it, so that calls may
-- come between the two halves of `flush`, the copying of the buffer and its clearing.
pub mod Kept
use go_redis_smq.Prelude.{
  ℕ, suc, ◌+◌, Bool, true, false, Option, none, some, List, [], ◌∷◌, ◌++◌, ◌==◌, leb, if◌then◌else◌,
  length,
}

-- `BatchConfig`, without the timeout.
pub record BatchConfig : Type 0 where
  pub enabled : Bool
  pub batch_size : ℕ

-- The buffer, whether the timer is set, the batches that have been handed over, the last first, and
-- what a flush of the timer has copied and not yet cleared.
pub record Batch {ℓ} (A : Type ℓ) : Type ℓ where
  pub buffer : List A
  pub timer : Bool
  pub sent : List (List A)
  pub copied : Option (List A)

module _ {ℓ} {A : Type ℓ} where
  unfoldable pub new_batch : Batch A
  new_batch = record { buffer = []; timer = false; sent = []; copied = none }

  -- A buffer is handed over, if there is something in it.
  unfoldable pub hand_over : List A → Batch A → Batch A
  hand_over [] b = b
  hand_over (x ∷ xs) b = record b { buffer = []; timer = false; sent = (x ∷ xs) ∷ b.sent }

  -- `flush`, with the mutex.
  unfoldable pub flush : Batch A → Batch A
  unfolding hand_over
  flush b = hand_over b.buffer b

  -- `Ack` and `Unack`
  unfoldable pub ack : BatchConfig → A → Batch A → Batch A
  unfolding flush
  ack c x b =
      if c.enabled
      then (let b' = record b { buffer = b.buffer ++ x ∷ []; timer = true } in
          if leb c.batch_size (length b'.buffer) then flush (record b' { timer = false }) else b')
      else record b { sent = (x ∷ []) ∷ b.sent }

  -- `Shutdown`
  unfoldable pub shutdown : Batch A → Batch A
  unfolding flush
  shutdown b = flush (record b { timer = false })

  -- The first half of `flush` as the timer runs it: a buffer that is empty is let be.
  unfoldable pub copy_buffer : List A → Batch A → Batch A
  copy_buffer [] b = record b { copied = none }
  copy_buffer (x ∷ xs) b = record b { copied = some (x ∷ xs) }

  unfoldable pub timer_copies : Batch A → Batch A
  unfolding copy_buffer
  timer_copies b = copy_buffer b.buffer b

  -- The second half.
  unfoldable pub timer_clears : Batch A → Batch A
  timer_clears b = elim b.copied [
    | none ↦ b
    | some ids ↦ record { buffer = []; timer = false; sent = ids ∷ b.sent; copied = none }
  ]
