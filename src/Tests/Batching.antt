-- ===== src/Tests/Batching.antt =====
-- Batches of acknowledgements on concrete ids.
use go_redis_smq.Prelude.{ℕ, ◌≡◌, refl, true, none, List, [], ◌∷◌}
use go_redis_smq.Batches.{BatchConfig, Batch, new_batch, ack, shutdown, timer_copies, timer_clears}
use go_redis_smq.Batches.Kept.{
  Call, acks, flushes, copies, clears, handed, uninterrupted, run, all_sent, contents, run-shutdown,
  timer_clears-ack,
}

abbrev pairs : BatchConfig
pairs = record { enabled = true; batch_size = 2 }

abbrev fours : BatchConfig
fours = record { enabled = true; batch_size = 4 }

abbrev calls : List (Call ℕ)
calls = acks 1 ∷ acks 2 ∷ acks 3 ∷ copies ∷ clears ∷ acks 4 ∷ flushes ∷ acks 5 ∷ []

batches :
    (shutdown (run pairs calls new_batch)).sent ≡ (5 ∷ []) ∷ (4 ∷ []) ∷ (3 ∷ []) ∷ (1 ∷ 2 ∷ []) ∷ []
unfolding shutdown run new_batch
batches = refl

run-shutdown_example :
    let b = shutdown (run pairs calls new_batch) in
    (all_sent b.sent ≡ 1 ∷ 2 ∷ 3 ∷ 4 ∷ 5 ∷ []) × (b.buffer ≡ [])
unfolding handed uninterrupted
run-shutdown_example = run-shutdown pairs calls refl refl

abbrev one_waits : Batch ℕ
one_waits = record { buffer = 1 ∷ []; timer = true; sent = []; copied = none }

timer_clears-ack_example :
    let b = timer_clears (ack fours 2 (timer_copies one_waits)) in
    (all_sent b.sent ≡ contents one_waits) × (b.buffer ≡ [])
timer_clears-ack_example = timer_clears-ack fours 2 1 [] one_waits refl refl refl
