-- ===== src/Delivery/Counted.antt =====
-- The counters of a queue are the sizes of its places. The counters of pending and of processing
-- messages are taken together, since a message changes hands before it is counted.
pub mod Sizes
pub mod RetrySizes
pub mod Settled
pub mod Arrivals
pub mod Dues
use go_redis_smq.Prelude.{◌≡◌}
use go_redis_smq.Prelude.Int.{pos, ◌+ℤ◌}
use go_redis_smq.Delivery.Entries
use go_redis_smq.Delivery.Entries.{size}
use go_redis_smq.Delivery.Data.{Db}

pub record IsCounted (d : Db) : Type 0 where
  pub in_queue : d.pending_count +ℤ d.processing_count ≡ pos (size Entries.in_queue d.entries)
  pub requeued : d.requeued_count ≡ pos (size Entries.requeued d.entries)
  pub delayed : d.delayed_count ≡ pos (size Entries.delayed d.entries)
  pub scheduled : d.scheduled_count ≡ pos (size Entries.scheduled d.entries)
  pub published : d.messages_count ≡ pos (size Entries.published d.entries)
