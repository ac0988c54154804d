-- ===== src/Delivery/Workers.antt =====
-- A round of each worker of internal/consumer that moves messages: `requeue` of
-- immediate_requeuer.go, `requeueDue` of delayed_requeuer.go, and `UnacknowledgeProcessingQueue` of
-- message_unacknowledger.go, which empties the list of a consumer that is gone.
pub mod Drained
pub mod Offline
use go_redis_smq.Prelude.{
  ℕ, zero, suc, Bool, true, false, ◌&&◌, Option, none, some, List, [], ◌∷◌, ◌==◌, leb,
  if◌then◌else◌, take,
}
use go_redis_smq.Prelude.Text.{Text}
use go_redis_smq.Consumer.{Envelope, UnacknowledgeCause}
use go_redis_smq.Delivery.Entries
use go_redis_smq.Delivery.Entries.{Entry, of_key, lowest, remove}
use go_redis_smq.Delivery.Data.{Db, Fields}
use go_redis_smq.Delivery.Unacknowledge.{Audit, UnackEntry, unacknowledge_batch}
use go_redis_smq.Delivery.Acknowledge.{load_entries}
use go_redis_smq.Delivery.Requeue.{Retry, requeue_immediate, requeue_delayed}

-- LRANGE key 0 -1
unfoldable pub ids_at : ℕ → Text → List Entry → List ℕ
unfolding of_key
ids_at kind label [] = []
ids_at kind label (e ∷ es) =
    if of_key kind label e then e.id ∷ ids_at kind label es else ids_at kind label es

-- ZRANGEBYSCORE key 0 until LIMIT 0 limit, of a key without a label.
unfoldable pub due_ids : ℕ → ℕ → ℕ → List Entry → List ℕ
unfolding lowest remove
due_ids kind until zero es = []
due_ids kind until (suc limit) es = elim (lowest kind [] es) [
  | none ↦ []
  | some e ↦
      let rest = due_ids kind until limit (remove kind [] e.id es) in
      if leb e.score until then e.id ∷ rest else []
]

-- `load_retry` stands for `DecodeEnvelope` on a hash, which may fail, and what the script is given of
-- a message. A message without a hash, or that is not decoded, is left out.
module _ (load_retry : ℕ → Fields → Option Retry) where
  unfoldable pub load_retries : Db → List ℕ → List Retry
  load_retries d [] = []
  load_retries d (id ∷ ids) =
      let rest = load_retries d ids in
      elim (d.message id).status [
        | none ↦ rest
        | some _ ↦ elim (load_retry id (d.message id)) [ none ↦ rest | some r ↦ r ∷ rest ]
      ]

  -- `requeue`, at most 100 messages.
  unfoldable pub requeue : ℕ → Db → Db
  unfolding ids_at load_retries requeue_immediate
  requeue now d = elim (load_retries d (take 100 (ids_at Entries.requeued [] d.entries))) [
    | [] ↦ d
    | r ∷ rs ↦ (requeue_immediate now (r ∷ rs) d).0
  ]

  -- `requeueDue`, at most 99; the script gets the time at which it is called.
  unfoldable pub requeue_due : ℕ → ℕ → Db → Db
  unfolding due_ids load_retries requeue_delayed
  requeue_due now timestamp d = elim (load_retries d (due_ids Entries.delayed now 99 d.entries)) [
    | [] ↦ d
    | r ∷ rs ↦ (requeue_delayed timestamp (r ∷ rs) d).0
  ]

module _ (load : ℕ → Fields → Option Envelope) where
  -- `UnacknowledgeProcessingQueue`
  unfoldable pub unacknowledge_processing_queue : ℕ → Audit → Text → UnacknowledgeCause → Db → Db
  unfolding ids_at load_entries unacknowledge_batch
  unacknowledge_processing_queue now a consumer cause d =
      unacknowledge_batch now a consumer
        (load_entries load d cause (ids_at Entries.processing consumer d.entries)) d
