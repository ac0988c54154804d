-- ===== src/Delivery/Acknowledge.antt =====
-- internal/consumer/batch_acker.go and internal/redis/scripts/scripts/core/acknowledge-message.lua.
use go_redis_smq.Prelude.{ℕ, Bool, Option, none, some, List, [], ◌∷◌, ltb, if◌then◌else◌, length}
use go_redis_smq.Prelude.Int.{pos, ◌+ℤ◌, ◌-ℤ◌}
use go_redis_smq.Prelude.Text.{Text}
use go_redis_smq.Consumer.{
  Envelope, UnacknowledgeCause, cause_queue_stopped, cause_queue_locked, cause_queue_invalid_state,
  cause_unexpected_error,
}
use go_redis_smq.Delivery.Entries
use go_redis_smq.Delivery.Entries.{Entry, ltrim, remove, removed}
use go_redis_smq.Delivery.Data.{
  Db, Fields, update, status_acknowledged, Refusal, queue_stopped, queue_locked,
  queue_invalid_state, refusal,
}
use go_redis_smq.Delivery.Unacknowledge.{Audit, Retention, UnackEntry, unacknowledge_batch}

-- A round of the loop, for a message that is in the processing list.
unfoldable pub acknowledge_one : ℕ → Text → ℕ → Db → Db
unfolding update
acknowledge_one now consumer id d = record d {
  entries = remove Entries.processing consumer id d.entries;
  message =
      update id (λ m. record m { status = some status_acknowledged; acknowledged_at = some now })
        d.message;
}

-- The loop, with the ids that it acknowledges and its result for each message.
unfoldable pub acknowledge_each : ℕ → Text → List ℕ → Db → Db × List ℕ × List Bool
unfolding acknowledge_one
acknowledge_each now consumer [] d = (d, [], [])
acknowledge_each now consumer (id ∷ ids) d =
    let found = removed Entries.processing consumer id d.entries in
    let (d', done, results) =
      acknowledge_each now consumer ids (if found then acknowledge_one now consumer id d else d) in
    (d', (if found then id ∷ done else done), found ∷ results)

-- RPUSH of all ids to a list.
unfoldable pub push_all : ℕ → List ℕ → List Entry → List Entry
push_all kind [] es = es
push_all kind (id ∷ ids) es = push_all kind ids (Entries.rpush kind [] id es)

unfoldable pub keep_all : Retention → ℕ → List ℕ → List Entry → List Entry
unfolding push_all ltrim
keep_all r kind ids es =
    if r.enabled
    then (if ltb 0 r.queue_size
        then ltrim kind [] r.queue_size (push_all kind ids es)
        else push_all kind ids es)
    else es

pub data Reply : Type 0 where
  queue_not_found : Reply
  refused : Refusal → Reply
  results : List Bool → Reply

-- The script acknowledge-message. Nothing is counted or kept if it acknowledges nothing.
unfoldable pub acknowledge_message : ℕ → Audit → Text → List ℕ → Db → Db × Reply
unfolding acknowledge_each keep_all
acknowledge_message now a consumer ids d = elim d.queue_type [
  | none ↦ (d, queue_not_found)
  | some _ ↦ elim (refusal d) [
    | some reason ↦ (d, refused reason)
    | none ↦
        let (d', done, replies) = acknowledge_each now consumer ids d in
        (
          if ltb 0 (length done)
              then record d' {
                acknowledged_count = d'.acknowledged_count +ℤ pos (length done);
                processing_count = d'.processing_count -ℤ pos (length done);
                entries = keep_all a.acknowledged_messages Entries.acknowledged done d'.entries;
              }
              else d',
          results replies,
        )
  ]
]

-- `causeFromAckError`
unfoldable pub cause_from_ack_error : Refusal → UnacknowledgeCause
cause_from_ack_error queue_stopped = cause_queue_stopped
cause_from_ack_error queue_locked = cause_queue_locked
cause_from_ack_error queue_invalid_state = cause_queue_invalid_state

-- `load` stands for `DecodeEnvelope` on a hash, which may fail. A message without a hash, or whose
-- envelope is not decoded, is left out.
module _ (load : ℕ → Fields → Option Envelope) where
  unfoldable pub load_entries : Db → UnacknowledgeCause → List ℕ → List UnackEntry
  load_entries d cause [] = []
  load_entries d cause (id ∷ ids) =
      let rest = load_entries d cause ids in
      elim (d.message id).status [
        | none ↦ rest
        | some _ ↦ elim (load id (d.message id)) [
          | none ↦ rest
          | some envelope ↦ record { id = id; envelope = envelope; cause = cause } ∷ rest
        ]
      ]

  -- `acknowledge`, with `unacknowledgeFailed`
  unfoldable pub acknowledge : ℕ → Audit → Text → List ℕ → Db → Db
  unfolding acknowledge_message unacknowledge_batch load_entries cause_from_ack_error
  acknowledge now a consumer ids d =
      let (d', reply) = acknowledge_message now a consumer ids d in
      elim reply [
        | queue_not_found ↦
            unacknowledge_batch now a consumer (load_entries d' cause_unexpected_error ids) d'
        | refused reason ↦
            unacknowledge_batch now a consumer (load_entries d' (cause_from_ack_error reason) ids)
              d'
        | results _ ↦ d'
      ]
