-- ===== src/Delivery/Workers/Offline.antt =====
-- What becomes of the messages of a consumer that is gone.
use go_redis_smq.Prelude.{
  ℕ, zero, suc, ◌-◌, ◌≡◌, refl, sym, ap, ◌∙◌, true, false, Option, none, some, List, [], ◌∷◌, ◌++◌,
  ◌==◌, any, map, arith,
}
use go_redis_smq.Prelude.Text.{Text}
use go_redis_smq.Consumer.{Envelope, UnacknowledgeCause}
use go_redis_smq.Delivery.Entries
use go_redis_smq.Delivery.Entries.{
  Entry, of_key, holds, remove, removed, rpush, ltrim, drop_first, entries_of,
}
use go_redis_smq.Delivery.Data.{Db, Fields, refusal}
use go_redis_smq.Delivery.Placed.{IsPlaced}
use go_redis_smq.Delivery.Unacknowledge.{
  Audit, UnackEntry, keep, unacknowledge_one, unacknowledge_each, unacknowledge_message,
  unacknowledge_batch,
}
use go_redis_smq.Delivery.Acknowledge.{load_entries}
use go_redis_smq.Delivery.Workers.{ids_at, unacknowledge_processing_queue}
use go_redis_smq.Delivery.Workers.Drained.{ids_at-added, ids_at-remove_first, placed_stored}

ids_at-drop_first :
    (kind other n : ℕ) (label tag : Text) (es : List Entry)
    → (kind == other) ≡ false
    → ids_at kind label (drop_first other tag n es) ≡ ids_at kind label es
unfolding ids_at drop_first of_key
ids_at-drop_first kind other zero label tag es h = refl
ids_at-drop_first kind other (suc n) label tag [] h = refl
ids_at-drop_first kind other (suc n) label tag (e ∷ es) h = ground (
  arith,
  ids_at-drop_first kind other n label tag es h,
  ids_at-drop_first kind other (suc n) label tag es h,
)

unacknowledge_one-ids :
    (now : ℕ) (a : Audit) (consumer : Text) (e : UnackEntry) (d : Db)
    → ids_at Entries.processing consumer (unacknowledge_one now a consumer e d).entries
      ≡ ids_at Entries.processing consumer (remove Entries.processing consumer e.id d.entries)
unfolding unacknowledge_one keep ltrim
unacknowledge_one-ids now a consumer e d =
    let rest = remove Entries.processing consumer e.id d.entries in
    let dead : Entry = record { kind = Entries.dead_lettered; label = []; score = 0; id = e.id } in
    let again : Entry = record { kind = Entries.requeued; label = []; score = 0; id = e.id } in
    let kept = rest ++ dead ∷ [] in
    ground (
      arith,
      ids_at-added Entries.processing consumer rest dead refl,
      ids_at-added Entries.processing consumer rest again refl,
      ids_at-drop_first Entries.processing Entries.dead_lettered
          (entries_of Entries.dead_lettered [] kept - a.dead_lettered_messages.queue_size) consumer
          [] kept refl,
    )

unacknowledge_each-ids :
    (now : ℕ) (a : Audit) (consumer : Text) (es : List UnackEntry) (d : Db)
    → ids_at Entries.processing consumer d.entries ≡ map (λ e. e.id) es
    → ids_at Entries.processing consumer (unacknowledge_each now a consumer es d).0.entries ≡ []
unfolding unacknowledge_each
unacknowledge_each-ids now a consumer [] d h = h
unacknowledge_each-ids now a consumer (e ∷ es) d h =
    let (found, rest) =
      ids_at-remove_first Entries.processing e.id consumer (map (λ e. e.id) es) d.entries h in
    rw found (
      unacknowledge_each-ids now a consumer es (unacknowledge_one now a consumer e d)
        (unacknowledge_one-ids now a consumer e d ∙ rest))

unacknowledge_message-ids :
    (queue_type now : ℕ) (a : Audit) (consumer : Text) (es : List UnackEntry) (d : Db)
    → d.queue_type ≡ some queue_type
    → refusal d ≡ none
    → ids_at Entries.processing consumer d.entries ≡ map (λ e. e.id) es
    → ids_at Entries.processing consumer (unacknowledge_message now a consumer es d).0.entries ≡ []
unfolding unacknowledge_message
unacknowledge_message-ids queue_type now a consumer es d n open' h =
    rw (n, unacknowledge_message, open') (unacknowledge_each-ids now a consumer es d h)

unacknowledge_batch-ids :
    (queue_type now : ℕ) (a : Audit) (consumer : Text) (es : List UnackEntry) (d : Db)
    → d.queue_type ≡ some queue_type
    → refusal d ≡ none
    → ids_at Entries.processing consumer d.entries ≡ map (λ e. e.id) es
    → ids_at Entries.processing consumer (unacknowledge_batch now a consumer es d).entries ≡ []
unfolding unacknowledge_batch
unacknowledge_batch-ids queue_type now a consumer [] d n open' h = h
unacknowledge_batch-ids queue_type now a consumer (e ∷ es) d n open' h =
    unacknowledge_message-ids queue_type now a consumer (e ∷ es) d n open' h

module _ (load : ℕ → Fields → Option Envelope) where
  load_entries-ids :
      (d : Db) (cause : UnacknowledgeCause) (ids : List ℕ)
      → ((id : ℕ)
          → any (λ j. j == id) ids ≡ true
          → (status : ℕ) × ((d.message id).status ≡ some status))
      → ((id : ℕ)
          → any (λ j. j == id) ids ≡ true
          → (envelope : Envelope) × (load id (d.message id) ≡ some envelope))
      → map (λ e. e.id) (load_entries load d cause ids) ≡ ids
  unfolding load_entries
  load_entries-ids d cause [] h decodes = refl
  load_entries-ids d cause (id ∷ ids) h decodes =
      let (status, s) = h id (ground arith) in
      let (envelope, decoded) = decodes id (ground arith) in
      let rest =
        load_entries-ids d cause ids (λ j found. h j (ground (arith, found)))
          (λ j found. decodes j (ground (arith, found))) in
      rw (map, s, decoded) (ap (λ xs. id ∷ xs) rest)

  -- No message stays with a consumer that is gone: the processing list is empty after
  -- UnacknowledgeProcessingQueue, if the queue exists and is not stopped, locked or in an unknown state,
  -- each message stands in the place of its status, and the envelopes of those in the list are decoded.
  pub unacknowledge_processing_queue-ids :
      (queue_type now : ℕ) (a : Audit) (consumer : Text) (cause : UnacknowledgeCause) (d : Db)
      → d.queue_type ≡ some queue_type
      → refusal d ≡ none
      → IsPlaced d.entries d.message
      → ((id : ℕ)
          → any (λ j. j == id) (ids_at Entries.processing consumer d.entries) ≡ true
          → (envelope : Envelope) × (load id (d.message id) ≡ some envelope))
      → ids_at Entries.processing consumer
          (unacknowledge_processing_queue load now a consumer cause d).entries
        ≡ []
  unfolding unacknowledge_processing_queue
  unacknowledge_processing_queue-ids queue_type now a consumer cause d n open' h decodes =
      let ids = ids_at Entries.processing consumer d.entries in
      unacknowledge_batch-ids queue_type now a consumer (load_entries load d cause ids) d n open' (
        sym (
          load_entries-ids d cause ids
            (λ id found. placed_stored Entries.processing id consumer d h refl found) decodes))
