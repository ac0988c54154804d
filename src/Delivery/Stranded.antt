-- ===== src/Delivery/Stranded.antt =====
-- A consumer takes a message from its queue before the queue's state is looked at: what becomes of the
-- message when the queue refuses.
use go_redis_smq.Prelude.{
  ℕ, ◌≡◌, refl, ap, ◌∙◌, true, Option, none, some, List, [], ◌∷◌, arith, inl, inr, Option-cases,
  Result, ok, err,
}
use go_redis_smq.Prelude.Text.{Text, text_eq_refl}
use go_redis_smq.Consumer.{Envelope, cause_unexpected_error}
use go_redis_smq.Delivery.Entries
use go_redis_smq.Delivery.Entries.{removed, holds, of_key}
use go_redis_smq.Delivery.Data.{Db, Fields, Refusal, refusal}
use go_redis_smq.Delivery.Checkout
use go_redis_smq.Delivery.Checkout.{
  Dequeuer, pop, pop_fifo, pop_priority, checkout, checkout_message, cause_from_checkout_error,
}
use go_redis_smq.Delivery.Unacknowledge.{
  Audit, UnackEntry, unacknowledge_batch, unacknowledge_message,
}
use go_redis_smq.Delivery.Acknowledge
use go_redis_smq.Delivery.Acknowledge.{
  acknowledge, acknowledge_message, load_entries, cause_from_ack_error,
}
use go_redis_smq.Delivery.Dequeue.{
  ConsumeOptions, minimal_envelope, dequeue, unacknowledge_popped_message,
}

-- Nothing changes at a script that refuses: so much for anything that held.
unacknowledge_message_refused :
    (P : Db → Type 0) (now : ℕ) (a : Audit) (consumer : Text) (es : List UnackEntry) (d : Db)
    (reason : Refusal)
    → refusal d ≡ some reason
    → P d
    → P (unacknowledge_message now a consumer es d).0
unfolding unacknowledge_message
unacknowledge_message_refused P now a consumer es d reason shut h =
    elim (Option-cases d.queue_type) [
      | inl n ↦ rw (n, unacknowledge_message) h
      | inr (t, n) ↦ rw (n, unacknowledge_message, shut) h
    ]

unacknowledge_batch_refused :
    (now : ℕ) (a : Audit) (consumer : Text) (es : List UnackEntry) (d : Db) (reason : Refusal)
    → refusal d ≡ some reason
    → unacknowledge_batch now a consumer es d ≡ d
unfolding unacknowledge_batch
unacknowledge_batch_refused now a consumer [] d reason shut = refl
unacknowledge_batch_refused now a consumer (e ∷ es) d reason shut =
    unacknowledge_message_refused (λ x. x ≡ d) now a consumer (e ∷ es) d reason shut refl

acknowledge_message_refused :
    (P : Db × Acknowledge.Reply → Type 0) (now : ℕ) (a : Audit) (consumer : Text) (ids : List ℕ)
    (d : Db) (reason : Refusal)
    → refusal d ≡ some reason
    → P (d, Acknowledge.queue_not_found)
    → P (d, Acknowledge.refused reason)
    → P (acknowledge_message now a consumer ids d)
unfolding acknowledge_message
acknowledge_message_refused P now a consumer ids d reason shut missing h =
    elim (Option-cases d.queue_type) [
      | inl n ↦ rw (n, acknowledge_message) missing
      | inr (t, n) ↦ rw (n, acknowledge_message, shut) h
    ]

module _ (load : ℕ → Fields → Option Envelope) where
  acknowledge_refused :
      (now : ℕ) (a : Audit) (consumer : Text) (ids : List ℕ) (d : Db) (reason : Refusal)
      → refusal d ≡ some reason
      → acknowledge load now a consumer ids d ≡ d
  unfolding acknowledge
  acknowledge_refused now a consumer ids d reason shut =
      let kept =
        λ (es : List UnackEntry). unacknowledge_batch_refused now a consumer es d reason shut in
      acknowledge_message_refused
        (λ r.
          elim r.1 [
            | Acknowledge.queue_not_found ↦
                unacknowledge_batch now a consumer
                  (load_entries load r.0 cause_unexpected_error ids) r.0
            | Acknowledge.refused why ↦
                unacknowledge_batch now a consumer
                  (load_entries load r.0 (cause_from_ack_error why) ids) r.0
            | Acknowledge.results _ ↦ r.0
          ]
          ≡ d)
        now a consumer ids d reason shut (kept _) (kept _)

pop-refusal : (c : Dequeuer) (d : Db) → refusal (pop c d).0 ≡ refusal d
unfolding pop pop_fifo pop_priority refusal
pop-refusal c d = ground arith

pop-history : (c : Dequeuer) (d : Db) → (pop c d).0.history ≡ d.history
unfolding pop pop_fifo pop_priority
pop-history c d = ground arith

-- What is popped is in the consumer's list.
popped_stands :
    (c : Dequeuer) (d : Db) (id : ℕ)
    → (pop c d).1 ≡ some id
    → (removed Entries.processing c.consumer id (pop c d).0.entries ≡ true)
      × ((pop c d).0.message ≡ d.message)
unfolding pop pop_fifo pop_priority removed holds of_key
popped_stands c d id h = ground (arith, h, text_eq_refl c.consumer)

checkout_message_refused :
    (P : Db × Checkout.Reply → Type 0) (now id : ℕ) (d : Db) (reason : Refusal)
    → refusal d ≡ some reason
    → P (d, Checkout.refused reason)
    → P (checkout_message now id d)
unfolding checkout_message
checkout_message_refused P now id d reason shut h = rw (shut, checkout_message) h

checkout_refused :
    (now id : ℕ) (d : Db) (reason : Refusal)
    → refusal d ≡ some reason
    → checkout now id d ≡ (d, err reason)
unfolding checkout
checkout_refused now id d reason shut =
    checkout_message_refused
      (λ r.
        let seen : Db × Result Refusal (Option Fields) = (
          r.0,
          elim r.1 [
            | Checkout.refused reason ↦ err reason
            | Checkout.message_not_found ↦ ok none
            | Checkout.message_not_pending ↦ ok none
            | Checkout.message_hash m ↦ ok (some m)
          ],
        ) in
        seen ≡ (d, err reason))
      now id d reason shut refl

unacknowledge_popped_message_refused :
    (now : ℕ) (o : ConsumeOptions) (a : Audit) (c : Dequeuer) (id : ℕ) (reason : Refusal) (d : Db)
    → refusal d ≡ some reason
    → unacknowledge_popped_message now o a c id reason d ≡ d
unfolding unacknowledge_popped_message
unacknowledge_popped_message_refused now o a c id reason d shut =
    unacknowledge_batch_refused now a c.consumer
      (record {
        id = id;
        envelope = minimal_envelope o now;
        cause = cause_from_checkout_error reason;
      }
        ∷ [])
      d reason shut

dequeue_refused :
    (now : ℕ) (o : ConsumeOptions) (a : Audit) (c : Dequeuer) (d : Db) (id : ℕ) (reason : Refusal)
    → refusal d ≡ some reason
    → (pop c d).1 ≡ some id
    → dequeue now o a c d ≡ ((pop c d).0, err reason)
unfolding dequeue unacknowledge_popped_message
dequeue_refused now o a c d id reason shut popped =
    let shut' : refusal (pop c d).0 ≡ some reason = pop-refusal c d ∙ shut in
    ap
      (λ id?. elim id? [
        | none ↦ ((pop c d).0, ok none)
        | some id ↦
            let (d', result) = checkout now id (pop c d).0 in
            elim result [
              | err reason ↦ (unacknowledge_popped_message now o a c id reason d', err reason)
              | ok none ↦ (d', ok none)
              | ok (some m) ↦ (d', ok (some (id, m)))
            ]
      ])
      popped
    ∙ ap
        (λ (r : Db × Result Refusal (Option Fields)). elim r.1 [
          | err reason ↦ (unacknowledge_popped_message now o a c id reason r.0, err reason)
          | ok none ↦ (r.0, ok none)
          | ok (some m) ↦ (r.0, ok (some (id, m)))
        ])
        (checkout_refused now id (pop c d).0 reason shut')
    ∙ ap (λ d'. (d', err reason))
        (unacknowledge_popped_message_refused now o a c id reason (pop c d).0 shut')

module _ (load : ℕ → Fields → Option Envelope) where
  -- When a consumer takes a message of a queue that is stopped, locked or in an unknown state, it gets
  -- the reason, and the message is left in the consumer's processing list, its hash as it was, so a
  -- pending message: the unacknowledgement that should return it is refused as well, and so is each
  -- later acknowledgement or unacknowledgement until the queue is open again.
  pub dequeue_strands :
      (now : ℕ) (o : ConsumeOptions) (a : Audit) (c : Dequeuer) (d : Db) (id : ℕ) (reason : Refusal)
      → refusal d ≡ some reason
      → (pop c d).1 ≡ some id
      → let (d', result) = dequeue now o a c d in
        (result ≡ err reason)
        × (removed Entries.processing c.consumer id d'.entries ≡ true)
        × (d'.message ≡ d.message)
        × (d'.history ≡ d.history)
        × ((later : ℕ) (ids : List ℕ) → acknowledge load later a c.consumer ids d' ≡ d')
        × ((later : ℕ) (es : List UnackEntry) → unacknowledge_batch later a c.consumer es d' ≡ d')
  unfolding dequeue unacknowledge_popped_message
  dequeue_strands now o a c d id reason shut popped =
      let (stands, same) = popped_stands c d id popped in
      let e = dequeue_refused now o a c d id reason shut popped in
      let shut' : refusal (pop c d).0 ≡ some reason = pop-refusal c d ∙ shut in
      rw e (
        refl,
        stands,
        same,
        pop-history c d,
        (λ later ids. acknowledge_refused load later a c.consumer ids (pop c d).0 reason shut'),
        (λ later es. unacknowledge_batch_refused later a c.consumer es (pop c d).0 reason shut'),
      )
