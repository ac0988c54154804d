-- ===== src/Delivery/Dequeue.antt =====
-- internal/consumer/dequeue_message.go: `Dequeue`, without the rate limit.
use go_redis_smq.Prelude.{ℕ, ◌*◌, Option, none, some, [], ◌∷◌, Result, ok, err}
use go_redis_smq.Consumer.{Envelope}
use go_redis_smq.Delivery.Data.{Db, Fields, Refusal}
use go_redis_smq.Delivery.Checkout.{Dequeuer, pop, checkout, cause_from_checkout_error}
use go_redis_smq.Delivery.Unacknowledge.{Audit, unacknowledge_batch}

-- `ConsumeOptions`, in milliseconds.
pub record ConsumeOptions : Type 0 where
  pub ttl : ℕ
  pub retry_threshold : ℕ
  pub retry_delay : ℕ

-- The envelope of a new message with the default options.
unfoldable pub minimal_envelope : ConsumeOptions → ℕ → Envelope
minimal_envelope o now = record {
  producible_message = record {
    scheduled_cron = [];
    scheduled_delay = none;
    scheduled_repeat = 0;
    scheduled_repeat_period = none;
  };
  created_at = now;
  ttl = o.ttl * 1000000;
  retry_threshold = o.retry_threshold;
  retry_delay = o.retry_delay * 1000000;
  attempts = 0;
}

-- `unacknowledgePoppedMessage`
unfoldable pub unacknowledge_popped_message :
    ℕ → ConsumeOptions → Audit → Dequeuer → ℕ → Refusal → Db → Db
unfolding minimal_envelope cause_from_checkout_error unacknowledge_batch
unacknowledge_popped_message now o a c id reason d =
    unacknowledge_batch now a c.consumer
      (record {
        id = id;
        envelope = minimal_envelope o now;
        cause = cause_from_checkout_error reason;
      }
        ∷ [])
      d

-- `Dequeue`: the id and the hash of the message that was taken, nothing, or why the queue refuses.
unfoldable pub dequeue :
    ℕ → ConsumeOptions → Audit → Dequeuer → Db → Db × Result Refusal (Option (ℕ × Fields))
unfolding pop checkout unacknowledge_popped_message
dequeue now o a c d =
    let (popped, id?) = pop c d in
    elim id? [
      | none ↦ (popped, ok none)
      | some id ↦
          let (d', result) = checkout now id popped in
          elim result [
            | err reason ↦ (unacknowledge_popped_message now o a c id reason d', err reason)
            | ok none ↦ (d', ok none)
            | ok (some m) ↦ (d', ok (some (id, m)))
          ]
    ]
