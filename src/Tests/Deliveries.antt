-- ===== src/Tests/Deliveries.antt =====
-- The life of messages in a queue, on concrete calls.
use go_redis_smq.Prelude.{
  drop, ℕ, ◌≡◌, refl, sym, ap, some_inj, true, false, Option, none, some, List, [], ◌∷◌, ok, err,
}
use go_redis_smq.Prelude.Int.{pos, ◌+ℤ◌, ◌-ℤ◌}
use go_redis_smq.Prelude.Text.{Text}
use go_redis_smq.QueueState.{state_active, state_locked}
use go_redis_smq.Scheduling.{next_scheduled_timestamp}
use go_redis_smq.Scheduling.Publisher.{new_state}
use go_redis_smq.Consumer.{Envelope, cause_timeout, cause_ttl_expired, cause_offline_consumer}
use go_redis_smq.Delivery.Entries
use go_redis_smq.Delivery.Entries.{count, size, removed}
use go_redis_smq.Delivery.Data.{
  Db, Fields, no_fields, type_fifo, refusal, queue_locked, status_pending, status_acknowledged,
  status_dead_lettered,
}
use go_redis_smq.Delivery.Placed.{IsPlaced, stands_in}
use go_redis_smq.Delivery.Counted.{IsCounted}
use go_redis_smq.Delivery.Balanced.{IsBalanced}
use go_redis_smq.Delivery.Publish.{
  Outgoing, Publication, Error, objection, dispatch, build_publish_args,
}
use go_redis_smq.Delivery.Acknowledge.{acknowledge}
use go_redis_smq.Delivery.Checkout.{Dequeuer, pop}
use go_redis_smq.Delivery.Unacknowledge.{Audit, UnackEntry, unacknowledge_batch}
use go_redis_smq.Delivery.Dequeue.{ConsumeOptions, dequeue}
use go_redis_smq.Delivery.Calls.{
  Call, dispatches, pops, checks_out, acknowledges, unacknowledges, requeues, perform, AllAdmitted,
  run, run-IsPlaced,
}
use go_redis_smq.Delivery.Calls.Settled.{IsSettled, run-IsSettled}
use go_redis_smq.Delivery.Calls.Counters.{run-IsCounted}
use go_redis_smq.Delivery.Requeue.{Retry}
use go_redis_smq.Delivery.Workers.{ids_at, requeue, unacknowledge_processing_queue}
use go_redis_smq.Delivery.Workers.Drained.{requeue-ids}
use go_redis_smq.Delivery.Workers.Offline.{unacknowledge_processing_queue-ids}
use go_redis_smq.Delivery.Refusals.{takes, Published, dispatch_decides}
use go_redis_smq.Delivery.Stranded.{dequeue_strands}
use go_redis_smq.Delivery.Order.{
  arrives, leaves, waiting, expect, AllWelcome, play, play-expect, Turn,
}
use go_redis_smq.Tests.Failures.{task, order}

abbrev pub next_tick : Text → ℕ → Option ℕ
next_tick c now = none

abbrev pub empty_queue : Db
empty_queue = record {
  queue_type = some type_fifo;
  operational_state = some state_active;
  lock_id = [];
  messages_count = pos 0;
  pending_count = pos 0;
  processing_count = pos 0;
  requeued_count = pos 0;
  delayed_count = pos 0;
  scheduled_count = pos 0;
  acknowledged_count = pos 0;
  dead_lettered_count = pos 0;
  groups = [];
  entries = [];
  message = λ _. no_fields;
  history = λ _. [];
}

abbrev pub audit : Audit
audit = record {
  acknowledged_messages = record { enabled = true; queue_size = 1 };
  dead_lettered_messages = record { enabled = true; queue_size = 0 };
  history_enabled = false;
  history_max_size = 10;
}

abbrev pub parcel : ℕ → Outgoing
parcel id = record { id = id; content = task; priority = none; group = []; json = 123 ∷ [] }

abbrev pub worker : Dequeuer
worker = record { consumer = 99 ∷ []; group = []; queue_type = type_fifo }

-- Two messages; one is acknowledged, the other fails and is retried at once.
abbrev calls : List (ℕ × Call)
calls =
    (10, dispatches (parcel 7))
    ∷ (11, dispatches (parcel 8))
    ∷ (12, pops worker)
    ∷ (13, checks_out 7)
    ∷ (14, acknowledges (99 ∷ []) (7 ∷ []))
    ∷ (15, pops worker)
    ∷ (16, checks_out 8)
    ∷ (
      17,
      unacknowledges (99 ∷ []) (record { id = 8; envelope = order; cause = cause_timeout } ∷ []),
    )
    ∷ (18, requeues (record { id = 8; priority = none; retry_delay = 0; group = [] } ∷ []))
    ∷ []

empty_queue-IsPlaced : IsPlaced empty_queue.entries empty_queue.message
unfolding stands_in count
empty_queue-IsPlaced place id t = refl

empty_queue-IsCounted : IsCounted empty_queue
unfolding ◌+ℤ◌ size
empty_queue-IsCounted = record {
  in_queue = refl;
  requeued = refl;
  delayed = refl;
  scheduled = refl;
  published = refl;
}

after_calls :
    let d = run next_tick audit calls empty_queue in
    (d.pending_count ≡ pos 1)
    × (d.processing_count ≡ pos 0)
    × (d.acknowledged_count ≡ pos 1)
    × ((d.message 7).status ≡ some status_acknowledged)
    × ((d.message 8).status ≡ some status_pending)
    × ((d.message 8).attempts ≡ 1)
unfolding run refusal objection removed ◌+ℤ◌ ◌-ℤ◌
after_calls = (refl, refl, refl, refl, refl, refl)

calls-AllAdmitted : AllAdmitted next_tick audit calls empty_queue
unfolding perform refusal objection
calls-AllAdmitted = (refl, (refl, (tt, (tt, (tt, (tt, (tt, (tt, (tt, tt)))))))))

empty_queue-IsSettled : IsSettled audit empty_queue.entries empty_queue.message
unfolding IsSettled
empty_queue-IsSettled id dead = cc

-- A message whose time to live is over when its consumer gives it back, and one that waits.
abbrev expiring : List (ℕ × Call)
expiring =
    (10, dispatches (parcel 7))
    ∷ (11, dispatches (parcel 8))
    ∷ (12, pops worker)
    ∷ (13, checks_out 7)
    ∷ (
      14,
      unacknowledges (99 ∷ [])
          (record { id = 7; envelope = order; cause = cause_ttl_expired } ∷ []),
    )
    ∷ []

expiring-AllAdmitted : AllAdmitted next_tick audit expiring empty_queue
unfolding perform refusal objection
expiring-AllAdmitted = (refl, (refl, (tt, (tt, (tt, tt)))))

dead_after_expiring :
    ((run next_tick audit expiring empty_queue).message 7).status ≡ some status_dead_lettered
unfolding run refusal objection removed ◌+ℤ◌ ◌-ℤ◌
dead_after_expiring = refl

run-IsSettled_example :
    let d = run next_tick audit expiring empty_queue in
    IsPlaced d.entries d.message × IsSettled audit d.entries d.message
run-IsSettled_example =
    run-IsSettled next_tick audit expiring empty_queue expiring-AllAdmitted empty_queue-IsPlaced
      empty_queue-IsSettled

empty_queue-IsBalanced : IsBalanced empty_queue
unfolding ◌+ℤ◌
empty_queue-IsBalanced = refl

run-IsCounted_example :
    IsCounted (run next_tick audit calls empty_queue)
    × IsBalanced (run next_tick audit calls empty_queue)
run-IsCounted_example =
    run-IsCounted next_tick audit calls empty_queue calls-AllAdmitted empty_queue-IsPlaced
      empty_queue-IsCounted empty_queue-IsBalanced

dispatch_decides_example :
    let e = parcel 7 in
    let (d', result) = dispatch next_tick 10 e empty_queue in
    (takes (next_scheduled_timestamp next_tick 10 task (new_state task)).1 e empty_queue ≡ true
      → (result ≡ ok 7)
        × Published type_fifo
            (next_scheduled_timestamp next_tick 10 task (new_state task)).1
            e
            empty_queue
            d')
    × (takes (next_scheduled_timestamp next_tick 10 task (new_state task)).1 e empty_queue ≡ false
        → (d' ≡ empty_queue) × ((error : Error) × (result ≡ err error)))
dispatch_decides_example = dispatch_decides next_tick 10 (parcel 7) empty_queue

-- A message is published, then the queue is locked.
abbrev locked_queue : Db
locked_queue = record (run next_tick audit ((10, dispatches (parcel 7)) ∷ []) empty_queue) {
  operational_state = some state_locked;
  lock_id = 5 ∷ [];
}

abbrev pub options : ConsumeOptions
options = record { ttl = 0; retry_threshold = 3; retry_delay = 60000 }

locked_queue-refusal : refusal locked_queue ≡ some queue_locked
unfolding refusal
locked_queue-refusal = refl

locked_queue-pop : (pop worker locked_queue).1 ≡ some 7
unfolding run objection pop
locked_queue-pop = refl

abbrev load : ℕ → Fields → Option Envelope
load id m = some order

dequeue_strands_example :
    let (d', result) = dequeue 20 options audit worker locked_queue in
    (result ≡ err queue_locked)
    × (removed Entries.processing (99 ∷ []) 7 d'.entries ≡ true)
    × (d'.message ≡ locked_queue.message)
    × (d'.history ≡ locked_queue.history)
    × ((later : ℕ) (ids : List ℕ) → acknowledge load later audit (99 ∷ []) ids d' ≡ d')
    × ((later : ℕ) (es : List UnackEntry) → unacknowledge_batch later audit (99 ∷ []) es d' ≡ d')
dequeue_strands_example =
    dequeue_strands load 20 options audit worker locked_queue 7 queue_locked locked_queue-refusal
      locked_queue-pop

abbrev publication : ℕ → Publication
publication id = build_publish_args 10 0 (parcel id)

abbrev turns : List Turn
turns = arrives (publication 7) ∷ arrives (publication 8) ∷ leaves ∷ leaves ∷ leaves ∷ []

turns-AllWelcome : AllWelcome type_fifo turns empty_queue
unfolding objection build_publish_args
turns-AllWelcome = (refl, (refl, tt))

first_in_first_out : play worker turns empty_queue ≡ some 7 ∷ some 8 ∷ none ∷ []
unfolding play objection build_publish_args
first_in_first_out = refl

play-expect_example : play worker turns empty_queue ≡ expect false [] turns []
unfolding waiting
play-expect_example = play-expect worker turns empty_queue refl refl turns-AllWelcome

-- Two messages, of which one fails and the other is with a consumer that is gone.
abbrev failing : List (ℕ × Call)
failing =
    (10, dispatches (parcel 7))
    ∷ (11, dispatches (parcel 8))
    ∷ (12, pops worker)
    ∷ (13, checks_out 7)
    ∷ (14, pops worker)
    ∷ (
      15,
      unacknowledges (99 ∷ []) (record { id = 7; envelope = order; cause = cause_timeout } ∷ []),
    )
    ∷ []

failing-AllAdmitted : AllAdmitted next_tick audit failing empty_queue
unfolding perform refusal objection
failing-AllAdmitted = (refl, (refl, (tt, (tt, (tt, (tt, tt))))))

abbrev failed : Db
failed = run next_tick audit failing empty_queue

failed-IsPlaced : IsPlaced failed.entries failed.message
failed-IsPlaced =
    run-IsPlaced next_tick audit failing empty_queue failing-AllAdmitted empty_queue-IsPlaced

failed-queue_type : failed.queue_type ≡ some type_fifo
unfolding run refusal objection removed
failed-queue_type = refl

failed-refusal : refusal failed ≡ none
unfolding run refusal objection removed
failed-refusal = refl

failed-requeued : ids_at Entries.requeued [] failed.entries ≡ 7 ∷ []
unfolding run refusal objection removed ids_at
failed-requeued = refl

abbrev load_retry : ℕ → Fields → Option Retry
load_retry id m = some (record { id = id; priority = none; retry_delay = 0; group = [] })

keeps_ids : (id : ℕ) (m : Fields) (r : Retry) → load_retry id m ≡ some r → r.id ≡ id
keeps_ids id m r e = sym (ap (λ x. x.id) (some_inj e))

requeue-ids_example :
    ids_at Entries.requeued [] (requeue load_retry 20 failed).entries
    ≡ drop 100 (ids_at Entries.requeued [] failed.entries)
requeue-ids_example =
    requeue-ids load_retry keeps_ids type_fifo 20 failed failed-queue_type failed-refusal
      failed-IsPlaced (λ id found. (_, refl))

unacknowledge_processing_queue-ids_example :
    ids_at Entries.processing
      (99 ∷ [])
      (unacknowledge_processing_queue load 20 audit (99 ∷ []) cause_offline_consumer failed).entries
    ≡ []
unacknowledge_processing_queue-ids_example =
    unacknowledge_processing_queue-ids load type_fifo 20 audit (99 ∷ []) cause_offline_consumer
      failed failed-queue_type failed-refusal failed-IsPlaced (λ id found. (order, refl))
