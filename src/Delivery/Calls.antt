-- ===== src/Delivery/Calls.antt =====
-- The calls of producers, consumers and workers on one queue, in any order, and what holds after any
-- history of them.
pub mod Counters
pub mod Settled
use go_redis_smq.Prelude.{
  ℕ, ◌≡◌, refl, Option, none, some, List, [], ◌∷◌, ltb, if◌then◌else◌, arith, inl, inr, Bool-cases,
  Option-cases, true, false, length,
}
use go_redis_smq.Prelude.Text.{Text}
use go_redis_smq.Scheduling.{next_scheduled_timestamp}
use go_redis_smq.Scheduling.Publisher.{new_state}
use go_redis_smq.Delivery.Entries
use go_redis_smq.Delivery.Entries.{count}
use go_redis_smq.Delivery.Data.{Db, Fields, status_pending, status_scheduled, refusal}
use go_redis_smq.Delivery.Counting.{bit}
use go_redis_smq.Delivery.Placed.{IsPlaced, is_tracked, stands_in, keep-IsPlaced}
use go_redis_smq.Delivery.Publish.{
  Outgoing, Publication, build_publish_args, publish_message, dispatch,
}
use go_redis_smq.Delivery.Checkout.{Dequeuer, pop, checkout_message}
use go_redis_smq.Delivery.Unacknowledge.{
  Audit, UnackEntry, unacknowledge_each, unacknowledge_message, unacknowledge_batch,
}
use go_redis_smq.Delivery.Acknowledge.{acknowledge_each, acknowledge_message, keep_all}
use go_redis_smq.Delivery.Requeue.{
  Retry, each, requeue_one, requeue_due_one, requeue_outcome, now_outcome, requeue_immediate,
  requeue_delayed,
}
use go_redis_smq.Delivery.Scheduled.{Due, publish_scheduled}
use go_redis_smq.Delivery.Placed.Settled.{
  unacknowledge_each-IsPlaced, acknowledge_each-IsPlaced, count-keep_all,
}
use go_redis_smq.Delivery.Placed.Retries.{
  requeue_one-IsPlaced, requeue_due_one-IsPlaced, each-IsPlaced,
}
use go_redis_smq.Delivery.Placed.Arrivals.{
  IsNew, publish_message-IsPlaced, pop-IsPlaced, checkout_message-IsPlaced,
}
use go_redis_smq.Delivery.Placed.Dues.{AllReady, publish_scheduled-IsPlaced}

-- Each call is at a time in milliseconds.
pub data Call : Type 0 where
  dispatches : Outgoing → Call
  pops : Dequeuer → Call
  checks_out : ℕ → Call
  acknowledges : Text → List ℕ → Call
  unacknowledges : Text → List UnackEntry → Call
  requeues : List Retry → Call
  requeues_due : List Retry → Call
  publishes_due : List Due → Call

unacknowledge_message-IsPlaced :
    (now : ℕ) (a : Audit) (consumer : Text) (es : List UnackEntry) (d : Db)
    → IsPlaced d.entries d.message
    → let (d', _) = unacknowledge_message now a consumer es d in IsPlaced d'.entries d'.message
unfolding unacknowledge_message
unacknowledge_message-IsPlaced now a consumer es d h = elim (Option-cases d.queue_type) [
  | inl n ↦ rw (n, unacknowledge_message) h
  | inr (t, n) ↦ elim (Option-cases (refusal d)) [
    | inl open' ↦
        rw (n, unacknowledge_message, open') (unacknowledge_each-IsPlaced now a consumer es d h)
    | inr (reason, shut) ↦ rw (n, unacknowledge_message, shut) h
  ]
]

unacknowledge_batch-IsPlaced :
    (now : ℕ) (a : Audit) (consumer : Text) (es : List UnackEntry) (d : Db)
    → IsPlaced d.entries d.message
    → let d' = unacknowledge_batch now a consumer es d in IsPlaced d'.entries d'.message
unfolding unacknowledge_batch
unacknowledge_batch-IsPlaced now a consumer [] d h = h
unacknowledge_batch-IsPlaced now a consumer (e ∷ es) d h =
    unacknowledge_message-IsPlaced now a consumer (e ∷ es) d h

acknowledge_message-IsPlaced :
    (now : ℕ) (a : Audit) (consumer : Text) (ids : List ℕ) (d : Db)
    → IsPlaced d.entries d.message
    → let (d', _) = acknowledge_message now a consumer ids d in IsPlaced d'.entries d'.message
unfolding acknowledge_message
acknowledge_message-IsPlaced now a consumer ids d h = elim (Option-cases d.queue_type) [
  | inl n ↦ rw (n, acknowledge_message) h
  | inr (t, n) ↦ elim (Option-cases (refusal d)) [
    | inl open' ↦
        let loop = acknowledge_each now consumer ids d in
        let placed = acknowledge_each-IsPlaced now consumer ids d h in
        elim (Bool-cases (ltb 0 (length loop.1))) [
          | inl some' ↦
              rw (n, acknowledge_message, open', some')
                (keep-IsPlaced loop.0.entries
                  (keep_all a.acknowledged_messages Entries.acknowledged loop.1 loop.0.entries)
                  loop.0.message loop.0.message placed
                  (λ place j tracked.
                    count-keep_all a.acknowledged_messages place j loop.1 loop.0.entries tracked)
                  (λ place j. refl))
          | inr none' ↦ rw (n, acknowledge_message, open', none') placed
        ]
    | inr (reason, shut) ↦ rw (n, acknowledge_message, shut) h
  ]
]

requeue_immediate-IsPlaced :
    (now : ℕ) (rs : List Retry) (d : Db)
    → IsPlaced d.entries d.message
    → let (d', _) = requeue_immediate now rs d in IsPlaced d'.entries d'.message
unfolding requeue_immediate
requeue_immediate-IsPlaced now rs d h = elim (Option-cases d.queue_type) [
  | inl n ↦ rw (n, requeue_immediate) h
  | inr (t, n) ↦ elim (Option-cases (refusal d)) [
    | inl open' ↦
        rw (n, requeue_immediate, open')
          (each-IsPlaced Entries.requeued (requeue_one t now) requeue_outcome rs d
            (requeue_one-IsPlaced t now) h)
    | inr (reason, shut) ↦ rw (n, requeue_immediate, shut) h
  ]
]

requeue_delayed-IsPlaced :
    (now : ℕ) (rs : List Retry) (d : Db)
    → IsPlaced d.entries d.message
    → let (d', _) = requeue_delayed now rs d in IsPlaced d'.entries d'.message
unfolding requeue_delayed
requeue_delayed-IsPlaced now rs d h = elim (Option-cases d.queue_type) [
  | inl n ↦ rw (n, requeue_delayed) h
  | inr (t, n) ↦ elim (Option-cases (refusal d)) [
    | inl open' ↦
        rw (n, requeue_delayed, open')
          (each-IsPlaced Entries.delayed (requeue_due_one t now) now_outcome rs d
            (requeue_due_one-IsPlaced t now) h)
    | inr (reason, shut) ↦ rw (n, requeue_delayed, shut) h
  ]
]

pub build_publish_args-IsNew :
    (now timestamp : ℕ) (e : Outgoing) (d : Db)
    → (d.message e.id).status ≡ none
    → IsNew (build_publish_args now timestamp e) d
unfolding build_publish_args
build_publish_args-IsNew now timestamp e d fresh = elim (Bool-cases (ltb 0 timestamp)) [
  | inl late ↦ record { unused = fresh; waits = inr (rw late) }
  | inr soon ↦ record { unused = fresh; waits = inl (rw soon) }
]

module _ (next_tick : Text → ℕ → Option ℕ) where
  dispatch-IsPlaced :
      (now : ℕ) (e : Outgoing) (d : Db)
      → (d.message e.id).status ≡ none
      → IsPlaced d.entries d.message
      → let (d', _) = dispatch next_tick now e d in IsPlaced d'.entries d'.message
  unfolding dispatch
  dispatch-IsPlaced now e d fresh h =
      let timestamp = (next_scheduled_timestamp next_tick now e.content (new_state e.content)).1 in
      publish_message-IsPlaced (build_publish_args now timestamp e) d
        (build_publish_args-IsNew now timestamp e d fresh) h

  unfoldable pub perform : ℕ → Audit → Call → Db → Db
  unfolding dispatch pop checkout_message acknowledge_message unacknowledge_batch requeue_immediate
      requeue_delayed publish_scheduled
  perform now a (dispatches e) d = (dispatch next_tick now e d).0
  perform now a (pops c) d = (pop c d).0
  perform now a (checks_out id) d = (checkout_message now id d).0
  perform now a (acknowledges consumer ids) d = (acknowledge_message now a consumer ids d).0
  perform now a (unacknowledges consumer es) d = unacknowledge_batch now a consumer es d
  perform now a (requeues rs) d = (requeue_immediate now rs d).0
  perform now a (requeues_due rs) d = (requeue_delayed now rs d).0
  perform now a (publishes_due ms) d = (publish_scheduled now ms d).0

  -- The ids of new messages have not been used, and due messages that repeat are still scheduled.
  abbrev pub Admits : ℕ → Call → Db → Type 0
  Admits now (dispatches e) d = (d.message e.id).status ≡ none
  Admits now (pops c) d = Unit
  Admits now (checks_out id) d = Unit
  Admits now (acknowledges consumer ids) d = Unit
  Admits now (unacknowledges consumer es) d = Unit
  Admits now (requeues rs) d = Unit
  Admits now (requeues_due rs) d = Unit
  Admits now (publishes_due ms) d = (queue_type : ℕ) → AllReady queue_type now ms d

  pub perform-IsPlaced :
      (now : ℕ) (a : Audit) (c : Call) (d : Db)
      → Admits now c d
      → IsPlaced d.entries d.message
      → let d' = perform now a c d in IsPlaced d'.entries d'.message
  unfolding perform
  perform-IsPlaced now a (dispatches e) d fresh h = dispatch-IsPlaced now e d fresh h
  perform-IsPlaced now a (pops c) d _ h = pop-IsPlaced c d h
  perform-IsPlaced now a (checks_out id) d _ h = checkout_message-IsPlaced now id d h
  perform-IsPlaced now a (acknowledges consumer ids) d _ h =
      acknowledge_message-IsPlaced now a consumer ids d h
  perform-IsPlaced now a (unacknowledges consumer es) d _ h =
      unacknowledge_batch-IsPlaced now a consumer es d h
  perform-IsPlaced now a (requeues rs) d _ h = requeue_immediate-IsPlaced now rs d h
  perform-IsPlaced now a (requeues_due rs) d _ h = requeue_delayed-IsPlaced now rs d h
  perform-IsPlaced now a (publishes_due ms) d ready h = publish_scheduled-IsPlaced now ms d ready h

  unfoldable pub run : Audit → List (ℕ × Call) → Db → Db
  unfolding perform
  run a [] d = d
  run a ((now, c) ∷ cs) d = run a cs (perform now a c d)

  abbrev pub AllAdmitted : Audit → List (ℕ × Call) → Db → Type 0
  AllAdmitted a [] d = Unit
  AllAdmitted a ((now, c) ∷ cs) d = Admits now c d × AllAdmitted a cs (perform now a c d)

  -- After any history of calls each message stands exactly once in the place of its status, and in no
  -- other, and a message that has a hash is listed as published once, if this held before, the ids of
  -- new messages had not been used, and due messages that repeat were still scheduled.
  pub run-IsPlaced :
      (a : Audit) (cs : List (ℕ × Call)) (d : Db)
      → AllAdmitted a cs d
      → IsPlaced d.entries d.message
      → let d' = run a cs d in IsPlaced d'.entries d'.message
  unfolding run
  run-IsPlaced a [] d _ h = h
  run-IsPlaced a ((now, c) ∷ cs) d (ok', rest) h =
      run-IsPlaced a cs (perform now a c d) rest (perform-IsPlaced now a c d ok' h)
