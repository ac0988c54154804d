-- ===== src/Delivery/Balanced/Scripts.antt =====
-- Each script keeps the counters of a queue balanced, and so does every history of calls.
use go_redis_smq.Prelude.{
  ℕ, ◌+◌, ◌≡◌, ap, ◌∙◌, Option, List, [], ◌∷◌, ◌==◌, ltb, length, arith, inl, inr, Option-cases,
  Bool-cases, Result-cases,
}
use go_redis_smq.Prelude.Int.{pos, ◌+ℤ◌, ◌-ℤ◌}
use go_redis_smq.Prelude.Text.{Text}
use go_redis_smq.Delivery.Entries
use go_redis_smq.Delivery.Entries.{removed, remove, zadd, last_of, lowest}
use go_redis_smq.Delivery.Data.{Db, refusal, has_status, status_pending, type_priority}
use go_redis_smq.Delivery.Counted.Sizes.{unacknowledge_each-SameCounts, acknowledge_each-SameCounts}
use go_redis_smq.Delivery.Counted.RetrySizes.{
  each-SameCounts, retry_now-SameCounts, requeue_one-SameCounts, delays-each,
}
use go_redis_smq.Delivery.Publish.{
  Publication, put, record_message, objection, publish_message, dispatch,
}
use go_redis_smq.Delivery.Checkout.{Dequeuer, pop, pop_fifo, pop_priority, checkout_message}
use go_redis_smq.Delivery.Unacknowledge.{
  Audit, UnackEntry, unacknowledge_each, unacknowledge_message, unacknowledge_batch,
}
use go_redis_smq.Delivery.Acknowledge.{acknowledge_each, acknowledge_message}
use go_redis_smq.Delivery.Requeue.{
  Retry, each, total, group_exists, requeue_one, requeue_due_one, requeue_outcome, now_outcome,
  requeue_immediate, requeue_delayed,
}
use go_redis_smq.Delivery.Scheduled.{
  Due, deliver, repeat_message, publish_due_one, publish_due, publish_scheduled,
}
use go_redis_smq.Delivery.Calls.{
  Call, dispatches, pops, checks_out, acknowledges, unacknowledges, requeues, requeues_due,
  publishes_due, perform, run,
}
use go_redis_smq.Delivery.Balanced.{
  IsBalanced, counted, same-IsBalanced, unacknowledge_each-SameSettled,
  acknowledge_each-SameSettled, each-SameSettled, retry_now-SameSettled, requeue_one-SameSettled,
  counted_unacknowledged, counted_acknowledged, counted_requeued, counted_due, counted_checked_out,
  counted_delivered, counted_dead, counted_pending, counted_scheduled,
}

unacknowledge_message-IsBalanced :
    (now : ℕ) (a : Audit) (consumer : Text) (es : List UnackEntry) (d : Db)
    → IsBalanced d
    → IsBalanced (unacknowledge_message now a consumer es d).0
unfolding unacknowledge_message
unacknowledge_message-IsBalanced now a consumer es d h = elim (Option-cases d.queue_type) [
  | inl n ↦ rw (n, unacknowledge_message) h
  | inr (t, n) ↦ elim (Option-cases (refusal d)) [
    | inr (reason, shut) ↦ rw (n, unacknowledge_message, shut) h
    | inl open' ↦
        let loop = unacknowledge_each now a consumer es d in
        rw (n, unacknowledge_message, open')
          (counted_unacknowledged loop.0.pending_count loop.0.processing_count loop.0.requeued_count
              loop.0.delayed_count loop.0.scheduled_count loop.0.acknowledged_count
              loop.0.dead_lettered_count loop.1 loop.2
            ∙ same-IsBalanced d loop.0 (unacknowledge_each-SameCounts now a consumer es d)
                (unacknowledge_each-SameSettled now a consumer es d) h)
  ]
]

unacknowledge_batch-IsBalanced :
    (now : ℕ) (a : Audit) (consumer : Text) (es : List UnackEntry) (d : Db)
    → IsBalanced d
    → IsBalanced (unacknowledge_batch now a consumer es d)
unfolding unacknowledge_batch
unacknowledge_batch-IsBalanced now a consumer [] d h = h
unacknowledge_batch-IsBalanced now a consumer (e ∷ es) d h =
    unacknowledge_message-IsBalanced now a consumer (e ∷ es) d h

acknowledge_message-IsBalanced :
    (now : ℕ) (a : Audit) (consumer : Text) (ids : List ℕ) (d : Db)
    → IsBalanced d
    → IsBalanced (acknowledge_message now a consumer ids d).0
unfolding acknowledge_message
acknowledge_message-IsBalanced now a consumer ids d h = elim (Option-cases d.queue_type) [
  | inl n ↦ rw (n, acknowledge_message) h
  | inr (t, n) ↦ elim (Option-cases (refusal d)) [
    | inr (reason, shut) ↦ rw (n, acknowledge_message, shut) h
    | inl open' ↦
        let loop = acknowledge_each now consumer ids d in
        let kept =
          same-IsBalanced d loop.0 (acknowledge_each-SameCounts now consumer ids d)
            (acknowledge_each-SameSettled now consumer ids d) h in
        elim (Bool-cases (ltb 0 (length loop.1))) [
          | inl some' ↦
              rw (n, acknowledge_message, open', some')
                (counted_acknowledged loop.0.pending_count loop.0.processing_count
                    loop.0.requeued_count loop.0.delayed_count loop.0.scheduled_count
                    loop.0.acknowledged_count loop.0.dead_lettered_count (length loop.1)
                  ∙ kept)
          | inr none' ↦ rw (n, acknowledge_message, open', none') kept
        ]
  ]
]

requeue_immediate-IsBalanced :
    (now : ℕ) (rs : List Retry) (d : Db) → IsBalanced d → IsBalanced (requeue_immediate now rs d).0
unfolding requeue_immediate
requeue_immediate-IsBalanced now rs d h = elim (Option-cases d.queue_type) [
  | inl n ↦ rw (n, requeue_immediate) h
  | inr (queue_type, n) ↦ elim (Option-cases (refusal d)) [
    | inr (reason, shut) ↦ rw (n, requeue_immediate, shut) h
    | inl open' ↦
        let move = requeue_one queue_type now in
        let loop = each Entries.requeued move requeue_outcome rs d in
        rw (n, requeue_immediate, open')
          (counted_requeued loop.0.pending_count loop.0.processing_count loop.0.requeued_count
              loop.0.delayed_count loop.0.scheduled_count loop.0.acknowledged_count
              loop.0.dead_lettered_count loop.1.pendings loop.1.delays loop.1.deads
            ∙ same-IsBalanced d loop.0
                (each-SameCounts Entries.requeued move requeue_outcome rs d
                  (requeue_one-SameCounts queue_type now))
                (each-SameSettled Entries.requeued move requeue_outcome rs d
                  (requeue_one-SameSettled queue_type now))
                h)
  ]
]

requeue_delayed-IsBalanced :
    (now : ℕ) (rs : List Retry) (d : Db) → IsBalanced d → IsBalanced (requeue_delayed now rs d).0
unfolding requeue_delayed requeue_due_one
requeue_delayed-IsBalanced now rs d h = elim (Option-cases d.queue_type) [
  | inl n ↦ rw (n, requeue_delayed) h
  | inr (queue_type, n) ↦ elim (Option-cases (refusal d)) [
    | inr (reason, shut) ↦ rw (n, requeue_delayed, shut) h
    | inl open' ↦
        let move = requeue_due_one queue_type now in
        let loop = each Entries.delayed move now_outcome rs d in
        let left = λ (k : ℕ).
          counted (loop.0.pending_count +ℤ pos loop.1.pendings) loop.0.processing_count
            loop.0.requeued_count (loop.0.delayed_count -ℤ pos k) loop.0.scheduled_count
            loop.0.acknowledged_count (loop.0.dead_lettered_count +ℤ pos loop.1.deads) in
        let none_delayed : total loop.1 ≡ loop.1.pendings + loop.1.deads =
          omega (arith, delays-each move rs d) in
        rw (n, requeue_delayed, open')
          (ap left none_delayed
            ∙ counted_due loop.0.pending_count loop.0.processing_count loop.0.requeued_count
                loop.0.delayed_count loop.0.scheduled_count loop.0.acknowledged_count
                loop.0.dead_lettered_count loop.1.pendings loop.1.deads
            ∙ same-IsBalanced d loop.0
                (each-SameCounts Entries.delayed move now_outcome rs d (λ r d.
                  retry_now-SameCounts queue_type now r (remove Entries.delayed [] r.id d.entries)
                    d))
                (each-SameSettled Entries.delayed move now_outcome rs d (λ r d.
                  retry_now-SameSettled queue_type now r (remove Entries.delayed [] r.id d.entries)
                    d))
                h)
  ]
]

pop-IsBalanced : (c : Dequeuer) (d : Db) → IsBalanced d → IsBalanced (pop c d).0
unfolding pop pop_fifo pop_priority
pop-IsBalanced c d h = elim (Bool-cases (c.queue_type == type_priority)) [
  | inl e ↦ elim (Option-cases (lowest Entries.priority c.group d.entries)) [
    | inl n ↦ rw (e, n, pop_priority) h
    | inr (m, n) ↦ rw (e, n, pop_priority) h
  ]
  | inr e ↦ elim (Option-cases (last_of Entries.pending c.group d.entries)) [
    | inl n ↦ rw (e, n, pop_fifo) h
    | inr (m, n) ↦ rw (e, n, pop_fifo) h
  ]
]

checkout_message-IsBalanced :
    (now id : ℕ) (d : Db) → IsBalanced d → IsBalanced (checkout_message now id d).0
unfolding checkout_message
checkout_message-IsBalanced now id d h = elim (Option-cases (refusal d)) [
  | inr (reason, e) ↦ rw (e, checkout_message) h
  | inl e ↦ elim (Option-cases (d.message id).status) [
    | inl none' ↦ rw (e, checkout_message, none') h
    | inr (status, s) ↦ elim (Bool-cases (status == status_pending)) [
      | inr other ↦ rw (e, checkout_message, s, other) h
      | inl pending' ↦
          rw (e, checkout_message, s, pending')
            (counted_checked_out d.pending_count d.processing_count d.requeued_count d.delayed_count
                d.scheduled_count d.acknowledged_count d.dead_lettered_count
              ∙ h)
    ]
  ]
]

publish_message-IsBalanced :
    (p : Publication) (d : Db) → IsBalanced d → IsBalanced (publish_message p d).0
unfolding publish_message record_message put
publish_message-IsBalanced p d h = elim (Option-cases d.queue_type) [
  | inl e ↦ rw (e, publish_message) h
  | inr (queue_type, e) ↦ elim (Option-cases (objection d queue_type p)) [
    | inr (reply, bad) ↦ rw (e, publish_message, bad) h
    | inl fine ↦ elim (Bool-cases (has_status status_pending p.fields.status)) [
      | inl waits ↦
          rw (e, publish_message, fine, waits)
            (counted_pending d.pending_count d.processing_count d.requeued_count d.delayed_count
                d.scheduled_count d.acknowledged_count d.dead_lettered_count
              ∙ ap (λ n. n +ℤ pos 1) h)
      | inr late ↦
          rw (e, publish_message, fine, late)
            (counted_scheduled d.pending_count d.processing_count d.requeued_count d.delayed_count
                d.scheduled_count d.acknowledged_count d.dead_lettered_count
              ∙ ap (λ n. n +ℤ pos 1) h)
    ]
  ]
]

deliver-IsBalanced :
    (queue_type now : ℕ) (m : Due) (d : Db) → IsBalanced d → IsBalanced (deliver queue_type now m d)
unfolding deliver
deliver-IsBalanced queue_type now m d h = elim (Bool-cases (group_exists m.group d)) [
  | inl e ↦ rw e (
      counted_delivered d.pending_count d.processing_count d.requeued_count d.delayed_count
        d.scheduled_count d.acknowledged_count d.dead_lettered_count
      ∙ h)
  | inr e ↦ rw e (
      counted_dead d.pending_count d.processing_count d.requeued_count d.delayed_count
        d.scheduled_count d.acknowledged_count d.dead_lettered_count
      ∙ h)
]

repeat_message-IsBalanced :
    (now next : ℕ) (m : Due) (clone : Publication) (d : Db)
    → IsBalanced d
    → IsBalanced (repeat_message now m next clone d).0
unfolding repeat_message
repeat_message-IsBalanced now next m clone d h = elim (Bool-cases (group_exists m.group d)) [
  | inl exists ↦ rw exists (
      publish_message-IsBalanced clone
        (record d { entries = zadd Entries.scheduled [] next m.id d.entries }) h)
  | inr gone ↦ elim (Bool-cases (removed Entries.scheduled [] m.id d.entries)) [
    | inl found ↦
        rw (gone, found)
          (counted_dead d.pending_count d.processing_count d.requeued_count d.delayed_count
              d.scheduled_count d.acknowledged_count d.dead_lettered_count
            ∙ h)
    | inr missing ↦ rw (gone, missing) h
  ]
]

publish_due_one-IsBalanced :
    (queue_type now : ℕ) (m : Due) (d : Db)
    → IsBalanced d
    → IsBalanced (publish_due_one queue_type now m d).0
unfolding publish_due_one
publish_due_one-IsBalanced queue_type now m d h = elim (Option-cases m.repetition) [
  | inl e ↦ elim (Bool-cases (removed Entries.scheduled [] m.id d.entries)) [
    | inl found ↦ rw (e, publish_due_one, found) (deliver-IsBalanced queue_type now m d h)
    | inr missing ↦ rw (e, publish_due_one, missing) h
  ]
  | inr ((next, clone), e) ↦
      rw (e, publish_due_one) (repeat_message-IsBalanced now next m clone d h)
]

publish_due-IsBalanced :
    (queue_type now : ℕ) (ms : List Due) (d : Db)
    → IsBalanced d
    → IsBalanced (publish_due queue_type now ms d).0
unfolding publish_due
publish_due-IsBalanced queue_type now [] d h = h
publish_due-IsBalanced queue_type now (m ∷ ms) d h =
    let one = publish_due_one-IsBalanced queue_type now m d h in
    elim (Result-cases (publish_due_one queue_type now m d).1) [
      | inl (found, e) ↦ rw (e, publish_due) (publish_due-IsBalanced queue_type now ms _ one)
      | inr (reply, e) ↦ rw (e, publish_due) one
    ]

publish_scheduled-IsBalanced :
    (now : ℕ) (ms : List Due) (d : Db) → IsBalanced d → IsBalanced (publish_scheduled now ms d).0
unfolding publish_scheduled
publish_scheduled-IsBalanced now ms d h = elim (Option-cases d.queue_type) [
  | inl e ↦ rw (e, publish_scheduled) h
  | inr (queue_type, e) ↦ elim (Option-cases (refusal d)) [
    | inl open' ↦ rw (e, publish_scheduled, open') (publish_due-IsBalanced queue_type now ms d h)
    | inr (reason, shut) ↦ rw (e, publish_scheduled, shut) h
  ]
]

module _ (next_tick : Text → ℕ → Option ℕ) where
  perform-IsBalanced :
      (now : ℕ) (a : Audit) (c : Call) (d : Db)
      → IsBalanced d
      → IsBalanced (perform next_tick now a c d)
  unfolding perform dispatch
  perform-IsBalanced now a (dispatches e) d h = publish_message-IsBalanced _ d h
  perform-IsBalanced now a (pops c) d h = pop-IsBalanced c d h
  perform-IsBalanced now a (checks_out id) d h = checkout_message-IsBalanced now id d h
  perform-IsBalanced now a (acknowledges consumer ids) d h =
      acknowledge_message-IsBalanced now a consumer ids d h
  perform-IsBalanced now a (unacknowledges consumer es) d h =
      unacknowledge_batch-IsBalanced now a consumer es d h
  perform-IsBalanced now a (requeues rs) d h = requeue_immediate-IsBalanced now rs d h
  perform-IsBalanced now a (requeues_due rs) d h = requeue_delayed-IsBalanced now rs d h
  perform-IsBalanced now a (publishes_due ms) d h = publish_scheduled-IsBalanced now ms d h

  pub run-IsBalanced :
      (a : Audit) (cs : List (ℕ × Call)) (d : Db) → IsBalanced d → IsBalanced (run next_tick a cs d)
  unfolding run
  run-IsBalanced a [] d h = h
  run-IsBalanced a ((now, c) ∷ cs) d h =
      run-IsBalanced a cs (perform next_tick now a c d) (perform-IsBalanced now a c d h)
