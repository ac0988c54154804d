-- ===== src/Delivery/Calls/Counters.antt =====
-- What any history of calls does to the counters of the queue.
use go_redis_smq.Prelude.{ℕ, ◌≡◌, Option, none, List, [], ◌∷◌}
use go_redis_smq.Prelude.Text.{Text}
use go_redis_smq.Scheduling.{next_scheduled_timestamp}
use go_redis_smq.Scheduling.Publisher.{new_state}
use go_redis_smq.Delivery.Data.{Db}
use go_redis_smq.Delivery.Placed.{IsPlaced}
use go_redis_smq.Delivery.Publish.{Outgoing, build_publish_args, dispatch}
use go_redis_smq.Delivery.Unacknowledge.{Audit, UnackEntry, unacknowledge_batch}
use go_redis_smq.Delivery.Counted.{IsCounted}
use go_redis_smq.Delivery.Balanced.{IsBalanced}
use go_redis_smq.Delivery.Balanced.Scripts.{run-IsBalanced}
use go_redis_smq.Delivery.Counted.Settled.{
  unacknowledge_message-IsCounted, acknowledge_message-IsCounted, requeue_immediate-IsCounted,
  requeue_delayed-IsCounted,
}
use go_redis_smq.Delivery.Counted.Arrivals.{
  pop-IsCounted, checkout_message-IsCounted, publish_message-IsCounted,
}
use go_redis_smq.Delivery.Counted.Dues.{publish_scheduled-IsCounted}
use go_redis_smq.Delivery.Calls.{
  Call, dispatches, pops, checks_out, acknowledges, unacknowledges, requeues, requeues_due,
  publishes_due, build_publish_args-IsNew, perform, perform-IsPlaced, Admits, run, AllAdmitted,
}

unacknowledge_batch-IsCounted :
    (now : ℕ) (a : Audit) (consumer : Text) (es : List UnackEntry) (d : Db)
    → IsCounted d
    → IsCounted (unacknowledge_batch now a consumer es d)
unfolding unacknowledge_batch
unacknowledge_batch-IsCounted now a consumer [] d h = h
unacknowledge_batch-IsCounted now a consumer (e ∷ es) d h =
    unacknowledge_message-IsCounted now a consumer (e ∷ es) d h

module _ (next_tick : Text → ℕ → Option ℕ) where
  dispatch-IsCounted :
      (now : ℕ) (e : Outgoing) (d : Db)
      → (d.message e.id).status ≡ none
      → IsPlaced d.entries d.message
      → IsCounted d
      → IsCounted (dispatch next_tick now e d).0
  unfolding dispatch
  dispatch-IsCounted now e d fresh placed h =
      let timestamp = (next_scheduled_timestamp next_tick now e.content (new_state e.content)).1 in
      publish_message-IsCounted (build_publish_args now timestamp e) d
        (build_publish_args-IsNew now timestamp e d fresh) placed h

  perform-IsCounted :
      (now : ℕ) (a : Audit) (c : Call) (d : Db)
      → Admits next_tick now c d
      → IsPlaced d.entries d.message
      → IsCounted d
      → IsCounted (perform next_tick now a c d)
  unfolding perform
  perform-IsCounted now a (dispatches e) d fresh p h = dispatch-IsCounted now e d fresh p h
  perform-IsCounted now a (pops c) d _ p h = pop-IsCounted c d h
  perform-IsCounted now a (checks_out id) d _ p h = checkout_message-IsCounted now id d h
  perform-IsCounted now a (acknowledges consumer ids) d _ p h =
      acknowledge_message-IsCounted now a consumer ids d h
  perform-IsCounted now a (unacknowledges consumer es) d _ p h =
      unacknowledge_batch-IsCounted now a consumer es d h
  perform-IsCounted now a (requeues rs) d _ p h = requeue_immediate-IsCounted now rs d p h
  perform-IsCounted now a (requeues_due rs) d _ p h = requeue_delayed-IsCounted now rs d p h
  perform-IsCounted now a (publishes_due ms) d ready p h =
      publish_scheduled-IsCounted now ms d ready p h

  run_sizes :
      (a : Audit) (cs : List (ℕ × Call)) (d : Db)
      → AllAdmitted next_tick a cs d
      → IsPlaced d.entries d.message
      → IsCounted d
      → IsCounted (run next_tick a cs d)
  unfolding run
  run_sizes a [] d _ p h = h
  run_sizes a ((now, c) ∷ cs) d (ok', rest) p h =
      run_sizes a cs (perform next_tick now a c d) rest (perform-IsPlaced next_tick now a c d ok' p)
        (perform-IsCounted now a c d ok' p h)

  -- After any history of calls the counters of requeued, delayed, scheduled and published messages are
  -- the numbers of messages in those places, the counters of pending and of processing messages add
  -- up to the number in the pending and processing lists and the priority sets, and all counters, with
  -- those of acknowledged and of dead-lettered messages, add up to that of the published ones, if this
  -- held before, each message stood in the place of its status, the ids of new messages had not been
  -- used, and due messages that repeat were still scheduled.
  pub run-IsCounted :
      (a : Audit) (cs : List (ℕ × Call)) (d : Db)
      → AllAdmitted next_tick a cs d
      → IsPlaced d.entries d.message
      → IsCounted d
      → IsBalanced d
      → IsCounted (run next_tick a cs d) × IsBalanced (run next_tick a cs d)
  run-IsCounted a cs d admitted p h b =
      (run_sizes a cs d admitted p h, run-IsBalanced next_tick a cs d b)
