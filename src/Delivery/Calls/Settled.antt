-- ===== src/Delivery/Calls/Settled.antt =====
-- After any history of calls each message is where its status says.
use go_redis_smq.Prelude.{
  ℕ, ◌≡◌, Bool, true, false, not, ◌||◌, ltb, Option, none, List, [], ◌∷◌, arith, inl, inr, ◌⊎◌,
  Bool-cases,
}
use go_redis_smq.Prelude.Text.{Text}
use go_redis_smq.Scheduling.{next_scheduled_timestamp}
use go_redis_smq.Scheduling.Publisher.{new_state}
use go_redis_smq.Delivery.Entries.{Entry}
use go_redis_smq.Delivery.Data.{Db, Fields}
use go_redis_smq.Delivery.Placed.{IsPlaced}
use go_redis_smq.Delivery.Publish.{Outgoing, build_publish_args, dispatch}
use go_redis_smq.Delivery.Unacknowledge.{Audit, Retention}
use go_redis_smq.Delivery.Kept.{IsKept, InDead, IsDead}
use go_redis_smq.Delivery.Kept.Calls.{
  Unlimited, unacknowledge_batch-IsKept, acknowledge_message-IsKept,
}
use go_redis_smq.Delivery.Kept.Retries.{requeue_immediate-IsKept, requeue_delayed-IsKept}
use go_redis_smq.Delivery.Kept.Arrivals.{
  publish_message-IsKept, pop-IsKept, checkout_message-IsKept,
}
use go_redis_smq.Delivery.Kept.Dues.{publish_scheduled-IsKept}
use go_redis_smq.Delivery.Calls.{
  Call, dispatches, pops, checks_out, acknowledges, unacknowledges, requeues, requeues_due,
  publishes_due, build_publish_args-IsNew, perform, Admits, run, AllAdmitted, run-IsPlaced,
}

-- The configuration does not keep a list of messages, or limits it.
abbrev pub drops : Retention → Bool
drops r = not r.enabled || ltb 0 r.queue_size

-- Each dead-lettered message stands in the list of dead-lettered messages, unless this list is not
-- kept or limited.
unfoldable pub IsSettled : Audit → List Entry → (ℕ → Fields) → Type 0
IsSettled a es message =
    (id : ℕ) → IsDead id message → (drops a.dead_lettered_messages ≡ true) ⊎ InDead id es

bounded_or_kept : (a : Audit) → drops a.dead_lettered_messages ≡ false → Unlimited a
bounded_or_kept a kept = (ground (arith, kept), ground (arith, kept))

module _ (next_tick : Text → ℕ → Option ℕ) where
  dispatch-IsKept :
      (now : ℕ) (e : Outgoing) (d : Db)
      → (d.message e.id).status ≡ none
      → IsKept d.entries d.message
      → let (d', _) = dispatch next_tick now e d in IsKept d'.entries d'.message
  unfolding dispatch
  dispatch-IsKept now e d fresh h =
      let timestamp = (next_scheduled_timestamp next_tick now e.content (new_state e.content)).1 in
      publish_message-IsKept (build_publish_args now timestamp e) d
        (build_publish_args-IsNew now timestamp e d fresh) h

  perform-IsKept :
      (now : ℕ) (a : Audit) (c : Call) (d : Db)
      → Unlimited a
      → Admits next_tick now c d
      → IsKept d.entries d.message
      → let d' = perform next_tick now a c d in IsKept d'.entries d'.message
  unfolding perform
  perform-IsKept now a (dispatches e) d u fresh h = dispatch-IsKept now e d fresh h
  perform-IsKept now a (pops c) d u _ h = pop-IsKept c d h
  perform-IsKept now a (checks_out id) d u _ h = checkout_message-IsKept now id d h
  perform-IsKept now a (acknowledges consumer ids) d u _ h =
      acknowledge_message-IsKept now a consumer ids d h
  perform-IsKept now a (unacknowledges consumer es) d u _ h =
      unacknowledge_batch-IsKept now a consumer es d u h
  perform-IsKept now a (requeues rs) d u _ h = requeue_immediate-IsKept now rs d h
  perform-IsKept now a (requeues_due rs) d u _ h = requeue_delayed-IsKept now rs d h
  perform-IsKept now a (publishes_due ms) d u ready h = publish_scheduled-IsKept now ms d ready h

  run-IsKept :
      (a : Audit) (cs : List (ℕ × Call)) (d : Db)
      → Unlimited a
      → AllAdmitted next_tick a cs d
      → IsKept d.entries d.message
      → let d' = run next_tick a cs d in IsKept d'.entries d'.message
  unfolding run
  run-IsKept a [] d u _ h = h
  run-IsKept a ((now, c) ∷ cs) d u (ok', rest) h =
      run-IsKept a cs (perform next_tick now a c d) u rest (perform-IsKept now a c d u ok' h)

  dead_stay :
      (a : Audit) (cs : List (ℕ × Call)) (d : Db)
      → AllAdmitted next_tick a cs d
      → IsSettled a d.entries d.message
      → let d' = run next_tick a cs d in IsSettled a d'.entries d'.message
  unfolding IsSettled IsKept
  dead_stay a cs d admitted h id dead = elim (Bool-cases (drops a.dead_lettered_messages)) [
    | inl limited ↦ inl limited
    | inr kept ↦ inr (
        run-IsKept a cs d (bounded_or_kept a kept) admitted
          (λ j gone. elim (h j gone) [ inl limited ↦ cc | inr found ↦ found ]) id dead)
  ]

  -- After any history of calls each message that is neither acknowledged nor dead-lettered stands
  -- exactly once in the place of its status and in no other of these, where the lists of all groups and
  -- consumers are one place, each message that has a hash is listed as published once, and each
  -- dead-lettered message stands in the list of those, unless the configuration does not keep this
  -- list or limits it. All this held before, the ids of new messages had not been used, and due
  -- messages that repeat were still scheduled.
  pub run-IsSettled :
      (a : Audit) (cs : List (ℕ × Call)) (d : Db)
      → AllAdmitted next_tick a cs d
      → IsPlaced d.entries d.message
      → IsSettled a d.entries d.message
      → let d' = run next_tick a cs d in
        IsPlaced d'.entries d'.message × IsSettled a d'.entries d'.message
  run-IsSettled a cs d admitted placed settled =
      (run-IsPlaced next_tick a cs d admitted placed, dead_stay a cs d admitted settled)
