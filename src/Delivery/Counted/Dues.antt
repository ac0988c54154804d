-- ===== src/Delivery/Counted/Dues.antt =====
-- The script publish-scheduled keeps the counters.
use go_redis_smq.Prelude.{
  ℕ, ◌+◌, ◌≡◌, ap, ◌∙◌, true, false, none, some, List, [], ◌∷◌, ◌==◌, arith, inl, inr, refl,
  Option-cases, Bool-cases, Result-cases,
}
use go_redis_smq.Prelude.Int.{ℤ, pos, ◌+ℤ◌, ◌-ℤ◌, add_to, take_from, sum-add_left}
use go_redis_smq.Delivery.Entries
use go_redis_smq.Delivery.Entries.{Entry, in_queue, removed, remove, rpush, zadd, size}
use go_redis_smq.Delivery.Counting.{
  bit, size-append, size-remove, size-lpush, size-rpush, size-zadd, not-removed,
}
use go_redis_smq.Delivery.Data.{Db, Fields, refusal}
use go_redis_smq.Delivery.Placed.{IsPlaced, keep-IsPlaced, count-gone}
use go_redis_smq.Delivery.Placed.Arrivals.{IsNew}
use go_redis_smq.Delivery.Placed.Dues.{
  IsReady, AllReady, IsReady-some, enqueue, count-reschedule, publish_due_one-IsPlaced,
}
use go_redis_smq.Delivery.Publish.{Publication}
use go_redis_smq.Delivery.Requeue.{group_exists}
use go_redis_smq.Delivery.Scheduled.{
  Due, deliver, repeat_message, publish_due_one, publish_due, publish_scheduled,
}
use go_redis_smq.Delivery.Counted.{IsCounted}
use go_redis_smq.Delivery.Counted.Arrivals.{same_sizes-IsCounted, publish_message-IsCounted}

size-enqueue :
    (queue_type : ℕ) (m : Due) (place : ℕ) (rest : List Entry)
    → removed Entries.priority m.group m.id rest ≡ false
    → size place (enqueue queue_type m rest) ≡ size place rest + bit (in_queue == place)
size-enqueue queue_type m place rest gone =
    let score : ℕ = elim m.priority [ none ↦ 0 | some n ↦ n ] in
    ground (
      arith,
      size-lpush Entries.pending m.group m.id place rest,
      size-rpush Entries.pending m.group m.id place rest,
      size-zadd Entries.priority m.group score m.id place rest gone,
    )

-- A message that leaves the scheduled set for a list of dead messages.
dead-IsCounted :
    (now : ℕ) (m : Due) (d : Db) (message : ℕ → Fields) (dead : ℤ)
    → removed Entries.scheduled [] m.id d.entries ≡ true
    → IsCounted d
    → IsCounted (record d {
      entries = rpush Entries.dead_lettered [] m.id (remove Entries.scheduled [] m.id d.entries);
      scheduled_count = d.scheduled_count -ℤ pos 1;
      message = message;
      dead_lettered_count = dead;
    })
dead-IsCounted now m d message dead found h =
    let rest = remove Entries.scheduled [] m.id d.entries in
    let put = λ (place : ℕ). size-rpush Entries.dead_lettered [] m.id place rest in
    let left = λ (place : ℕ). size-remove Entries.scheduled [] m.id place d.entries in
    record {
      in_queue = h.in_queue ∙ ap pos (ground (arith, found, put in_queue, left in_queue));
      requeued =
          h.requeued ∙ ap pos (ground (arith, found, put Entries.requeued, left Entries.requeued));
      delayed =
          h.delayed ∙ ap pos (ground (arith, found, put Entries.delayed, left Entries.delayed));
      scheduled =
          take_from d.scheduled_count (size Entries.scheduled d.entries) _ 1 h.scheduled
            (ground (arith, found, put Entries.scheduled, left Entries.scheduled));
      published =
          h.published
          ∙ ap pos (ground (arith, found, put Entries.published, left Entries.published));
    }

deliver-IsCounted :
    (queue_type now : ℕ) (m : Due) (d : Db)
    → IsPlaced d.entries d.message
    → removed Entries.scheduled [] m.id d.entries ≡ true
    → IsCounted d
    → IsCounted (deliver queue_type now m d)
unfolding deliver
deliver-IsCounted queue_type now m d placed found h =
    let rest = remove Entries.scheduled [] m.id d.entries in
    let gone =
      count-gone Entries.scheduled [] m.id in_queue d.entries d.message placed found refl refl refl
        refl in
    let put = λ (place : ℕ).
      size-enqueue queue_type m place rest (not-removed Entries.priority m.group m.id rest gone) in
    let left = λ (place : ℕ). size-remove Entries.scheduled [] m.id place d.entries in
    elim (Bool-cases (group_exists m.group d)) [
      | inr e ↦ rw e (dead-IsCounted now m d _ _ found h)
      | inl e ↦ rw e (record {
        in_queue =
            sum-add_left d.pending_count d.processing_count (pos 1)
            ∙ add_to (d.pending_count +ℤ d.processing_count) (size in_queue d.entries) _ 1
                h.in_queue (ground (arith, found, put in_queue, left in_queue));
        requeued =
            h.requeued
            ∙ ap pos (ground (arith, found, put Entries.requeued, left Entries.requeued));
        delayed =
            h.delayed ∙ ap pos (ground (arith, found, put Entries.delayed, left Entries.delayed));
        scheduled =
            take_from d.scheduled_count (size Entries.scheduled d.entries) _ 1 h.scheduled
              (ground (arith, found, put Entries.scheduled, left Entries.scheduled));
        published =
            h.published
            ∙ ap pos (ground (arith, found, put Entries.published, left Entries.published));
      })
    ]

-- ZADD of a member changes no size.
size-reschedule :
    (next id place : ℕ) (es : List Entry)
    → removed Entries.scheduled [] id es ≡ true
    → size place (zadd Entries.scheduled [] next id es) ≡ size place es
unfolding size
size-reschedule next id place es found = ground (
  arith,
  found,
  size-remove Entries.scheduled [] id place es,
  size-append place (remove Entries.scheduled [] id es)
      (record { kind = Entries.scheduled; label = []; score = next; id = id } ∷ []),
)

repeat_message-IsCounted :
    (now next : ℕ) (m : Due) (clone : Publication) (d : Db)
    → IsPlaced d.entries d.message
    → removed Entries.scheduled [] m.id d.entries ≡ true
    → IsNew clone d
    → IsCounted d
    → IsCounted (repeat_message now m next clone d).0
unfolding repeat_message
repeat_message-IsCounted now next m clone d placed found new h =
    let later = zadd Entries.scheduled [] next m.id d.entries in
    elim (Bool-cases (group_exists m.group d)) [
      | inl exists ↦ rw exists (
          publish_message-IsCounted clone (record d { entries = later })
            (record { unused = new.unused; waits = new.waits })
            (keep-IsPlaced d.entries later d.message d.message placed
              (λ place j t. count-reschedule next m.id place j d.entries found) (λ place j. refl))
            (same_sizes-IsCounted d later h
              (λ place. size-reschedule next m.id place d.entries found)))
      | inr gone ↦ rw (gone, found) (dead-IsCounted now m d _ _ found h)
    ]

publish_due_one-IsCounted :
    (queue_type now : ℕ) (m : Due) (d : Db)
    → IsReady m d
    → IsPlaced d.entries d.message
    → IsCounted d
    → IsCounted (publish_due_one queue_type now m d).0
unfolding publish_due_one
publish_due_one-IsCounted queue_type now m d ready placed h = elim (Option-cases m.repetition) [
  | inl e ↦ elim (Bool-cases (removed Entries.scheduled [] m.id d.entries)) [
    | inl found ↦
        rw (e, publish_due_one, found) (deliver-IsCounted queue_type now m d placed found h)
    | inr missing ↦ rw (e, publish_due_one, missing) h
  ]
  | inr ((next, clone), e) ↦
      let ready' : (removed Entries.scheduled [] m.id d.entries ≡ true) × IsNew clone d =
        IsReady-some m d next clone e ready in
      rw (e, publish_due_one)
        (repeat_message-IsCounted now next m clone d placed ready'.0 ready'.1 h)
]

publish_due-IsCounted :
    (queue_type now : ℕ) (ms : List Due) (d : Db)
    → AllReady queue_type now ms d
    → IsPlaced d.entries d.message
    → IsCounted d
    → IsCounted (publish_due queue_type now ms d).0
unfolding publish_due
publish_due-IsCounted queue_type now [] d ready placed h = h
publish_due-IsCounted queue_type now (m ∷ ms) d (ready, rest) placed h =
    let one = publish_due_one-IsCounted queue_type now m d ready placed h in
    elim (Result-cases (publish_due_one queue_type now m d).1) [
      | inl (found, e) ↦
          rw (e, publish_due)
            (publish_due-IsCounted queue_type now ms _ rest
              (publish_due_one-IsPlaced queue_type now m d ready placed) one)
      | inr (reply, e) ↦ rw (e, publish_due) one
    ]

pub publish_scheduled-IsCounted :
    (now : ℕ) (ms : List Due) (d : Db)
    → ((queue_type : ℕ) → AllReady queue_type now ms d)
    → IsPlaced d.entries d.message
    → IsCounted d
    → IsCounted (publish_scheduled now ms d).0
unfolding publish_scheduled
publish_scheduled-IsCounted now ms d ready placed h = elim (Option-cases d.queue_type) [
  | inl e ↦ rw (e, publish_scheduled) h
  | inr (queue_type, e) ↦ elim (Option-cases (refusal d)) [
    | inl open' ↦
        rw (e, publish_scheduled, open')
          (publish_due-IsCounted queue_type now ms d (ready queue_type) placed h)
    | inr (reason, shut) ↦ rw (e, publish_scheduled, shut) h
  ]
]
