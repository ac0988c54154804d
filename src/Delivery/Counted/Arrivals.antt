-- ===== src/Delivery/Counted/Arrivals.antt =====
-- Publication and consumers keep the counters.
use go_redis_smq.Prelude.{
  ℕ, ◌+◌, ◌≡◌, refl, ap, ◌∙◌, none, some, List, [], ◌==◌, arith, inl, inr, Option-cases, Bool-cases,
}
use go_redis_smq.Prelude.Int.{pos, ◌+ℤ◌, add_to, sum-add_left, sum_exchange}
use go_redis_smq.Delivery.Entries
use go_redis_smq.Delivery.Entries.{
  Entry, place_of, in_queue, removed, remove, lpush, rpush, zadd, count, size, last_of, drop_last,
  lowest,
}
use go_redis_smq.Delivery.Counting.{
  bit, size-remove, size-lpush, size-rpush, size-zadd, size-drop_last, removed-lowest, not-removed,
}
use go_redis_smq.Delivery.Data.{Db, refusal, status_pending, has_status, type_priority}
use go_redis_smq.Delivery.Placed.{IsPlaced}
use go_redis_smq.Delivery.Placed.Arrivals.{IsNew, unused_count}
use go_redis_smq.Delivery.Publish.{
  Publication, enqueue_new, objection, put, record_message, publish_message,
}
use go_redis_smq.Delivery.Checkout.{Dequeuer, pop, pop_fifo, pop_priority, checkout_message}
use go_redis_smq.Delivery.Counted.{IsCounted}

-- A change of the entries that leaves the sizes as they are.
pub same_sizes-IsCounted :
    (d : Db) (es : List Entry)
    → IsCounted d
    → ((place : ℕ) → size place es ≡ size place d.entries)
    → IsCounted (record d { entries = es })
same_sizes-IsCounted d es h same = record {
  in_queue = rw (same Entries.in_queue) h.in_queue;
  requeued = rw (same Entries.requeued) h.requeued;
  delayed = rw (same Entries.delayed) h.delayed;
  scheduled = rw (same Entries.scheduled) h.scheduled;
  published = rw (same Entries.published) h.published;
}

pop_fifo-IsCounted : (c : Dequeuer) (d : Db) → IsCounted d → IsCounted (pop_fifo c d).0
unfolding pop_fifo
pop_fifo-IsCounted c d h = elim (Option-cases (last_of Entries.pending c.group d.entries)) [
  | inl e ↦ rw (e, pop_fifo) h
  | inr (id, e) ↦
      let rest = drop_last Entries.pending c.group d.entries in
      rw (e, pop_fifo)
        (same_sizes-IsCounted d (lpush Entries.processing c.consumer id rest) h (λ place. ground (
          arith,
          size-lpush Entries.processing c.consumer id place rest,
          size-drop_last Entries.pending c.group id place d.entries e,
        )))
]

pop_priority-IsCounted : (c : Dequeuer) (d : Db) → IsCounted d → IsCounted (pop_priority c d).0
unfolding pop_priority
pop_priority-IsCounted c d h = elim (Option-cases (lowest Entries.priority c.group d.entries)) [
  | inl e ↦ rw (e, pop_priority) h
  | inr (m, e) ↦
      let rest = remove Entries.priority c.group m.id d.entries in
      rw (e, pop_priority)
        (same_sizes-IsCounted d (lpush Entries.processing c.consumer m.id rest) h (λ place. ground (
          arith,
          size-lpush Entries.processing c.consumer m.id place rest,
          removed-lowest Entries.priority c.group m d.entries e,
          size-remove Entries.priority c.group m.id place d.entries,
        )))
]

pub pop-IsCounted : (c : Dequeuer) (d : Db) → IsCounted d → IsCounted (pop c d).0
unfolding pop
pop-IsCounted c d h = elim (Bool-cases (c.queue_type == type_priority)) [
  | inl e ↦ rw e (pop_priority-IsCounted c d h)
  | inr e ↦ rw e (pop_fifo-IsCounted c d h)
]

pub checkout_message-IsCounted :
    (now id : ℕ) (d : Db) → IsCounted d → IsCounted (checkout_message now id d).0
unfolding checkout_message
checkout_message-IsCounted now id d h = elim (Option-cases (refusal d)) [
  | inr (reason, e) ↦ rw (e, checkout_message) h
  | inl e ↦ elim (Option-cases (d.message id).status) [
    | inl none' ↦ rw (e, checkout_message, none') h
    | inr (status, s) ↦ elim (Bool-cases (status == status_pending)) [
      | inr other ↦ rw (e, checkout_message, s, other) h
      | inl pending' ↦
          rw (e, checkout_message, s, pending')
            (record {
              in_queue = sum_exchange d.pending_count d.processing_count (pos 1) ∙ h.in_queue;
              requeued = h.requeued;
              delayed = h.delayed;
              scheduled = h.scheduled;
              published = h.published;
            })
    ]
  ]
]

size-enqueue_new :
    (queue_type : ℕ) (p : Publication) (place : ℕ) (es : List Entry)
    → count in_queue p.id es ≡ 0
    → size place (enqueue_new queue_type p es) ≡ size place es + bit (in_queue == place)
unfolding enqueue_new
size-enqueue_new queue_type p place es q =
    let score : ℕ = elim p.priority [ none ↦ 0 | some n ↦ n ] in
    ground (
      arith,
      size-rpush Entries.pending p.group p.id place es,
      size-lpush Entries.pending p.group p.id place es,
      size-zadd Entries.priority p.group score p.id place es
          (not-removed Entries.priority p.group p.id es q),
    )

put-IsCounted :
    (queue_type : ℕ) (p : Publication) (d : Db)
    → IsNew p d
    → IsPlaced d.entries d.message
    → IsCounted d
    → IsCounted (put queue_type p d)
unfolding put
put-IsCounted queue_type p d new placed h =
    let queued = λ (place : ℕ).
      size-enqueue_new queue_type p place d.entries (unused_count in_queue p d new placed refl) in
    let held = λ (place : ℕ).
      size-zadd Entries.scheduled [] p.scheduled_timestamp p.id place d.entries (
        not-removed Entries.scheduled [] p.id d.entries
          (unused_count Entries.scheduled p d new placed refl)) in
    elim (Bool-cases (has_status status_pending p.fields.status)) [
      | inl waits ↦ rw waits (record {
        in_queue =
            sum-add_left d.pending_count d.processing_count (pos 1)
            ∙ add_to (d.pending_count +ℤ d.processing_count) (size in_queue d.entries) _ 1
                h.in_queue (queued in_queue);
        requeued = h.requeued ∙ ap pos (ground (arith, queued Entries.requeued));
        delayed = h.delayed ∙ ap pos (ground (arith, queued Entries.delayed));
        scheduled = h.scheduled ∙ ap pos (ground (arith, queued Entries.scheduled));
        published = h.published ∙ ap pos (ground (arith, queued Entries.published));
      })
      | inr late ↦ rw late (record {
        in_queue = h.in_queue ∙ ap pos (ground (arith, held in_queue));
        requeued = h.requeued ∙ ap pos (ground (arith, held Entries.requeued));
        delayed = h.delayed ∙ ap pos (ground (arith, held Entries.delayed));
        scheduled =
            add_to d.scheduled_count (size Entries.scheduled d.entries) _ 1 h.scheduled
              (held Entries.scheduled);
        published = h.published ∙ ap pos (ground (arith, held Entries.published));
      })
    ]

record_message-IsCounted : (p : Publication) (d : Db) → IsCounted d → IsCounted (record_message p d)
unfolding record_message
record_message-IsCounted p d h =
    let list = λ (place : ℕ). size-rpush Entries.published [] p.id place d.entries in
    record {
      in_queue = h.in_queue ∙ ap pos (ground (arith, list in_queue));
      requeued = h.requeued ∙ ap pos (ground (arith, list Entries.requeued));
      delayed = h.delayed ∙ ap pos (ground (arith, list Entries.delayed));
      scheduled = h.scheduled ∙ ap pos (ground (arith, list Entries.scheduled));
      published =
          add_to d.messages_count (size Entries.published d.entries) _ 1 h.published
            (list Entries.published);
    }

pub publish_message-IsCounted :
    (p : Publication) (d : Db)
    → IsNew p d
    → IsPlaced d.entries d.message
    → IsCounted d
    → IsCounted (publish_message p d).0
unfolding publish_message
publish_message-IsCounted p d new placed h = elim (Option-cases d.queue_type) [
  | inl e ↦ rw (e, publish_message) h
  | inr (queue_type, e) ↦ elim (Option-cases (objection d queue_type p)) [
    | inl fine ↦
        rw (e, publish_message, fine)
          (record_message-IsCounted p (put queue_type p d)
            (put-IsCounted queue_type p d new placed h))
    | inr (reply, bad) ↦ rw (e, publish_message, bad) h
  ]
]
