-- ===== src/Delivery/Kept/Arrivals.antt =====
-- New messages and consumers keep the dead-lettered messages in their list.
use go_redis_smq.Prelude.{
  ℕ, ◌≡◌, refl, ◌∙◌, false, none, some, [], ◌==◌, arith, inl, inr, ◌⊎◌, Option-cases, Bool-cases,
}
use go_redis_smq.Delivery.Entries
use go_redis_smq.Delivery.Entries.{
  Entry, removed, remove, lpush, rpush, zadd, last_of, drop_last, lowest,
}
use go_redis_smq.Delivery.Data.{
  Db, refusal, has_status, status_pending, status_scheduled, status_dead_lettered, type_priority,
  type_lifo,
}
use go_redis_smq.Delivery.Publish.{
  Publication, put, enqueue_new, record_message, objection, publish_message,
}
use go_redis_smq.Delivery.Checkout.{Dequeuer, pop, pop_fifo, pop_priority, checkout_message, claim}
use go_redis_smq.Delivery.Placed.Arrivals.{IsNew}
use go_redis_smq.Delivery.Kept.{
  IsKept, InDead, removed-remove, removed-drop_last, rpush-InDead, zadd-InDead, move-IsKept,
}

put-InDead :
    (queue_type : ℕ) (p : Publication) (d : Db) (j : ℕ)
    → InDead j d.entries
    → InDead j (put queue_type p d).entries
unfolding put enqueue_new removed Entries.holds Entries.of_key
put-InDead queue_type p d j f =
    let score : ℕ = elim p.priority [ none ↦ 0 | some n ↦ n ] in
    elim (Bool-cases (has_status status_pending p.fields.status)) [
      | inr late ↦
          rw late (zadd-InDead Entries.scheduled [] j p.id p.scheduled_timestamp d.entries refl f)
      | inl soon ↦ elim (Bool-cases (queue_type == type_priority)) [
        | inl ranked ↦
            rw (soon, ranked) (zadd-InDead Entries.priority p.group j p.id score d.entries refl f)
        | inr listed ↦ elim (Bool-cases (queue_type == type_lifo)) [
          | inl last ↦
              rw (soon, listed, last)
                (rpush-InDead Entries.pending p.group j p.id 0 d.entries refl f)
          | inr first ↦ rw (soon, listed, first) f
        ]
      ]
    ]

put-message_lem :
    (queue_type : ℕ) (p : Publication) (d : Db) → (put queue_type p d).message ≡ d.message
unfolding put
put-message_lem queue_type p d = ground arith

is_new_alive :
    (p : Publication)
    → (p.fields.status ≡ some status_pending) ⊎ (p.fields.status ≡ some status_scheduled)
    → has_status status_dead_lettered p.fields.status ≡ false
is_new_alive p (inl e) = rw e refl
is_new_alive p (inr e) = rw e refl

pub publish_message-IsKept :
    (p : Publication) (d : Db)
    → IsNew p d
    → IsKept d.entries d.message
    → let (d', _) = publish_message p d in IsKept d'.entries d'.message
unfolding publish_message record_message
publish_message-IsKept p d new h = elim (Option-cases d.queue_type) [
  | inl e ↦ rw (e, publish_message) h
  | inr (queue_type, e) ↦ elim (Option-cases (objection d queue_type p)) [
    | inr (reply, bad) ↦ rw (e, publish_message, bad) h
    | inl fine ↦
        rw (e, publish_message, fine, put-message_lem queue_type p d)
          (move-IsKept p.id (λ _. p.fields) d.entries
            (rpush Entries.published [] p.id (put queue_type p d).entries) d.message h
            (λ j f.
              rpush-InDead Entries.published [] j p.id 0 (put queue_type p d).entries refl
                (put-InDead queue_type p d j f))
            (λ m s. ground (arith, s, is_new_alive p new.waits)))
  ]
]

pop_fifo-IsKept :
    (c : Dequeuer) (d : Db)
    → IsKept d.entries d.message
    → let (d', _) = pop_fifo c d in IsKept d'.entries d'.message
unfolding pop_fifo IsKept removed Entries.holds Entries.of_key
pop_fifo-IsKept c d h = elim (Option-cases (last_of Entries.pending c.group d.entries)) [
  | inl e ↦ rw (e, pop_fifo) h
  | inr (id, e) ↦
      rw (e, pop_fifo)
        (λ j dead.
          removed-drop_last Entries.dead_lettered Entries.pending [] c.group j d.entries refl
          ∙ h j dead)
]

pop_priority-IsKept :
    (c : Dequeuer) (d : Db)
    → IsKept d.entries d.message
    → let (d', _) = pop_priority c d in IsKept d'.entries d'.message
unfolding pop_priority IsKept removed Entries.holds Entries.of_key
pop_priority-IsKept c d h = elim (Option-cases (lowest Entries.priority c.group d.entries)) [
  | inl e ↦ rw (e, pop_priority) h
  | inr (m, e) ↦
      rw (e, pop_priority)
        (λ j dead.
          removed-remove Entries.dead_lettered Entries.priority [] c.group j m.id d.entries refl
          ∙ h j dead)
]

pub pop-IsKept :
    (c : Dequeuer) (d : Db)
    → IsKept d.entries d.message
    → let (d', _) = pop c d in IsKept d'.entries d'.message
unfolding pop
pop-IsKept c d h = elim (Bool-cases (c.queue_type == type_priority)) [
  | inl e ↦ rw e (pop_priority-IsKept c d h)
  | inr e ↦ rw e (pop_fifo-IsKept c d h)
]

pub checkout_message-IsKept :
    (now id : ℕ) (d : Db)
    → IsKept d.entries d.message
    → let (d', _) = checkout_message now id d in IsKept d'.entries d'.message
unfolding checkout_message claim
checkout_message-IsKept now id d h = elim (Option-cases (refusal d)) [
  | inr (reason, e) ↦ rw (e, checkout_message) h
  | inl e ↦ elim (Option-cases (d.message id).status) [
    | inl none' ↦ rw (e, checkout_message, none') h
    | inr (status, s) ↦ elim (Bool-cases (status == status_pending)) [
      | inr other ↦ rw (e, checkout_message, s, other) h
      | inl pending' ↦
          rw (e, checkout_message, s, pending')
            (move-IsKept id (claim now) d.entries d.entries d.message h (λ j f. f)
              (λ m s. ground (arith, s)))
    ]
  ]
]
