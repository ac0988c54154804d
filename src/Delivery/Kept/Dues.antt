-- ===== src/Delivery/Kept/Dues.antt =====
-- The script publish-scheduled keeps the dead-lettered messages in their list.
use go_redis_smq.Prelude.{
  ℕ, ◌≡◌, refl, ◌∙◌, true, none, some, List, [], ◌∷◌, ◌==◌, arith, inl, inr, Option-cases,
  Bool-cases, Result-cases,
}
use go_redis_smq.Delivery.Entries
use go_redis_smq.Delivery.Entries.{
  Entry, removed, remove, lpush, rpush, zadd, last_of, drop_last, lowest,
}
use go_redis_smq.Delivery.Data.{Db, update, refusal, status_pending, type_lifo, type_fifo}
use go_redis_smq.Delivery.Publish.{Publication}
use go_redis_smq.Delivery.Requeue.{group_exists, mark_dead}
use go_redis_smq.Delivery.Scheduled.{
  Due, deliver, repeat_message, publish_due_one, publish_due, publish_scheduled,
}
use go_redis_smq.Delivery.Placed.Arrivals.{IsNew}
use go_redis_smq.Delivery.Placed.Dues.{enqueue, IsReady, IsReady-some, AllReady}
use go_redis_smq.Delivery.Kept.Arrivals.{publish_message-IsKept}
use go_redis_smq.Delivery.Kept.{
  IsKept, InDead, removed-remove, rpush-InDead, dead_last, dead_added, zadd-InDead, move-IsKept,
}

enqueue-InDead :
    (queue_type : ℕ) (m : Due) (j : ℕ) (es : List Entry)
    → InDead j es
    → InDead j (enqueue queue_type m es)
unfolding removed Entries.holds Entries.of_key
enqueue-InDead queue_type m j es f =
    let score : ℕ = elim m.priority [ none ↦ 0 | some n ↦ n ] in
    elim (Bool-cases (queue_type == type_fifo)) [
      | inl first ↦ rw first f
      | inr other ↦ elim (Bool-cases (queue_type == type_lifo)) [
        | inl last ↦ rw (other, last) (rpush-InDead Entries.pending m.group j m.id 0 es refl f)
        | inr ranked ↦
            rw (other, ranked) (zadd-InDead Entries.priority m.group j m.id score es refl f)
      ]
    ]

left_schedule :
    (id : ℕ) (es : List Entry) (j : ℕ) → InDead j es → InDead j (remove Entries.scheduled [] id es)
left_schedule id es j f =
    removed-remove Entries.dead_lettered Entries.scheduled [] [] j id es refl ∙ f

dead-IsKept :
    (now : ℕ) (m : Due) (d : Db)
    → IsKept d.entries d.message
    → IsKept
        (rpush Entries.dead_lettered [] m.id (remove Entries.scheduled [] m.id d.entries))
        (update m.id (mark_dead now) d.message)
dead-IsKept now m d h =
    let rest = remove Entries.scheduled [] m.id d.entries in
    move-IsKept m.id (mark_dead now) d.entries (rpush Entries.dead_lettered [] m.id rest) d.message
      h (λ j f. dead_added j m.id rest (left_schedule m.id d.entries j f))
      (λ g s. dead_last m.id rest)

deliver-IsKept :
    (queue_type now : ℕ) (m : Due) (d : Db)
    → IsKept d.entries d.message
    → let d' = deliver queue_type now m d in IsKept d'.entries d'.message
unfolding deliver
deliver-IsKept queue_type now m d h =
    let rest = remove Entries.scheduled [] m.id d.entries in
    elim (Bool-cases (group_exists m.group d)) [
      | inl exists ↦ rw exists (
          move-IsKept m.id
            (λ f. record f { status = some status_pending; published_at = m.published_at })
            d.entries (enqueue queue_type m rest) d.message h
            (λ j f. enqueue-InDead queue_type m j rest (left_schedule m.id d.entries j f))
            (λ g s. ground (arith, s)))
      | inr gone ↦ rw gone (dead-IsKept now m d h)
    ]

repeat_message-IsKept :
    (now next : ℕ) (m : Due) (clone : Publication) (d : Db)
    → removed Entries.scheduled [] m.id d.entries ≡ true
    → IsNew clone d
    → IsKept d.entries d.message
    → let (d', _) = repeat_message now m next clone d in IsKept d'.entries d'.message
unfolding repeat_message IsKept
repeat_message-IsKept now next m clone d found new h = elim (Bool-cases (group_exists m.group d)) [
  | inl exists ↦ rw exists (
      publish_message-IsKept clone
        (record d { entries = zadd Entries.scheduled [] next m.id d.entries })
        (record { unused = new.unused; waits = new.waits })
        (λ j dead. zadd-InDead Entries.scheduled [] j m.id next d.entries refl (h j dead)))
  | inr gone ↦ rw (gone, found) (dead-IsKept now m d h)
]

publish_due_one-IsKept :
    (queue_type now : ℕ) (m : Due) (d : Db)
    → IsReady m d
    → IsKept d.entries d.message
    → let (d', _) = publish_due_one queue_type now m d in IsKept d'.entries d'.message
unfolding publish_due_one
publish_due_one-IsKept queue_type now m d ready h = elim (Option-cases m.repetition) [
  | inl e ↦ elim (Bool-cases (removed Entries.scheduled [] m.id d.entries)) [
    | inl found ↦ rw (e, publish_due_one, found) (deliver-IsKept queue_type now m d h)
    | inr missing ↦ rw (e, publish_due_one, missing) h
  ]
  | inr ((next, clone), e) ↦
      let ready' : (removed Entries.scheduled [] m.id d.entries ≡ true) × IsNew clone d =
        IsReady-some m d next clone e ready in
      rw (e, publish_due_one) (repeat_message-IsKept now next m clone d ready'.0 ready'.1 h)
]

publish_due-IsKept :
    (queue_type now : ℕ) (ms : List Due) (d : Db)
    → AllReady queue_type now ms d
    → IsKept d.entries d.message
    → let (d', _) = publish_due queue_type now ms d in IsKept d'.entries d'.message
unfolding publish_due
publish_due-IsKept queue_type now [] d ready h = h
publish_due-IsKept queue_type now (m ∷ ms) d (ready, rest) h =
    let one = publish_due_one-IsKept queue_type now m d ready h in
    elim (Result-cases (publish_due_one queue_type now m d).1) [
      | inl (found, e) ↦ rw (e, publish_due) (publish_due-IsKept queue_type now ms _ rest one)
      | inr (reply, e) ↦ rw (e, publish_due) one
    ]

pub publish_scheduled-IsKept :
    (now : ℕ) (ms : List Due) (d : Db)
    → ((queue_type : ℕ) → AllReady queue_type now ms d)
    → IsKept d.entries d.message
    → let (d', _) = publish_scheduled now ms d in IsKept d'.entries d'.message
unfolding publish_scheduled
publish_scheduled-IsKept now ms d ready h = elim (Option-cases d.queue_type) [
  | inl e ↦ rw (e, publish_scheduled) h
  | inr (queue_type, e) ↦ elim (Option-cases (refusal d)) [
    | inl open' ↦
        rw (e, publish_scheduled, open')
          (publish_due-IsKept queue_type now ms d (ready queue_type) h)
    | inr (reason, shut) ↦ rw (e, publish_scheduled, shut) h
  ]
]
