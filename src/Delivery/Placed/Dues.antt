-- ===== src/Delivery/Placed/Dues.antt =====
-- The script publish-scheduled keeps each message in the place of its status.
use go_redis_smq.Prelude.{
  ℕ, ◌+◌, ◌≡◌, refl, true, ◌&&◌, none, some, List, [], ◌∷◌, ◌==◌, if◌then◌else◌, arith, inl, inr,
  Option-cases, Bool-cases, Result-cases,
}
use go_redis_smq.Delivery.Entries
use go_redis_smq.Delivery.Entries.{
  Entry, place_of, in_queue, removed, remove, lpush, rpush, zadd, count,
}
use go_redis_smq.Delivery.Counting.{
  bit, count-append, count-remove, count-lpush, count-rpush, count-zadd,
}
use go_redis_smq.Delivery.Data.{
  Db, update, status_pending, status_dead_lettered, type_fifo, type_lifo, refusal,
}
use go_redis_smq.Delivery.Placed.{IsPlaced, move-IsPlaced, keep-IsPlaced, count-gone}
use go_redis_smq.Delivery.Placed.Settled.{stands_in_settled}
use go_redis_smq.Delivery.Placed.Retries.{stands_in_pending}
use go_redis_smq.Delivery.Placed.Arrivals.{IsNew, publish_message-IsPlaced}
use go_redis_smq.Delivery.Publish.{Publication}
use go_redis_smq.Delivery.Requeue.{group_exists, mark_dead}
use go_redis_smq.Delivery.Scheduled.{
  Due, deliver, repeat_message, publish_due_one, publish_due, publish_scheduled,
}

-- Where a due message goes.
abbrev pub enqueue : ℕ → Due → List Entry → List Entry
enqueue queue_type m rest =
    if queue_type == type_fifo
    then lpush Entries.pending m.group m.id rest
    else (if queue_type == type_lifo
        then rpush Entries.pending m.group m.id rest
        else zadd Entries.priority m.group (elim m.priority [ none ↦ 0 | some n ↦ n ]) m.id rest)

count-enqueue :
    (queue_type : ℕ) (m : Due) (place j : ℕ) (rest : List Entry)
    → count in_queue m.id rest ≡ 0
    → count place j (enqueue queue_type m rest)
      ≡ count place j rest + bit (in_queue == place && m.id == j)
count-enqueue queue_type m place j rest gone = ground (
  arith,
  count-lpush Entries.pending m.group m.id place j rest,
  count-rpush Entries.pending m.group m.id place j rest,
  count-zadd Entries.priority m.group (elim m.priority [ none ↦ 0 | some n ↦ n ]) m.id place j rest
      gone,
)

-- A message whose consumer group is gone.
dead-IsPlaced :
    (now : ℕ) (m : Due) (d : Db)
    → IsPlaced d.entries d.message
    → removed Entries.scheduled [] m.id d.entries ≡ true
    → IsPlaced
        (rpush Entries.dead_lettered [] m.id (remove Entries.scheduled [] m.id d.entries))
        (update m.id (mark_dead now) d.message)
unfolding mark_dead
dead-IsPlaced now m d h found =
    let rest = remove Entries.scheduled [] m.id d.entries in
    move-IsPlaced Entries.scheduled [] m.id Entries.dead_lettered status_dead_lettered
      (mark_dead now) d.entries (rpush Entries.dead_lettered [] m.id rest) d.message h found refl
      refl refl (λ f. refl)
      (λ place t p. ground (arith, stands_in_settled place status_dead_lettered refl p t))
      (λ place j t. count-rpush Entries.dead_lettered [] m.id place j rest)

deliver-IsPlaced :
    (queue_type now : ℕ) (m : Due) (d : Db)
    → IsPlaced d.entries d.message
    → removed Entries.scheduled [] m.id d.entries ≡ true
    → let d' = deliver queue_type now m d in IsPlaced d'.entries d'.message
unfolding deliver
deliver-IsPlaced queue_type now m d h found =
    let rest = remove Entries.scheduled [] m.id d.entries in
    elim (Bool-cases (group_exists m.group d)) [
      | inl exists ↦ rw exists (
          move-IsPlaced Entries.scheduled [] m.id Entries.pending status_pending
            (λ f. record f { status = some status_pending; published_at = m.published_at })
            d.entries (enqueue queue_type m rest) d.message h found refl refl refl (λ f. refl)
            stands_in_pending
            (λ place j t. count-enqueue queue_type m place j rest (
              count-gone Entries.scheduled [] m.id in_queue d.entries d.message h found refl refl
                refl refl)))
      | inr gone ↦ rw gone (dead-IsPlaced now m d h found)
    ]

-- ZADD of a member changes its score only.
pub count-reschedule :
    (next id place j : ℕ) (es : List Entry)
    → removed Entries.scheduled [] id es ≡ true
    → count place j (zadd Entries.scheduled [] next id es) ≡ count place j es
unfolding count
count-reschedule next id place j es found = ground (
  arith,
  found,
  count-remove Entries.scheduled [] id place j es,
  count-append place j (remove Entries.scheduled [] id es)
      (record { kind = Entries.scheduled; label = []; score = next; id = id } ∷ []),
)

repeat_message-IsPlaced :
    (now next : ℕ) (m : Due) (clone : Publication) (d : Db)
    → IsPlaced d.entries d.message
    → removed Entries.scheduled [] m.id d.entries ≡ true
    → IsNew clone d
    → let (d', _) = repeat_message now m next clone d in IsPlaced d'.entries d'.message
unfolding repeat_message
repeat_message-IsPlaced now next m clone d h found new =
    elim (Bool-cases (group_exists m.group d)) [
      | inl exists ↦ rw exists (
          publish_message-IsPlaced clone
            (record d { entries = zadd Entries.scheduled [] next m.id d.entries })
            (record { unused = new.unused; waits = new.waits })
            (keep-IsPlaced d.entries (zadd Entries.scheduled [] next m.id d.entries) d.message
              d.message h (λ place j t. count-reschedule next m.id place j d.entries found)
              (λ place j. refl)))
      | inr gone ↦ rw (gone, found) (dead-IsPlaced now m d h found)
    ]

-- A due message that repeats still stands in the scheduled set, and its clone is new.
abbrev pub IsReady : Due → Db → Type 0
IsReady m d = elim m.repetition [
  | none ↦ Unit
  | some (next, clone) ↦ (removed Entries.scheduled [] m.id d.entries ≡ true) × IsNew clone d
]

-- So for each, when its turn comes.
abbrev pub AllReady : ℕ → ℕ → List Due → Db → Type 0
AllReady queue_type now [] d = Unit
AllReady queue_type now (m ∷ ms) d =
    IsReady m d × AllReady queue_type now ms (publish_due_one queue_type now m d).0

pub IsReady-some :
    (m : Due) (d : Db) (next : ℕ) (clone : Publication)
    → m.repetition ≡ some (next, clone)
    → IsReady m d
    → (removed Entries.scheduled [] m.id d.entries ≡ true) × IsNew clone d
IsReady-some m d next clone e ready = rw e at ready

pub publish_due_one-IsPlaced :
    (queue_type now : ℕ) (m : Due) (d : Db)
    → IsReady m d
    → IsPlaced d.entries d.message
    → let (d', _) = publish_due_one queue_type now m d in IsPlaced d'.entries d'.message
unfolding publish_due_one
publish_due_one-IsPlaced queue_type now m d ready h = elim (Option-cases m.repetition) [
  | inl e ↦ elim (Bool-cases (removed Entries.scheduled [] m.id d.entries)) [
    | inl found ↦ rw (e, publish_due_one, found) (deliver-IsPlaced queue_type now m d h found)
    | inr missing ↦ rw (e, publish_due_one, missing) h
  ]
  | inr ((next, clone), e) ↦
      let ready' : (removed Entries.scheduled [] m.id d.entries ≡ true) × IsNew clone d =
        IsReady-some m d next clone e ready in
      rw (e, publish_due_one) (repeat_message-IsPlaced now next m clone d h ready'.0 ready'.1)
]

publish_due-IsPlaced :
    (queue_type now : ℕ) (ms : List Due) (d : Db)
    → AllReady queue_type now ms d
    → IsPlaced d.entries d.message
    → let (d', _) = publish_due queue_type now ms d in IsPlaced d'.entries d'.message
unfolding publish_due
publish_due-IsPlaced queue_type now [] d ready h = h
publish_due-IsPlaced queue_type now (m ∷ ms) d (ready, rest) h =
    let one = publish_due_one-IsPlaced queue_type now m d ready h in
    elim (Result-cases (publish_due_one queue_type now m d).1) [
      | inl (found, e) ↦ rw (e, publish_due) (publish_due-IsPlaced queue_type now ms _ rest one)
      | inr (reply, e) ↦ rw (e, publish_due) one
    ]

pub publish_scheduled-IsPlaced :
    (now : ℕ) (ms : List Due) (d : Db)
    → ((queue_type : ℕ) → AllReady queue_type now ms d)
    → IsPlaced d.entries d.message
    → let (d', _) = publish_scheduled now ms d in IsPlaced d'.entries d'.message
unfolding publish_scheduled
publish_scheduled-IsPlaced now ms d ready h = elim (Option-cases d.queue_type) [
  | inl e ↦ rw (e, publish_scheduled) h
  | inr (queue_type, e) ↦ elim (Option-cases (refusal d)) [
    | inl open' ↦
        rw (e, publish_scheduled, open')
          (publish_due-IsPlaced queue_type now ms d (ready queue_type) h)
    | inr (reason, shut) ↦ rw (e, publish_scheduled, shut) h
  ]
]
