-- ===== src/Delivery/Placed/Arrivals.antt =====
-- Publication, due messages and consumers keep each message in the place of its status.
use go_redis_smq.Prelude.{
  ℕ, ◌+◌, ◌≡◌, refl, true, false, ◌&&◌, ◌||◌, none, some, [], ap, ◌==◌, if◌then◌else◌, arith, inl,
  inr, Option-cases, Bool-cases, ◌⊎◌,
}
use go_redis_smq.Delivery.Entries
use go_redis_smq.Delivery.Entries.{
  Entry, place_of, in_queue, removed, remove, lpush, rpush, zadd, count, last_of, drop_last, lowest,
}
use go_redis_smq.Delivery.Counting.{
  bit, count-remove, count-lpush, count-rpush, count-zadd, count-drop_last, removed-lowest,
}
use go_redis_smq.Delivery.Data.{
  Db, update, has_status, status_pending, status_scheduled, type_priority, refusal,
}
use go_redis_smq.Delivery.Placed.{IsPlaced, is_tracked, stands_in, keep-IsPlaced}
use go_redis_smq.Delivery.Publish.{Publication, put, record_message, publish_message, objection}
use go_redis_smq.Delivery.Checkout.{Dequeuer, pop, pop_fifo, pop_priority, checkout_message, claim}

-- The id of a publication has not been used, and its status is one that `dispatch` gives.
pub record IsNew (p : Publication) (d : Db) : Type 0 where
  pub unused : (d.message p.id).status ≡ none
  pub waits : (p.fields.status ≡ some status_pending) ⊎ (p.fields.status ≡ some status_scheduled)

abbrev pub target : Publication → ℕ
target p = if has_status status_pending p.fields.status then in_queue else Entries.scheduled

count-put :
    (queue_type : ℕ) (p : Publication) (d : Db) (place j : ℕ)
    → count in_queue p.id d.entries ≡ 0
    → count Entries.scheduled p.id d.entries ≡ 0
    → count place j (put queue_type p d).entries
      ≡ count place j d.entries + bit (target p == place && p.id == j)
unfolding put
count-put queue_type p d place j q s = ground (
  arith,
  count-rpush Entries.pending p.group p.id place j d.entries,
  count-lpush Entries.pending p.group p.id place j d.entries,
  count-zadd Entries.priority p.group (elim p.priority [ none ↦ 0 | some n ↦ n ]) p.id place j
      d.entries q,
  count-zadd Entries.scheduled [] p.scheduled_timestamp p.id place j d.entries s,
)

put-message : (queue_type : ℕ) (p : Publication) (d : Db) → (put queue_type p d).message ≡ d.message
unfolding put
put-message queue_type p d = ground arith

stands_in-target :
    (p : Publication) (place : ℕ)
    → (p.fields.status ≡ some status_pending) ⊎ (p.fields.status ≡ some status_scheduled)
    → is_tracked place ≡ true
    → stands_in place p.fields.status ≡ (target p == place || place == Entries.published)
unfolding stands_in
stands_in-target p place (inl e) t = rw e (ground arith)
stands_in-target p place (inr e) t = rw e (ground arith)

-- Neither place of a new message is the list of published messages.
target_unpublished : (p : Publication) → (target p == Entries.published) ≡ false
target_unpublished p = ground arith

pub unused_count :
    (place : ℕ) (p : Publication) (d : Db)
    → IsNew p d
    → IsPlaced d.entries d.message
    → is_tracked place ≡ true
    → count place p.id d.entries ≡ 0
unfolding stands_in
unused_count place p d new h t = rw (h place p.id t, new.unused)

congruent :
    (queue_type : ℕ) (p : Publication) (d : Db) (j : ℕ)
    → (put queue_type p d).message j ≡ d.message j
congruent queue_type p d j = ap (λ m. m j) (put-message queue_type p d)

put-IsPlaced :
    (queue_type : ℕ) (p : Publication) (d : Db)
    → IsNew p d
    → IsPlaced d.entries d.message
    → let d' = record_message p (put queue_type p d) in IsPlaced d'.entries d'.message
unfolding record_message update
put-IsPlaced queue_type p d new h place j t =
    let gone = λ (place : ℕ) (t : is_tracked place ≡ true). unused_count place p d new h t in
    ground (
      arith,
      new.unused,
      gone place t,
      put-message queue_type p d,
      stands_in-target p place new.waits t,
      count-rpush Entries.published [] p.id place j (put queue_type p d).entries,
      count-put queue_type p d place j (gone in_queue refl) (gone Entries.scheduled refl),
      target_unpublished p,
      h place j t,
      congruent queue_type p d j,
    )

pub publish_message-IsPlaced :
    (p : Publication) (d : Db)
    → IsNew p d
    → IsPlaced d.entries d.message
    → let (d', _) = publish_message p d in IsPlaced d'.entries d'.message
unfolding publish_message
publish_message-IsPlaced p d new h = elim (Option-cases d.queue_type) [
  | inl e ↦ rw (e, publish_message) h
  | inr (queue_type, e) ↦ elim (Option-cases (objection d queue_type p)) [
    | inl fine ↦ rw (e, publish_message, fine) (put-IsPlaced queue_type p d new h)
    | inr (reply, bad) ↦ rw (e, publish_message, bad) h
  ]
]

pop_fifo-IsPlaced :
    (c : Dequeuer) (d : Db)
    → IsPlaced d.entries d.message
    → let (d', _) = pop_fifo c d in IsPlaced d'.entries d'.message
unfolding pop_fifo
pop_fifo-IsPlaced c d h = elim (Option-cases (last_of Entries.pending c.group d.entries)) [
  | inl e ↦ rw (e, pop_fifo) h
  | inr (id, e) ↦
      let rest = drop_last Entries.pending c.group d.entries in
      rw (e, pop_fifo)
        (keep-IsPlaced d.entries (lpush Entries.processing c.consumer id rest) d.message d.message h
          (λ place j t. ground (
            arith,
            count-lpush Entries.processing c.consumer id place j rest,
            count-drop_last Entries.pending c.group id place j d.entries e,
          ))
          (λ place j. refl))
]

pop_priority-IsPlaced :
    (c : Dequeuer) (d : Db)
    → IsPlaced d.entries d.message
    → let (d', _) = pop_priority c d in IsPlaced d'.entries d'.message
unfolding pop_priority
pop_priority-IsPlaced c d h = elim (Option-cases (lowest Entries.priority c.group d.entries)) [
  | inl e ↦ rw (e, pop_priority) h
  | inr (m, e) ↦
      let rest = remove Entries.priority c.group m.id d.entries in
      rw (e, pop_priority)
        (keep-IsPlaced d.entries (lpush Entries.processing c.consumer m.id rest) d.message d.message
          h
          (λ place j t. ground (
            arith,
            count-lpush Entries.processing c.consumer m.id place j rest,
            removed-lowest Entries.priority c.group m d.entries e,
            count-remove Entries.priority c.group m.id place j d.entries,
          ))
          (λ place j. refl))
]

pub pop-IsPlaced :
    (c : Dequeuer) (d : Db)
    → IsPlaced d.entries d.message
    → let (d', _) = pop c d in IsPlaced d'.entries d'.message
unfolding pop
pop-IsPlaced c d h = elim (Bool-cases (c.queue_type == type_priority)) [
  | inl e ↦ rw e (pop_priority-IsPlaced c d h)
  | inr e ↦ rw e (pop_fifo-IsPlaced c d h)
]

-- A message that is claimed stays in its place.
claimed_stands :
    (now id status place j : ℕ) (d : Db)
    → (d.message id).status ≡ some status
    → (status == status_pending) ≡ true
    → stands_in place (update id (claim now) d.message j).status
      ≡ stands_in place (d.message j).status
unfolding update claim stands_in
claimed_stands now id status place j d s p = ground (arith, s, p)

pub checkout_message-IsPlaced :
    (now id : ℕ) (d : Db)
    → IsPlaced d.entries d.message
    → let (d', _) = checkout_message now id d in IsPlaced d'.entries d'.message
unfolding checkout_message
checkout_message-IsPlaced now id d h = elim (Option-cases (refusal d)) [
  | inr (reason, e) ↦ rw (e, checkout_message) h
  | inl e ↦ elim (Option-cases (d.message id).status) [
    | inl none' ↦ rw (e, checkout_message, none') h
    | inr (status, s) ↦ elim (Bool-cases (status == status_pending)) [
      | inr other ↦ rw (e, checkout_message, s, other) h
      | inl pending' ↦
          rw (e, checkout_message, s, pending')
            (keep-IsPlaced d.entries d.entries d.message (update id (claim now) d.message) h
              (λ place j t. refl) (λ place j. claimed_stands now id status place j d s pending'))
    ]
  ]
]
