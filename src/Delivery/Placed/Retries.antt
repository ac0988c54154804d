-- ===== src/Delivery/Placed/Retries.antt =====
-- Retries and due messages keep each message in the place of its status.
use go_redis_smq.Prelude.{
  ℕ, ◌+◌, ◌≡◌, refl, true, false, ◌&&◌, none, some, List, [], ◌∷◌, ltb, ◌==◌, if◌then◌else◌, arith,
  inl, inr, Bool-cases,
}
use go_redis_smq.Scheduling.{milliseconds}
use go_redis_smq.Delivery.Entries
use go_redis_smq.Delivery.Entries.{
  Entry, place_of, in_queue, removed, remove, lpush, rpush, zadd, count,
}
use go_redis_smq.Delivery.Counting.{bit, count-rpush, count-zadd}
use go_redis_smq.Delivery.Data.{Db, status_pending, status_unack_delaying, status_dead_lettered}
use go_redis_smq.Delivery.Placed.{IsPlaced, is_tracked, stands_in, move-IsPlaced, count-gone}
use go_redis_smq.Delivery.Placed.Settled.{stands_in_settled}
use go_redis_smq.Delivery.Requeue.{
  Retry, Outcome, retry_now, requeue_one, requeue_due_one, back_to_pending, mark_retried, mark_dead,
  mark_delaying, group_exists, each,
}

pub stands_in_pending :
    (place : ℕ)
    → is_tracked place ≡ true
    → (place == Entries.published) ≡ false
    → stands_in place (some status_pending) ≡ (in_queue == place)
unfolding stands_in
stands_in_pending place t p = ground arith

stands_in_delaying :
    (place : ℕ)
    → is_tracked place ≡ true
    → (place == Entries.published) ≡ false
    → stands_in place (some status_unack_delaying) ≡ (Entries.delayed == place)
unfolding stands_in
stands_in_delaying place t p = ground arith

pub count-back_to_pending :
    (queue_type now : ℕ) (r : Retry) (place j : ℕ) (es : List Entry)
    → count in_queue r.id es ≡ 0
    → count place j (back_to_pending queue_type now r es)
      ≡ count place j es + bit (in_queue == place && r.id == j)
unfolding back_to_pending
count-back_to_pending queue_type now r place j es gone = ground (
  arith,
  count-rpush Entries.pending r.group r.id place j es,
  count-zadd Entries.priority r.group (elim r.priority [ none ↦ 0 | some n ↦ n ]) r.id place j es
      gone,
)

-- Its message is taken from a place that is neither its queue nor the list of published messages.
retry_now-IsPlaced :
    (kind queue_type now : ℕ) (r : Retry) (d : Db)
    → IsPlaced d.entries d.message
    → removed kind [] r.id d.entries ≡ true
    → is_tracked (place_of kind) ≡ true
    → (place_of kind == Entries.published) ≡ false
    → let d' = retry_now queue_type now r (remove kind [] r.id d.entries) d in
      IsPlaced d'.entries d'.message
unfolding retry_now mark_retried mark_dead
retry_now-IsPlaced kind queue_type now r d h found tk nk =
    let rest = remove kind [] r.id d.entries in
    elim (Bool-cases (group_exists r.group d)) [
      | inl exists ↦ rw exists (
          move-IsPlaced kind [] r.id Entries.pending status_pending (mark_retried now) d.entries
            (back_to_pending queue_type now r rest) d.message h found tk nk refl (λ m. refl)
            stands_in_pending
            (λ place j t.
              count-back_to_pending queue_type now r place j rest
                (count-gone kind [] r.id in_queue d.entries d.message h found tk nk refl refl)))
      | inr gone ↦ rw gone (
          move-IsPlaced kind [] r.id Entries.dead_lettered status_dead_lettered (mark_dead now)
            d.entries (rpush Entries.dead_lettered [] r.id rest) d.message h found tk nk refl
            (λ m. refl)
            (λ place t p. ground (arith, stands_in_settled place status_dead_lettered refl p t))
            (λ place j t. count-rpush Entries.dead_lettered [] r.id place j rest))
    ]

pub requeue_one-IsPlaced :
    (queue_type now : ℕ) (r : Retry) (d : Db)
    → IsPlaced d.entries d.message
    → removed Entries.requeued [] r.id d.entries ≡ true
    → let d' = requeue_one queue_type now r d in IsPlaced d'.entries d'.message
unfolding requeue_one
requeue_one-IsPlaced queue_type now r d h found =
    let rest = remove Entries.requeued [] r.id d.entries in
    let due = if ltb 0 r.retry_delay then now + milliseconds r.retry_delay else 0 in
    elim (Bool-cases (milliseconds r.retry_delay == 0)) [
      | inl soon ↦
          rw soon (retry_now-IsPlaced Entries.requeued queue_type now r d h found refl refl)
      | inr late ↦ rw late (
          move-IsPlaced Entries.requeued [] r.id Entries.delayed status_unack_delaying mark_delaying
            d.entries (zadd Entries.delayed [] due r.id rest) d.message h found refl refl refl
            (λ m. refl) stands_in_delaying
            (λ place j t. count-zadd Entries.delayed [] due r.id place j rest (
              count-gone Entries.requeued [] r.id Entries.delayed d.entries d.message h found refl
                refl refl refl)))
    ]

pub requeue_due_one-IsPlaced :
    (queue_type now : ℕ) (r : Retry) (d : Db)
    → IsPlaced d.entries d.message
    → removed Entries.delayed [] r.id d.entries ≡ true
    → let d' = requeue_due_one queue_type now r d in IsPlaced d'.entries d'.message
unfolding requeue_due_one
requeue_due_one-IsPlaced queue_type now r d h found =
    retry_now-IsPlaced Entries.delayed queue_type now r d h found refl refl

pub each-IsPlaced :
    (kind : ℕ) (move : Retry → Db → Db) (outcome : Retry → Db → Outcome) (rs : List Retry) (d : Db)
    → ((r : Retry) (d : Db)
        → IsPlaced d.entries d.message
        → removed kind [] r.id d.entries ≡ true
        → IsPlaced (move r d).entries (move r d).message)
    → IsPlaced d.entries d.message
    → let (d', _) = each kind move outcome rs d in IsPlaced d'.entries d'.message
unfolding each
each-IsPlaced kind move outcome [] d keep h = h
each-IsPlaced kind move outcome (r ∷ rs) d keep h =
    elim (Bool-cases (removed kind [] r.id d.entries)) [
      | inl found ↦ rw found (each-IsPlaced kind move outcome rs (move r d) keep (keep r d h found))
      | inr missing ↦ rw missing (each-IsPlaced kind move outcome rs d keep h)
    ]
