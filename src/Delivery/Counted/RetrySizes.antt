-- ===== src/Delivery/Counted/RetrySizes.antt =====
-- How many entries the loops of the requeuers move, and that they leave the counters alone.
use go_redis_smq.Prelude.{
  ℕ, ◌+◌, ◌≡◌, refl, ◌∙◌, true, false, none, some, List, [], ◌∷◌, ltb, ◌==◌, if◌then◌else◌, arith,
  inl, inr, Bool-cases,
}
use go_redis_smq.Scheduling.{milliseconds}
use go_redis_smq.Delivery.Entries
use go_redis_smq.Delivery.Entries.{
  Entry, place_of, in_queue, removed, remove, rpush, zadd, count, size,
}
use go_redis_smq.Delivery.Counting.{bit, size-remove, size-rpush, size-zadd, not-removed}
use go_redis_smq.Delivery.Data.{Db}
use go_redis_smq.Delivery.Placed.{IsPlaced, is_tracked, count-gone}
use go_redis_smq.Delivery.Counted.Sizes.{SameCounts}
use go_redis_smq.Delivery.Placed.Retries.{requeue_one-IsPlaced, requeue_due_one-IsPlaced}
use go_redis_smq.Delivery.Requeue.{
  Retry, Outcome, to_pending, to_delayed, to_dead_letter, Tally, tally, total, retry_now,
  requeue_one, requeue_due_one, back_to_pending, group_exists, each, now_outcome, requeue_outcome,
}

-- How many entries of a place an outcome adds.
abbrev arrives : ℕ → Outcome → ℕ
arrives place to_pending = bit (in_queue == place)
arrives place to_delayed = bit (Entries.delayed == place)
arrives place to_dead_letter = 0

size-back_to_pending :
    (queue_type now : ℕ) (r : Retry) (place : ℕ) (es : List Entry)
    → count in_queue r.id es ≡ 0
    → size place (back_to_pending queue_type now r es) ≡ size place es + bit (in_queue == place)
unfolding back_to_pending
size-back_to_pending queue_type now r place es gone =
    let score : ℕ = elim r.priority [ none ↦ 0 | some n ↦ n ] in
    ground (
      arith,
      size-rpush Entries.pending r.group r.id place es,
      size-zadd Entries.priority r.group score r.id place es
          (not-removed Entries.priority r.group r.id es gone),
    )

size-retry_now :
    (kind queue_type now : ℕ) (r : Retry) (d : Db) (place : ℕ)
    → IsPlaced d.entries d.message
    → removed kind [] r.id d.entries ≡ true
    → is_tracked (place_of kind) ≡ true
    → (place_of kind == Entries.published) ≡ false
    → is_tracked place ≡ true
    → size place (retry_now queue_type now r (remove kind [] r.id d.entries) d).entries
        + bit (place_of kind == place)
      ≡ size place d.entries + arrives place (now_outcome r d)
unfolding retry_now
size-retry_now kind queue_type now r d place h found tk nk t =
    let rest = remove kind [] r.id d.entries in
    elim (Bool-cases (group_exists r.group d)) [
      | inl exists ↦ rw exists (
          ground (
            arith,
            found,
            size-remove kind [] r.id place d.entries,
            size-back_to_pending queue_type now r place rest
                (count-gone kind [] r.id in_queue d.entries d.message h found tk nk refl refl),
          ))
      | inr gone ↦ rw gone (
          ground (
            arith,
            found,
            size-remove kind [] r.id place d.entries,
            size-rpush Entries.dead_lettered [] r.id place rest,
          ))
    ]

size-requeue_one :
    (queue_type now : ℕ) (r : Retry) (d : Db) (place : ℕ)
    → IsPlaced d.entries d.message
    → removed Entries.requeued [] r.id d.entries ≡ true
    → is_tracked place ≡ true
    → size place (requeue_one queue_type now r d).entries + bit (Entries.requeued == place)
      ≡ size place d.entries + arrives place (requeue_outcome r d)
unfolding requeue_one
size-requeue_one queue_type now r d place h found t =
    let rest = remove Entries.requeued [] r.id d.entries in
    let due = if ltb 0 r.retry_delay then now + milliseconds r.retry_delay else 0 in
    elim (Bool-cases (milliseconds r.retry_delay == 0)) [
      | inl soon ↦
          rw soon (size-retry_now Entries.requeued queue_type now r d place h found refl refl t)
      | inr late ↦ rw late (
          ground (
            arith,
            found,
            size-remove Entries.requeued [] r.id place d.entries,
            size-zadd Entries.delayed [] due r.id place rest (
                not-removed Entries.delayed [] r.id rest (
                  count-gone Entries.requeued [] r.id Entries.delayed d.entries d.message h found
                    refl refl refl refl)),
          ))
    ]

size-tally :
    (kind place : ℕ) (o : Outcome) (t : Tally) (before middle after : ℕ)
    → middle + bit (place_of kind == place) ≡ before + arrives place o
    → after + (if place_of kind == place then total t else 0)
      ≡ middle
        + (if in_queue == place then t.pendings else 0)
        + (if Entries.delayed == place then t.delays else 0)
    → after + (if place_of kind == place then total (tally o t) else 0)
      ≡ before
        + (if in_queue == place then (tally o t).pendings else 0)
        + (if Entries.delayed == place then (tally o t).delays else 0)
size-tally kind place to_pending t before middle after h k = ground arith
size-tally kind place to_delayed t before middle after h k = ground arith
size-tally kind place to_dead_letter t before middle after h k = ground arith

-- A loop whose step moves one message to its outcome.
size-each :
    (kind : ℕ) (move : Retry → Db → Db) (outcome : Retry → Db → Outcome) (rs : List Retry) (d : Db)
    (place : ℕ)
    → ((r : Retry) (d : Db)
        → IsPlaced d.entries d.message
        → removed kind [] r.id d.entries ≡ true
        → IsPlaced (move r d).entries (move r d).message)
    → ((r : Retry) (d : Db)
        → IsPlaced d.entries d.message
        → removed kind [] r.id d.entries ≡ true
        → size place (move r d).entries + bit (place_of kind == place)
          ≡ size place d.entries + arrives place (outcome r d))
    → IsPlaced d.entries d.message
    → let (d', t) = each kind move outcome rs d in
      size place d'.entries + (if place_of kind == place then total t else 0)
      ≡ size place d.entries
        + (if in_queue == place then t.pendings else 0)
        + (if Entries.delayed == place then t.delays else 0)
unfolding each
size-each kind move outcome [] d place keep moves h = ground arith
size-each kind move outcome (r ∷ rs) d place keep moves h =
    elim (Bool-cases (removed kind [] r.id d.entries)) [
      | inl found ↦
          let later =
            size-each kind move outcome rs (move r d) place keep moves (keep r d h found) in
          rw found (
            size-tally kind place (outcome r d) (each kind move outcome rs (move r d)).1 _ _ _
              (moves r d h found) later)
      | inr missing ↦ rw missing (size-each kind move outcome rs d place keep moves h)
    ]

pub size-requeue_each :
    (queue_type now : ℕ) (rs : List Retry) (d : Db) (place : ℕ)
    → IsPlaced d.entries d.message
    → is_tracked place ≡ true
    → let (d', t) = each Entries.requeued (requeue_one queue_type now) requeue_outcome rs d in
      size place d'.entries + (if Entries.requeued == place then total t else 0)
      ≡ size place d.entries
        + (if in_queue == place then t.pendings else 0)
        + (if Entries.delayed == place then t.delays else 0)
size-requeue_each queue_type now rs d place h t =
    size-each Entries.requeued (requeue_one queue_type now) requeue_outcome rs d place
      (requeue_one-IsPlaced queue_type now)
      (λ r d h found. size-requeue_one queue_type now r d place h found t) h

pub size-requeue_due_each :
    (queue_type now : ℕ) (rs : List Retry) (d : Db) (place : ℕ)
    → IsPlaced d.entries d.message
    → is_tracked place ≡ true
    → let (d', t) = each Entries.delayed (requeue_due_one queue_type now) now_outcome rs d in
      size place d'.entries + (if Entries.delayed == place then total t else 0)
      ≡ size place d.entries
        + (if in_queue == place then t.pendings else 0)
        + (if Entries.delayed == place then t.delays else 0)
unfolding requeue_due_one
size-requeue_due_each queue_type now rs d place h t =
    size-each Entries.delayed (requeue_due_one queue_type now) now_outcome rs d place
      (requeue_due_one-IsPlaced queue_type now)
      (λ r d h found. size-retry_now Entries.delayed queue_type now r d place h found refl refl t) h

-- A message that was delayed is not delayed again.
pub delays-each :
    (move : Retry → Db → Db) (rs : List Retry) (d : Db)
    → (each Entries.delayed move now_outcome rs d).1.delays ≡ 0
unfolding each
delays-each move [] d = refl
delays-each move (r ∷ rs) d = elim (Bool-cases (removed Entries.delayed [] r.id d.entries)) [
  | inl found ↦ elim (Bool-cases (group_exists r.group d)) [
    | inl exists ↦ rw (found, exists) (delays-each move rs (move r d))
    | inr gone ↦ rw (found, gone) (delays-each move rs (move r d))
  ]
  | inr missing ↦ rw missing (delays-each move rs d)
]

pub each-SameCounts :
    (kind : ℕ) (move : Retry → Db → Db) (outcome : Retry → Db → Outcome) (rs : List Retry) (d : Db)
    → ((r : Retry) (d : Db) → SameCounts d (move r d))
    → SameCounts d (each kind move outcome rs d).0
unfolding each
each-SameCounts kind move outcome [] d same = (refl, refl, refl, refl, refl, refl)
each-SameCounts kind move outcome (r ∷ rs) d same =
    elim (Bool-cases (removed kind [] r.id d.entries)) [
      | inl found ↦
          let (a, b, c, e, f, g) = each-SameCounts kind move outcome rs (move r d) same in
          let (a', b', c', e', f', g') = same r d in
          rw found (a ∙ a', b ∙ b', c ∙ c', e ∙ e', f ∙ f', g ∙ g')
      | inr missing ↦ rw missing (each-SameCounts kind move outcome rs d same)
    ]

pub retry_now-SameCounts :
    (queue_type now : ℕ) (r : Retry) (rest : List Entry) (d : Db)
    → SameCounts d (retry_now queue_type now r rest d)
unfolding retry_now
retry_now-SameCounts queue_type now r rest d = elim (Bool-cases (group_exists r.group d)) [
  | inl exists ↦ rw exists (refl, refl, refl, refl, refl, refl)
  | inr gone ↦ rw gone (refl, refl, refl, refl, refl, refl)
]

pub requeue_one-SameCounts :
    (queue_type now : ℕ) (r : Retry) (d : Db) → SameCounts d (requeue_one queue_type now r d)
unfolding requeue_one
requeue_one-SameCounts queue_type now r d = elim (Bool-cases (milliseconds r.retry_delay == 0)) [
  | inl soon ↦
      rw soon (retry_now-SameCounts queue_type now r (remove Entries.requeued [] r.id d.entries) d)
  | inr late ↦ rw late (refl, refl, refl, refl, refl, refl)
]
