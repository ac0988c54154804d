-- ===== src/Delivery/Counted/Settled.antt =====
-- The scripts that settle or retry messages keep the counters.
use go_redis_smq.Prelude.{
  ℕ, ◌+◌, ◌≡◌, refl, ap, ◌∙◌, true, List, [], ltb, arith, inl, inr, Option-cases, Bool-cases,
  length,
}
use go_redis_smq.Prelude.Int.{pos, ◌+ℤ◌, add_to, take_from, sum-sub_right, sum-add_left}
use go_redis_smq.Prelude.Text.{Text}
use go_redis_smq.Delivery.Entries
use go_redis_smq.Delivery.Entries.{
  Entry, place_of, in_queue, removed, remove, lpush, rpush, zadd, count, size, last_of, drop_last,
  lowest,
}
use go_redis_smq.Delivery.Data.{Db, refusal}
use go_redis_smq.Delivery.Placed.{IsPlaced, is_tracked}
use go_redis_smq.Delivery.Counted.Sizes.{
  size-unacknowledge_each, unacknowledge_each-SameCounts, size-acknowledge_each,
  acknowledge_each-SameCounts, size-keep_all,
}
use go_redis_smq.Delivery.Counted.RetrySizes.{
  size-requeue_each, size-requeue_due_each, delays-each, each-SameCounts, retry_now-SameCounts,
  requeue_one-SameCounts,
}
use go_redis_smq.Delivery.Unacknowledge.{
  Audit, UnackEntry, unacknowledge_each, unacknowledge_message,
}
use go_redis_smq.Delivery.Acknowledge.{acknowledge_each, acknowledge_message}
use go_redis_smq.Delivery.Requeue.{
  Retry, each, total, requeue_one, requeue_due_one, requeue_outcome, now_outcome, requeue_immediate,
  requeue_delayed,
}
use go_redis_smq.Delivery.Counted.{IsCounted}

pub unacknowledge_message-IsCounted :
    (now : ℕ) (a : Audit) (consumer : Text) (es : List UnackEntry) (d : Db)
    → IsCounted d
    → IsCounted (unacknowledge_message now a consumer es d).0
unfolding unacknowledge_message
unacknowledge_message-IsCounted now a consumer es d h = elim (Option-cases d.queue_type) [
  | inl n ↦ rw (n, unacknowledge_message) h
  | inr (t, n) ↦ elim (Option-cases (refusal d)) [
    | inl open' ↦
        let loop = unacknowledge_each now a consumer es d in
        let sizes = λ (place : ℕ) (t : is_tracked place ≡ true).
          size-unacknowledge_each now a consumer es d place t in
        let (p, q, r, l, s, m) = unacknowledge_each-SameCounts now a consumer es d in
        rw (n, unacknowledge_message, open')
          (record {
            in_queue =
                sum-sub_right loop.0.pending_count loop.0.processing_count (pos (loop.1 + loop.2))
                ∙ take_from (loop.0.pending_count +ℤ loop.0.processing_count)
                    (size Entries.in_queue d.entries) (size Entries.in_queue loop.0.entries)
                    (loop.1 + loop.2) (rw (p, q) h.in_queue)
                    (ground (arith, sizes Entries.in_queue refl));
            requeued =
                add_to loop.0.requeued_count (size Entries.requeued d.entries)
                  (size Entries.requeued loop.0.entries) loop.2 (r ∙ h.requeued)
                  (ground (arith, sizes Entries.requeued refl));
            delayed = l ∙ h.delayed ∙ ap pos (ground (arith, sizes Entries.delayed refl));
            scheduled = s ∙ h.scheduled ∙ ap pos (ground (arith, sizes Entries.scheduled refl));
            published = m ∙ h.published ∙ ap pos (ground (arith, sizes Entries.published refl));
          })
    | inr (reason, shut) ↦ rw (n, unacknowledge_message, shut) h
  ]
]

pub acknowledge_message-IsCounted :
    (now : ℕ) (a : Audit) (consumer : Text) (ids : List ℕ) (d : Db)
    → IsCounted d
    → IsCounted (acknowledge_message now a consumer ids d).0
unfolding acknowledge_message
acknowledge_message-IsCounted now a consumer ids d h = elim (Option-cases d.queue_type) [
  | inl n ↦ rw (n, acknowledge_message) h
  | inr (t, n) ↦ elim (Option-cases (refusal d)) [
    | inl open' ↦
        let loop = acknowledge_each now consumer ids d in
        let sizes = λ (place : ℕ). size-acknowledge_each now consumer ids d place in
        let kept = λ (place : ℕ) (t : is_tracked place ≡ true).
          size-keep_all a.acknowledged_messages place loop.1 loop.0.entries t in
        let (p, q, r, l, s, m) = acknowledge_each-SameCounts now consumer ids d in
        elim (Bool-cases (ltb 0 (length loop.1))) [
          | inl some' ↦
              rw (n, acknowledge_message, open', some')
                (record {
                  in_queue =
                      sum-sub_right loop.0.pending_count loop.0.processing_count
                        (pos (length loop.1))
                      ∙ take_from (loop.0.pending_count +ℤ loop.0.processing_count)
                          (size Entries.in_queue d.entries) _ (length loop.1) (rw (p, q) h.in_queue)
                          (ground (arith, sizes Entries.in_queue, kept Entries.in_queue refl));
                  requeued =
                      r
                      ∙ h.requeued
                      ∙ ap pos (ground (arith, sizes Entries.requeued, kept Entries.requeued refl));
                  delayed =
                      l
                      ∙ h.delayed
                      ∙ ap pos (ground (arith, sizes Entries.delayed, kept Entries.delayed refl));
                  scheduled =
                      s
                      ∙ h.scheduled
                      ∙ ap pos
                          (ground (arith, sizes Entries.scheduled, kept Entries.scheduled refl));
                  published =
                      m
                      ∙ h.published
                      ∙ ap pos
                          (ground (arith, sizes Entries.published, kept Entries.published refl));
                })
          | inr none' ↦
              rw (n, acknowledge_message, open', none')
                (record {
                  in_queue =
                      rw (p, q)
                        (h.in_queue ∙ ap pos (ground (arith, none', sizes Entries.in_queue)));
                  requeued = r ∙ h.requeued ∙ ap pos (ground (arith, sizes Entries.requeued));
                  delayed = l ∙ h.delayed ∙ ap pos (ground (arith, sizes Entries.delayed));
                  scheduled = s ∙ h.scheduled ∙ ap pos (ground (arith, sizes Entries.scheduled));
                  published = m ∙ h.published ∙ ap pos (ground (arith, sizes Entries.published));
                })
        ]
    | inr (reason, shut) ↦ rw (n, acknowledge_message, shut) h
  ]
]

pub requeue_immediate-IsCounted :
    (now : ℕ) (rs : List Retry) (d : Db)
    → IsPlaced d.entries d.message
    → IsCounted d
    → IsCounted (requeue_immediate now rs d).0
unfolding requeue_immediate
requeue_immediate-IsCounted now rs d placed h = elim (Option-cases d.queue_type) [
  | inl n ↦ rw (n, requeue_immediate) h
  | inr (queue_type, n) ↦ elim (Option-cases (refusal d)) [
    | inl open' ↦
        let loop = each Entries.requeued (requeue_one queue_type now) requeue_outcome rs d in
        let sizes = λ (place : ℕ) (t : is_tracked place ≡ true).
          size-requeue_each queue_type now rs d place placed t in
        let (p, q, r, l, s, m) =
          each-SameCounts Entries.requeued (requeue_one queue_type now) requeue_outcome rs d
            (requeue_one-SameCounts queue_type now) in
        rw (n, requeue_immediate, open')
          (record {
            in_queue =
                sum-add_left loop.0.pending_count loop.0.processing_count (pos loop.1.pendings)
                ∙ add_to (loop.0.pending_count +ℤ loop.0.processing_count)
                    (size Entries.in_queue d.entries) _ loop.1.pendings (rw (p, q) h.in_queue)
                    (ground (arith, sizes Entries.in_queue refl));
            requeued =
                take_from loop.0.requeued_count (size Entries.requeued d.entries) _ (total loop.1)
                  (r ∙ h.requeued) (ground (arith, sizes Entries.requeued refl));
            delayed =
                add_to loop.0.delayed_count (size Entries.delayed d.entries) _ loop.1.delays
                  (l ∙ h.delayed) (ground (arith, sizes Entries.delayed refl));
            scheduled = s ∙ h.scheduled ∙ ap pos (ground (arith, sizes Entries.scheduled refl));
            published = m ∙ h.published ∙ ap pos (ground (arith, sizes Entries.published refl));
          })
    | inr (reason, shut) ↦ rw (n, requeue_immediate, shut) h
  ]
]

pub requeue_delayed-IsCounted :
    (now : ℕ) (rs : List Retry) (d : Db)
    → IsPlaced d.entries d.message
    → IsCounted d
    → IsCounted (requeue_delayed now rs d).0
unfolding requeue_delayed requeue_due_one
requeue_delayed-IsCounted now rs d placed h = elim (Option-cases d.queue_type) [
  | inl n ↦ rw (n, requeue_delayed) h
  | inr (queue_type, n) ↦ elim (Option-cases (refusal d)) [
    | inl open' ↦
        let move = requeue_due_one queue_type now in
        let loop = each Entries.delayed move now_outcome rs d in
        let sizes = λ (place : ℕ) (t : is_tracked place ≡ true).
          size-requeue_due_each queue_type now rs d place placed t in
        let (p, q, r, l, s, m) = each-SameCounts Entries.delayed move now_outcome rs d (λ r d.
          retry_now-SameCounts queue_type now r (remove Entries.delayed [] r.id d.entries) d) in
        rw (n, requeue_delayed, open')
          (record {
            in_queue =
                sum-add_left loop.0.pending_count loop.0.processing_count (pos loop.1.pendings)
                ∙ add_to (loop.0.pending_count +ℤ loop.0.processing_count)
                    (size Entries.in_queue d.entries) _ loop.1.pendings (rw (p, q) h.in_queue)
                    (ground (arith, sizes Entries.in_queue refl));
            requeued = r ∙ h.requeued ∙ ap pos (ground (arith, sizes Entries.requeued refl));
            delayed =
                take_from loop.0.delayed_count (size Entries.delayed d.entries) _ (total loop.1)
                  (l ∙ h.delayed)
                  (ground (arith, sizes Entries.delayed refl, delays-each move rs d));
            scheduled = s ∙ h.scheduled ∙ ap pos (ground (arith, sizes Entries.scheduled refl));
            published = m ∙ h.published ∙ ap pos (ground (arith, sizes Entries.published refl));
          })
    | inr (reason, shut) ↦ rw (n, requeue_delayed, shut) h
  ]
]
