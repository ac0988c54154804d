-- ===== src/Delivery/Balanced.antt =====
-- The counters of a queue among themselves: every message that was published is counted as pending or
-- processing, to be requeued, delayed, scheduled, acknowledged or dead-lettered.
pub mod Scripts
use go_redis_smq.Prelude.{
  ℕ, ◌+◌, ◌≡◌, refl, ◌∙◌, true, false, none, some, List, [], ◌∷◌, ◌==◌, ltb, length, arith, inl,
  inr, Option-cases, Bool-cases, Result-cases,
}
use go_redis_smq.Prelude.Int.{ℤ, pos, ◌+ℤ◌, ◌-ℤ◌, integers}
use go_redis_smq.Prelude.Text.{Text}
use go_redis_smq.Scheduling.{milliseconds}
use go_redis_smq.Delivery.Entries
use go_redis_smq.Delivery.Entries.{Entry, removed, remove}
use go_redis_smq.Delivery.Data.{Db, refusal, has_status, status_pending}
use go_redis_smq.Delivery.Counted.Sizes.{
  SameCounts, unacknowledge_each-SameCounts, acknowledge_each-SameCounts,
}
use go_redis_smq.Delivery.Counted.RetrySizes.{
  each-SameCounts, retry_now-SameCounts, requeue_one-SameCounts,
}
use go_redis_smq.Delivery.Publish.{Publication, put, record_message, objection, publish_message}
use go_redis_smq.Delivery.Unacknowledge.{
  Audit, UnackEntry, unacknowledge_one, unacknowledge_each, unacknowledge_message,
  unacknowledge_batch,
}
use go_redis_smq.Delivery.Acknowledge.{acknowledge_one, acknowledge_each, acknowledge_message}
use go_redis_smq.Delivery.Requeue.{
  Retry, Outcome, each, total, group_exists, retry_now, requeue_one, requeue_due_one,
  requeue_outcome, now_outcome, requeue_immediate, requeue_delayed,
}
use go_redis_smq.Delivery.Scheduled.{
  Due, deliver, repeat_message, publish_due_one, publish_due, publish_scheduled,
}

abbrev pub counted : ℤ → ℤ → ℤ → ℤ → ℤ → ℤ → ℤ → ℤ
counted pending processing requeued delayed scheduled acknowledged dead =
    pending +ℤ processing +ℤ requeued +ℤ delayed +ℤ scheduled +ℤ acknowledged +ℤ dead

abbrev pub sum : Db → ℤ
sum d =
    counted d.pending_count d.processing_count d.requeued_count d.delayed_count d.scheduled_count
      d.acknowledged_count d.dead_lettered_count

abbrev pub IsBalanced : Db → Type 0
IsBalanced d = sum d ≡ d.messages_count

-- The counters that the loops of the scripts leave alone too.
abbrev pub SameSettled : Db → Db → Type 0
SameSettled d d' =
    (d'.acknowledged_count ≡ d.acknowledged_count)
    × (d'.dead_lettered_count ≡ d.dead_lettered_count)

pub unacknowledge_each-SameSettled :
    (now : ℕ) (a : Audit) (consumer : Text) (es : List UnackEntry) (d : Db)
    → SameSettled d (unacknowledge_each now a consumer es d).0
unfolding unacknowledge_each unacknowledge_one
unacknowledge_each-SameSettled now a consumer [] d = (refl, refl)
unacknowledge_each-SameSettled now a consumer (e ∷ es) d =
    elim (Bool-cases (removed Entries.processing consumer e.id d.entries)) [
      | inl found ↦
          rw found (
            unacknowledge_each-SameSettled now a consumer es (unacknowledge_one now a consumer e d))
      | inr missing ↦ rw missing (unacknowledge_each-SameSettled now a consumer es d)
    ]

pub acknowledge_each-SameSettled :
    (now : ℕ) (consumer : Text) (ids : List ℕ) (d : Db)
    → SameSettled d (acknowledge_each now consumer ids d).0
unfolding acknowledge_each acknowledge_one
acknowledge_each-SameSettled now consumer [] d = (refl, refl)
acknowledge_each-SameSettled now consumer (id ∷ ids) d =
    elim (Bool-cases (removed Entries.processing consumer id d.entries)) [
      | inl found ↦
          rw found
            (acknowledge_each-SameSettled now consumer ids (acknowledge_one now consumer id d))
      | inr missing ↦ rw missing (acknowledge_each-SameSettled now consumer ids d)
    ]

pub each-SameSettled :
    (kind : ℕ) (move : Retry → Db → Db) (outcome : Retry → Db → Outcome) (rs : List Retry) (d : Db)
    → ((r : Retry) (d : Db) → SameSettled d (move r d))
    → SameSettled d (each kind move outcome rs d).0
unfolding each
each-SameSettled kind move outcome [] d same = (refl, refl)
each-SameSettled kind move outcome (r ∷ rs) d same =
    elim (Bool-cases (removed kind [] r.id d.entries)) [
      | inl found ↦
          let (a, b) = each-SameSettled kind move outcome rs (move r d) same in
          let (a', b') = same r d in rw found (a ∙ a', b ∙ b')
      | inr missing ↦ rw missing (each-SameSettled kind move outcome rs d same)
    ]

pub retry_now-SameSettled :
    (queue_type now : ℕ) (r : Retry) (rest : List Entry) (d : Db)
    → SameSettled d (retry_now queue_type now r rest d)
unfolding retry_now
retry_now-SameSettled queue_type now r rest d = elim (Bool-cases (group_exists r.group d)) [
  | inl exists ↦ rw exists (refl, refl)
  | inr gone ↦ rw gone (refl, refl)
]

pub requeue_one-SameSettled :
    (queue_type now : ℕ) (r : Retry) (d : Db) → SameSettled d (requeue_one queue_type now r d)
unfolding requeue_one
requeue_one-SameSettled queue_type now r d = elim (Bool-cases (milliseconds r.retry_delay == 0)) [
  | inl soon ↦
      rw soon (retry_now-SameSettled queue_type now r (remove Entries.requeued [] r.id d.entries) d)
  | inr late ↦ rw late (refl, refl)
]

-- What each script does to the sum.
pub counted_unacknowledged :
    (p q r l s a x : ℤ) (n m : ℕ)
    → counted p (q -ℤ pos (n + m)) (r +ℤ pos m) l s a (x +ℤ pos n) ≡ counted p q r l s a x
counted_unacknowledged p q r l s a x n m = omega integers

pub counted_acknowledged :
    (p q r l s a x : ℤ) (n : ℕ)
    → counted p (q -ℤ pos n) r l s (a +ℤ pos n) x ≡ counted p q r l s a x
counted_acknowledged p q r l s a x n = omega integers

pub counted_requeued :
    (p q r l s a x : ℤ) (n m k : ℕ)
    → counted (p +ℤ pos n) q (r -ℤ pos (n + m + k)) (l +ℤ pos m) s a (x +ℤ pos k)
      ≡ counted p q r l s a x
counted_requeued p q r l s a x n m k = omega integers

pub counted_due :
    (p q r l s a x : ℤ) (n k : ℕ)
    → counted (p +ℤ pos n) q r (l -ℤ pos (n + k)) s a (x +ℤ pos k) ≡ counted p q r l s a x
counted_due p q r l s a x n k = omega integers

pub counted_checked_out :
    (p q r l s a x : ℤ) → counted (p -ℤ pos 1) (q +ℤ pos 1) r l s a x ≡ counted p q r l s a x
counted_checked_out p q r l s a x = omega integers

pub counted_delivered :
    (p q r l s a x : ℤ) → counted (p +ℤ pos 1) q r l (s -ℤ pos 1) a x ≡ counted p q r l s a x
counted_delivered p q r l s a x = omega integers

pub counted_dead :
    (p q r l s a x : ℤ) → counted p q r l (s -ℤ pos 1) a (x +ℤ pos 1) ≡ counted p q r l s a x
counted_dead p q r l s a x = omega integers

pub counted_pending :
    (p q r l s a x : ℤ) → counted (p +ℤ pos 1) q r l s a x ≡ counted p q r l s a x +ℤ pos 1
counted_pending p q r l s a x = omega integers

pub counted_scheduled :
    (p q r l s a x : ℤ) → counted p q r l (s +ℤ pos 1) a x ≡ counted p q r l s a x +ℤ pos 1
counted_scheduled p q r l s a x = omega integers

-- Data whose counters are the same.
pub same-IsBalanced :
    (d d' : Db) → SameCounts d d' → SameSettled d d' → IsBalanced d → IsBalanced d'
same-IsBalanced d d' (p, q, r, l, s, m) (a, x) h = rw (p, q, r, l, s, a, x, m) h
