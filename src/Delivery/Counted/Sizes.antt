-- ===== src/Delivery/Counted/Sizes.antt =====
-- How many entries the loops of the scripts move, and that they leave the counters alone.
use go_redis_smq.Prelude.{
  ℕ, ◌+◌, ◌≡◌, refl, true, not, ◌&&◌, List, [], ◌∷◌, ◌==◌, if◌then◌else◌, arith, inl, inr,
  Bool-cases, length,
}
use go_redis_smq.Prelude.Text.{Text}
use go_redis_smq.Consumer.{is_dead_letter, resolve_unack_action}
use go_redis_smq.Delivery.Entries
use go_redis_smq.Delivery.Entries.{
  Entry, place_of, in_queue, removed, remove, lpush, rpush, zadd, ltrim, count, size,
}
use go_redis_smq.Delivery.Counting.{bit, size-remove, size-ltrim, size-rpush}
use go_redis_smq.Delivery.Data.{Db}
use go_redis_smq.Delivery.Placed.{is_tracked}
use go_redis_smq.Delivery.Unacknowledge.{
  Audit, Retention, UnackEntry, keep, unacknowledge_one, unacknowledge_each,
}
use go_redis_smq.Delivery.Acknowledge.{acknowledge_one, acknowledge_each, push_all, keep_all}

-- The counters that the scripts keep of places.
abbrev pub SameCounts : Db → Db → Type 0
SameCounts d d' =
    (d'.pending_count ≡ d.pending_count)
    × (d'.processing_count ≡ d.processing_count)
    × (d'.requeued_count ≡ d.requeued_count)
    × (d'.delayed_count ≡ d.delayed_count)
    × (d'.scheduled_count ≡ d.scheduled_count)
    × (d'.messages_count ≡ d.messages_count)

size-keep :
    (r : Retention) (id place : ℕ) (es : List Entry)
    → is_tracked place ≡ true
    → size place (keep r Entries.dead_lettered id es) ≡ size place es
unfolding keep
size-keep r id place es t = ground (
  arith,
  size-rpush Entries.dead_lettered [] id place es,
  size-ltrim Entries.dead_lettered [] r.queue_size place (rpush Entries.dead_lettered [] id es),
)

size-unacknowledge_one :
    (now : ℕ) (a : Audit) (consumer : Text) (e : UnackEntry) (d : Db) (place : ℕ)
    → removed Entries.processing consumer e.id d.entries ≡ true
    → is_tracked place ≡ true
    → size place (unacknowledge_one now a consumer e d).entries + bit (in_queue == place)
      ≡ size place d.entries
        + bit (
            not (is_dead_letter (resolve_unack_action now e.envelope e.cause))
            && Entries.requeued == place)
unfolding unacknowledge_one
size-unacknowledge_one now a consumer e d place found t =
    let rest = remove Entries.processing consumer e.id d.entries in
    elim (Bool-cases (is_dead_letter (resolve_unack_action now e.envelope e.cause))) [
      | inl dead ↦ rw dead (
          ground (
            arith,
            found,
            size-remove Entries.processing consumer e.id place d.entries,
            size-keep a.dead_lettered_messages e.id place rest t,
          ))
      | inr alive ↦ rw alive (
          ground (
            arith,
            found,
            size-remove Entries.processing consumer e.id place d.entries,
            size-rpush Entries.requeued [] e.id place rest,
          ))
    ]

pub size-unacknowledge_each :
    (now : ℕ) (a : Audit) (consumer : Text) (es : List UnackEntry) (d : Db) (place : ℕ)
    → is_tracked place ≡ true
    → let (d', deads, requeues) = unacknowledge_each now a consumer es d in
      size place d'.entries + (if in_queue == place then deads + requeues else 0)
      ≡ size place d.entries + (if Entries.requeued == place then requeues else 0)
unfolding unacknowledge_each
size-unacknowledge_each now a consumer [] d place t = ground arith
size-unacknowledge_each now a consumer (e ∷ es) d place t =
    elim (Bool-cases (removed Entries.processing consumer e.id d.entries)) [
      | inl found ↦ rw found (
          ground (
            arith,
            size-unacknowledge_one now a consumer e d place found t,
            size-unacknowledge_each now a consumer es (unacknowledge_one now a consumer e d) place
                t,
          ))
      | inr missing ↦
          rw missing (ground (arith, size-unacknowledge_each now a consumer es d place t))
    ]

pub unacknowledge_each-SameCounts :
    (now : ℕ) (a : Audit) (consumer : Text) (es : List UnackEntry) (d : Db)
    → SameCounts d (unacknowledge_each now a consumer es d).0
unfolding unacknowledge_each unacknowledge_one
unacknowledge_each-SameCounts now a consumer [] d = (refl, refl, refl, refl, refl, refl)
unacknowledge_each-SameCounts now a consumer (e ∷ es) d =
    elim (Bool-cases (removed Entries.processing consumer e.id d.entries)) [
      | inl found ↦
          rw found
            (unacknowledge_each-SameCounts now a consumer es (unacknowledge_one now a consumer e d))
      | inr missing ↦ rw missing (unacknowledge_each-SameCounts now a consumer es d)
    ]

pub size-acknowledge_each :
    (now : ℕ) (consumer : Text) (ids : List ℕ) (d : Db) (place : ℕ)
    → let (d', done, _) = acknowledge_each now consumer ids d in
      size place d'.entries + (if in_queue == place then length done else 0) ≡ size place d.entries
unfolding acknowledge_each acknowledge_one
size-acknowledge_each now consumer [] d place = ground arith
size-acknowledge_each now consumer (id ∷ ids) d place =
    elim (Bool-cases (removed Entries.processing consumer id d.entries)) [
      | inl found ↦ rw found (
          ground (
            arith,
            found,
            size-remove Entries.processing consumer id place d.entries,
            size-acknowledge_each now consumer ids (acknowledge_one now consumer id d) place,
          ))
      | inr missing ↦ rw missing (size-acknowledge_each now consumer ids d place)
    ]

pub acknowledge_each-SameCounts :
    (now : ℕ) (consumer : Text) (ids : List ℕ) (d : Db)
    → SameCounts d (acknowledge_each now consumer ids d).0
unfolding acknowledge_each acknowledge_one
acknowledge_each-SameCounts now consumer [] d = (refl, refl, refl, refl, refl, refl)
acknowledge_each-SameCounts now consumer (id ∷ ids) d =
    elim (Bool-cases (removed Entries.processing consumer id d.entries)) [
      | inl found ↦
          rw found
            (acknowledge_each-SameCounts now consumer ids (acknowledge_one now consumer id d))
      | inr missing ↦ rw missing (acknowledge_each-SameCounts now consumer ids d)
    ]

size-push_all :
    (place : ℕ) (ids : List ℕ) (es : List Entry)
    → is_tracked place ≡ true
    → size place (push_all Entries.acknowledged ids es) ≡ size place es
unfolding push_all
size-push_all place [] es t = refl
size-push_all place (id ∷ ids) es t = ground (
  arith,
  size-push_all place ids (rpush Entries.acknowledged [] id es) t,
  size-rpush Entries.acknowledged [] id place es,
)

pub size-keep_all :
    (r : Retention) (place : ℕ) (ids : List ℕ) (es : List Entry)
    → is_tracked place ≡ true
    → size place (keep_all r Entries.acknowledged ids es) ≡ size place es
unfolding keep_all
size-keep_all r place ids es t = ground (
  arith,
  size-push_all place ids es t,
  size-ltrim Entries.acknowledged [] r.queue_size place (push_all Entries.acknowledged ids es),
)
