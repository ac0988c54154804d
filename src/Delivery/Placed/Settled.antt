-- ===== src/Delivery/Placed/Settled.antt =====
-- The scripts that settle or retry messages keep each message in the place of its status.
use go_redis_smq.Prelude.{
  ℕ, ◌≡◌, refl, Bool, true, false, some, List, [], ◌∷◌, leb, ◌==◌, if◌then◌else◌, arith, inl, inr,
  Bool-cases,
}
use go_redis_smq.Prelude.Text.{Text}
use go_redis_smq.Consumer.{is_dead_letter, resolve_unack_action}
use go_redis_smq.Delivery.Entries
use go_redis_smq.Delivery.Entries.{
  Entry, place_of, in_queue, removed, remove, lpush, rpush, zadd, last_of, drop_last, lowest, ltrim,
  count,
}
use go_redis_smq.Delivery.Counting.{count-ltrim, count-rpush}
use go_redis_smq.Delivery.Data.{
  Db, Fields, status_unack_requeuing, status_dead_lettered, status_acknowledged,
}
use go_redis_smq.Delivery.Placed.{IsPlaced, is_tracked, stands_in, move-IsPlaced}
use go_redis_smq.Delivery.Unacknowledge.{
  Audit, Retention, UnackEntry, keep, settle, unacknowledge_one, unacknowledge_each,
}
use go_redis_smq.Delivery.Acknowledge.{acknowledge_one, acknowledge_each, push_all, keep_all}

-- The places of the statuses that the scripts give.
pub stands_in_settled :
    (place status : ℕ)
    → leb status_dead_lettered status ≡ true
    → (place == Entries.published) ≡ false
    → is_tracked place ≡ true
    → stands_in place (some status) ≡ false
unfolding stands_in
stands_in_settled place status h p t = ground arith

stands_in_acknowledged :
    (place : ℕ)
    → (place == Entries.published) ≡ false
    → is_tracked place ≡ true
    → stands_in place (some status_acknowledged) ≡ false
unfolding stands_in
stands_in_acknowledged place p t = ground arith

stands_in_requeued :
    (place : ℕ)
    → is_tracked place ≡ true
    → (place == Entries.published) ≡ false
    → stands_in place (some status_unack_requeuing) ≡ (Entries.requeued == place)
unfolding stands_in
stands_in_requeued place t p = ground arith

settle_status :
    (now : ℕ) (a : Audit) (e : UnackEntry) (dead : Bool) (m : Fields)
    → (settle now a e dead m).status
      ≡ some (if dead then status_dead_lettered else status_unack_requeuing)
unfolding settle
settle_status now a e dead m = refl

count-keep :
    (r : Retention) (kind id place j : ℕ) (es : List Entry)
    → is_tracked place ≡ true
    → leb Entries.dead_lettered kind ≡ true
    → leb kind Entries.acknowledged ≡ true
    → count place j (keep r kind id es) ≡ count place j es
unfolding keep
count-keep r kind id place j es t k l = ground (
  arith,
  count-rpush kind [] id place j es,
  count-ltrim kind [] r.queue_size place j (rpush kind [] id es),
)

pub unacknowledge_one-IsPlaced :
    (now : ℕ) (a : Audit) (consumer : Text) (e : UnackEntry) (d : Db)
    → IsPlaced d.entries d.message
    → removed Entries.processing consumer e.id d.entries ≡ true
    → let d' = unacknowledge_one now a consumer e d in IsPlaced d'.entries d'.message
unfolding unacknowledge_one
unacknowledge_one-IsPlaced now a consumer e d h found =
    let rest = remove Entries.processing consumer e.id d.entries in
    elim (Bool-cases (is_dead_letter (resolve_unack_action now e.envelope e.cause))) [
      | inl dead ↦ rw dead (
          move-IsPlaced Entries.processing consumer e.id Entries.dead_lettered status_dead_lettered
            (settle now a e true) d.entries
            (keep a.dead_lettered_messages Entries.dead_lettered e.id rest) d.message h found refl
            refl refl (λ m. settle_status now a e true m)
            (λ place t p. ground (arith, stands_in_settled place status_dead_lettered refl p t))
            (λ place j t. ground (
              arith,
              count-keep a.dead_lettered_messages Entries.dead_lettered e.id place j rest t refl
                  refl,
            )))
      | inr alive ↦ rw alive (
          move-IsPlaced Entries.processing consumer e.id Entries.requeued status_unack_requeuing
            (settle now a e false) d.entries (rpush Entries.requeued [] e.id rest) d.message h found
            refl refl refl (λ m. settle_status now a e false m) (stands_in_requeued)
            (λ place j t. count-rpush Entries.requeued [] e.id place j rest))
    ]

-- A loop that does a step for each message that is in its place.
pub unacknowledge_each-IsPlaced :
    (now : ℕ) (a : Audit) (consumer : Text) (es : List UnackEntry) (d : Db)
    → IsPlaced d.entries d.message
    → let (d', _, _) = unacknowledge_each now a consumer es d in IsPlaced d'.entries d'.message
unfolding unacknowledge_each
unacknowledge_each-IsPlaced now a consumer [] d h = h
unacknowledge_each-IsPlaced now a consumer (e ∷ es) d h =
    elim (Bool-cases (removed Entries.processing consumer e.id d.entries)) [
      | inl found ↦ rw found (
          unacknowledge_each-IsPlaced now a consumer es (unacknowledge_one now a consumer e d)
            (unacknowledge_one-IsPlaced now a consumer e d h found))
      | inr missing ↦ rw missing (unacknowledge_each-IsPlaced now a consumer es d h)
    ]

acknowledge_one-IsPlaced :
    (now : ℕ) (consumer : Text) (id : ℕ) (d : Db)
    → IsPlaced d.entries d.message
    → removed Entries.processing consumer id d.entries ≡ true
    → let d' = acknowledge_one now consumer id d in IsPlaced d'.entries d'.message
unfolding acknowledge_one
acknowledge_one-IsPlaced now consumer id d h found =
    move-IsPlaced Entries.processing consumer id Entries.acknowledged status_acknowledged
      (λ m. record m { status = some status_acknowledged; acknowledged_at = some now }) d.entries
      (remove Entries.processing consumer id d.entries) d.message h found refl refl refl (λ m. refl)
      (λ place t p. ground (arith, stands_in_acknowledged place p t)) (λ place j t. ground arith)

pub acknowledge_each-IsPlaced :
    (now : ℕ) (consumer : Text) (ids : List ℕ) (d : Db)
    → IsPlaced d.entries d.message
    → let (d', _, _) = acknowledge_each now consumer ids d in IsPlaced d'.entries d'.message
unfolding acknowledge_each
acknowledge_each-IsPlaced now consumer [] d h = h
acknowledge_each-IsPlaced now consumer (id ∷ ids) d h =
    elim (Bool-cases (removed Entries.processing consumer id d.entries)) [
      | inl found ↦ rw found (
          acknowledge_each-IsPlaced now consumer ids (acknowledge_one now consumer id d)
            (acknowledge_one-IsPlaced now consumer id d h found))
      | inr missing ↦ rw missing (acknowledge_each-IsPlaced now consumer ids d h)
    ]

count-push_all :
    (kind place j : ℕ) (ids : List ℕ) (es : List Entry)
    → (place_of kind == place) ≡ false
    → count place j (push_all kind ids es) ≡ count place j es
unfolding push_all
count-push_all kind place j [] es p = refl
count-push_all kind place j (id ∷ ids) es p = ground (
  arith,
  p,
  count-push_all kind place j ids (rpush kind [] id es) p,
  count-rpush kind [] id place j es,
)

pub count-keep_all :
    (r : Retention) (place j : ℕ) (ids : List ℕ) (es : List Entry)
    → is_tracked place ≡ true
    → count place j (keep_all r Entries.acknowledged ids es) ≡ count place j es
unfolding keep_all
count-keep_all r place j ids es t = ground (
  arith,
  count-push_all Entries.acknowledged place j ids es,
  count-ltrim Entries.acknowledged [] r.queue_size place j (push_all Entries.acknowledged ids es),
)
