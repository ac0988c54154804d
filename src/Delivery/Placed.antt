-- ===== src/Delivery/Placed.antt =====
-- Where a message stands, by its status: in one place for each status of a message that is not
-- settled, and in none otherwise; and in the list of published messages while it has a hash.
pub mod Settled
pub mod Retries
pub mod Arrivals
pub mod Dues
use go_redis_smq.Prelude.{
  ℕ, zero, suc, ◌+◌, ◌-◌, ◌≡◌, ◌≤◌, ◌<◌, refl, sym, ◌∙◌, Bool, true, false, not, ◌&&◌, ◌||◌, Option,
  none, some, List, [], ◌∷◌, ◌++◌, ltb, leb, ◌==◌, if◌then◌else◌, arith, inl, inr, Option-cases,
  Bool-cases,
}
use go_redis_smq.Prelude.Text.{Text}
use go_redis_smq.Delivery.Entries
use go_redis_smq.Delivery.Entries.{
  Entry, place_of, in_queue, removed, remove, lpush, rpush, zadd, last_of, drop_last, lowest, ltrim,
  count,
}
use go_redis_smq.Delivery.Counting.{
  bit, count-append, count-remove, count-drop_last, removed-lowest, count-ltrim,
}
use go_redis_smq.Delivery.Data.{
  Db, Fields, update, status_pending, status_processing, status_scheduled, status_unack_requeuing,
  status_unack_delaying,
}

-- The places that a message's status speaks of.
abbrev pub is_tracked : ℕ → Bool
is_tracked place = (leb in_queue place && leb place Entries.scheduled) || place == Entries.published

-- Whether a message with this status stands in this place.
unfoldable pub stands_in : ℕ → Option ℕ → Bool
stands_in place none = false
stands_in place (some status) =
    if place == Entries.published
    then true
    else (if place == in_queue
        then status == status_pending || status == status_processing
        else (if place == Entries.requeued
            then status == status_unack_requeuing
            else (if place == Entries.delayed
                then status == status_unack_delaying
                else place == Entries.scheduled && status == status_scheduled)))

abbrev pub IsPlaced : List Entry → (ℕ → Fields) → Type 0
IsPlaced es message =
    (place id : ℕ)
    → is_tracked place ≡ true
    → count place id es ≡ bit (stands_in place (message id).status)

-- A status stands in one place beside the list of published messages.
stands_in_once :
    (place other : ℕ) (status : Option ℕ)
    → stands_in place status ≡ true
    → (place == Entries.published) ≡ false
    → (other == Entries.published) ≡ false
    → stands_in other status ≡ (place == other)
unfolding stands_in
stands_in_once place other none h p q = cc
stands_in_once place other (some status) h p q = ground arith

published_stands :
    (place status : ℕ) → (place == Entries.published) ≡ true → stands_in place (some status) ≡ true
unfolding stands_in
published_stands place status p = ground (arith, p)

-- A message that stands anywhere is published.
stands_in_published :
    (place other : ℕ) (status : Option ℕ)
    → stands_in place status ≡ true
    → (other == Entries.published) ≡ true
    → stands_in other status ≡ true
unfolding stands_in
stands_in_published place other none h p = cc
stands_in_published place other (some status) h p = ground arith

-- A message that has left its place stands in no other.
pub count-gone :
    (kind : ℕ) (label : Text) (id place : ℕ) (es : List Entry) (message : ℕ → Fields)
    → IsPlaced es message
    → removed kind label id es ≡ true
    → is_tracked (place_of kind) ≡ true
    → (place_of kind == Entries.published) ≡ false
    → is_tracked place ≡ true
    → (place == Entries.published) ≡ false
    → count place id (remove kind label id es) ≡ 0
count-gone kind label id place es message h found tk nk t p =
    let was : stands_in (place_of kind) (message id).status ≡ true =
      ground (arith, count-remove kind label id (place_of kind) id es, h (place_of kind) id tk) in
    ground (
      arith,
      count-remove kind label id place id es,
      h place id t,
      stands_in_once (place_of kind) place (message id).status was nk p,
    )

-- A message that is taken from one place and put into another, with the status of that place.
pub move-IsPlaced :
    (kind : ℕ) (label : Text) (id target : ℕ) (status : ℕ) (f : Fields → Fields)
    (es fs : List Entry) (message : ℕ → Fields)
    → IsPlaced es message
    → removed kind label id es ≡ true
    → is_tracked (place_of kind) ≡ true
    → (place_of kind == Entries.published) ≡ false
    → (place_of target == Entries.published) ≡ false
    → ((m : Fields) → (f m).status ≡ some status)
    → ((place : ℕ)
        → is_tracked place ≡ true
        → (place == Entries.published) ≡ false
        → stands_in place (some status) ≡ (place_of target == place))
    → ((place j : ℕ)
        → is_tracked place ≡ true
        → count place j fs
          ≡ count place j (remove kind label id es) + bit (place_of target == place && id == j))
    → IsPlaced fs (update id f message)
unfolding update
move-IsPlaced kind label id target status f es fs message h found tk nk nt hs home put place j t =
    let was : stands_in (place_of kind) (message id).status ≡ true =
      ground (arith, count-remove kind label id (place_of kind) id es, h (place_of kind) id tk) in
    elim (Bool-cases (id == j)) [
      | inr other ↦
          ground (arith, other, put place j t, count-remove kind label id place j es, h place j t)
      | inl same ↦ elim (Bool-cases (place == Entries.published)) [
        | inl p ↦ ground (
          arith,
          same,
          p,
          hs (message j),
          put place j t,
          count-remove kind label id place j es,
          h place j t,
          stands_in_published (place_of kind) place (message id).status was p,
          published_stands place status p,
        )
        | inr p ↦ ground (
          arith,
          same,
          p,
          hs (message j),
          put place j t,
          home place t p,
          count-remove kind label id place j es,
          h place j t,
          stands_in_once (place_of kind) place (message id).status was nk p,
        )
      ]
    ]

-- Commands that change no tracked place, and statuses only within a place.
pub keep-IsPlaced :
    (es fs : List Entry) (message message' : ℕ → Fields)
    → IsPlaced es message
    → ((place j : ℕ) → is_tracked place ≡ true → count place j fs ≡ count place j es)
    → ((place j : ℕ) → stands_in place (message' j).status ≡ stands_in place (message j).status)
    → IsPlaced fs message'
keep-IsPlaced es fs message message' h put same place j t =
    ground (arith, put place j t, h place j t, same place j)
