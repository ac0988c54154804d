-- ===== src/Delivery/Counting.antt =====
-- How the commands change the number of entries.
use go_redis_smq.Prelude.{
  ℕ, zero, suc, ◌+◌, ◌≡◌, refl, Bool, true, false, ◌&&◌, some, List, [], ◌∷◌, ◌++◌, ◌==◌,
  if◌then◌else◌, arith,
}
use go_redis_smq.Prelude.Text.{Text}
use go_redis_smq.Delivery.Entries.{
  Entry, place_of, of_key, holds, removed, remove, lpush, rpush, zadd, last_of, drop_last, precedes,
  lowest, drop_first, ltrim, count, size,
}

pub count-append :
    (kind id : ℕ) (es fs : List Entry)
    → count kind id (es ++ fs) ≡ count kind id es + count kind id fs
unfolding count
count-append kind id [] fs = omega arith
count-append kind id (e ∷ es) fs = omega (arith, count-append kind id es fs)

pub size-append :
    (kind : ℕ) (es fs : List Entry) → size kind (es ++ fs) ≡ size kind es + size kind fs
unfolding size
size-append kind [] fs = omega arith
size-append kind (e ∷ es) fs = omega (arith, size-append kind es fs)

abbrev pub bit : Bool → ℕ
bit b = if b then 1 else 0

-- LREM and ZREM take one entry, if they find it.
pub count-remove :
    (kind : ℕ) (label : Text) (id k j : ℕ) (es : List Entry)
    → count k j (remove kind label id es)
        + bit (removed kind label id es && place_of kind == k && id == j)
      ≡ count k j es
unfolding count remove removed holds of_key
count-remove kind label id k j [] = ground arith
count-remove kind label id k j (e ∷ es) = ground (arith, count-remove kind label id k j es)

pub size-remove :
    (kind : ℕ) (label : Text) (id k : ℕ) (es : List Entry)
    → size k (remove kind label id es) + bit (removed kind label id es && place_of kind == k)
      ≡ size k es
unfolding size remove removed holds of_key
size-remove kind label id k [] = ground arith
size-remove kind label id k (e ∷ es) = ground (arith, size-remove kind label id k es)

pub count-drop_last :
    (kind : ℕ) (label : Text) (id k j : ℕ) (es : List Entry)
    → last_of kind label es ≡ some id
    → count k j (drop_last kind label es) + bit (place_of kind == k && id == j) ≡ count k j es
unfolding count drop_last last_of of_key
count-drop_last kind label id k j [] h = ground arith
count-drop_last kind label id k j (e ∷ es) h = ground (arith, count-drop_last kind label id k j es)

pub size-drop_last :
    (kind : ℕ) (label : Text) (id k : ℕ) (es : List Entry)
    → last_of kind label es ≡ some id
    → size k (drop_last kind label es) + bit (place_of kind == k) ≡ size k es
unfolding size drop_last last_of of_key
size-drop_last kind label id k [] h = ground arith
size-drop_last kind label id k (e ∷ es) h = ground (arith, size-drop_last kind label id k es)

-- The member that is lowest is there to be removed.
pub removed-lowest :
    (kind : ℕ) (label : Text) (e : Entry) (es : List Entry)
    → lowest kind label es ≡ some e
    → removed kind label e.id es ≡ true
unfolding lowest removed holds of_key precedes
removed-lowest kind label e [] h = ground arith
removed-lowest kind label e (f ∷ es) h = ground (arith, removed-lowest kind label e es)

-- LTRIM leaves the other kinds alone.
count-drop_first :
    (kind : ℕ) (label : Text) (n k j : ℕ) (es : List Entry)
    → (place_of kind == k) ≡ false
    → count k j (drop_first kind label n es) ≡ count k j es
unfolding count drop_first of_key
count-drop_first kind label zero k j es h = refl
count-drop_first kind label (suc n) k j [] h = refl
count-drop_first kind label (suc n) k j (e ∷ es) h =
    ground
      (arith, count-drop_first kind label n k j es h, count-drop_first kind label (suc n) k j es h)

pub count-ltrim :
    (kind : ℕ) (label : Text) (n k j : ℕ) (es : List Entry)
    → (place_of kind == k) ≡ false
    → count k j (ltrim kind label n es) ≡ count k j es
unfolding ltrim
count-ltrim kind label n k j es h = count-drop_first kind label _ k j es h

size-drop_first :
    (kind : ℕ) (label : Text) (n k : ℕ) (es : List Entry)
    → (place_of kind == k) ≡ false
    → size k (drop_first kind label n es) ≡ size k es
unfolding size drop_first of_key
size-drop_first kind label zero k es h = refl
size-drop_first kind label (suc n) k [] h = refl
size-drop_first kind label (suc n) k (e ∷ es) h =
    ground (arith, size-drop_first kind label n k es h, size-drop_first kind label (suc n) k es h)

pub size-ltrim :
    (kind : ℕ) (label : Text) (n k : ℕ) (es : List Entry)
    → (place_of kind == k) ≡ false
    → size k (ltrim kind label n es) ≡ size k es
unfolding ltrim
size-ltrim kind label n k es h = size-drop_first kind label _ k es h

pub count-lpush :
    (kind : ℕ) (label : Text) (id place j : ℕ) (es : List Entry)
    → count place j (lpush kind label id es)
      ≡ count place j es + bit (place_of kind == place && id == j)
unfolding count
count-lpush kind label id place j es = ground arith

pub count-rpush :
    (kind : ℕ) (label : Text) (id place j : ℕ) (es : List Entry)
    → count place j (rpush kind label id es)
      ≡ count place j es + bit (place_of kind == place && id == j)
unfolding count
count-rpush kind label id place j es = ground (
  arith,
  count-append place j es (record { kind = kind; label = label; score = 0; id = id } ∷ []),
)

-- A member that is nowhere in the place is not in the set.
pub not-removed :
    (kind : ℕ) (label : Text) (id : ℕ) (es : List Entry)
    → count (place_of kind) id es ≡ 0
    → removed kind label id es ≡ false
not-removed kind label id es h = ground (arith, count-remove kind label id (place_of kind) id es)

pub count-zadd :
    (kind : ℕ) (label : Text) (score id place j : ℕ) (es : List Entry)
    → count (place_of kind) id es ≡ 0
    → count place j (zadd kind label score id es)
      ≡ count place j es + bit (place_of kind == place && id == j)
unfolding count
count-zadd kind label score id place j es h = ground (
  arith,
  not-removed kind label id es h,
  count-remove kind label id place j es,
  count-append place j (remove kind label id es)
      (record { kind = kind; label = label; score = score; id = id } ∷ []),
)

pub size-lpush :
    (kind : ℕ) (label : Text) (id place : ℕ) (es : List Entry)
    → size place (lpush kind label id es) ≡ size place es + bit (place_of kind == place)
unfolding size
size-lpush kind label id place es = ground arith

pub size-rpush :
    (kind : ℕ) (label : Text) (id place : ℕ) (es : List Entry)
    → size place (rpush kind label id es) ≡ size place es + bit (place_of kind == place)
unfolding size
size-rpush kind label id place es =
    ground
      (arith, size-append place es (record { kind = kind; label = label; score = 0; id = id } ∷ []))

pub size-zadd :
    (kind : ℕ) (label : Text) (score id place : ℕ) (es : List Entry)
    → removed kind label id es ≡ false
    → size place (zadd kind label score id es) ≡ size place es + bit (place_of kind == place)
unfolding size
size-zadd kind label score id place es h = ground (
  arith,
  h,
  size-remove kind label id place es,
  size-append place (remove kind label id es)
      (record { kind = kind; label = label; score = score; id = id } ∷ []),
)
