-- ===== src/Delivery/Kept.antt =====
-- A message that was dead-lettered stands in the list of dead-lettered messages, while the
-- configuration keeps this list and does not limit it.
pub mod Calls
pub mod Retries
pub mod Arrivals
pub mod Dues
use go_redis_smq.Prelude.{
  ℕ, zero, suc, ◌-◌, ◌≡◌, refl, sym, ◌∙◌, true, false, some, Option, List, [], ◌∷◌, ◌++◌, ◌==◌,
  ◌||◌, ltb, if◌then◌else◌, arith, inl, inr, ◌⊎◌, Bool-cases, Option-cases, subst, ==_iff,
}
use go_redis_smq.Prelude.Text.{Text, text_eq, text_eq_refl}
use go_redis_smq.Delivery.Entries
use go_redis_smq.Delivery.Entries.{
  Entry, of_key, holds, removed, remove, rpush, zadd, last_of, drop_last, lowest, drop_first, ltrim,
  entries_of,
}
use go_redis_smq.Delivery.Data.{Fields, update, has_status, status_dead_lettered}

abbrev pub InDead : ℕ → List Entry → Type 0
InDead id es = removed Entries.dead_lettered [] id es ≡ true

abbrev pub IsDead : ℕ → (ℕ → Fields) → Type 0
IsDead id message = has_status status_dead_lettered (message id).status ≡ true

unfoldable pub IsKept : List Entry → (ℕ → Fields) → Type 0
IsKept es message = (id : ℕ) → IsDead id message → InDead id es

pub removed-append :
    (kind : ℕ) (label : Text) (id : ℕ) (es fs : List Entry)
    → removed kind label id (es ++ fs) ≡ (removed kind label id es || removed kind label id fs)
unfolding removed
removed-append kind label id [] fs = refl
removed-append kind label id (e ∷ es) fs = ground (arith, removed-append kind label id es fs)

-- The commands on other keys.
pub removed-remove :
    (kind other : ℕ) (label tag : Text) (id j : ℕ) (es : List Entry)
    → (kind == other) ≡ false
    → removed kind label id (remove other tag j es) ≡ removed kind label id es
unfolding removed remove holds of_key
removed-remove kind other label tag id j [] h = refl
removed-remove kind other label tag id j (e ∷ es) h =
    ground (arith, h, removed-remove kind other label tag id j es h)

pub removed-drop_last :
    (kind other : ℕ) (label tag : Text) (id : ℕ) (es : List Entry)
    → (kind == other) ≡ false
    → removed kind label id (drop_last other tag es) ≡ removed kind label id es
unfolding removed drop_last holds of_key
removed-drop_last kind other label tag id [] h = refl
removed-drop_last kind other label tag id (e ∷ es) h =
    ground (arith, h, removed-drop_last kind other label tag id es h)

removed-drop_first :
    (kind other n : ℕ) (label tag : Text) (id : ℕ) (es : List Entry)
    → (kind == other) ≡ false
    → removed kind label id (drop_first other tag n es) ≡ removed kind label id es
unfolding removed drop_first holds of_key
removed-drop_first kind other zero label tag id es h = refl
removed-drop_first kind other (suc n) label tag id [] h = refl
removed-drop_first kind other (suc n) label tag id (e ∷ es) h = ground (
  arith,
  h,
  removed-drop_first kind other n label tag id es h,
  removed-drop_first kind other (suc n) label tag id es h,
)

pub removed-ltrim :
    (kind other size : ℕ) (label tag : Text) (id : ℕ) (es : List Entry)
    → (kind == other) ≡ false
    → removed kind label id (ltrim other tag size es) ≡ removed kind label id es
unfolding ltrim
removed-ltrim kind other size label tag id es h =
    removed-drop_first kind other (entries_of other tag es - size) label tag id es h

-- An entry of another key at the end changes nothing.
pub rpush-InDead :
    (other : ℕ) (tag : Text) (id j score : ℕ) (es : List Entry)
    → (Entries.dead_lettered == other) ≡ false
    → InDead id es
    → InDead id (es ++ record { kind = other; label = tag; score = score; id = j } ∷ [])
unfolding removed
rpush-InDead other tag id j score es h found =
    removed-append Entries.dead_lettered [] id es
      (record { kind = other; label = tag; score = score; id = j } ∷ [])
    ∙ ground (arith, found)

-- One of this key is found.
pub dead_last : (id : ℕ) (es : List Entry) → InDead id (rpush Entries.dead_lettered [] id es)
unfolding removed holds of_key text_eq
dead_last id es =
    removed-append Entries.dead_lettered [] id es
      (record { kind = Entries.dead_lettered; label = []; score = 0; id = id } ∷ [])
    ∙ ground (arith, text_eq_refl [])

pub dead_added :
    (id j : ℕ) (es : List Entry) → InDead id es → InDead id (rpush Entries.dead_lettered [] j es)
unfolding removed
dead_added id j es found =
    removed-append Entries.dead_lettered [] id es
      (record { kind = Entries.dead_lettered; label = []; score = 0; id = j } ∷ [])
    ∙ ground (arith, found)

pub zadd-InDead :
    (other : ℕ) (tag : Text) (id j score : ℕ) (es : List Entry)
    → (Entries.dead_lettered == other) ≡ false
    → InDead id es
    → InDead id (zadd other tag score j es)
zadd-InDead other tag id j score es h found =
    rpush-InDead other tag id j score (remove other tag j es) h
      (removed-remove Entries.dead_lettered other [] tag id j es h ∙ found)

-- A message gets another status, and entries of the key stay.
pub move-IsKept :
    (id : ℕ) (f : Fields → Fields) (es fs : List Entry) (message : ℕ → Fields)
    → IsKept es message
    → ((j : ℕ) → InDead j es → InDead j fs)
    → ((m : Fields) → has_status status_dead_lettered (f m).status ≡ true → InDead id fs)
    → IsKept fs (update id f message)
unfolding IsKept update
move-IsKept id f es fs message h stays new j dead = elim (Bool-cases (id == j)) [
  | inl same ↦ subst (λ i. InDead i fs) ((==_iff id j).0 same) (new (message j) (rw same at dead))
  | inr other ↦ stays j (h j (rw other at dead))
]
