-- ===== src/ConsumerGroups.antt =====
-- internal/queue/consumer_group.go, with the script delete-consumer-group.
use go_redis_smq.Prelude.{
  ℕ, ◌+◌, Bool, not, true, false, any, ltb, length, ◌==◌, Option, none, some, List, [], ◌∷◌,
  if◌then◌else◌, Result, ok, err,
}
use go_redis_smq.Prelude.Text.{Text, codes, text_eq}
use go_redis_smq.Prelude.Decimal.{itoa}
use go_redis_smq.Keys.{validate_key}
use go_redis_smq.QueueState.Script.{reply_ok, reply_not_found}
use go_redis_smq.Delivery.Entries
use go_redis_smq.Delivery.Entries.{Entry, of_key, entries_of}
use go_redis_smq.Delivery.Data.{Db, type_priority, has_status}
use go_redis_smq.Producer.Resolver.{delivery_pub_sub}
use go_redis_smq.RateLimits.Store.{Properties, refused, reply_locked, locked_name}
pub mod Stranded

-- A queue, how it delivers, and the consumers of each group.
pub record Groups : Type 0 where
  pub db : Db
  pub delivery_model : Option ℕ
  pub members : Text → List Text

pub data Error : Type 0 where
  invalid_group_id : Error
  not_found : Error
  locked : Error
  not_supported : Error
  not_empty : Error
  has_active_consumers : Error
  unexpected_reply : Text → Error

-- `Save`: the reply of SADD, 0 if the group is there.
unfoldable pub save_group : (ℕ → ℕ) → Text → Groups → Groups × Result Error ℕ
unfolding validate_key
save_group unicode_lower g w = elim (validate_key unicode_lower g) [
  | none ↦ (w, err invalid_group_id)
  | some valid ↦ elim w.db.queue_type [
    | none ↦ (w, err not_found)
    | some queue_type ↦
        if has_status delivery_pub_sub w.delivery_model
        then (if any (text_eq g) w.db.groups
            then (w, ok 0)
            else (record w { db = record (w.db) { groups = g ∷ w.db.groups } }, ok 1))
        else (w, err not_supported)
  ]
]

abbrev pub reply_not_supported : Text
reply_not_supported = codes "CONSUMER_GROUPS_NOT_SUPPORTED"

abbrev pub reply_not_empty : Text
reply_not_empty = codes "CONSUMER_GROUP_NOT_EMPTY"

abbrev pub reply_has_active_consumers : Text
reply_has_active_consumers = codes "CONSUMER_GROUP_HAS_ACTIVE_CONSUMERS"

-- DEL of a list or of a sorted set.
unfoldable pub del_key : ℕ → Text → List Entry → List Entry
unfolding of_key
del_key kind label [] = []
del_key kind label (e ∷ es) =
    let rest = del_key kind label es in if of_key kind label e then rest else e ∷ rest

-- SREM
unfoldable pub drop_group : Text → List Text → List Text
unfolding text_eq
drop_group g [] = []
drop_group g (h ∷ hs) = let rest = drop_group g hs in if text_eq h g then rest else h ∷ rest

-- The fields of the queue's hash that the guard of the lock reads.
abbrev pub state_text : Option ℕ → Option Text
state_text none = none
state_text (some s) = some (itoa s)

abbrev pub guarded : Db → Properties
guarded d = record {
  operational_state = state_text d.operational_state;
  lock_id = some d.lock_id;
  rate_limit = none;
}

-- The checks of the script, on the guard's reply, the delivery model, and the numbers of consumers
-- and of messages.
unfoldable pub objection : Option Text → Bool → ℕ → ℕ → Option Text
objection (some reply) pub_sub consumers count = some reply
objection none pub_sub consumers count =
    if pub_sub
    then (if ltb 0 consumers
        then some reply_has_active_consumers
        else (if ltb 0 count then some reply_not_empty else none))
    else some reply_not_supported

unfoldable pub delete_unless : Text → Text → Text → Groups → Option Text → Groups × Text
unfolding del_key drop_group
delete_unless g pending priority w (some reply) = (w, reply)
delete_unless g pending priority w none = (
  record w {
    db = record (w.db) {
      groups = drop_group g w.db.groups;
      entries = del_key Entries.priority priority (del_key Entries.pending pending w.db.entries);
    };
    members = λ h. if text_eq h g then [] else w.members h;
  },
  reply_ok,
)

unfoldable pub delete_from : Text → Text → Text → Text → Text → Groups → Option ℕ → Groups × Text
unfolding objection delete_unless entries_of refused
delete_from g pending priority locked_state lock w none = (w, reply_not_found)
delete_from g pending priority locked_state lock w (some queue_type) =
    delete_unless g pending priority w (
      objection (refused locked_state lock (guarded w.db))
        (has_status delivery_pub_sub w.delivery_model) (length (w.members g))
        (if queue_type == type_priority
          then entries_of Entries.priority priority w.db.entries
          else entries_of Entries.pending pending w.db.entries))

-- The script delete-consumer-group; `pending` and `priority` are the labels of its two keys.
unfoldable pub delete_consumer_group : Text → Text → Text → Text → Text → Groups → Groups × Text
unfolding delete_from
delete_consumer_group g pending priority locked_state lock w =
    delete_from g pending priority locked_state lock w w.db.queue_type

unfoldable pub read_deleted : Text → Result {0, 0} Error Unit
unfolding text_eq
read_deleted reply =
    if text_eq reply reply_ok
    then ok tt
    else (if text_eq reply reply_locked
        then err locked
        else (if text_eq reply reply_not_found
            then err not_found
            else (if text_eq reply reply_not_supported
                then err not_supported
                else (if text_eq reply reply_not_empty
                    then err not_empty
                    else (if text_eq reply reply_has_active_consumers
                        then err has_active_consumers
                        else err (unexpected_reply reply))))))

-- `Delete`, which gives the script the keys of the queue itself.
unfoldable pub delete_group : Text → Groups → Groups × Result {0, 0} Error Unit
unfolding delete_consumer_group read_deleted
delete_group g w =
    let (w', reply) = delete_consumer_group g [] [] locked_name [] w in (w', read_deleted reply)

-- `List`
abbrev pub list_groups : Groups → List Text
list_groups w = w.db.groups
