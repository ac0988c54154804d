-- ===== src/QueueState/Script.antt =====
-- internal/redis/scripts/scripts/core/set-queue-state.lua: the atomic change of a queue's state. The
-- data are what the script and its caller touch of one queue: three fields of the hash of
-- properties, if the queue exists, and the history, newest first; and the events that were published.
use go_redis_smq.Prelude.{
  ℕ, Bool, not, ◌&&◌, ◌||◌, Option, none, some, List, [], ◌∷◌, if◌then◌else◌, take,
}
use go_redis_smq.Prelude.Text.{Text, codes, text_eq}
use go_redis_smq.QueueState.{Transition, or_else}

pub record Hash : Type 0 where
  pub operational_state : Option Text
  pub last_state_change_at : Option Text
  pub lock_id : Option Text

pub record Db : Type 0 where
  pub hash : Option Hash
  pub history : List Text
  pub published : List Transition

abbrev pub reply_ok : Text
reply_ok = codes "OK"

abbrev pub reply_not_found : Text
reply_not_found = codes "QUEUE_NOT_FOUND"

abbrev pub reply_invalid_transition : Text
reply_invalid_transition = codes "INVALID_STATE_TRANSITION"

abbrev pub reply_invalid_lock : Text
reply_invalid_lock = codes "INVALID_LOCK"

-- The arguments of the script, ARGV[2] to ARGV[10] less the names of fields.
pub record Arguments : Type 0 where
  pub new_state : Text
  pub transition_data : Text
  pub expected_previous : Text
  pub active : Text
  pub max_history : ℕ
  pub locked : Text
  pub lock_id : Text
  pub changed_at : Text

-- The writes at the end of the script, LTRIM included.
unfoldable pub record_change : Arguments → Hash → Db → Db
record_change a h d = record d {
  hash =
      some (record h {
        operational_state = some a.new_state;
        last_state_change_at = some a.changed_at;
      });
  history = take a.max_history (a.transition_data ∷ d.history);
}

abbrev pub is_empty : Text → Bool
is_empty s = text_eq s []

-- The script where the queue exists.
unfoldable pub change_state : Arguments → Hash → Db → Db × Text
unfolding text_eq record_change
change_state a h d =
    let current = or_else h.operational_state a.active in
    let current_lock = or_else h.lock_id [] in
    if not (is_empty a.expected_previous) && not (text_eq current a.expected_previous)
    then (d, reply_invalid_transition)
    else (if text_eq a.new_state a.locked
        then (if is_empty a.lock_id
            then (d, reply_invalid_lock)
            else (record_change a (record h { lock_id = some a.lock_id }) d, reply_ok))
        else (if text_eq current a.locked
            then (if is_empty a.lock_id
                  || (is_empty current_lock || not (text_eq current_lock a.lock_id))
                then (d, reply_invalid_lock)
                else (record_change a (record h { lock_id = none }) d, reply_ok))
            else (record_change a h d, reply_ok)))

unfoldable pub set_queue_state : Arguments → Db → Db × Text
unfolding change_state
set_queue_state a d = elim d.hash [ none ↦ (d, reply_not_found) | some h ↦ change_state a h d ]
