-- ===== src/Delivery/Unacknowledge.antt =====
-- internal/consumer/message_unacknowledger.go and internal/redis/scripts/scripts/core/
-- unacknowledge-message.lua: messages whose consumption failed leave the processing list.
use go_redis_smq.Prelude.{
  ℕ, ◌+◌, Bool, not, ◌||◌, ◌&&◌, none, some, List, [], ◌∷◌, ◌==◌, ltb, if◌then◌else◌, take,
}
use go_redis_smq.Prelude.Int.{pos, ◌+ℤ◌, ◌-ℤ◌}
use go_redis_smq.Prelude.Text.{Text}
use go_redis_smq.Consumer.{
  Envelope, UnacknowledgeCause, resolve_unack_action, is_dead_letter, is_expired, is_ttl_expired,
}
use go_redis_smq.Delivery.Entries
use go_redis_smq.Delivery.Entries.{Entry, rpush, ltrim, remove, removed}
use go_redis_smq.Delivery.Data.{
  Db, Fields, Attempt, update, status_unack_requeuing, status_dead_lettered, Refusal, refusal,
}

-- `Retention` of pkg/config: whether messages are kept, and how many, 0 for all. Their expiry is left
-- to Redis.
pub record Retention : Type 0 where
  pub enabled : Bool
  pub queue_size : ℕ

-- `MessageAudit`
pub record Audit : Type 0 where
  pub acknowledged_messages : Retention
  pub dead_lettered_messages : Retention
  pub history_enabled : Bool
  pub history_max_size : ℕ

-- RPUSH to a list of kept messages, trimmed to its newest.
unfoldable pub keep : Retention → ℕ → ℕ → List Entry → List Entry
unfolding ltrim
keep r kind id es =
    if r.enabled
    then (if ltb 0 r.queue_size
        then ltrim kind [] r.queue_size (rpush kind [] id es)
        else rpush kind [] id es)
    else es

-- `UnackEntry`, with the id of the message.
pub record UnackEntry : Type 0 where
  pub id : ℕ
  pub envelope : Envelope
  pub cause : UnacknowledgeCause

unfoldable pub attempt : ℕ → UnackEntry → Attempt
unfolding resolve_unack_action
attempt now e = record {
  cause = e.cause;
  action = resolve_unack_action now e.envelope e.cause;
  attempts = e.envelope.attempts;
  timestamp = now;
}

unfoldable pub settle : ℕ → Audit → UnackEntry → Bool → Fields → Fields
unfolding is_expired
settle now a e dead m = record m {
  status = some (if dead then status_dead_lettered else status_unack_requeuing);
  unacknowledged_at = some now;
  last_unacknowledged_at = some now;
  dead_lettered_at = if dead then some now else none;
  expired = is_expired now e.envelope || is_ttl_expired e.cause;
  unacknowledged_count =
      if a.history_enabled then m.unacknowledged_count + 1 else m.unacknowledged_count;
}

-- LPUSH and LTRIM of the history, whose size 0 is no limit.
unfoldable pub push_history : ℕ → Audit → UnackEntry → (ℕ → List Attempt) → ℕ → List Attempt
unfolding attempt
push_history now a e history j =
    if e.id == j && a.history_enabled
    then (if ltb 0 a.history_max_size
        then take a.history_max_size (attempt now e ∷ history j)
        else attempt now e ∷ history j)
    else history j

-- A round of the loop of the script, for a message that is in the processing list.
unfoldable pub unacknowledge_one : ℕ → Audit → Text → UnackEntry → Db → Db
unfolding resolve_unack_action settle push_history keep update
unacknowledge_one now a consumer e d =
    let dead = is_dead_letter (resolve_unack_action now e.envelope e.cause) in
    let rest = remove Entries.processing consumer e.id d.entries in
    record d {
      entries =
          if dead
          then keep a.dead_lettered_messages Entries.dead_lettered e.id rest
          else rpush Entries.requeued [] e.id rest;
      history = push_history now a e d.history;
      message = update e.id (settle now a e dead) d.message;
    }

-- The loop, with how many messages it dead-letters and how many it requeues.
unfoldable pub unacknowledge_each : ℕ → Audit → Text → List UnackEntry → Db → Db × ℕ × ℕ
unfolding unacknowledge_one
unacknowledge_each now a consumer [] d = (d, 0, 0)
unacknowledge_each now a consumer (e ∷ es) d =
    let found = removed Entries.processing consumer e.id d.entries in
    let dead = is_dead_letter (resolve_unack_action now e.envelope e.cause) in
    let (d', deads, requeues) =
      unacknowledge_each now a consumer es
        (if found then unacknowledge_one now a consumer e d else d) in
    (d', (if found && dead then 1 else 0) + deads, (if found && not dead then 1 else 0) + requeues)

pub data Reply : Type 0 where
  queue_not_found : Reply
  refused : Refusal → Reply
  processed : ℕ → Reply

-- The script unacknowledge-message.
unfoldable pub unacknowledge_message : ℕ → Audit → Text → List UnackEntry → Db → Db × Reply
unfolding unacknowledge_each
unacknowledge_message now a consumer es d = elim d.queue_type [
  | none ↦ (d, queue_not_found)
  | some _ ↦ elim (refusal d) [
    | some reason ↦ (d, refused reason)
    | none ↦
        let (d', deads, requeues) = unacknowledge_each now a consumer es d in
        (
          record d' {
            processing_count = d'.processing_count -ℤ pos (deads + requeues);
            dead_lettered_count = d'.dead_lettered_count +ℤ pos deads;
            requeued_count = d'.requeued_count +ℤ pos requeues;
          },
          processed (deads + requeues),
        )
  ]
]

-- `UnacknowledgeBatch`, which does not read the reply of the script.
unfoldable pub unacknowledge_batch : ℕ → Audit → Text → List UnackEntry → Db → Db
unfolding unacknowledge_message
unacknowledge_batch now a consumer [] d = d
unacknowledge_batch now a consumer (e ∷ es) d = (unacknowledge_message now a consumer (e ∷ es) d).0
