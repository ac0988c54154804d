-- ===== src/Consumer.antt =====
-- internal/consumer/unacknowledge.go: what becomes of a message whose consumption failed, with the
-- tests of internal/message/envelope.go and, of the script checkout-message.lua, the count of
-- attempts. Instants and durations are in nanoseconds.
pub mod Retries
pub mod Expiry
use go_redis_smq.Prelude.{
  ℕ, ◌+◌, ◌-◌, Bool, true, false, not, ◌&&◌, ◌||◌, List, [], ◌∷◌, ◌/◌, ◌*◌, ◌==◌, ltb, leb,
  if◌then◌else◌,
}
use go_redis_smq.Scheduling.Publisher.{to_params, rebuild_message, nanoseconds}
use go_redis_smq.Scheduling.{Message, is_periodic, milliseconds}

-- `UnacknowledgeCause`
pub data UnacknowledgeCause : Type 0 where
  cause_timeout : UnacknowledgeCause
  cause_consume_error : UnacknowledgeCause
  cause_unacknowledged : UnacknowledgeCause
  cause_offline_consumer : UnacknowledgeCause
  cause_shutting_down : UnacknowledgeCause
  cause_ttl_expired : UnacknowledgeCause
  cause_queue_stopped : UnacknowledgeCause
  cause_queue_invalid_state : UnacknowledgeCause
  cause_queue_locked : UnacknowledgeCause
  cause_message_not_found : UnacknowledgeCause
  cause_queue_state_changed : UnacknowledgeCause
  cause_queue_not_found : UnacknowledgeCause
  cause_unexpected_error : UnacknowledgeCause
  cause_invalid_handler_signature : UnacknowledgeCause

-- `UnacknowledgeAction`, with the `DeadLetterCause` that comes with the first.
pub data DeadLetterCause : Type 0 where
  dead_letter_ttl_expired : DeadLetterCause
  dead_letter_retry_threshold_exceeded : DeadLetterCause
  dead_letter_periodic_message : DeadLetterCause

pub data UnacknowledgeAction : Type 0 where
  action_dead_letter : DeadLetterCause → UnacknowledgeAction
  action_requeue : UnacknowledgeAction
  action_delay : UnacknowledgeAction

-- `Envelope`: what the decision reads of the message and its state.
pub record Envelope : Type 0 where
  pub producible_message : Message
  pub created_at : ℕ
  pub ttl : ℕ
  pub retry_threshold : ℕ
  pub retry_delay : ℕ
  pub attempts : ℕ

abbrev pub is_ttl_expired : UnacknowledgeCause → Bool
is_ttl_expired cause_ttl_expired = true
is_ttl_expired _ = false

-- `IsExpired`
unfoldable pub is_expired : ℕ → Envelope → Bool
is_expired now e = if e.ttl == 0 then false else leb e.ttl (now - e.created_at)

-- `HasRetryThresholdExceeded`
unfoldable pub has_retry_threshold_exceeded : Envelope → Bool
has_retry_threshold_exceeded e = leb e.retry_threshold e.attempts

-- `resolveUnackAction`
unfoldable pub resolve_unack_action : ℕ → Envelope → UnacknowledgeCause → UnacknowledgeAction
unfolding is_expired has_retry_threshold_exceeded
resolve_unack_action now e cause =
    if is_ttl_expired cause || is_expired now e
    then action_dead_letter dead_letter_ttl_expired
    else (if is_periodic e.producible_message
        then action_dead_letter dead_letter_periodic_message
        else (if has_retry_threshold_exceeded e
            then action_dead_letter dead_letter_retry_threshold_exceeded
            else (if ltb 0 e.retry_delay then action_delay else action_requeue)))

abbrev pub is_dead_letter : UnacknowledgeAction → Bool
is_dead_letter (action_dead_letter _) = true
is_dead_letter _ = false

-- `rebuildMessage` of what `ToParams` made of the message, at the time `now`: the creation time is
-- that of `New`, and a TTL of 0 is replaced by the default, in milliseconds.
unfoldable pub rebuild_envelope : ℕ → ℕ → Envelope → Envelope
unfolding to_params rebuild_message
rebuild_envelope default_ttl now e = record e {
  producible_message = rebuild_message (to_params e.producible_message);
  created_at = now;
  ttl = nanoseconds (if ltb 0 (milliseconds e.ttl) then milliseconds e.ttl else default_ttl);
  retry_delay = nanoseconds (milliseconds e.retry_delay);
}

-- The script checkout-message.lua counts an attempt each time that a consumer takes the message.
abbrev pub checkout : Envelope → Envelope
checkout e = record e { attempts = e.attempts + 1 }

-- A message whose consumption fails each time that a consumer takes it, at these times and for these
-- causes: how often it is taken, and whether it is dead-lettered in the end.
unfoldable pub fail_all : ℕ → List (ℕ × UnacknowledgeCause) → Envelope → ℕ × Bool
unfolding resolve_unack_action rebuild_envelope
fail_all default_ttl [] e = (0, false)
fail_all default_ttl ((now, cause) ∷ failures) e =
    let taken = rebuild_envelope default_ttl now (checkout e) in
    let (times, dead) = fail_all default_ttl failures (checkout e) in
    if is_dead_letter (resolve_unack_action now taken cause) then (1, true) else (1 + times, dead)
