-- ===== src/Tests/Failures.antt =====
-- internal/consumer/unacknowledge.go on a concrete message.
use go_redis_smq.Prelude.{ℕ, List, ◌≡◌, ◌≤◌, refl, true, false, none, [], ◌∷◌, arith}
use go_redis_smq.Prelude.Text.{text_eq}
use go_redis_smq.Scheduling.{Message, is_periodic}
use go_redis_smq.Consumer.{
  Envelope, UnacknowledgeCause, cause_timeout, cause_consume_error, cause_ttl_expired, fail_all,
  is_expired, rebuild_envelope,
}
use go_redis_smq.Consumer.Retries.{fail_all-dead}
use go_redis_smq.Consumer.Expiry.{is_expired-rebuild_envelope}

abbrev pub task : Message
task = record {
  scheduled_cron = [];
  scheduled_delay = none;
  scheduled_repeat = 0;
  scheduled_repeat_period = none;
}

abbrev pub order : Envelope
order = record {
  producible_message = task;
  created_at = 0;
  ttl = 5000000;
  retry_threshold = 3;
  retry_delay = 0;
  attempts = 0;
}

abbrev failures : List (ℕ × UnacknowledgeCause)
failures = (10, cause_timeout) ∷ (20, cause_consume_error) ∷ (30, cause_timeout) ∷ []

three_times : fail_all 0 failures order ≡ (3, true)
unfolding fail_all is_periodic text_eq
three_times = refl

expires_at_once : fail_all 0 ((10, cause_ttl_expired) ∷ []) order ≡ (1, true)
unfolding fail_all is_periodic text_eq
expires_at_once = refl

is_expired_before : is_expired 6000000 order ≡ true
unfolding is_expired
is_expired_before = refl

fail_all-dead_example :
    let (times, dead) = fail_all 0 failures order in (times ≤ 3) × (3 ≤ 3 → dead ≡ true)
fail_all-dead_example = fail_all-dead 0 failures order

is_expired-rebuild_envelope_example : is_expired 6000000 (rebuild_envelope 0 5999000 order) ≡ false
is_expired-rebuild_envelope_example =
    is_expired-rebuild_envelope 0 5999000 6000000 order (omega arith) (omega arith)
