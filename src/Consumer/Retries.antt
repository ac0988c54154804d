-- ===== src/Consumer/Retries.antt =====
-- internal/consumer/unacknowledge.go: retries end.
use go_redis_smq.Prelude.{
  ℕ, ◌+◌, ◌-◌, ◌≡◌, ◌≤◌, inl, inr, true, List, [], ◌∷◌, leb, arith, length, Bool-cases,
}
use Prim.Native.Nat.{max}
use go_redis_smq.Consumer.{
  Envelope, UnacknowledgeCause, resolve_unack_action, is_dead_letter, rebuild_envelope, checkout,
  fail_all, has_retry_threshold_exceeded,
}

-- The last attempt is never retried.
resolve_unack_action-exceeded :
    (now : ℕ) (e : Envelope) (cause : UnacknowledgeCause)
    → e.retry_threshold ≤ e.attempts
    → is_dead_letter (resolve_unack_action now e cause) ≡ true
unfolding resolve_unack_action has_retry_threshold_exceeded
resolve_unack_action-exceeded now e cause h = ground arith

-- A message that fails each time is taken at most as often as its threshold leaves attempts, or once,
-- and is dead-lettered when it has failed that often, whatever the causes and the times of the
-- failures.
pub fail_all-dead :
    (default_ttl : ℕ) (failures : List (ℕ × UnacknowledgeCause)) (e : Envelope)
    → let (times, dead) = fail_all default_ttl failures e in
      (times ≤ max 1 (e.retry_threshold - e.attempts))
      × (max 1 (e.retry_threshold - e.attempts) ≤ length failures → dead ≡ true)
unfolding fail_all rebuild_envelope
fail_all-dead default_ttl [] e = (omega arith, λ h. ground arith)
fail_all-dead default_ttl ((now, cause) ∷ failures) e =
    let taken = rebuild_envelope default_ttl now (checkout e) in
    let later = fail_all-dead default_ttl failures (checkout e) in
    elim (Bool-cases (leb e.retry_threshold (e.attempts + 1))) [
      | inl h ↦
          let last = resolve_unack_action-exceeded now taken cause (ground (arith, h)) in
          (ground (arith, last), λ g. ground (arith, last))
      | inr h ↦ elim (Bool-cases (is_dead_letter (resolve_unack_action now taken cause))) [
        | inl dead ↦ (ground (arith, dead), λ g. ground (arith, dead))
        | inr more ↦ (
          ground (arith, more, h, later.0),
          λ g. ground (arith, more, later.1 (ground (arith, g, h))),
        )
      ]
    ]
