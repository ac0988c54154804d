-- ===== src/RateLimits.antt =====
-- pkg/queue/ratelimit.go, the script check-queue-rate-limit, and `checkRateLimit` of
-- internal/consumer/dequeue_message.go with the guard that it is of `Dequeue`.
use go_redis_smq.Prelude.{
  ℕ, ◌+◌, ◌*◌, ◌/◌, ◌==◌, ltb, Bool, true, Option, none, some, if◌then◌else◌, Result, ok, err,
}
use go_redis_smq.Prelude.Int.{ℤ, pos, ◌-ℤ◌, ltb_ℤ, is_pos, clamp}
use go_redis_smq.Delivery.Data.{Db, Fields, Refusal}
use go_redis_smq.Delivery.Checkout.{Dequeuer}
use go_redis_smq.Delivery.Unacknowledge.{Audit}
use go_redis_smq.Delivery.Dequeue.{ConsumeOptions, dequeue}
pub mod Store
pub mod Unguarded
pub mod Window

-- `RateLimitParams` that are valid; the interval in nanoseconds.
pub record RateLimitParams : Type 0 where
  pub limit : ℕ
  pub interval : ℕ

pub data Error : Type 0 where
  invalid_rate_limit : Error
  invalid_rate_limit_interval : Error

-- `NewRateLimitParams`, with `Validate`.
unfoldable pub new_rate_limit_params : ℤ → ℕ → Result Error RateLimitParams
new_rate_limit_params limit interval =
    if is_pos limit
    then (if ltb interval 1000000000
        then err invalid_rate_limit_interval
        else ok (record { limit = clamp limit; interval = interval }))
    else err invalid_rate_limit

-- What Redis keeps under the counter's key.
pub record Counter : Type 0 where
  pub value : ℤ
  pub expires_at : ℕ

-- DECR on a key that is there: whether the limit is exceeded. The key keeps its time.
unfoldable pub decrement : Counter → Option Counter × ℕ
decrement k =
    let value = k.value -ℤ pos 1 in
    (some (record k { value = value }), if ltb_ℤ value (pos 0) then 1 else 0)

-- SET NX with a time, and DECR, on a key that is not.
unfoldable pub open_window : ℕ → ℕ → ℕ → Option Counter × ℕ
open_window now limit expire =
    (some (record { value = pos limit -ℤ pos 1; expires_at = now + expire }), 0)

-- The script check-queue-rate-limit.
unfoldable pub check : ℕ → ℕ → ℕ → Option Counter → Option Counter × ℕ
unfolding decrement open_window
check now limit expire none = open_window now limit expire
check now limit expire (some k) =
    if ltb now k.expires_at then decrement k else open_window now limit expire

-- `checkRateLimit`
unfoldable pub check_rate_limit :
    ℕ → Option RateLimitParams → Option Counter → Option Counter × Bool
unfolding check
check_rate_limit now none k = (k, true)
check_rate_limit now (some rl) k =
    let (k', n) = check now rl.limit (rl.interval / 1000000) k in (k', n == 0)

-- `Dequeue` with its rate limit.
unfoldable pub limited_dequeue :
    ℕ
    → ConsumeOptions
    → Audit
    → Dequeuer
    → Option RateLimitParams
    → Option Counter
    → Db
    → Option Counter × (Db × Result Refusal (Option (ℕ × Fields)))
unfolding check_rate_limit dequeue
limited_dequeue now o a c rl k d =
    let (k', allowed) = check_rate_limit now rl k in
    (k', if allowed then dequeue now o a c d else (d, ok none))
