-- ===== src/RateLimits/Store.antt =====
-- internal/ratelimit: the store of a queue's rate limit, with its JSON and the scripts
-- set-queue-rate-limit and clear-queue-rate-limit. The data are the fields of the hash of
-- properties that these touch, if the queue exists, and the counter.
use go_redis_smq.Prelude.{
  ◌*◌, ◌/◌, ◌%◌, ◌^◌, ◌-◌, suc, not, ◌||◌, ltb, Option, none, some, [], ◌++◌, if◌then◌else◌, Result,
  ok, err,
}
use go_redis_smq.Prelude.Int.{ℤ, pos, negsuc, clamp}
use go_redis_smq.Prelude.Text.{Text, codes, text_eq}
use go_redis_smq.Prelude.Decimal.{itoa}
use go_redis_smq.QueueState.{or_else}
use go_redis_smq.QueueState.Script.{is_empty, reply_ok, reply_not_found, reply_invalid_lock}
use go_redis_smq.RateLimits.{
  RateLimitParams, new_rate_limit_params, invalid_rate_limit, invalid_rate_limit_interval, Counter,
}

pub record Properties : Type 0 where
  pub operational_state : Option Text
  pub lock_id : Option Text
  pub rate_limit : Option Text

pub record Db : Type 0 where
  pub properties : Option Properties
  pub counter : Option Counter

pub data Error : Type 0 where
  locked : Error
  not_found : Error
  unexpected_reply : Text → Error
  unmarshal : Error
  invalid : go_redis_smq.RateLimits.Error → Error

abbrev pub reply_locked : Text
reply_locked = codes "QUEUE_LOCKED"

-- `StateLocked.String()`
abbrev pub locked_name : Text
locked_name = codes "locked"

-- The guard of both scripts: the reply if they refuse.
unfoldable pub refused : Text → Text → Properties → Option Text
refused locked_state lock p =
    let current_lock = or_else p.lock_id [] in
    elim p.operational_state [
      | none ↦ none
      | some current ↦
          if text_eq current locked_state
          then (if is_empty lock
              then some reply_locked
              else (if is_empty current_lock || not (text_eq current_lock lock)
                  then some reply_invalid_lock
                  else none))
          else none
    ]

-- The end of set-queue-rate-limit: unless the guard refuses, HSET.
unfoldable pub set_unless : Text → Properties → Db → Option Text → Db × Text
set_unless limit p d (some reply) = (d, reply)
set_unless limit p d none =
    (record d { properties = some (record p { rate_limit = some limit }) }, reply_ok)

unfoldable pub set_in : Text → Text → Text → Db → Option Properties → Db × Text
unfolding refused set_unless
set_in limit locked_state lock d none = (d, reply_not_found)
set_in limit locked_state lock d (some p) = set_unless limit p d (refused locked_state lock p)

-- The script set-queue-rate-limit: the limit, the state that is locked, and the lock's id.
unfoldable pub set_queue_rate_limit : Text → Text → Text → Db → Db × Text
unfolding set_in
set_queue_rate_limit limit locked_state lock d = set_in limit locked_state lock d d.properties

-- The script clear-queue-rate-limit.
unfoldable pub clear_queue_rate_limit : Text → Text → Db → Db × Text
unfolding refused
clear_queue_rate_limit locked_state lock d = elim d.properties [
  | none ↦ (d, reply_not_found)
  | some p ↦ elim (refused locked_state lock p) [
    | some reply ↦ (d, reply)
    | none ↦
        (record { properties = some (record p { rate_limit = none }); counter = none }, reply_ok)
  ]
]

-- `MarshalRateLimitParams`
unfoldable pub marshal_rate_limit_params : Option RateLimitParams → Text
marshal_rate_limit_params none = []
marshal_rate_limit_params (some rl) =
    codes "{\"limit\":"
    ++ itoa rl.limit
    ++ codes ",\"interval\":"
    ++ itoa (rl.interval / 1000000)
    ++ codes "}"

-- The reply of a script as `Set` and `Clear` read it.
unfoldable pub read_reply : Text → Result {0, 0} Error Unit
read_reply reply =
    if text_eq reply reply_ok
    then ok tt
    else (if text_eq reply reply_locked
        then err locked
        else (if text_eq reply reply_not_found
            then err not_found
            else err (unexpected_reply reply)))

-- `Set`
unfoldable pub set : Option RateLimitParams → Db → Db × Result {0, 0} Error Unit
unfolding set_queue_rate_limit marshal_rate_limit_params read_reply
set rl d =
    let (d', reply) = set_queue_rate_limit (marshal_rate_limit_params rl) locked_name [] d in
    (d', read_reply reply)

-- `Clear`
unfoldable pub clear : Db → Db × Result {0, 0} Error Unit
unfolding clear_queue_rate_limit read_reply
clear d = let (d', reply) = clear_queue_rate_limit locked_name [] d in (d', read_reply reply)

-- The nanoseconds of a number of milliseconds, in 64 bits.
unfoldable pub to_duration : ℤ → ℤ
to_duration (pos n) =
    let r = n * 1000000 % 2 ^ 64 in if ltb r (2 ^ 63) then pos r else negsuc (2 ^ 64 - r - 1)
to_duration (negsuc n) =
    let r = suc n * 1000000 % 2 ^ 64 in
    if ltb (2 ^ 63) r then pos (2 ^ 64 - r) else (if ltb 0 r then negsuc (r - 1) else pos 0)

-- `Validate` of what was read, where a negative interval is one below a second.
unfoldable pub validated : ℤ → ℤ → Result Error RateLimitParams
unfolding new_rate_limit_params
validated limit interval = elim (new_rate_limit_params limit (clamp interval)) [
  | err e ↦ err (invalid e)
  | ok rl ↦ ok rl
]

-- `parse` is what encoding/json reads from a text: the limit and the milliseconds.
module _ (parse : Text → Option (ℤ × ℤ)) where
  -- `UnmarshalRateLimitParams`
  unfoldable pub unmarshal_rate_limit_params : Text → Result Error (Option RateLimitParams)
  unfolding to_duration validated
  unmarshal_rate_limit_params t = if is_empty t then ok none else (elim (parse t) [
    | none ↦ err unmarshal
    | some (limit, interval) ↦ elim (validated limit (to_duration interval)) [
      | err e ↦ err e
      | ok rl ↦ ok (some rl)
    ]
  ])

  -- `Get`, where an error of HGET is no rate limit.
  unfoldable pub get : Db → Result Error (Option RateLimitParams)
  unfolding unmarshal_rate_limit_params
  get d = elim d.properties [
    | none ↦ ok none
    | some p ↦ elim p.rate_limit [ none ↦ ok none | some t ↦ unmarshal_rate_limit_params t ]
  ]
