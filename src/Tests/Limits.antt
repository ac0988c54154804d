-- ===== src/Tests/Limits.antt =====
-- Rate limits on concrete times and texts.
use go_redis_smq.Prelude.{
  ℕ, ◌≡◌, refl, false, Option, none, some, List, [], ◌∷◌, ok, err, arith, if◌then◌else◌,
}
use go_redis_smq.Prelude.Int.{ℤ, pos, ◌-ℤ◌}
use go_redis_smq.Prelude.Text.{Text, codes, text_eq}
use go_redis_smq.Prelude.Decimal.{itoa}
use go_redis_smq.Delivery.Data.{Db, refusal}
use go_redis_smq.Delivery.Publish.{objection}
use go_redis_smq.Delivery.Calls.{dispatches, run}
use go_redis_smq.RateLimits.{
  RateLimitParams, invalid_rate_limit, invalid_rate_limit_interval, new_rate_limit_params, check,
}
use go_redis_smq.RateLimits.Window
use go_redis_smq.RateLimits.Window.{Attempt, World, taken}
use go_redis_smq.RateLimits.Store
use go_redis_smq.RateLimits.Store.{
  Properties, set, clear, get, marshal_rate_limit_params, set_queue_rate_limit,
}
use go_redis_smq.RateLimits.Unguarded.{in_milliseconds, get-set}
use go_redis_smq.Tests.Deliveries.{next_tick, empty_queue, audit, parcel, worker, options}

abbrev one_per_second : RateLimitParams
one_per_second = record { limit = 1; interval = 1000000000 }

valid_limit : new_rate_limit_params (pos 1) 1000000000 ≡ ok one_per_second
unfolding new_rate_limit_params
valid_limit = refl

no_limit : new_rate_limit_params (pos 0) 1000000000 ≡ err invalid_rate_limit
unfolding new_rate_limit_params
no_limit = refl

short_interval : new_rate_limit_params (pos 1) 999999999 ≡ err invalid_rate_limit_interval
unfolding new_rate_limit_params
short_interval = refl

abbrev three_messages : Db
three_messages =
    run next_tick audit
      ((10, dispatches (parcel 7)) ∷ (11, dispatches (parcel 8)) ∷ (12, dispatches (parcel 9)) ∷ [])
      empty_queue

abbrev attempt_at : ℕ → Attempt
attempt_at now = record { now = now; dequeuer = worker; others = λ d. d; cleared = false }

-- The second of these is in the window that an earlier one opened, the last in the second's.
abbrev attempts : List Attempt
attempts = attempt_at 1050 ∷ attempt_at 1100 ∷ attempt_at 2049 ∷ []

abbrev earlier : World
earlier =
    Window.run options audit one_per_second (attempt_at 100 ∷ [])
      (record { counter = none; db = three_messages })

one_taken : taken options audit one_per_second attempts earlier ≡ 1
unfolding taken Window.run run check ◌-ℤ◌ objection refusal
one_taken = refl

-- A reading of one text.
abbrev parse : Text → Option (ℤ × ℤ)
parse t =
    if text_eq t (codes "{\"limit\":1,\"interval\":1000}") then some (pos 1, pos 1000) else none

parses : parse (marshal_rate_limit_params (some one_per_second)) ≡ some (pos 1, pos 1000)
unfolding text_eq marshal_rate_limit_params itoa
parses = refl

abbrev locked_properties : Properties
locked_properties = record {
  operational_state = some (itoa 3);
  lock_id = some (codes "a");
  rate_limit = none;
}

abbrev locked_queue : Store.Db
locked_queue = record { properties = some locked_properties; counter = none }

get-set_example :
    let (d', result) = set (some one_per_second) locked_queue in
    (result ≡ ok tt)
    × (d'.counter ≡ none)
    × (get parse d' ≡ ok (some (in_milliseconds one_per_second)))
get-set_example =
    get-set parse (pos 1) 1000000000 one_per_second valid_limit (ground arith) parses 3
      locked_properties locked_queue refl refl

-- Were the state stored by its name, the guard would hold.
guarded :
    let named : Store.Db = record {
      properties = some (record locked_properties { operational_state = some (codes "locked") });
      counter = none;
    } in
    (set (some one_per_second) named).1 ≡ err Store.locked
unfolding set text_eq Store.refused
guarded = refl

cleared : (get parse (clear locked_queue).0) ≡ ok none
unfolding clear get text_eq itoa
cleared = refl
