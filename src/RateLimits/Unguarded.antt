-- ===== src/RateLimits/Unguarded.antt =====
-- `Set` and `Get` of internal/ratelimit on a queue that exists, whatever state it is in.
use go_redis_smq.Prelude.{
  ℕ, ◌*◌, ◌/◌, ◌^◌, ◌≤◌, ◌<◌, ◌≡◌, ◌≢◌, refl, sym, ap, ◌∙◌, false, arith, Option, none, some, [],
  ok,
}
use go_redis_smq.Prelude.Int.{ℤ, pos, negsuc}
use go_redis_smq.Prelude.Text.{Text, text_eq, text_eq_ne}
use go_redis_smq.Prelude.Decimal.{itoa, atoi, atoi-itoa}
use go_redis_smq.QueueState.Script.{is_empty, reply_ok}
use go_redis_smq.RateLimits.{RateLimitParams, new_rate_limit_params}
use go_redis_smq.RateLimits.Store.{
  Properties, Db, refused, set_in, set_unless, set_queue_rate_limit, marshal_rate_limit_params,
  read_reply, set, to_duration, validated, unmarshal_rate_limit_params, get, locked_name,
}

-- A state is stored as a number, which is not the name of a state.
itoa-ne-locked_name : (s : ℕ) → itoa s ≢ locked_name
unfolding atoi
itoa-ne-locked_name s e = let numbers : some s ≡ none = sym (atoi-itoa s) ∙ ap atoi e in cc

pub refused-eq-none :
    (s : ℕ) (p : Properties) → p.operational_state ≡ some (itoa s) → refused locked_name [] p ≡ none
unfolding refused
refused-eq-none s p e = rw (e, text_eq_ne (itoa s) locked_name (itoa-ne-locked_name s)) refl

-- Whole milliseconds.
abbrev pub in_milliseconds : RateLimitParams → RateLimitParams
in_milliseconds rl = record rl { interval = rl.interval / 1000000 * 1000000 }

to_duration-pos : (n : ℕ) → n * 1000000 < 2 ^ 63 → to_duration (pos n) ≡ pos (n * 1000000)
unfolding to_duration
to_duration-pos n h = ground arith

valid :
    (limit : ℤ) (interval : ℕ) (rl : RateLimitParams)
    → new_rate_limit_params limit interval ≡ ok rl
    → (1 ≤ rl.limit) × (1000000000 ≤ rl.interval)
unfolding new_rate_limit_params
valid (pos n) interval rl e = ground arith
valid (negsuc n) interval rl e = ground arith

validated_again :
    (limit ms : ℕ)
    → 1 ≤ limit
    → 1000000000 ≤ ms * 1000000
    → validated (pos limit) (pos (ms * 1000000))
      ≡ ok (record { limit = limit; interval = ms * 1000000 })
unfolding validated new_rate_limit_params
validated_again limit ms h e = ground arith

-- What the script leaves of a queue.
abbrev with_rate_limit : Text → Properties → Db → Db
with_rate_limit t p d = record d { properties = some (record p { rate_limit = some t }) }

set_queue_rate_limit_succeeds :
    (t : Text) (s : ℕ) (p : Properties) (d : Db)
    → d.properties ≡ some p
    → p.operational_state ≡ some (itoa s)
    → set_queue_rate_limit t locked_name [] d ≡ (with_rate_limit t p d, reply_ok)
unfolding set_queue_rate_limit set_in set_unless
set_queue_rate_limit_succeeds t s p d e f =
    ap (set_in t locked_name [] d) e ∙ ap (set_unless t p d) (refused-eq-none s p f)

set_succeeds :
    (l : Option RateLimitParams) (s : ℕ) (p : Properties) (d : Db)
    → d.properties ≡ some p
    → p.operational_state ≡ some (itoa s)
    → set l d ≡ (with_rate_limit (marshal_rate_limit_params l) p d, ok tt)
unfolding set read_reply text_eq
set_succeeds l s p d e f =
    ap (λ r. (r.0, read_reply r.1))
      (set_queue_rate_limit_succeeds (marshal_rate_limit_params l) s p d e f)

marshal_not_empty : (rl : RateLimitParams) → is_empty (marshal_rate_limit_params (some rl)) ≡ false
unfolding marshal_rate_limit_params text_eq
marshal_not_empty rl = refl

module _ (parse : Text → Option (ℤ × ℤ)) where
  unmarshal-marshal :
      (limit : ℤ) (interval : ℕ) (rl : RateLimitParams)
      → new_rate_limit_params limit interval ≡ ok rl
      → rl.interval < 2 ^ 63
      → parse (marshal_rate_limit_params (some rl))
        ≡ some (pos rl.limit, pos (rl.interval / 1000000))
      → unmarshal_rate_limit_params parse (marshal_rate_limit_params (some rl))
        ≡ ok (some (in_milliseconds rl))
  unfolding unmarshal_rate_limit_params
  unmarshal-marshal limit interval rl e small read =
      let (one, second) = valid limit interval rl e in
      let ms = rl.interval / 1000000 in
      let again = validated_again rl.limit ms one (omega (arith, second)) in
      rw (marshal_not_empty rl, read, to_duration-pos ms (omega (arith, small)), again) refl

-- On a queue that exists, and whose state is stored as a number, the one of a locked queue
-- included, Set returns nil and leaves the counter, and Get then returns the rate limit with its
-- interval in whole milliseconds, if the rate limit is valid, its interval is a Duration, and JSON
-- gives back the two numbers that were written.
pub get-set :
    (parse : Text → Option (ℤ × ℤ)) (limit : ℤ) (interval : ℕ) (rl : RateLimitParams)
    → new_rate_limit_params limit interval ≡ ok rl
    → rl.interval < 2 ^ 63
    → parse (marshal_rate_limit_params (some rl)) ≡ some (pos rl.limit, pos (rl.interval / 1000000))
    → (s : ℕ) (p : Properties) (d : Db) → d.properties ≡ some p
    → p.operational_state ≡ some (itoa s)
    → let (d', result) = set (some rl) d in
      (result ≡ ok tt) × (d'.counter ≡ d.counter) × (get parse d' ≡ ok (some (in_milliseconds rl)))
unfolding get
get-set parse limit interval rl e small read s p d f g =
    let done = set_succeeds (some rl) s p d f g in
    let found = unmarshal-marshal parse limit interval rl e small read in
    (ap (λ r. r.1) done, ap (λ r. r.0.counter) done, ap (λ r. get parse r.0) done ∙ found)
