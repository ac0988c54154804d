-- ===== src/RateLimits/Window.antt =====
-- How many messages the consumers of a queue with a rate limit take within an interval.
use go_redis_smq.Prelude.{
  Bool, ℕ, ◌+◌, ◌/◌, ◌≤◌, ◌<◌, Option, none, some, List, [], ◌∷◌, leb, if◌then◌else◌, Result, ok,
  err,
}
use go_redis_smq.Prelude.Int.{pos_part}
use go_redis_smq.Delivery.Data.{Db, Fields, Refusal}
use go_redis_smq.Delivery.Checkout.{Dequeuer}
use go_redis_smq.Delivery.Unacknowledge.{Audit}
use go_redis_smq.Delivery.Dequeue.{ConsumeOptions}
use go_redis_smq.RateLimits.{RateLimitParams, Counter, limited_dequeue}

-- A call of `Dequeue` by one of the consumers, after other clients changed the data, and perhaps
-- deleted the counter, as `Clear` and the deletion of the queue do.
pub record Attempt : Type 0 where
  pub now : ℕ
  pub dequeuer : Dequeuer
  pub others : Db → Db
  pub cleared : Bool

pub record World : Type 0 where
  pub counter : Option Counter
  pub db : Db

abbrev pub counter_met : Attempt → World → Option Counter
counter_met a w = if a.cleared then none else w.counter

-- The limit once for each time that the counter is deleted.
unfoldable pub renewed : ℕ → List Attempt → ℕ
renewed limit [] = 0
renewed limit (a ∷ calls) = (if a.cleared then limit else 0) + renewed limit calls

unfoldable pub messages : Result Refusal (Option (ℕ × Fields)) → ℕ
messages (err e) = 0
messages (ok none) = 0
messages (ok (some m)) = 1

module _ (o : ConsumeOptions) (audit : Audit) (rl : RateLimitParams) where
  unfoldable pub attempt : Attempt → World → World × Result Refusal (Option (ℕ × Fields))
  unfolding limited_dequeue
  attempt a w =
      let (k, (d, result)) =
        limited_dequeue a.now o audit a.dequeuer (some rl) (counter_met a w) (a.others w.db) in
      (record { counter = k; db = d }, result)

  unfoldable pub run : List Attempt → World → World
  unfolding attempt
  run [] w = w
  run (a ∷ calls) w = run calls (attempt a w).0

  unfoldable pub taken : List Attempt → World → ℕ
  unfolding attempt messages
  taken [] w = 0
  taken (a ∷ calls) w = let (w', result) = attempt a w in messages result + taken calls w'

-- All in the interval of a length that starts at `start`.
unfoldable pub Within : ℕ → ℕ → List Attempt → Type 0
Within start len [] = Unit
Within start len (a ∷ calls) = (start ≤ a.now) × (a.now < start + len) × Within start len calls

abbrev room : Option Counter → ℕ
room none = 0
room (some k) = pos_part k.value

-- How many more can be taken before `end`.
abbrev left_over : ℕ → ℕ → Option Counter → ℕ
left_over limit end none = limit
left_over limit end (some k) =
    if leb end k.expires_at then pos_part k.value else pos_part k.value + limit

module _ (o : ConsumeOptions) (audit : Audit) (rl : RateLimitParams) where
  abbrev len : ℕ
  len = rl.interval / 1000000
