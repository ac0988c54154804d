-- ===== src/Locks.antt =====
-- internal/util/lock/lock.go, with the scripts redis_lock/extend-lock.lua and release-lock.lua: the
-- locks of one key. Times are in milliseconds. `refreshLoop` is a round of it, at a tick.
pub mod Exclusion
pub mod Attempts
use go_redis_smq.Prelude.{
  ℕ, zero, suc, ◌+◌, ◌*◌, Bool, true, false, not, ◌&&◌, ◌||◌, Option, none, some, ◌==◌, leb, ltb,
  if◌then◌else◌,
}
use go_redis_smq.Prelude.Text.{Text, text_eq}

-- `BackoffStrategy`: none stands for a negative delay. That of `ExponentialBackoff`, which draws
-- numbers, is one of them.
abbrev pub Backoff : Type 0
Backoff = ℕ → Option ℕ

unfoldable pub linear_backoff : ℕ → ℕ → Backoff
linear_backoff base max_attempts attempt =
    if ltb 0 max_attempts && leb max_attempts attempt then none else some (base * (attempt + 1))

unfoldable pub fixed_backoff : ℕ → ℕ → Backoff
fixed_backoff delay max_attempts attempt =
    if ltb 0 max_attempts && leb max_attempts attempt then none else some delay

pub record Lock : Type 0 where
  pub owner : Text
  pub ttl : ℕ
  pub refresh : ℕ
  pub retry : Option Backoff
  pub acquired : Bool

-- What Redis has at the key: the owner, and when it expires, if ever.
pub record Holding : Type 0 where
  pub owner : Text
  pub expires_at : Option ℕ

unfoldable pub get : ℕ → Option Holding → Option Text
get now none = none
get now (some h) = elim h.expires_at [
  | none ↦ some h.owner
  | some at' ↦ if ltb now at' then some h.owner else none
]

-- `tryAcquire`: SET NX, where a TTL of 0 is none.
unfoldable pub try_acquire : ℕ → Lock → Option Holding → Option Holding × Bool
unfolding get
try_acquire now l s = elim (get now s) [
  | some _ ↦ (s, false)
  | none ↦ (
    some (record { owner = l.owner; expires_at = if l.ttl == 0 then none else some (now + l.ttl) }),
    true,
  )
]

-- Whether a key is the owner's, as both scripts ask.
unfoldable pub owned : ℕ → Text → Option Holding → Bool
unfolding get
owned now owner s = elim (get now s) [ none ↦ false | some v ↦ text_eq v owner ]

-- The script release-lock.
unfoldable pub release_lock : ℕ → Text → Option Holding → Option Holding
unfolding owned
release_lock now owner s = if owned now owner s then none else s

-- The script extend-lock: PEXPIRE, which deletes the key when the time is 0.
unfoldable pub extend_lock : ℕ → Text → ℕ → Option Holding → Option Holding
unfolding owned
extend_lock now owner ttl s =
    if owned now owner s
    then (if ttl == 0 then none else some (record { owner = owner; expires_at = some (now + ttl) }))
    else s

pub data Outcome : Type 0 where
  granted : ℕ → Option Holding → Lock → Outcome
  already_acquired : Outcome
  not_acquired : Outcome
  not_acquired_after : ℕ → Outcome
  cancelled : Outcome
  out_of_fuel : Outcome

-- `Acquire`: attempt k is at the time and meets what `found k` says, and the context is done after it
-- if `done k` is true.
module _ (found : ℕ → ℕ × Option Holding) (done : ℕ → Bool) where
  unfoldable pub acquire_loop : ℕ → ℕ → Lock → Outcome
  unfolding try_acquire
  acquire_loop zero attempt l = out_of_fuel
  acquire_loop (suc fuel) attempt l =
      let rest = acquire_loop fuel (attempt + 1) l in
      let (now, s) = found attempt in
      let (s', ok') = try_acquire now l s in
      if ok' then granted attempt s' (record l { acquired = true }) else (elim l.retry [
        | none ↦ not_acquired
        | some backoff ↦ elim (backoff attempt) [
          | none ↦ not_acquired_after attempt
          | some delay ↦ if done attempt then cancelled else rest
        ]
      ])

  unfoldable pub acquire : ℕ → Lock → Outcome
  unfolding acquire_loop
  acquire fuel l = if l.acquired then already_acquired else acquire_loop fuel 0 l

-- `Release`
unfoldable pub release : ℕ → Lock → Option Holding → Lock × Option Holding
unfolding release_lock
release now l s =
    if l.acquired then (record l { acquired = false }, release_lock now l.owner s) else (l, s)

-- A tick of `refreshLoop`.
unfoldable pub refresh_tick : ℕ → Lock → Option Holding → Option Holding
unfolding extend_lock
refresh_tick now l s = if l.acquired then extend_lock now l.owner l.ttl s else s
