-- ===== src/Locks/Attempts.antt =====
-- `Acquire` ends when its strategy bounds the attempts.
use go_redis_smq.Prelude.{
  ℕ, zero, suc, ◌+◌, ◌≡◌, refl, Bool, true, false, Option, none, some, leb, ltb, arith, inl, inr,
  Bool-cases, Option-cases,
}
use go_redis_smq.Locks.{
  Backoff, Lock, Holding, Outcome, out_of_fuel, acquire_loop, acquire, linear_backoff,
  fixed_backoff,
}

-- Attempts that are numbered from `max_attempts` on are not followed by another.
abbrev pub IsBounded : ℕ → Backoff → Type 0
IsBounded max_attempts backoff =
    (attempt : ℕ) → leb max_attempts attempt ≡ true → backoff attempt ≡ none

pub linear_backoff-IsBounded :
    (base max_attempts : ℕ)
    → ltb 0 max_attempts ≡ true
    → IsBounded max_attempts (linear_backoff base max_attempts)
unfolding linear_backoff
linear_backoff-IsBounded base max_attempts h attempt k = rw (h, k) refl

pub fixed_backoff-IsBounded :
    (delay max_attempts : ℕ)
    → ltb 0 max_attempts ≡ true
    → IsBounded max_attempts (fixed_backoff delay max_attempts)
unfolding fixed_backoff
fixed_backoff-IsBounded delay max_attempts h attempt k = rw (h, k) refl

-- An outcome that the code has.
unfoldable pub is_over : Outcome → Bool
is_over out_of_fuel = false
is_over _ = true

module _ (found : ℕ → ℕ × Option Holding) (done : ℕ → Bool) where
  acquire_loop_ends :
      (max_attempts fuel attempt : ℕ) (l : Lock) (backoff : Backoff)
      → l.retry ≡ some backoff
      → IsBounded max_attempts backoff
      → leb (max_attempts + 1) (fuel + attempt) ≡ true
      → leb 1 fuel ≡ true
      → is_over (acquire_loop found done fuel attempt l) ≡ true
  unfolding acquire_loop is_over
  acquire_loop_ends m zero attempt l backoff r b h f = absurd (ground (arith, f))
  acquire_loop_ends m (suc fuel) attempt l backoff r b h f = elim (Bool-cases (leb m attempt)) [
    | inl last ↦ ground (arith, r, b attempt last)
    | inr sooner ↦
        let later : is_over (acquire_loop found done fuel (attempt + 1) l) ≡ true =
          acquire_loop_ends m fuel (attempt + 1) l backoff r b (ground (arith, h, sooner))
            (ground (arith, h, sooner)) in
        elim (Option-cases (backoff attempt)) [
          | inl e ↦ ground (arith, r, e)
          | inr (delay, e) ↦ ground (arith, r, e, later)
        ]
  ]

  -- Acquire returns after at most one attempt more than its strategy allows, if the strategy bounds the
  -- attempts, whatever the other clients do: with so much fuel it does not run out.
  pub acquire_ends :
      (max_attempts : ℕ) (l : Lock) (backoff : Backoff)
      → l.retry ≡ some backoff
      → IsBounded max_attempts backoff
      → is_over (acquire found done (max_attempts + 1) l) ≡ true
  unfolding acquire is_over
  acquire_ends m l backoff r b =
      let loop = acquire_loop_ends m (m + 1) 0 l backoff r b (ground arith) (ground arith) in
      ground (arith, loop)
