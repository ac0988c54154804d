-- ===== src/Tests/Clients.antt =====
-- Locks, and the states of messages, on concrete data.
use go_redis_smq.Prelude.{
  ℕ, ◌≡◌, refl, true, false, Option, none, some, List, [], ◌∷◌, ok, ◌==◌, arith,
}
use go_redis_smq.Prelude.Text.{text_eq}
use go_redis_smq.Locks.{Lock, Holding, get, acquire, fixed_backoff, not_acquired_after}
use go_redis_smq.Locks.Attempts.{is_over, acquire_ends, fixed_backoff-IsBounded}
use go_redis_smq.Locks.Exclusion.{World, Op, tries, ticks, live, run, IsHeld, run_exclusive}
use go_redis_smq.Messages.State.{State, new_message_state}
use go_redis_smq.Messages.Codec.{encode_state, decode_state}
use go_redis_smq.Messages.RoundTrip.{decode_state-encode_state}

abbrev lock : ℕ → Lock
lock i = record {
  owner = i ∷ [];
  ttl = 100;
  refresh = 0;
  retry = some (fixed_backoff 10 2);
  acquired = false;
}

-- Another client has the lock until 1000.
abbrev held_elsewhere : ℕ → ℕ × Option Holding
held_elsewhere k = (k, some (record { owner = 7 ∷ []; expires_at = some 1000 }))

gives_up : acquire held_elsewhere (λ k. false) 3 (lock 1) ≡ not_acquired_after 2
unfolding acquire fixed_backoff
gives_up = refl

acquire_ends_example : is_over (acquire held_elsewhere (λ k. false) 3 (lock 1)) ≡ true
acquire_ends_example =
    acquire_ends held_elsewhere (λ k. false) 2 (lock 1) (fixed_backoff 10 2) refl
      (fixed_backoff-IsBounded 10 2 refl)

abbrev nobody : World
nobody = record { holding = none; locks = lock; grants = λ i. none }

abbrev ops : List (ℕ × ℕ × Op)
ops = (10, 1, tries) ∷ (20, 2, tries) ∷ (90, 1, ticks) ∷ (200, 2, tries) ∷ []

after_ops :
    (get 200 (run ops nobody).holding ≡ some (2 ∷ []))
    × (get 150 (run ((10, 1, tries) ∷ (90, 1, ticks) ∷ []) nobody).holding ≡ some (1 ∷ []))
unfolding run text_eq
after_ops = (refl, refl)

distinct : (i j : ℕ) → text_eq (i ∷ []) (j ∷ []) ≡ true → (i == j) ≡ true
unfolding text_eq
distinct i j h = ground (arith, h)

nobody-IsHeld : IsHeld (λ i. i ∷ []) distinct 10 nobody
unfolding live
nobody-IsHeld = record { owned_by = λ i. refl; held = λ i now le h. absurd (ground (arith, h)) }

second_live : live 250 ((run ops nobody).grants 2) ≡ true
unfolding run live text_eq
second_live = refl

run_exclusive_example :
    (get 250 (run ops nobody).holding ≡ some (2 ∷ []))
    × (live 250 ((run ops nobody).grants 1) ≡ true → (2 == 1) ≡ true)
run_exclusive_example =
    run_exclusive (λ i. i ∷ []) distinct 10 ops nobody (refl, (refl, (refl, (refl, tt))))
      nobody-IsHeld 2 1 250 refl second_live

abbrev delivered : State
delivered = record (new_message_state (5 ∷ [])) {
  published_at = some 1700;
  scheduled_at = some 0;
  attempts = 12;
  scheduled_message_parent_id = 6 ∷ [];
}

decode_state-encode_state_example :
    decode_state [] (encode_state delivered) ≡ ok (record delivered { scheduled_at = none })
unfolding new_message_state
decode_state-encode_state_example = decode_state-encode_state [] delivered
