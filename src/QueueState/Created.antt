-- ===== src/QueueState/Created.antt =====
-- What the creation of a queue leaves of its state: the transition of internal/queue/store.go and the
-- end of the script create-queue.
use go_redis_smq.Prelude.{ℕ, refl, none, some, [], ◌∷◌, take, arith, inl, subst, some_inj}
use go_redis_smq.Prelude.Text.{text_eq}
use go_redis_smq.Prelude.Decimal.{itoa}
use go_redis_smq.QueueState.{Transition, Metadata, state_active, reason_system_init}
use go_redis_smq.QueueState.Script.{Hash, Db}
use go_redis_smq.QueueState.Manager.{TransitionJson, max_history_size}
use go_redis_smq.QueueState.History.{Chain, Consistent, WellFormed}

abbrev pub first_transition : ℕ → Metadata → Transition
first_transition now metadata = record {
  from_state = none;
  to_state = state_active;
  reason = reason_system_init;
  timestamp = now;
  description = [];
  lock_id = none;
  owner = none;
  metadata = metadata;
}

abbrev pub first_hash : ℕ → Hash
first_hash now = record {
  operational_state = some (itoa state_active);
  last_state_change_at = some (itoa now);
  lock_id = some [];
}

abbrev pub create_queue : TransitionJson → ℕ → Metadata → Db
create_queue J now metadata = record {
  hash = some (first_hash now);
  history = take max_history_size (J.marshal (first_transition now metadata) ∷ []);
  published = [];
}

module _ (J : TransitionJson) (now : ℕ) (metadata : Metadata) where
  unfoldable pub create_queue-Consistent :
      Consistent J (first_hash now) (create_queue J now metadata).history
  unfolding Chain text_eq
  create_queue-Consistent = record {
    state = state_active;
    entries = first_transition now metadata ∷ [];
    stored = refl;
    recorded = refl;
    chained = (refl, inl (refl, refl));
    bounded = omega arith;
    locked = refl;
  }

  -- A queue is well formed as it is created.
  pub create_queue-WellFormed : WellFormed J (create_queue J now metadata)
  unfolding WellFormed
  create_queue-WellFormed h e =
      subst (λ g. Consistent J g (create_queue J now metadata).history) (some_inj e)
        create_queue-Consistent
