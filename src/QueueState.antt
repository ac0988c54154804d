-- ===== src/QueueState.antt =====
-- pkg/queue/{state,state_transition,lock_owner}.go and the constructors of transitions in
-- internal/queue/state.go: the states of a queue, which may follow which, and the record that is
-- kept of a change.
pub mod Script
pub mod Manager
pub mod History
pub mod Created
pub mod Saved
pub mod Invariant
pub mod Exclusive
pub mod Progress
use go_redis_smq.Prelude.{
  ℕ, ◌≡◌, Bool, true, false, ◌&&◌, ◌||◌, Option, none, some, List, [], ◌∷◌, any, leb, ◌==◌,
  if◌then◌else◌,
}
use go_redis_smq.Prelude.Text.{Text, codes}

-- `State`: a number in Redis.
abbrev pub state_active : ℕ
state_active = 0

abbrev pub state_paused : ℕ
state_paused = 1

abbrev pub state_stopped : ℕ
state_stopped = 2

abbrev pub state_locked : ℕ
state_locked = 3

-- `allowedTransitions`: a state that is not in the map has none.
unfoldable pub allowed_transitions : ℕ → List ℕ
allowed_transitions s =
    if s == state_active
    then state_paused ∷ state_locked ∷ state_stopped ∷ []
    else (if s == state_paused
        then state_active ∷ state_stopped ∷ state_locked ∷ []
        else (if s == state_stopped
            then state_active ∷ []
            else (if s == state_locked then state_active ∷ state_stopped ∷ [] else [])))

-- `CanTransitionTo`
unfoldable pub can_transition_to : ℕ → ℕ → Bool
unfolding allowed_transitions
can_transition_to s target = any (λ allowed. allowed == target) (allowed_transitions s)

unfoldable pub is_operational : ℕ → Bool
is_operational s = s == state_active || s == state_paused

unfoldable pub is_valid : ℕ → Bool
is_valid s = leb s state_locked

abbrev pub reason_system_init : Text
reason_system_init = codes "SYSTEM_INIT"

abbrev pub reason_manual : Text
reason_manual = codes "MANUAL"

-- Metadata as its JSON text, which the code passes on unread; a nil or empty map is the empty text.
abbrev pub Metadata : Type 0
Metadata = Text

-- `StateTransition`
pub record Transition : Type 0 where
  pub from_state : Option ℕ
  pub to_state : ℕ
  pub reason : Text
  pub timestamp : ℕ
  pub description : Text
  pub lock_id : Option Text
  pub owner : Option ℕ
  pub metadata : Metadata

-- `StateTransitionOptions`
pub record Options : Type 0 where
  pub reason : Option Text
  pub description : Option Text
  pub lock_id : Option Text
  pub owner : Option ℕ
  pub metadata : Option Metadata

-- What internal/queue/state.go returns in place of a transition. `missing_state` is the nil reply of
-- HGET, `bad_entry` an entry of the history that does not decode.
pub data Error : Type 0 where
  not_found missing_state bad_entry invalid_transition invalid_lock : Error
  not_locked lock_owner_mismatch lock_id_mismatch unexpected_reply : Error

abbrev pub or_else {ℓ} : {A : Type ℓ} → Option A → A → A
or_else none x = x
or_else (some y) x = y

-- `newInitialTransition`, at the time `now`.
unfoldable pub new_initial_transition : ℕ → ℕ → Transition
new_initial_transition now s = record {
  from_state = none;
  to_state = s;
  reason = reason_system_init;
  timestamp = now;
  description = [];
  lock_id = none;
  owner = none;
  metadata = [];
}

-- `newTransition`
unfoldable pub new_transition : ℕ → Option ℕ → ℕ → Text → Option Options → Transition
new_transition now source target reason none = record {
  from_state = source;
  to_state = target;
  reason = reason;
  timestamp = now;
  description = [];
  lock_id = none;
  owner = none;
  metadata = [];
}
new_transition now source target reason (some opts) = record {
  from_state = source;
  to_state = target;
  reason = reason;
  timestamp = now;
  description = or_else opts.description [];
  lock_id = opts.lock_id;
  owner = opts.owner;
  metadata = or_else opts.metadata [];
}

-- `reasonFromOpts`
unfoldable pub reason_from_opts : Option Options → Text
reason_from_opts none = reason_manual
reason_from_opts (some opts) = or_else opts.reason reason_manual

-- `extractLockID`
unfoldable pub extract_lock_id : Option Options → Text
extract_lock_id none = []
extract_lock_id (some opts) = or_else opts.lock_id []
