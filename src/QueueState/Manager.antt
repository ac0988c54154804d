-- ===== src/QueueState/Manager.antt =====
-- internal/queue/{state,state_manager}.go: the operations of the state manager. Other clients may
-- write between the two reads of `FetchCurrent`, and between these and the script.
use go_redis_smq.Prelude.{
  ℕ, ◌≡◌, Bool, false, not, Option, none, some, List, [], ◌∷◌, ◌==◌, if◌then◌else◌, Result, ok, err,
  ◌>>=◌,
}
use go_redis_smq.Prelude.Text.{Text, codes, text_eq}
use go_redis_smq.Prelude.Decimal.{itoa, atoi}
use go_redis_smq.QueueState.{
  Transition, Options, Error, not_found, missing_state, bad_entry, invalid_transition, invalid_lock,
  not_locked, lock_owner_mismatch, lock_id_mismatch, unexpected_reply, state_active, state_paused,
  state_stopped, state_locked, can_transition_to, or_else, new_initial_transition, new_transition,
  reason_from_opts, extract_lock_id,
}
use go_redis_smq.QueueState.Script.{
  Db, Arguments, set_queue_state, reply_ok, reply_not_found, reply_invalid_transition,
  reply_invalid_lock, is_empty,
}

-- `json.Marshal` and `json.Unmarshal` at a transition.
pub record TransitionJson : Type 0 where
  pub marshal : Transition → Text
  pub unmarshal : Text → Option Transition
  pub unmarshal-marshal : (t : Transition) → unmarshal (marshal t) ≡ some t

-- `maxHistorySize`
abbrev pub max_history_size : ℕ
max_history_size = 100

-- What other clients do: before LINDEX, and before the script.
pub record Others : Type 0 where
  pub before_history : Db → Db
  pub before_script : Db → Db

-- `interpretReply`
unfoldable pub interpret_reply : Text → Transition → Result Error Transition
unfolding text_eq
interpret_reply s t =
    if text_eq s reply_ok
    then ok t
    else (if text_eq s reply_not_found
        then err not_found
        else (if text_eq s reply_invalid_transition
            then err invalid_transition
            else (if text_eq s reply_invalid_lock then err invalid_lock else err unexpected_reply)))

-- The state that `FetchCurrent` reads in the hash: active if it is empty or no number.
unfoldable pub parse_state : Text → ℕ
unfolding text_eq atoi
parse_state raw = if is_empty raw then state_active else or_else (atoi raw) state_active

-- `queueEvents.PublishStateChanged`
abbrev pub publish : Transition → Db → Db
publish t d = record d { published = t ∷ d.published }

-- The options that `acquireLock` and `releaseLock` save.
abbrev pub lock_options : Text → ℕ → Option Options → Options
lock_options id owner opts = record {
  reason = none;
  description =
      some (or_else (elim opts [ none ↦ none | some o ↦ o.description ]) (codes "Exclusive lock"));
  lock_id = some id;
  owner = some owner;
  metadata = elim opts [ none ↦ none | some o ↦ o.metadata ];
}

abbrev pub unlock_options : Text → Option Options → Options
unlock_options id opts = record {
  reason = none;
  description =
      some (or_else (elim opts [ none ↦ none | some o ↦ o.description ]) (codes "Queue unlocked"));
  lock_id = some id;
  owner = none;
  metadata = elim opts [ none ↦ none | some o ↦ o.metadata ];
}

abbrev pub same_owner : Option ℕ → ℕ → Bool
same_owner none _ = false
same_owner (some a) b = a == b

abbrev pub same_lock : Option Text → Text → Bool
same_lock none _ = false
same_lock (some a) b = text_eq a b

-- `Pause`, `Resume` and `Stop`, by way of `TransitionTo`; `Lock` and `Unlock`, by way of
-- `AcquireLock` and `ReleaseLock`.
pub data Call : Type 0 where
  pause resume stop : Option Options → Call
  lock unlock : ℕ → Text → Option Options → Call

module _ (J : TransitionJson) where
  -- `FetchCurrent`, which reads the hash in one state of the data and the history in another.
  unfoldable pub fetch_current : ℕ → Db → Db → Result Error Transition
  unfolding parse_state new_initial_transition
  fetch_current now d later = elim d.hash [
    | none ↦ err not_found
    | some h ↦ elim h.operational_state [
      | none ↦ err missing_state
      | some raw ↦ elim later.history [
        | [] ↦ ok (new_initial_transition now (parse_state raw))
        | latest ∷ _ ↦ elim (J.unmarshal latest) [ none ↦ err bad_entry | some t ↦ ok t ]
      ]
    ]
  ]

  decode_entries : List Text → Result Error (List Transition)
  decode_entries [] = ok []
  decode_entries (raw ∷ raws) =
      let rest = decode_entries raws in
      elim (J.unmarshal raw) [ none ↦ err bad_entry | some t ↦ (do ts ← rest; ok (t ∷ ts)) ]

  -- `FetchHistory`
  unfoldable pub fetch_history : Db → Result Error (List Transition)
  unfolding decode_entries
  fetch_history d = decode_entries d.history

  -- `saveState` up to the reply of the script.
  abbrev pub arguments : Option ℕ → Transition → Option Options → Arguments
  arguments source t opts = record {
    new_state = itoa t.to_state;
    transition_data = J.marshal t;
    expected_previous = elim source [ none ↦ [] | some s ↦ itoa s ];
    active = itoa state_active;
    max_history = max_history_size;
    locked = itoa state_locked;
    lock_id = extract_lock_id opts;
    changed_at = itoa t.timestamp;
  }

  -- `saveState`: an event is published when the script replies OK.
  unfoldable pub save_state :
      ℕ → Option ℕ → ℕ → Text → Option Options → Db → Db × Result Error Transition
  unfolding new_transition extract_lock_id interpret_reply
  save_state now source target reason opts d =
      let t = new_transition now source target reason opts in
      let (after, reply) = set_queue_state (arguments source t opts) d in
      elim (interpret_reply reply t) [ err e ↦ (after, err e) | ok t ↦ (publish t after, ok t) ]

  -- `transitionTo`
  unfoldable pub transition_to :
      ℕ → ℕ → Text → Option Options → Others → Db → Db × Result Error Transition
  unfolding can_transition_to
  transition_to now target reason opts others d =
      let later = others.before_history d in
      elim (fetch_current now d later) [
        | err e ↦ (later, err e)
        | ok current ↦
            if can_transition_to current.to_state target
            then save_state now (some current.to_state) target reason opts
                (others.before_script later)
            else (later, err invalid_transition)
      ]

  -- `acquireLock`
  unfoldable pub acquire_lock :
      ℕ → ℕ → Text → Text → Option Options → Others → Db → Db × Result Error Transition
  unfolding can_transition_to
  acquire_lock now owner id reason opts others d =
      let later = others.before_history d in
      if is_empty id then (d, err invalid_lock) else elim (fetch_current now d later) [
        | err e ↦ (later, err e)
        | ok current ↦
            if can_transition_to current.to_state state_locked
            then save_state now (some current.to_state) state_locked reason
                (some (lock_options id owner opts)) (others.before_script later)
            else (later, err invalid_transition)
      ]

  -- `releaseLock`
  unfoldable pub release_lock :
      ℕ → ℕ → Text → Text → Option Options → Others → Db → Db × Result Error Transition
  unfolding text_eq
  release_lock now owner id reason opts others d =
      let later = others.before_history d in
      if is_empty id then (d, err invalid_lock) else elim (fetch_current now d later) [
        | err e ↦ (later, err e)
        | ok current ↦
            if not (current.to_state == state_locked)
            then (later, err not_locked)
            else (if not (same_owner current.owner owner)
                then (later, err lock_owner_mismatch)
                else (if not (same_lock current.lock_id id)
                    then (later, err lock_id_mismatch)
                    else save_state now (some current.to_state) state_active reason
                        (some (unlock_options id opts)) (others.before_script later)))
      ]

  unfoldable pub perform : ℕ → Call → Others → Db → Db × Result Error Transition
  unfolding reason_from_opts
  perform now (pause opts) others d =
      transition_to now state_paused (reason_from_opts opts) opts others d
  perform now (resume opts) others d =
      transition_to now state_active (reason_from_opts opts) opts others d
  perform now (stop opts) others d =
      transition_to now state_stopped (reason_from_opts opts) opts others d
  perform now (lock owner id opts) others d =
      acquire_lock now owner id (reason_from_opts opts) opts others d
  perform now (unlock owner id opts) others d =
      release_lock now owner id (reason_from_opts opts) opts others d
