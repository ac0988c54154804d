-- ===== src/Tests/States.antt =====
-- A queue that is locked and unlocked.
use go_redis_smq.Prelude.{◌≡◌, refl, false, none, some, [], ◌==◌, ok, err}
use go_redis_smq.Prelude.Text.{Text, codes, text_eq}
use go_redis_smq.Prelude.Decimal.{itoa}
use go_redis_smq.QueueState.{
  Transition, state_active, state_locked, reason_manual, extract_lock_id, new_transition,
  invalid_transition,
}
use go_redis_smq.QueueState.Script.{Hash, Db, set_queue_state}
use go_redis_smq.QueueState.Manager.{
  Call, lock, unlock, perform, lock_options, unlock_options, acquire_lock, release_lock,
  fetch_current, save_state,
}
use go_redis_smq.QueueState.Created.{first_hash, create_queue-Consistent, create_queue-WellFormed}
use go_redis_smq.QueueState.History.{WellFormed}
use go_redis_smq.QueueState.Invariant.{
  perform-WellFormed, perform-Granted, Granted, options_of, target_of,
}
use go_redis_smq.QueueState.Progress.{undisturbed, perform_succeeds}
use go_redis_smq.QueueState.{can_transition_to}
use go_redis_smq.QueueState.Exclusive.{perform-holder}
use go_redis_smq.Tests.Samples.{sample_transitions, created, nobody}

abbrev job : Text
job = codes "job"

abbrev take_lock : Call
take_lock = lock 0 job none

abbrev free_lock : Call
free_lock = unlock 0 job none

abbrev locked : Db
locked = (perform sample_transitions 7 take_lock nobody created).0

abbrev freed : Db
freed = (perform sample_transitions 8 free_lock nobody locked).0

abbrev taken : Transition
taken =
    new_transition 7 (some state_active) state_locked reason_manual (some (lock_options job 0 none))

abbrev given_back : Transition
given_back =
    new_transition 8 (some state_locked) state_active reason_manual (some (unlock_options job none))

locks : perform sample_transitions 7 take_lock nobody created ≡ (locked, ok taken)
unfolding perform acquire_lock text_eq fetch_current save_state set_queue_state itoa
locks = refl

unlocks : perform sample_transitions 8 free_lock nobody locked ≡ (freed, ok given_back)
unfolding perform acquire_lock release_lock text_eq fetch_current save_state set_queue_state itoa
unlocks = refl

no_second_lock :
    (perform sample_transitions 8 (lock 0 (codes "other") none) nobody locked).1
    ≡ err invalid_transition
unfolding perform acquire_lock text_eq fetch_current save_state set_queue_state itoa
no_second_lock = refl

perform-WellFormed_example : WellFormed sample_transitions locked
perform-WellFormed_example =
    perform-WellFormed sample_transitions 7 nobody created take_lock (λ c wf. wf) (λ c wf. wf)
      (create_queue-WellFormed sample_transitions 5 [])

perform-Granted_example :
    Granted sample_transitions 7 nobody created
      (target_of take_lock)
      (options_of take_lock)
      taken
      locked
perform-Granted_example =
    perform-Granted sample_transitions 7 nobody created take_lock locked taken
      (create_queue-WellFormed sample_transitions 5 []) locks

abbrev locked_hash : Hash
locked_hash = record {
  operational_state = some (codes "3");
  last_state_change_at = some (codes "7");
  lock_id = some job;
}

locked_found : locked.hash ≡ some locked_hash
unfolding perform acquire_lock text_eq fetch_current save_state set_queue_state itoa
locked_found = refl

perform-holder_example :
    (extract_lock_id (options_of free_lock) ≡ job)
    × ((target_of free_lock == state_locked) ≡ false)
    × ((g : Hash) × (freed.hash ≡ some g) × (g.lock_id ≡ none))
unfolding text_eq
perform-holder_example =
    perform-holder sample_transitions 8 nobody locked free_lock locked_hash job freed given_back
      perform-WellFormed_example locked_found refl refl unlocks

perform_succeeds_example :
    (after : Db) × (t : Transition) × (perform sample_transitions 7 take_lock undisturbed created
      ≡ (after, ok t))
unfolding can_transition_to text_eq create_queue-Consistent
perform_succeeds_example =
    perform_succeeds sample_transitions 7 created (first_hash 5) take_lock
      (create_queue-Consistent sample_transitions 5 []) refl refl refl refl
