-- ===== src/QueueState/Invariant.antt =====
-- internal/queue/state.go: each operation of the state manager, with other clients between its reads
-- and its script, keeps the data of the queue consistent and makes only allowed transitions.
use go_redis_smq.Prelude.{
  ℕ, ◌≡◌, sym, ap, ◌∙◌, true, Option, some, ◌==◌, ==_iff, subst, Bool-cases, inl, inr, Result, ok,
  err, Result-cases,
}
use go_redis_smq.Prelude.Text.{Text}
use go_redis_smq.QueueState.{
  Transition, Options, Error, invalid_lock, invalid_transition, not_locked, lock_owner_mismatch,
  lock_id_mismatch, can_transition_to, state_locked, state_active, new_transition, state_paused,
  state_stopped,
}
use go_redis_smq.QueueState.Script.{Db, is_empty}
use go_redis_smq.QueueState.Manager.{
  TransitionJson, Others, save_state, fetch_current, transition_to, acquire_lock, release_lock,
  perform, Call, pause, resume, stop, lock, unlock, same_owner, same_lock, lock_options,
  unlock_options,
}
use go_redis_smq.QueueState.History.{WellFormed}
use go_redis_smq.QueueState.Saved.{Saved, save_state-cases, Saved-WellFormed, new_transition-ends}

from_locked : (s : ℕ) → (s == state_locked) ≡ true → can_transition_to s state_active ≡ true
unfolding can_transition_to
from_locked s h = rw ((==_iff s state_locked).0 h)

-- The state that an operation leads to.
abbrev pub target_of : Call → ℕ
target_of (pause _) = state_paused
target_of (resume _) = state_active
target_of (stop _) = state_stopped
target_of (lock _ _ _) = state_locked
target_of (unlock _ _ _) = state_active

-- The options that an operation saves.
abbrev pub options_of : Call → Option Options
options_of (pause opts) = opts
options_of (resume opts) = opts
options_of (stop opts) = opts
options_of (lock owner id opts) = some (lock_options id owner opts)
options_of (unlock owner id opts) = some (unlock_options id opts)

module _ (J : TransitionJson) (now : ℕ) (others : Others) (d : Db) where
  -- The data when LINDEX runs, and when the script runs.
  abbrev later : Db
  later = others.before_history d

  abbrev pub at_script : Db
  at_script = others.before_script (others.before_history d)

  -- The ways through an operation that ends in the target state: an error before the script, or an
  -- allowed transition that is saved.
  data Way (target : ℕ) (opts : Option Options) : Db × Result Error Transition → Type 0 where
    at_once : (e : Error) → Way target opts (d, err e)
    after_reads : (e : Error) → Way target opts (later, err e)
    saves :
        (source : ℕ) (reason : Text)
        → can_transition_to source target ≡ true
        → Way target opts (save_state J now (some source) target reason opts at_script)

  transition_to-Way :
      (target : ℕ) (reason : Text) (opts : Option Options)
      → Way target opts (transition_to J now target reason opts others d)
  unfolding transition_to
  transition_to-Way target reason opts = elim (Result-cases (fetch_current J now d later)) [
    | inr (e, failed) ↦ rw (transition_to, failed) (after_reads e)
    | inl (current, read) ↦ elim (Bool-cases (can_transition_to current.to_state target)) [
      | inl can ↦ rw (transition_to, read, can) (saves current.to_state reason can)
      | inr cannot ↦ rw (transition_to, read, cannot) (after_reads invalid_transition)
    ]
  ]

  acquire_lock-Way :
      (owner : ℕ) (id reason : Text) (opts : Option Options)
      → Way state_locked
          (some (lock_options id owner opts))
          (acquire_lock J now owner id reason opts others d)
  unfolding acquire_lock
  acquire_lock-Way owner id reason opts = elim (Bool-cases (is_empty id)) [
    | inl no_id ↦ rw (acquire_lock, no_id) (at_once invalid_lock)
    | inr has_id ↦ elim (Result-cases (fetch_current J now d later)) [
      | inr (e, failed) ↦ rw (acquire_lock, has_id, failed) (after_reads e)
      | inl (current, read) ↦ elim (Bool-cases (can_transition_to current.to_state state_locked)) [
        | inl can ↦ rw (acquire_lock, has_id, read, can) (saves current.to_state reason can)
        | inr cannot ↦ rw (acquire_lock, has_id, read, cannot) (after_reads invalid_transition)
      ]
    ]
  ]

  release_lock-Way :
      (owner : ℕ) (id reason : Text) (opts : Option Options)
      → Way state_active
          (some (unlock_options id opts))
          (release_lock J now owner id reason opts others d)
  unfolding release_lock
  release_lock-Way owner id reason opts = elim (Bool-cases (is_empty id)) [
    | inl no_id ↦ rw (release_lock, no_id) (at_once invalid_lock)
    | inr has_id ↦ elim (Result-cases (fetch_current J now d later)) [
      | inr (e, failed) ↦ rw (release_lock, has_id, failed) (after_reads e)
      | inl (current, read) ↦ elim (Bool-cases (current.to_state == state_locked)) [
        | inr free ↦ rw (release_lock, has_id, read, free) (after_reads not_locked)
        | inl locked ↦ elim (Bool-cases (same_owner current.owner owner)) [
          | inr other ↦
              rw (release_lock, has_id, read, locked, other) (after_reads lock_owner_mismatch)
          | inl own ↦ elim (Bool-cases (same_lock current.lock_id id)) [
            | inr mismatch ↦
                rw (release_lock, has_id, read, locked, own, mismatch)
                  (after_reads lock_id_mismatch)
            | inl fits ↦
                rw (release_lock, has_id, read, locked, own, fits)
                  (saves current.to_state reason (from_locked current.to_state locked))
          ]
        ]
      ]
    ]
  ]

  perform-Way : (call : Call) → Way (target_of call) (options_of call) (perform J now call others d)
  unfolding perform
  perform-Way (pause opts) = transition_to-Way state_paused _ opts
  perform-Way (resume opts) = transition_to-Way state_active _ opts
  perform-Way (stop opts) = transition_to-Way state_stopped _ opts
  perform-Way (lock owner id opts) = acquire_lock-Way owner id _ opts
  perform-Way (unlock owner id opts) = release_lock-Way owner id _ opts

  -- Each operation keeps the data of the queue consistent, whatever its outcome, if what the other
  -- clients do between its commands does.
  pub perform-WellFormed :
      (call : Call)
      → ((c : Db) → WellFormed J c → WellFormed J (others.before_history c))
      → ((c : Db) → WellFormed J c → WellFormed J (others.before_script c))
      → WellFormed J d
      → WellFormed J (perform J now call others d).0
  perform-WellFormed call keep₁ keep₂ wf = keeps _ _ _ (perform-Way call)
    where
      saved :
          (source target : ℕ) (reason : Text) (opts : Option Options)
          → can_transition_to source target ≡ true
          → WellFormed J (save_state J now (some source) target reason opts at_script).0
      saved source target reason opts can =
          elim (save_state-cases J now source target reason opts at_script
            (keep₂ later (keep₁ d wf))) [
              | inl (e, kept) ↦ rw kept (keep₂ later (keep₁ d wf))
              | inr (after, done, sv) ↦ rw done (
                  Saved-WellFormed J now source target reason opts at_script after
                    (keep₂ later (keep₁ d wf)) can sv)
            ]

      keeps :
          (target : ℕ) (opts : Option Options) (r : Db × Result Error Transition)
          → Way target opts r
          → WellFormed J r.0
      keeps target opts r (at_once e) = wf
      keeps target opts r (after_reads e) = keep₁ d wf
      keeps target opts r (saves source reason can) = saved source target reason opts can

  -- What an operation did that led from the state `source` to the target with the transition `t`.
  pub record Granted (target : ℕ) (opts : Option Options) (t : Transition) (after : Db)
      : Type 0 where
    pub source : ℕ
    pub arrived : t.to_state ≡ target
    pub allowed : can_transition_to source target ≡ true
    pub saved : Saved J source t opts at_script after

  Saved-Granted :
      (source target : ℕ) (reason : Text) (opts : Option Options) (c after : Db) (t : Transition)
      → can_transition_to source target ≡ true
      → Saved J source (new_transition now (some source) target reason opts) opts at_script c
      → Path
          (Db × Result Error Transition)
          (c, ok (new_transition now (some source) target reason opts))
          (after, ok t)
      → Granted target opts t after
  Saved-Granted source target reason opts c after t can sv h =
      let same : new_transition now (some source) target reason opts ≡ t = cc in
      let e : c ≡ after = cc in
      record {
        source = source;
        arrived =
            ap Transition.to_state (sym same)
            ∙ (new_transition-ends J now source target reason opts).1;
        allowed = can;
        saved =
            subst (Saved J source t opts at_script) e
              (subst (λ u. Saved J source u opts at_script c) same sv);
      }

  Way-Granted :
      (target : ℕ) (opts : Option Options) (r : Db × Result Error Transition) (after : Db)
      (t : Transition)
      → WellFormed J at_script
      → Way target opts r
      → r ≡ (after, ok t)
      → Granted target opts t after
  Way-Granted target opts r after t wf (at_once e) h = cc
  Way-Granted target opts r after t wf (after_reads e) h = cc
  Way-Granted target opts r after t wf (saves source reason can) h =
      elim (save_state-cases J now source target reason opts at_script wf) [
        | inl (e, kept) ↦ cc
        | inr (c, done, sv) ↦
            Saved-Granted source target reason opts c after t can sv (sym done ∙ h)
      ]

  -- An operation that returns a transition made an allowed one, to its target, from the state that is
  -- stored when its script runs, whatever other clients did since it read the state: the queue's
  -- hash, history, lock and events change as `Saved` says.
  pub perform-Granted :
      (call : Call) (after : Db) (t : Transition)
      → WellFormed J at_script
      → perform J now call others d ≡ (after, ok t)
      → Granted (target_of call) (options_of call) t after
  perform-Granted call after t wf h =
      Way-Granted (target_of call) (options_of call) _ after t wf (perform-Way call) h
