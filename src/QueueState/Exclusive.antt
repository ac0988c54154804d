-- ===== src/QueueState/Exclusive.antt =====
-- internal/queue/state.go: the lock of a queue is exclusive.
use go_redis_smq.Prelude.{
  ℕ, ◌≡◌, refl, sym, ap, ◌∙◌, true, false, not, Option, none, some, ◌==◌, ==_iff, arith, subst, ok,
  some_inj,
}
use go_redis_smq.Prelude.Text.{Text}
use go_redis_smq.QueueState.{Transition, can_transition_to, state_locked, extract_lock_id}
use go_redis_smq.QueueState.Script.{Hash, Db, is_empty, record_change}
use go_redis_smq.QueueState.Manager.{TransitionJson, Others, perform, Call}
use go_redis_smq.QueueState.History.{WellFormed, held, itoa-injective}
use go_redis_smq.QueueState.Saved.{LockChange, locking, unlocking, moving}
use go_redis_smq.QueueState.Invariant.{perform-Granted, target_of, options_of, at_script}

not_relocked :
    (target : ℕ) → can_transition_to state_locked target ≡ true → (target == state_locked) ≡ false
unfolding can_transition_to
not_relocked target h = ground arith

-- A change of state in a queue that is locked with an id.
unlocks :
    (s target : ℕ) (id given : Text) (before after : Option Text)
    → before ≡ some id
    → s ≡ state_locked
    → can_transition_to s target ≡ true
    → LockChange s target given before after
    → (given ≡ id) × (after ≡ none) × ((target == state_locked) ≡ false)
unlocks s target id given before after was is_locked can (locking to_lock _) =
    ground (arith, not_relocked target (rw is_locked at can))
unlocks s target id given before after was is_locked can (unlocking to_free _ e) =
    (some_inj (sym e ∙ was), refl, to_free)
unlocks s target id given before after was is_locked can (moving _ free) =
    ground (arith, (==_iff s state_locked).1 is_locked)

module _ (J : TransitionJson) (now : ℕ) (others : Others) (d : Db) where
  -- While a lock is stored, an operation that returns a transition is not the taking of a lock: it
  -- is given the very id of the lock, and frees it.
  pub perform-holder :
      (call : Call) (h : Hash) (id : Text) (after : Db) (t : Transition)
      → WellFormed J (at_script J now others d)
      → (at_script J now others d).hash ≡ some h
      → h.lock_id ≡ some id
      → is_empty id ≡ false
      → perform J now call others d ≡ (after, ok t)
      → (extract_lock_id (options_of call) ≡ id)
        × ((target_of call == state_locked) ≡ false)
        × ((g : Hash) × (after.hash ≡ some g) × (g.lock_id ≡ none))
  unfolding WellFormed record_change
  perform-holder call h id after t wf found lock nonempty done =
      let granted = perform-Granted J now others d call after t wf done in
      let c = wf h found in
      let same : granted.saved.hash ≡ h = some_inj (sym granted.saved.found ∙ found) in
      let state : c.state ≡ granted.source =
        itoa-injective _ _
          (some_inj (sym c.stored ∙ ap Hash.operational_state (sym same) ∙ granted.saved.stored)) in
      let is_locked : c.state ≡ state_locked =
        (==_iff _ _).0 (sym c.locked ∙ ap held lock ∙ ap not nonempty) in
      let (given, freed, target) =
        unlocks granted.source t.to_state id (extract_lock_id (options_of call))
          granted.saved.hash.lock_id granted.saved.lock (ap Hash.lock_id same ∙ lock)
          (sym state ∙ is_locked)
          (subst (λ n. can_transition_to granted.source n ≡ true) (sym granted.arrived)
            granted.allowed)
          granted.saved.change in
      (
        given,
        ap (λ n. n == state_locked) (sym granted.arrived) ∙ target,
        (_, ap Db.hash granted.saved.result, freed),
      )
