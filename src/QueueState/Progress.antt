-- ===== src/QueueState/Progress.antt =====
-- internal/queue/state.go: operations that are allowed succeed.
use go_redis_smq.Prelude.{
  ℕ, ◌≡◌, refl, Bool, true, false, not, Option, some, List, [], ◌∷◌, ◌==◌, ==_iff, arith, map,
  Bool-cases, inl, inr, ok,
}
use go_redis_smq.Prelude.Text.{Text}
use go_redis_smq.Prelude.Decimal.{itoa, atoi-itoa}
use go_redis_smq.QueueState.{
  Transition, Options, can_transition_to, state_locked, new_transition, extract_lock_id,
  new_initial_transition,
}
use go_redis_smq.QueueState.Script.{Hash, Db, change_state, is_empty, record_change, reply_ok}
use go_redis_smq.QueueState.Manager.{
  TransitionJson, Others, arguments, save_state, publish, fetch_current, parse_state,
  interpret_reply, transition_to, acquire_lock, perform, Call, pause, resume, stop, lock, unlock,
  lock_options,
}
use go_redis_smq.QueueState.History.{Consistent, Chain, itoa-nonempty}
use go_redis_smq.QueueState.Saved.{itoa_test, found_queue, new_transition-ends}
use go_redis_smq.QueueState.Invariant.{target_of}

parse_state-itoa : (n : ℕ) → parse_state (itoa n) ≡ n
unfolding parse_state
parse_state-itoa n = simp (parse_state, itoa-nonempty n, atoi-itoa n)

-- The operations of a client that holds no lock: `Unlock` is not one, and `Lock` has an id.
abbrev pub free_call : Call → Bool
free_call (lock _ id _) = not (is_empty id)
free_call (unlock _ _ _) = false
free_call _ = true

abbrev pub undisturbed : Others
undisturbed = record { before_history = λ d. d; before_script = λ d. d }

module _ (J : TransitionJson) (now : ℕ) (d : Db) (h : Hash) where
  -- The state that is read is the one that is stored.
  fetch_current_stored :
      (c : Consistent J h d.history)
      → d.hash ≡ some h
      → (t : Transition) × (fetch_current J now d d ≡ ok t) × (t.to_state ≡ c.state)
  unfolding fetch_current Chain new_initial_transition
  fetch_current_stored c found = go c.entries c.recorded c.chained
    where
      go :
          (ts : List Transition)
          → d.history ≡ map J.marshal ts
          → Chain c.state ts
          → (t : Transition) × (fetch_current J now d d ≡ ok t) × (t.to_state ≡ c.state)
      go [] e chain = (
        new_initial_transition now c.state,
        simp (fetch_current, found, c.stored, e, parse_state-itoa c.state),
        refl,
      )
      go (t ∷ ts) e chain =
          (t, simp (fetch_current, found, c.stored, e, J.unmarshal-marshal t), chain.0)

  -- The script makes an allowed change from a state that is not locked.
  change_state_succeeds :
      (target : ℕ) (t : Transition) (opts : Option Options)
      → (c : Consistent J h d.history) → t.to_state ≡ target
      → (c.state == state_locked) ≡ false
      → ((target == state_locked) ≡ true → is_empty (extract_lock_id opts) ≡ false)
      → (after : Db) × (change_state (arguments J (some c.state) t opts) h d ≡ (after, reply_ok))
  unfolding change_state
  change_state_succeeds target t opts c arrived free id =
      let a = arguments J (some c.state) t opts in
      let here : (c.state == c.state) ≡ true = (==_iff _ _).1 refl in
      elim (Bool-cases (target == state_locked)) [
        | inl locking ↦ (
          record_change a (record h { lock_id = some (extract_lock_id opts) }) d,
          simp (c.stored, itoa_test, itoa-nonempty, here, arrived, locking, id locking),
        )
        | inr moving ↦ (
          record_change a h d,
          simp (c.stored, itoa_test, itoa-nonempty, here, arrived, moving, free),
        )
      ]

  save_state_succeeds :
      (target : ℕ) (reason : Text) (opts : Option Options)
      → (c : Consistent J h d.history) → d.hash ≡ some h
      → (c.state == state_locked) ≡ false
      → ((target == state_locked) ≡ true → is_empty (extract_lock_id opts) ≡ false)
      → (after : Db) × (t : Transition) × (save_state J now (some c.state) target reason opts d
          ≡ (after, ok t))
  unfolding save_state interpret_reply
  save_state_succeeds target reason opts c found free id =
      let t = new_transition now (some c.state) target reason opts in
      let (after, done) =
        change_state_succeeds target t opts c
          (new_transition-ends J now c.state target reason opts).1 free id in
      (
        publish t after,
        t,
        simp (save_state, found_queue (arguments J (some c.state) t opts) h d found, done),
      )

  transition_to_succeeds :
      (target : ℕ) (reason : Text) (opts : Option Options)
      → (c : Consistent J h d.history) → d.hash ≡ some h
      → (c.state == state_locked) ≡ false
      → (target == state_locked) ≡ false
      → can_transition_to c.state target ≡ true
      → (after : Db) × (t : Transition) × (transition_to J now target reason opts undisturbed d
          ≡ (after, ok t))
  unfolding transition_to
  transition_to_succeeds target reason opts c found free other can =
      let (current, read, stored) = fetch_current_stored c found in
      let (after, t, saved) =
        save_state_succeeds target reason opts c found free
          (λ locking. ground (arith, locking, other)) in
      (after, t, rw (transition_to, read, stored, can) saved)

  acquire_lock_succeeds :
      (owner : ℕ) (id reason : Text) (opts : Option Options)
      → (c : Consistent J h d.history) → d.hash ≡ some h
      → (c.state == state_locked) ≡ false
      → is_empty id ≡ false
      → can_transition_to c.state state_locked ≡ true
      → (after : Db) × (t : Transition) × (acquire_lock J now owner id reason opts undisturbed d
          ≡ (after, ok t))
  unfolding acquire_lock extract_lock_id
  acquire_lock_succeeds owner id reason opts c found free given can =
      let (current, read, stored) = fetch_current_stored c found in
      let (after, t, saved) =
        save_state_succeeds state_locked reason (some (lock_options id owner opts)) c found free
          (λ _. given) in
      (after, t, rw (acquire_lock, given, read, stored, can) saved)

  -- While nobody else writes, an operation of a client that holds no lock succeeds in a queue that is
  -- not locked and whose data are consistent, if the transition to its target is allowed.
  pub perform_succeeds :
      (call : Call)
      → (c : Consistent J h d.history) → d.hash ≡ some h
      → (c.state == state_locked) ≡ false
      → free_call call ≡ true
      → can_transition_to c.state (target_of call) ≡ true
      → (after : Db) × (t : Transition) × (perform J now call undisturbed d ≡ (after, ok t))
  unfolding perform
  perform_succeeds (pause opts) c found free mine can =
      transition_to_succeeds _ _ opts c found free refl can
  perform_succeeds (resume opts) c found free mine can =
      transition_to_succeeds _ _ opts c found free refl can
  perform_succeeds (stop opts) c found free mine can =
      transition_to_succeeds _ _ opts c found free refl can
  perform_succeeds (lock owner id opts) c found free mine can =
      acquire_lock_succeeds owner id _ opts c found free (ground (arith, mine)) can
  perform_succeeds (unlock owner id opts) c found free mine can = cc
