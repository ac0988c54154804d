-- ===== src/QueueState/Saved.antt =====
-- internal/queue/state.go: `saveState` and its script keep the data of the queue consistent, and record
-- a change only in the state that the caller had read.
use go_redis_smq.Prelude.{
  ℕ, ◌≡◌, refl, sym, ap, ◌∙◌, true, false, not, ◌||◌, Option, none, some, [], ◌==◌, arith, some_inj,
  subst, Bool-cases, inl, inr, ok, err, Option-cases, ==_iff, ◌⊎◌,
}
use go_redis_smq.Prelude.Text.{Text, text_eq, text_eq_refl, text_eq_iff, eq_of_text_eq}
use go_redis_smq.Prelude.Decimal.{itoa}
use go_redis_smq.QueueState.{
  Transition, Options, Error, not_found, invalid_lock, invalid_transition, can_transition_to,
  state_locked, or_else, new_transition, extract_lock_id,
}
use go_redis_smq.QueueState.Script.{
  Hash, Db, Arguments, record_change, change_state, set_queue_state, is_empty, reply_ok,
  reply_not_found,
}
use go_redis_smq.QueueState.Manager.{
  TransitionJson, arguments, save_state, interpret_reply, publish,
}
use go_redis_smq.QueueState.History.{
  WellFormed, record_change-WellFormed, itoa-injective, itoa-nonempty, held,
}

pub itoa_test : (n m : ℕ) → text_eq (itoa n) (itoa m) ≡ (n == m)
itoa_test n m = ground (arith, text_eq_iff (itoa n) (itoa m), itoa-injective n m, same n m)
  where
    same : (n m : ℕ) → n ≡ m → itoa n ≡ itoa m
    same n m e = ap itoa e

-- What the script does to the stored id of a lock when it changes the state from `s` to `target`,
-- given the id of a lock or none.
pub data LockChange (s target : ℕ) (id : Text) (before : Option Text) : Option Text → Type 0 where
  locking :
      (target == state_locked) ≡ true
      → is_empty id ≡ false
      → LockChange s target id before (some id)
  unlocking :
      (target == state_locked) ≡ false
      → (s == state_locked) ≡ true
      → before ≡ some id
      → LockChange s target id before none
  moving :
      (target == state_locked) ≡ false
      → (s == state_locked) ≡ false
      → LockChange s target id before before

held_lock :
    (id : Text) (o : Option Text)
    → (is_empty id || (is_empty (or_else o []) || not (text_eq (or_else o []) id))) ≡ false
    → o ≡ some id
held_lock id none h = ground (arith, text_eq_refl [])
held_lock id (some l) h = ap some (eq_of_text_eq l id (ground arith))

pub found_queue :
    (a : Arguments) (h : Hash) (d : Db) → d.hash ≡ some h → set_queue_state a d ≡ change_state a h d
unfolding set_queue_state
found_queue a h d found = rw found

missing_queue :
    (a : Arguments) (d : Db) → d.hash ≡ none → set_queue_state a d ≡ (d, reply_not_found)
unfolding set_queue_state
missing_queue a d missing = rw missing

module _ (J : TransitionJson) where
  -- The script leaves the data as they are, or the state is the one that the caller had read and
  -- the change is recorded.
  change_state-cases :
      (source s : ℕ) (t : Transition) (opts : Option Options) (h : Hash) (d : Db)
      → h.operational_state ≡ some (itoa s)
      → let a = arguments J (some source) t opts in
        ((e : Error) × ((change_state a h d).0 ≡ d)
          × (interpret_reply (change_state a h d).1 t ≡ err e))
        ⊎ ((s ≡ source)
            × ((lock : Option Text) × LockChange s t.to_state (extract_lock_id opts) h.lock_id lock
                × (change_state a h d
                    ≡ (record_change a (record h { lock_id = lock }) d, reply_ok))))
  unfolding change_state interpret_reply
  change_state-cases source s t opts h d stored = elim (Bool-cases (s == source)) [
    | inr other ↦ inl (
      invalid_transition,
      simp (stored, itoa_test, itoa-nonempty, other),
      simp (stored, itoa_test, itoa-nonempty, other),
    )
    | inl same ↦ elim (Bool-cases (t.to_state == state_locked)) [
      | inl lock ↦ elim (Bool-cases (is_empty (extract_lock_id opts))) [
        | inl no_id ↦ inl (
          invalid_lock,
          simp (stored, itoa_test, itoa-nonempty, same, lock, no_id),
          simp (stored, itoa_test, itoa-nonempty, same, lock, no_id),
        )
        | inr id ↦ inr (
          (==_iff s source).0 same,
          (
            some (extract_lock_id opts),
            locking lock id,
            simp (stored, itoa_test, itoa-nonempty, same, lock, id),
          ),
        )
      ]
      | inr unlock ↦ elim (Bool-cases (s == state_locked)) [
        | inl was ↦
            elim (Bool-cases (
              is_empty (extract_lock_id opts)
              || (is_empty (or_else h.lock_id [])
                  || not (text_eq (or_else h.lock_id []) (extract_lock_id opts))))) [
                    | inl bad ↦ inl (
                      invalid_lock,
                      simp (stored, itoa_test, itoa-nonempty, same, unlock, was, bad),
                      simp (stored, itoa_test, itoa-nonempty, same, unlock, was, bad),
                    )
                    | inr good ↦ inr (
                      (==_iff s source).0 same,
                      (
                        none,
                        unlocking unlock was (held_lock (extract_lock_id opts) h.lock_id good),
                        simp (stored, itoa_test, itoa-nonempty, same, unlock, was, good),
                      ),
                    )
                  ]
        | inr free ↦ inr (
          (==_iff s source).0 same,
          (
            h.lock_id,
            moving unlock free,
            simp (stored, itoa_test, itoa-nonempty, same, unlock, free),
          ),
        )
      ]
    ]
  ]

  -- What `saveState` did when it returned a transition: the queue exists, in the state that the
  -- caller had read; its new state, the id of its lock and its history are as recorded, and the
  -- event is published.
  pub record Saved (s : ℕ) (t : Transition) (opts : Option Options) (d after : Db) : Type 0 where
    pub hash : Hash
    pub found : d.hash ≡ some hash
    pub stored : hash.operational_state ≡ some (itoa s)
    pub lock : Option Text
    pub change : LockChange s t.to_state (extract_lock_id opts) hash.lock_id lock
    pub result :
        after
        ≡ publish t (record_change (arguments J (some s) t opts) (record hash { lock_id = lock }) d)

  -- `saveState` fails and changes nothing, or saves the transition.
  pub save_state-cases :
      (now source target : ℕ) (reason : Text) (opts : Option Options) (d : Db)
      → WellFormed J d
      → let t = new_transition now (some source) target reason opts in
        ((e : Error) × (save_state J now (some source) target reason opts d ≡ (d, err e)))
        ⊎ ((after : Db) × (save_state J now (some source) target reason opts d ≡ (after, ok t))
            × Saved source t opts d after)
  unfolding save_state WellFormed interpret_reply
  save_state-cases now source target reason opts d wf = elim (Option-cases d.hash) [
    | inl missing ↦ inl (
      not_found,
      simp (
        save_state,
        missing_queue
            (arguments J (some source) (new_transition now (some source) target reason opts) opts) d
            missing,
      ),
    )
    | inr (h, found) ↦
        let c = wf h found in
        elim (change_state-cases source c.state
          (new_transition now (some source) target reason opts) opts h d c.stored) [
            | inl (e, kept, failed) ↦ inl (
              e,
              simp (
                save_state,
                found_queue
                    (arguments J (some source) (new_transition now (some source) target reason opts)
                      opts)
                    h d found,
                kept,
                failed,
              ),
            )
            | inr (same, (lock, change, done)) ↦ inr (
              _,
              simp (
                save_state,
                found_queue
                    (arguments J (some source) (new_transition now (some source) target reason opts)
                      opts)
                    h d found,
                done,
              ),
              record {
                hash = h;
                found = found;
                stored = subst (λ n. h.operational_state ≡ some (itoa n)) same c.stored;
                lock = lock;
                change =
                    subst
                      (λ n.
                        LockChange n (new_transition now (some source) target reason opts).to_state
                          (extract_lock_id opts) h.lock_id lock)
                      same change;
                result = refl;
              },
            )
          ]
  ]

  -- The new transition leads from the state that was read to the target.
  pub new_transition-ends :
      (now source target : ℕ) (reason : Text) (opts : Option Options)
      → let t = new_transition now (some source) target reason opts in
        (t.from_state ≡ some source) × (t.to_state ≡ target)
  unfolding new_transition
  new_transition-ends now source target reason none = (refl, refl)
  new_transition-ends now source target reason (some opts) = (refl, refl)

  LockChange-held :
      {s target : ℕ} {id : Text} {before after : Option Text}
      → LockChange s target id before after
      → held before ≡ (s == state_locked)
      → held after ≡ (target == state_locked)
  LockChange-held (locking to_lock id) h = ground (arith, to_lock, id)
  LockChange-held (unlocking to_free was e) h = ground (arith, to_free)
  LockChange-held (moving to_free free) h = ground (arith, to_free, free, h)

  pub Saved-WellFormed :
      (now source target : ℕ) (reason : Text) (opts : Option Options) (d after : Db)
      → WellFormed J d
      → can_transition_to source target ≡ true
      → Saved source (new_transition now (some source) target reason opts) opts d after
      → WellFormed J after
  unfolding WellFormed
  Saved-WellFormed now source target reason opts d after wf can sv =
      let t = new_transition now (some source) target reason opts in
      let (from_source, to_target) = new_transition-ends now source target reason opts in
      let c = wf sv.hash sv.found in
      let same : c.state ≡ source = itoa-injective _ _ (some_inj (sym c.stored ∙ sv.stored)) in
      subst (WellFormed J) (sym sv.result) (
        record_change-WellFormed J (arguments J (some source) t opts) t sv.hash sv.lock d refl refl
          refl c (from_source ∙ ap some (sym same)) (rw (same, to_target) can)
          (LockChange-held sv.change (c.locked ∙ ap (λ n. n == state_locked) same)))
