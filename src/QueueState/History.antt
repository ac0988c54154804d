-- ===== src/QueueState/History.antt =====
-- internal/queue/state.go: what holds of a queue between two operations of the state manager.
use go_redis_smq.Prelude.{
  ℕ, zero, suc, ◌≡◌, ◌≤◌, refl, sym, ap, ◌∙◌, Bool, true, false, not, Option, none, some, List, [],
  ◌∷◌, ◌==◌, map, length, take, length-take, arith, some_inj, subst, ◌⊎◌, inl, inr,
}
use go_redis_smq.Prelude.Text.{Text, text_eq_ne}
use go_redis_smq.Prelude.Decimal.{itoa, atoi, atoi-itoa}
use go_redis_smq.QueueState.{Transition, can_transition_to, state_locked}
use go_redis_smq.QueueState.Script.{Hash, Db, Arguments, record_change, is_empty}
use go_redis_smq.QueueState.Manager.{TransitionJson, max_history_size}

-- Does the hash hold the id of a lock?
abbrev pub held : Option Text → Bool
held none = false
held (some id) = not (is_empty id)

-- The transitions, newest first, are a path through the allowed transitions that ends in the state.
-- A transition from no state, as the creation of a queue records one, is the oldest.
unfoldable pub Chain : ℕ → List Transition → Type 0
Chain s [] = Unit
Chain s (t ∷ ts) =
    (t.to_state ≡ s)
    × (((t.from_state ≡ none) × (ts ≡ []))
        ⊎ ((p : ℕ) × (t.from_state ≡ some p) × (can_transition_to p s ≡ true) × Chain p ts))

take-nil : (n : ℕ) → take {A = Transition} n [] ≡ []
take-nil zero = refl
take-nil (suc n) = refl

take-Chain : (n s : ℕ) (ts : List Transition) → Chain s ts → Chain s (take n ts)
unfolding Chain
take-Chain zero s ts h = tt
take-Chain (suc n) s [] h = tt
take-Chain (suc n) s (t ∷ ts) (a, inl (b, e)) = (a, inl (b, ap (take n) e ∙ take-nil n))
take-Chain (suc n) s (t ∷ ts) (a, inr (p, b, c, h)) = (a, inr (p, b, c, take-Chain n p ts h))

take-map : {A B : Type 0} (f : A → B) (n : ℕ) (xs : List A) → take n (map f xs) ≡ map f (take n xs)
take-map f zero xs = refl
take-map f (suc n) [] = refl
take-map f (suc n) (x ∷ xs) = ap (λ ys. f x ∷ ys) (take-map f n xs)

pub itoa-injective : (n m : ℕ) → itoa n ≡ itoa m → n ≡ m
itoa-injective n m h = some_inj (sym (atoi-itoa n) ∙ ap atoi h ∙ atoi-itoa m)

pub itoa-nonempty : (n : ℕ) → is_empty (itoa n) ≡ false
unfolding atoi
itoa-nonempty n =
    text_eq_ne (itoa n) [] (λ e. let h : atoi [] ≡ some n = rw e at (atoi-itoa n) in cc)

module _ (J : TransitionJson) where
  -- The fields of the hash and the history fit: the stored state is the end of the path in the
  -- history, no more than 100 entries long, and an id of a lock is stored exactly while it is locked.
  pub record Consistent (h : Hash) (history : List Text) : Type 0 where
    pub state : ℕ
    pub entries : List Transition
    pub stored : h.operational_state ≡ some (itoa state)
    pub recorded : history ≡ map J.marshal entries
    pub chained : Chain state entries
    pub bounded : length history ≤ max_history_size
    pub locked : held h.lock_id ≡ (state == state_locked)

  -- The queue does not exist, or its data are consistent.
  unfoldable pub WellFormed : Db → Type 0
  WellFormed d = (h : Hash) → d.hash ≡ some h → Consistent h d.history

  -- Recording an allowed transition from the stored state keeps the data consistent.
  pub record_change-WellFormed :
      (a : Arguments) (t : Transition) (h : Hash) (lock : Option Text) (d : Db)
      → a.new_state ≡ itoa t.to_state
      → a.transition_data ≡ J.marshal t
      → a.max_history ≡ max_history_size
      → (c : Consistent h d.history) → t.from_state ≡ some c.state
      → can_transition_to c.state t.to_state ≡ true
      → held lock ≡ (t.to_state == state_locked)
      → WellFormed (record_change a (record h { lock_id = lock }) d)
  unfolding WellFormed record_change Chain
  record_change-WellFormed a t h lock d e₁ e₂ e₃ c source can lk h' eq =
      subst (λ g. Consistent g (take a.max_history (a.transition_data ∷ d.history))) (some_inj eq)
        (record {
          state = t.to_state;
          entries = take max_history_size (t ∷ c.entries);
          stored = ap some e₁;
          recorded =
              rw (e₂, e₃, c.recorded)
                (ap (λ ys. J.marshal t ∷ ys) (take-map J.marshal 99 c.entries));
          chained =
              take-Chain max_history_size t.to_state (t ∷ c.entries)
                (refl, inr (c.state, source, can, c.chained));
          bounded =
              rw e₃ (omega (arith, length-take max_history_size (a.transition_data ∷ d.history)));
          locked = lk;
        })
