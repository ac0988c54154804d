-- ===== src/Redis/Transaction.antt =====
-- internal/redis/tx.go: `WithTransaction`, an optimistic transaction under WATCH. The function reads
-- the data and returns its error, or the pipeline to run at EXEC. Other clients are a list, one
-- entry for each of the first attempts: what they write between the reads of the attempt and its
-- EXEC, and whether that touches a watched key, so that EXEC fails. An attempt that the function
-- refuses is not repeated.
use go_redis_smq.Prelude.{
  ℕ, zero, suc, ◌≡◌, ◌<◌, refl, Bool, true, false, List, [], ◌∷◌, length, Result, ok, err, sym, ap,
  ◌∙◌, Result-cases, arith, ◌==◌, if◌then◌else◌, ◌⊎◌, inl, inr, All,
}

-- What the caller gets: nil, the function's error, or "failed after n attempts".
pub data Outcome {ℓ} (E : Type ℓ) : Type ℓ where
  committed : Outcome E
  refused : E → Outcome E
  exhausted : Outcome E

-- The writes of other clients during an attempt.
pub data Others {ℓ} (Db : Type ℓ) : Type ℓ where
  conflict : (Db → Db) → Others Db
  unnoticed : (Db → Db) → Others Db

-- `defaultMaxAttempts`
abbrev pub default_max_attempts : ℕ
default_max_attempts = 3

-- What is asked of the other clients: a relation `Same`, and a property `P` of the data.
module _ {Db : Type 0} where
  abbrev pub Respect {ℓ} : (Db → Db → Type ℓ) → Others Db → Type ℓ
  Respect Same (conflict g) = Unit
  Respect Same (unnoticed g) = (c : Db) → Same c (g c)

  abbrev pub Keep {ℓ} : (Db → Type ℓ) → Others Db → Type ℓ
  Keep P (conflict g) = (c : Db) → P c → P (g c)
  Keep P (unnoticed g) = (c : Db) → P c → P (g c)

-- The data that EXEC meets in the first attempt that it lets pass: the writes of the other clients
-- up to there, in their order.
module _ {Db : Type 0} where
  unfoldable pub written : ℕ → List (Others Db) → Db → Db
  written zero others d = d
  written (suc n) [] d = d
  written (suc n) (conflict g ∷ others) d = written n others (g d)
  written (suc n) (unnoticed g ∷ others) d = g d

module _ {Db E : Type 0} (fn : Db → Result E (Db → Db)) where
  -- The loop over the attempts that are left.
  unfoldable pub attempts : ℕ → List (Others Db) → Db → Db × Outcome E
  attempts zero others d = (d, exhausted)
  attempts (suc n) [] d = elim (fn d) [ ok write ↦ (write d, committed) | err e ↦ (d, refused e) ]
  attempts (suc n) (conflict g ∷ others) d =
      let again = attempts n others (g d) in
      elim (fn d) [ ok write ↦ again | err e ↦ (d, refused e) ]
  attempts (suc n) (unnoticed g ∷ others) d = elim (fn d) [
    | ok write ↦ (write (g d), committed)
    | err e ↦ (g d, refused e)
  ]

  unfoldable pub with_transaction : ℕ → List (Others Db) → Db → Db × Outcome E
  unfolding attempts
  with_transaction max_attempts others d =
      attempts (if max_attempts == 0 then default_max_attempts else max_attempts) others d

  -- The data that the last attempt read, and those that its EXEC met.
  unfoldable pub last_attempt : ℕ → List (Others Db) → Db → Db × Db
  last_attempt zero others d = (d, d)
  last_attempt (suc n) [] d = (d, d)
  last_attempt (suc n) (conflict g ∷ others) d =
      let later = last_attempt n others (g d) in elim (fn d) [ ok write ↦ later | err e ↦ (d, d) ]
  last_attempt (suc n) (unnoticed g ∷ others) d = (d, g d)

  -- A transaction is all or nothing: it commits, and then the pipeline that the function returned on
  -- the data that the last attempt read ran on the data that its EXEC met; or it leaves those as they
  -- are.
  pub attempts_atomic :
      (n : ℕ) (others : List (Others Db)) (d : Db)
      → let (seen, met) = last_attempt n others d in
        let (after, outcome) = attempts n others d in
        ((outcome ≡ committed) × ((write : Db → Db) × (fn seen ≡ ok write) × (after ≡ write met)))
        ⊎ ((outcome ≡ committed → ⊥) × (after ≡ met))
  unfolding attempts last_attempt
  attempts_atomic zero others d = inr (λ e. cc, refl)
  attempts_atomic (suc n) [] d = elim (Result-cases (fn d)) [
    | inl (write, e) ↦ rw (e, attempts) (inl (refl, (write, refl, refl)))
    | inr (x, e) ↦ rw (e, attempts) (inr (λ c. cc, refl))
  ]
  attempts_atomic (suc n) (conflict g ∷ others) d = elim (Result-cases (fn d)) [
    | inl (write, e) ↦ rw (e, attempts, last_attempt) (attempts_atomic n others (g d))
    | inr (x, e) ↦ rw (e, attempts, last_attempt) (inr (λ c. cc, refl))
  ]
  attempts_atomic (suc n) (unnoticed g ∷ others) d = elim (Result-cases (fn d)) [
    | inl (write, e) ↦ rw (e, attempts) (inl (refl, (write, refl, refl)))
    | inr (x, e) ↦ rw (e, attempts) (inr (λ c. cc, refl))
  ]

  -- With fewer conflicts than attempts, and a function that accepts whatever it is given, the
  -- transaction commits.
  pub attempts_commits :
      (n : ℕ) (others : List (Others Db)) (d : Db)
      → length others < n
      → ((c : Db) → (write : Db → Db) × (fn c ≡ ok write))
      → (attempts n others d).1 ≡ committed
  unfolding attempts
  attempts_commits zero others d h total = elim h [ ]
  attempts_commits (suc n) [] d h total = rw ((total d).1, attempts)
  attempts_commits (suc n) (conflict g ∷ others) d h total =
      rw ((total d).1, attempts) (attempts_commits n others (g d) (omega arith) total)
  attempts_commits (suc n) (unnoticed g ∷ others) d h total = rw ((total d).1, attempts)

  -- An attempt that EXEC lets pass runs what the function chose before the other writes.
  pub attempts-unnoticed :
      (n : ℕ) (g : Db → Db) (others : List (Others Db)) (d : Db) (write : Db → Db)
      → fn d ≡ ok write
      → attempts (suc n) (unnoticed g ∷ others) d ≡ (write (g d), committed)
  unfolding attempts
  attempts-unnoticed n g others d write e = rw (e, attempts)

  last_attempt-Respect {ℓ} :
      (Same : Db → Db → Type ℓ)
      → ((c : Db) → Same c c)
      → (n : ℕ) (others : List (Others Db)) (d : Db) → All (Respect Same) others
      → let (seen, met) = last_attempt n others d in Same seen met
  unfolding last_attempt
  last_attempt-Respect Same same zero others d ho = same d
  last_attempt-Respect Same same (suc n) [] d ho = same d
  last_attempt-Respect Same same (suc n) (conflict g ∷ others) d ho = elim (Result-cases (fn d)) [
    | inl (write, e) ↦ rw (e, last_attempt) (last_attempt-Respect Same same n others (g d) ho.1)
    | inr (x, e) ↦ rw (e, last_attempt) (same d)
  ]
  last_attempt-Respect Same same (suc n) (unnoticed g ∷ others) d ho = ho.0 d

  with_transaction-suc :
      (n : ℕ) (others : List (Others Db)) (d : Db)
      → with_transaction (suc n) others d ≡ attempts (suc n) others d
  unfolding with_transaction
  with_transaction-suc n others d =
      let positive : (suc n == 0) ≡ false = ground arith in
      ap (λ b. attempts (if b then default_max_attempts else suc n) others d) positive

  module _ {ℓ} (Same : Db → Db → Type ℓ) (same : (c : Db) → Same c c) where
    attempts_committed :
        (n : ℕ) (others : List (Others Db)) (d : Db)
        → All (Respect Same) others
        → (attempts n others d).1 ≡ committed
        → (seen : Db) × (write : Db → Db) × Same seen (written n others d)
          × (fn seen ≡ ok write)
          × ((attempts n others d).0 ≡ write (written n others d))
    unfolding attempts written
    attempts_committed zero others d ho h = cc
    attempts_committed (suc n) [] d ho h = elim (Result-cases (fn d)) [
      | inl (write, e) ↦ (d, write, same d, e, rw (e, attempts))
      | inr (x, e) ↦ let no : refused x ≡ committed = rw (e, attempts) at h in cc
    ]
    attempts_committed (suc n) (conflict g ∷ others) d ho h = elim (Result-cases (fn d)) [
      | inl (write, e) ↦
          let again : (attempts n others (g d)).1 ≡ committed = rw (e, attempts) at h in
          rw (e, attempts) (attempts_committed n others (g d) ho.1 again)
      | inr (x, e) ↦ let no : refused x ≡ committed = rw (e, attempts) at h in cc
    ]
    attempts_committed (suc n) (unnoticed g ∷ others) d ho h = elim (Result-cases (fn d)) [
      | inl (write, e) ↦ (d, write, ho.0 d, e, rw (e, attempts))
      | inr (x, e) ↦ let no : refused x ≡ committed = rw (e, attempts) at h in cc
    ]

    -- A transaction that commits ran the function's pipeline on the data that EXEC met, which are the
    -- same for it as those that the function saw.
    pub with_transaction-committed :
        (n : ℕ) (others : List (Others Db)) (d : Db)
        → All (Respect Same) others
        → (with_transaction (suc n) others d).1 ≡ committed
        → (seen : Db) × (write : Db → Db) × Same seen (written (suc n) others d)
          × (fn seen ≡ ok write)
          × ((with_transaction (suc n) others d).0 ≡ write (written (suc n) others d))
    with_transaction-committed n others d ho h =
        let same = with_transaction-suc n others d in
        rw same (attempts_committed (suc n) others d ho (ap (λ r. r.1) (sym same) ∙ h))

    -- The same behind a check, which then passed.
    pub checked-committed :
        (b : Bool) (e : E) (n : ℕ) (others : List (Others Db)) (d : Db)
        → All (Respect Same) others
        → (if b then with_transaction (suc n) others d else (d, refused e)).1 ≡ committed
        → (b ≡ true)
          × ((seen : Db) × (write : Db → Db) × Same seen (written (suc n) others d)
              × (fn seen ≡ ok write)
              × ((if b then with_transaction (suc n) others d else (d, refused e)).0
                  ≡ write (written (suc n) others d)))
    checked-committed true e n others d ho h = (refl, with_transaction-committed n others d ho h)
    checked-committed false e n others d ho h = cc

    -- The same behind two checks.
    pub checked_twice-committed :
        (a b : Bool) (x y : E) (n : ℕ) (others : List (Others Db)) (d : Db)
        → All (Respect Same) others
        → (if a
            then (if b then with_transaction (suc n) others d else (d, refused x))
            else (d, refused y)).1
          ≡ committed
        → (a ≡ true)
          × (b ≡ true)
          × ((seen : Db) × (write : Db → Db) × Same seen (written (suc n) others d)
              × (fn seen ≡ ok write)
              × ((if a
                    then (if b then with_transaction (suc n) others d else (d, refused x))
                    else (d, refused y)).0
                  ≡ write (written (suc n) others d)))
    checked_twice-committed true true x y n others d ho h =
        (refl, refl, with_transaction-committed n others d ho h)
    checked_twice-committed true false x y n others d ho h = cc
    checked_twice-committed false b x y n others d ho h = cc

    -- What the function and the other clients keep, a transaction keeps, whatever its outcome.
    attempts_keep {κ} :
        (P : Db → Type κ)
        → ((seen met : Db) (write : Db → Db)
            → P seen
            → P met
            → Same seen met
            → fn seen ≡ ok write
            → P (write met))
        → (n : ℕ) (others : List (Others Db)) (d : Db) → All (Respect Same) others
        → All (Keep P) others
        → P d
        → P (attempts n others d).0
    unfolding attempts
    attempts_keep P keep zero others d ho hp p = p
    attempts_keep P keep (suc n) [] d ho hp p = elim (Result-cases (fn d)) [
      | inl (write, e) ↦ rw (e, attempts) (keep d d write p p (same d) e)
      | inr (x, e) ↦ rw (e, attempts) p
    ]
    attempts_keep P keep (suc n) (conflict g ∷ others) d ho hp p = elim (Result-cases (fn d)) [
      | inl (write, e) ↦ rw (e, attempts) (attempts_keep P keep n others (g d) ho.1 hp.1 (hp.0 d p))
      | inr (x, e) ↦ rw (e, attempts) p
    ]
    attempts_keep P keep (suc n) (unnoticed g ∷ others) d ho hp p = elim (Result-cases (fn d)) [
      | inl (write, e) ↦ rw (e, attempts) (keep d (g d) write p (hp.0 d p) (ho.0 d) e)
      | inr (x, e) ↦ rw (e, attempts) (hp.0 d p)
    ]

    pub with_transaction_keeps {κ} :
        (P : Db → Type κ)
        → ((seen met : Db) (write : Db → Db)
            → P seen
            → P met
            → Same seen met
            → fn seen ≡ ok write
            → P (write met))
        → (n : ℕ) (others : List (Others Db)) (d : Db) → All (Respect Same) others
        → All (Keep P) others
        → P d
        → P (with_transaction n others d).0
    unfolding with_transaction
    with_transaction_keeps P keep n others d ho hp p = attempts_keep P keep _ others d ho hp p
