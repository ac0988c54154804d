-- ===== src/Delivery/Workers/Drained.antt =====
-- What the rounds of the workers leave in the lists that they read.
use go_redis_smq.Prelude.{
  ℕ, zero, suc, ◌+◌, ◌≡◌, refl, sym, ap, ◌∙◌, Bool, true, false, Option, none, some, List, [], ◌∷◌,
  ◌++◌, ◌==◌, leb, if◌then◌else◌, take, drop, any, map, arith, inl, inr, Option-cases, Bool-cases,
  ltb,
}
use go_redis_smq.Scheduling.{milliseconds}
use go_redis_smq.Prelude.Text.{Text}
use go_redis_smq.Delivery.Entries
use go_redis_smq.Delivery.Entries.{
  Entry, of_key, holds, lowest, remove, removed, lpush, rpush, zadd, ltrim, drop_first, count,
  place_of,
}
use go_redis_smq.Delivery.Data.{Db, Fields, refusal}
use go_redis_smq.Delivery.Placed.{IsPlaced, is_tracked, stands_in}
use go_redis_smq.Delivery.Requeue.{
  Retry, each, back_to_pending, retry_now, requeue_one, requeue_outcome, requeue_immediate,
}
use go_redis_smq.Delivery.Workers.{ids_at, load_retries, requeue}

-- Another key is left alone.
pub ids_at-added :
    (kind : ℕ) (label : Text) (es : List Entry) (e : Entry)
    → (kind == e.kind) ≡ false
    → ids_at kind label (es ++ e ∷ []) ≡ ids_at kind label es
unfolding ids_at of_key
ids_at-added kind label [] e h = ground (arith, h)
ids_at-added kind label (f ∷ es) e h = ground (arith, ids_at-added kind label es e h)

pub ids_at-remove :
    (kind other id : ℕ) (label tag : Text) (es : List Entry)
    → (kind == other) ≡ false
    → ids_at kind label (remove other tag id es) ≡ ids_at kind label es
unfolding ids_at remove holds of_key
ids_at-remove kind other id label tag [] h = refl
ids_at-remove kind other id label tag (e ∷ es) h =
    ground (arith, ids_at-remove kind other id label tag es h)

pub ids_at-remove_first :
    (kind id : ℕ) (label : Text) (ids : List ℕ) (es : List Entry)
    → ids_at kind label es ≡ id ∷ ids
    → (removed kind label id es ≡ true) × (ids_at kind label (remove kind label id es) ≡ ids)
unfolding ids_at remove removed holds of_key
ids_at-remove_first kind id label ids [] h = ground arith
ids_at-remove_first kind id label ids (e ∷ es) h = elim (Bool-cases (of_key kind label e)) [
  | inl mine ↦ ground (arith, mine)
  | inr other ↦
      let h' : ids_at kind label es ≡ id ∷ ids = ground (arith, other, h) in
      let (found, rest) = ids_at-remove_first kind id label ids es h' in
      (ground (arith, found), ground (arith, other, rest))
]

ids_at-count :
    (kind id : ℕ) (label : Text) (es : List Entry)
    → any (λ j. j == id) (ids_at kind label es) ≡ true
    → leb 1 (count (place_of kind) id es) ≡ true
unfolding ids_at count of_key
ids_at-count kind id label [] h = ground arith
ids_at-count kind id label (e ∷ es) h = ground (arith, ids_at-count kind id label es)

-- A message that stands in a tracked place has a hash.
pub placed_stored :
    (kind id : ℕ) (label : Text) (d : Db)
    → IsPlaced d.entries d.message
    → is_tracked (place_of kind) ≡ true
    → any (λ j. j == id) (ids_at kind label d.entries) ≡ true
    → ((status : ℕ) × ((d.message id).status ≡ some status))
unfolding stands_in
placed_stored kind id label d h t found = elim (Option-cases (d.message id).status) [
  | inr (status, e) ↦ (status, e)
  | inl e ↦
      absurd (ground (arith, e, ids_at-count kind id label d.entries found, h (place_of kind) id t))
]

module _ (load_retry : ℕ → Fields → Option Retry)
    (keeps : (id : ℕ) (m : Fields) (r : Retry) → load_retry id m ≡ some r → r.id ≡ id) where
  load_retries-ids :
      (d : Db) (ids : List ℕ)
      → ((id : ℕ)
          → any (λ j. j == id) ids ≡ true
          → (status : ℕ) × ((d.message id).status ≡ some status))
      → ((id : ℕ)
          → any (λ j. j == id) ids ≡ true
          → (r : Retry) × (load_retry id (d.message id) ≡ some r))
      → map (λ r. r.id) (load_retries load_retry d ids) ≡ ids
  unfolding load_retries
  load_retries-ids d [] h decodes = refl
  load_retries-ids d (id ∷ ids) h decodes =
      let (status, s) = h id (ground arith) in
      let (r, decoded) = decodes id (ground arith) in
      let rest =
        load_retries-ids d ids (λ j found. h j (ground (arith, found)))
          (λ j found. decodes j (ground (arith, found))) in
      rw (map, s, decoded)
        (ap (λ x. x ∷ map (λ r. r.id) (load_retries load_retry d ids))
            (keeps id (d.message id) r decoded)
          ∙ ap (λ xs. id ∷ xs) rest)

pub retry_now-ids :
    (queue_type now : ℕ) (r : Retry) (rest : List Entry) (d : Db)
    → ids_at Entries.requeued [] (retry_now queue_type now r rest d).entries
      ≡ ids_at Entries.requeued [] rest
unfolding retry_now back_to_pending ids_at of_key
retry_now-ids queue_type now r rest d =
    let score : ℕ = elim r.priority [ none ↦ 0 | some n ↦ n ] in
    let entry : ℕ → Text → ℕ → Entry =
      λ kind label score. record { kind = kind; label = label; score = score; id = r.id } in
    ground (
      arith,
      ids_at-added Entries.requeued [] rest (entry Entries.pending r.group 0) refl,
      ids_at-added Entries.requeued [] rest (entry Entries.dead_lettered [] 0) refl,
      ids_at-added Entries.requeued [] (remove Entries.priority r.group r.id rest)
          (entry Entries.priority r.group score) refl,
      ids_at-remove Entries.requeued Entries.priority r.id [] r.group rest refl,
    )

pub requeue_one-ids :
    (queue_type now : ℕ) (r : Retry) (d : Db)
    → ids_at Entries.requeued [] (requeue_one queue_type now r d).entries
      ≡ ids_at Entries.requeued [] (remove Entries.requeued [] r.id d.entries)
unfolding requeue_one
requeue_one-ids queue_type now r d =
    let rest = remove Entries.requeued [] r.id d.entries in
    let due = if ltb 0 r.retry_delay then now + milliseconds r.retry_delay else 0 in
    let entry : Entry = record { kind = Entries.delayed; label = []; score = due; id = r.id } in
    ground (
      arith,
      retry_now-ids queue_type now r rest d,
      ids_at-added Entries.requeued [] (remove Entries.delayed [] r.id rest) entry refl,
      ids_at-remove Entries.requeued Entries.delayed r.id [] [] rest refl,
    )

-- The loop takes the messages from the front of the list, in their order.
each-ids :
    (queue_type now : ℕ) (rs : List Retry) (d : Db) (others : List ℕ)
    → ids_at Entries.requeued [] d.entries ≡ map (λ r. r.id) rs ++ others
    → ids_at Entries.requeued []
        (each Entries.requeued (requeue_one queue_type now) requeue_outcome rs d).0.entries
      ≡ others
unfolding each
each-ids queue_type now [] d others h = h
each-ids queue_type now (r ∷ rs) d others h =
    let (found, rest) =
      ids_at-remove_first Entries.requeued r.id [] (map (λ r. r.id) rs ++ others) d.entries h in
    rw found (
      each-ids queue_type now rs (requeue_one queue_type now r d) others
        (requeue_one-ids queue_type now r d ∙ rest))

requeue_immediate-ids :
    (queue_type now : ℕ) (rs : List Retry) (d : Db) (others : List ℕ)
    → d.queue_type ≡ some queue_type
    → refusal d ≡ none
    → ids_at Entries.requeued [] d.entries ≡ map (λ r. r.id) rs ++ others
    → ids_at Entries.requeued [] (requeue_immediate now rs d).0.entries ≡ others
unfolding requeue_immediate
requeue_immediate-ids queue_type now rs d others n open' h =
    rw (n, requeue_immediate, open') (each-ids queue_type now rs d others h)

requeued_all :
    (rs : List Retry) (queue_type now : ℕ) (d : Db) (others : List ℕ)
    → d.queue_type ≡ some queue_type
    → refusal d ≡ none
    → ids_at Entries.requeued [] d.entries ≡ map (λ r. r.id) rs ++ others
    → ids_at Entries.requeued []
        (elim rs as (λ _. Db) [ [] ↦ d | r ∷ rs ↦ (requeue_immediate now (r ∷ rs) d).0 ]).entries
      ≡ others
requeued_all [] queue_type now d others n open' h = h
requeued_all (r ∷ rs) queue_type now d others n open' h =
    requeue_immediate-ids queue_type now (r ∷ rs) d others n open' h

any-take : (f : ℕ → Bool) (n : ℕ) (xs : List ℕ) → any f (take n xs) ≡ true → any f xs ≡ true
any-take f zero xs h = ground (arith, h)
any-take f (suc n) [] h = ground (arith, h)
any-take f (suc n) (x ∷ xs) h = elim (Bool-cases (f x)) [
  | inl e ↦ ground (arith, e)
  | inr e ↦ ground (arith, e, h, any-take f n xs (ground (arith, e, h)))
]

append-take-drop : (n : ℕ) (xs : List ℕ) → take n xs ++ drop n xs ≡ xs
append-take-drop zero xs = refl
append-take-drop (suc n) [] = refl
append-take-drop (suc n) (x ∷ xs) = ap (λ ys. x ∷ ys) (append-take-drop n xs)

module _ (load_retry : ℕ → Fields → Option Retry)
    (keeps : (id : ℕ) (m : Fields) (r : Retry) → load_retry id m ≡ some r → r.id ≡ id) where
  -- A round of the immediate requeuer takes the first hundred messages from the requeue list, or all
  -- if there are fewer, so that none is retried for ever after: if the queue exists and is not stopped,
  -- locked or in an unknown state, each message stands in the place of its status, and those that it
  -- looks at are decoded, which keeps their ids.
  pub requeue-ids :
      (queue_type now : ℕ) (d : Db)
      → d.queue_type ≡ some queue_type
      → refusal d ≡ none
      → IsPlaced d.entries d.message
      → ((id : ℕ)
          → any (λ j. j == id) (take 100 (ids_at Entries.requeued [] d.entries)) ≡ true
          → (r : Retry) × (load_retry id (d.message id) ≡ some r))
      → ids_at Entries.requeued [] (requeue load_retry now d).entries
        ≡ drop 100 (ids_at Entries.requeued [] d.entries)
  unfolding requeue
  requeue-ids queue_type now d n open' h decodes =
      let ids = ids_at Entries.requeued [] d.entries in
      let loaded =
        load_retries-ids load_retry keeps d (take 100 ids)
          (λ id found.
            placed_stored Entries.requeued id [] d h refl (any-take (λ j. j == id) 100 ids found))
          decodes in
      let split : ids ≡ map (λ r. r.id) (load_retries load_retry d (take 100 ids)) ++ drop 100 ids =
        sym (append-take-drop 100 ids) ∙ ap (λ x. x ++ drop 100 ids) (sym loaded) in
      requeued_all (load_retries load_retry d (take 100 ids)) queue_type now d (drop 100 ids) n
        open' split
