-- ===== src/Batches/Kept.antt =====
-- What is handed to a batch is passed on once, in its order, unless the timer's flush is interrupted.
use go_redis_smq.Prelude.{
  Bool, not, ◌&&◌, ◌≡◌, refl, sym, ap, ◌∙◌, true, false, none, some, List, [], ◌∷◌, ◌++◌,
  append-nil, append_assoc, leb, length, inl, inr, Bool-cases,
}
use go_redis_smq.Batches.{
  BatchConfig, Batch, new_batch, hand_over, copy_buffer, flush, ack, shutdown, timer_copies,
  timer_clears,
}

-- What callers do, and the two halves of a flush of the timer.
pub data Call {ℓ} (A : Type ℓ) : Type ℓ where
  acks : A → Call A
  flushes : Call A
  copies : Call A
  clears : Call A

module _ {ℓ} {A : Type ℓ} where
  unfoldable pub perform : BatchConfig → Call A → Batch A → Batch A
  unfolding ack flush timer_copies timer_clears
  perform c (acks x) b = ack c x b
  perform c flushes b = flush b
  perform c copies b = timer_copies b
  perform c clears b = timer_clears b

  unfoldable pub run : BatchConfig → List (Call A) → Batch A → Batch A
  unfolding perform
  run c [] b = b
  run c (call ∷ calls) b = run c calls (perform c call b)

  -- What the callers handed over, in their order.
  unfoldable pub handed : List (Call A) → List A
  handed [] = []
  handed (acks x ∷ calls) = x ∷ handed calls
  handed (flushes ∷ calls) = handed calls
  handed (copies ∷ calls) = handed calls
  handed (clears ∷ calls) = handed calls

  -- Nothing comes between the two halves of a flush of the timer. The first argument is whether the
  -- timer has copied the buffer.
  unfoldable pub uninterrupted : Bool → List (Call A) → Bool
  uninterrupted copied [] = not copied
  uninterrupted copied (acks x ∷ calls) = not copied && uninterrupted false calls
  uninterrupted copied (flushes ∷ calls) = not copied && uninterrupted false calls
  uninterrupted copied (copies ∷ calls) = not copied && uninterrupted true calls
  uninterrupted copied (clears ∷ calls) = copied && uninterrupted false calls

  unfoldable pub all_sent : List (List A) → List A
  all_sent [] = []
  all_sent (xs ∷ xss) = all_sent xss ++ xs

  -- What has been passed on, then what waits.
  abbrev pub contents : Batch A → List A
  contents b = all_sent b.sent ++ b.buffer

  contents-hand_over :
      (xs : List A) (b : Batch A) → b.buffer ≡ xs → contents (hand_over xs b) ≡ contents b
  unfolding all_sent hand_over
  contents-hand_over [] b e = refl
  contents-hand_over (x ∷ xs) b e =
      append-nil (all_sent b.sent ++ x ∷ xs) ∙ ap (λ ys. all_sent b.sent ++ ys) (sym e)

  contents-flush : (b : Batch A) → contents (flush b) ≡ contents b
  unfolding flush
  contents-flush b = contents-hand_over b.buffer b refl

  contents-added :
      (x : A) (b : Batch A)
      → contents (record b { buffer = b.buffer ++ x ∷ []; timer = true }) ≡ contents b ++ x ∷ []
  contents-added x b = sym (append_assoc (all_sent b.sent) b.buffer (x ∷ []))

  contents-ack :
      (c : BatchConfig) (x : A) (b : Batch A)
      → c.enabled ≡ true
      → contents (ack c x b) ≡ contents b ++ x ∷ []
  unfolding ack
  contents-ack c x b on = elim (Bool-cases (leb c.batch_size (length (b.buffer ++ x ∷ [])))) [
    | inl full ↦
        rw (on, full)
          (contents-flush (record b { buffer = b.buffer ++ x ∷ []; timer = false })
            ∙ contents-added x b)
    | inr room ↦ rw (on, room) (contents-added x b)
  ]

  contents-fires :
      (xs : List A) (b : Batch A)
      → b.buffer ≡ xs
      → contents (timer_clears (copy_buffer xs b)) ≡ contents b
  unfolding timer_clears copy_buffer all_sent
  contents-fires [] b e = refl
  contents-fires (x ∷ xs) b e =
      append-nil (all_sent b.sent ++ x ∷ xs) ∙ ap (λ ys. all_sent b.sent ++ ys) (sym e)

  contents-run :
      (c : BatchConfig) (calls : List (Call A)) (b : Batch A)
      → c.enabled ≡ true
      → uninterrupted false calls ≡ true
      → contents (run c calls b) ≡ contents b ++ handed calls
  unfolding run perform handed timer_copies uninterrupted
  contents-run c [] b on whole = sym (append-nil (contents b))
  contents-run c (acks x ∷ calls) b on whole =
      contents-run c calls (ack c x b) on whole
      ∙ ap (λ ys. ys ++ handed calls) (contents-ack c x b on)
      ∙ append_assoc (contents b) (x ∷ []) (handed calls)
  contents-run c (flushes ∷ calls) b on whole =
      contents-run c calls (flush b) on whole ∙ ap (λ ys. ys ++ handed calls) (contents-flush b)
  contents-run c (copies ∷ clears ∷ calls) b on whole =
      contents-run c calls (timer_clears (timer_copies b)) on whole
      ∙ ap (λ ys. ys ++ handed calls) (contents-fires b.buffer b refl)
  contents-run c (copies ∷ []) b on whole = cc
  contents-run c (copies ∷ acks x ∷ calls) b on whole = cc
  contents-run c (copies ∷ flushes ∷ calls) b on whole = cc
  contents-run c (copies ∷ copies ∷ calls) b on whole = cc
  contents-run c (clears ∷ calls) b on whole = cc

  hand_over-buffer : (xs : List A) (b : Batch A) → b.buffer ≡ xs → (hand_over xs b).buffer ≡ []
  unfolding hand_over
  hand_over-buffer [] b e = e
  hand_over-buffer (x ∷ xs) b e = refl

  shutdown-buffer : (b : Batch A) → (shutdown b).buffer ≡ []
  unfolding shutdown flush
  shutdown-buffer b = hand_over-buffer b.buffer (record b { timer = false }) refl

  contents-shutdown : (b : Batch A) → contents (shutdown b) ≡ contents b
  unfolding shutdown
  contents-shutdown b = contents-flush (record b { timer = false })

  -- Everything that was handed to the batch, while batches are on, has been passed on after Shutdown,
  -- once and in its order, if no flush by the timer, which does not take the mutex, overlaps with
  -- another call: nothing comes between its halves, and the calls with the mutex are whole. What is
  -- passed on is a sequence of batches, each of which a goroutine acknowledges.
  pub run-shutdown :
      (c : BatchConfig) (calls : List (Call A))
      → c.enabled ≡ true
      → uninterrupted false calls ≡ true
      → let b = shutdown (run c calls new_batch) in
        (all_sent b.sent ≡ handed calls) × (b.buffer ≡ [])
  unfolding new_batch all_sent
  run-shutdown c calls on whole =
      let b = run c calls new_batch in
      let clean = shutdown-buffer b in
      (
        sym (append-nil (all_sent (shutdown b).sent))
            ∙ ap (λ ys. all_sent (shutdown b).sent ++ ys) (sym clean)
            ∙ contents-shutdown b
            ∙ contents-run c calls new_batch on whole,
        clean,
      )

  -- The copy is passed on, and the buffer cleared with what came after.
  cleared :
      (c : BatchConfig) (x : A) (ids : List A) (b : Batch A)
      → c.enabled ≡ true
      → leb c.batch_size (length (b.buffer ++ x ∷ [])) ≡ false
      → timer_clears (ack c x (record b { copied = some ids }))
        ≡ record { buffer = []; timer = false; sent = ids ∷ b.sent; copied = none }
  unfolding timer_clears ack
  cleared c x ids b on room = rw (on, room) refl

  -- An id that is handed over between the halves of a flush by the timer, and does not fill the batch, is
  -- lost: neither passed on nor in the buffer.
  pub timer_clears-ack :
      (c : BatchConfig) (x y : A) (ys : List A) (b : Batch A)
      → c.enabled ≡ true
      → b.buffer ≡ y ∷ ys
      → leb c.batch_size (length (b.buffer ++ x ∷ [])) ≡ false
      → let b' = timer_clears (ack c x (timer_copies b)) in
        (all_sent b'.sent ≡ contents b) × (b'.buffer ≡ [])
  unfolding timer_clears ack timer_copies copy_buffer all_sent
  timer_clears-ack c x y ys b on e room =
      let copy = ap (λ xs. copy_buffer xs b) e in
      let after =
        ap (λ (b' : Batch A). timer_clears (ack c x b')) copy ∙ cleared c x (y ∷ ys) b on room in
      (
        ap (λ (b' : Batch A). all_sent b'.sent) after ∙ ap (λ xs. all_sent b.sent ++ xs) (sym e),
        ap (λ (b' : Batch A). b'.buffer) after,
      )
