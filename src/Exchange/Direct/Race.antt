-- ===== src/Exchange/Direct/Race.antt =====
-- internal/exchange/direct.go: `UnbindQueue` reads the sets of the other routing keys and does not
-- watch them.
use go_redis_smq.Prelude.{
  ◌≡◌, sym, ap, ◌∙◌, Bool, true, false, [], ◌∷◌, if◌then◌else◌, Bool-cases, inl, inr, ok, ◌==◌,
}
use go_redis_smq.Prelude.Text.{
  Text, text_eq, text_eq_refl, text_eq_iff, text_eq_comm, eq_of_text_eq,
}
use go_redis_smq.Keys
use go_redis_smq.Keys.{Queue, routing_keys, routing_key_queues}
use go_redis_smq.Redis.HashSets.{HashSets}
use go_redis_smq.Redis.Transaction.{
  Outcome, unnoticed, committed, with_transaction, attempts-unnoticed,
}
use go_redis_smq.Exchange.Params.{Params, Json, Error, IsQueue, IsExchange}
use go_redis_smq.Exchange.Store.{validate_type}
use go_redis_smq.Exchange.Routed.{direct_routes, bind_writes, unbind_writes, unbind_tx, still_bound}
use go_redis_smq.Exchange.Routed.Separate.{direct-IsSeparate, same_exchange_refl, same_queue_refl}
use go_redis_smq.Exchange.Routed.Writes.{
  bound, bound-bind_writes, bound-unbind_writes, bindings-unbind_writes, index-bind_writes,
  bindings-bind_writes,
}
use go_redis_smq.Exchange.Direct.{unbind_queue}

absorb : (f : Text → Bool) (a m : Text) → f a ≡ true → (if text_eq a m then true else f m) ≡ f m
absorb f a m h = elim (Bool-cases (text_eq a m)) [
  | inl e ↦ rw e (sym (rw (eq_of_text_eq a m e) at h))
  | inr e ↦ rw e
]

module _ (R : HashSets) (W : Json) where
  open R use {Db, sismember, scard, sismember-sadd, sismember-hset}

  abbrev pub is_bound : Params → Text → Queue → Db → Bool
  is_bound e x q d = bound R W direct_routes direct-IsSeparate e.at x q d

  abbrev pub bind_other : Queue → Params → Text → Db → Db
  bind_other q e y = bind_writes R W direct_routes q e y

  -- Binding a queue that is bound already to one more indexed routing key `y` adds nothing to the
  -- index, to the set of another routing key `x` or to the queue's bindings.
  pub bind_writes_unnoticed :
      (q : Queue) (e : Params) (x y m : Text) (d : Db)
      → IsQueue q
      → IsExchange e.at
      → text_eq x y ≡ false
      → sismember (routing_keys e.at) y d ≡ true
      → sismember (Keys.exchange_bindings q) (W.marshal_exchange e) d ≡ true
      → (sismember (routing_keys e.at) m (bind_other q e y d) ≡ sismember (routing_keys e.at) m d)
        × (sismember (routing_key_queues e.at x) m (bind_other q e y d)
            ≡ sismember (routing_key_queues e.at x) m d)
        × (sismember (Keys.exchange_bindings q) m (bind_other q e y d)
            ≡ sismember (Keys.exchange_bindings q) m d)
  unfolding bind_writes
  bind_writes_unnoticed q e x y m d hq he other indexed named = (
    index-bind_writes R W direct_routes direct-IsSeparate q e y e.at m d hq he he
        ∙ simp (same_exchange_refl e.at)
            (absorb (λ t. sismember (routing_keys e.at) t d) y m indexed),
    simp (
      sismember-sadd,
      sismember-hset,
      direct-IsSeparate.bindings-queues q e.at x hq he,
      direct-IsSeparate.queues_test e.at e.at y x he he,
      direct-IsSeparate.index-queues e.at e.at x he he,
      direct-IsSeparate.namespace-queues e.at.ns e.at x he.0 he,
      direct-IsSeparate.all-queues e.at x he,
      text_eq_comm y x,
      other,
      same_exchange_refl e.at,
    ),
    bindings-bind_writes R W direct_routes direct-IsSeparate q e y q m d hq he hq
        ∙ simp (same_queue_refl q)
            (absorb (λ t. sismember (Keys.exchange_bindings q) t d) (W.marshal_exchange e) m named),
  )

  abbrev pub race : Queue → Params → Text → Text → Db → Db × Outcome Error
  race q e x y d = unbind_queue R W q e x (unnoticed (bind_other q e y) ∷ []) d

  chosen :
      (q : Queue) (e : Params) (x : Text) (d : Db)
      → validate_type R e true d ≡ ok tt
      → is_bound e x q d ≡ true
      → still_bound R W direct_routes q e x d ≡ false
      → unbind_tx R W direct_routes q e x d
        ≡ ok
            (unbind_writes R W direct_routes q e x (scard (routing_key_queues e.at x) d == 1) false)
  unfolding unbind_tx
  chosen q e x d typed was alone = simp (unbind_tx, typed, was, alone)

  -- The pipeline was chosen before the other binding, and runs after it.
  run_after :
      (q : Queue) (e : Params) (x y : Text) (d : Db)
      → q.ns ≡ e.at.ns
      → validate_type R e true d ≡ ok tt
      → is_bound e x q d ≡ true
      → still_bound R W direct_routes q e x d ≡ false
      → race q e x y d ≡ (
        unbind_writes R W direct_routes q e x
            (scard (routing_key_queues e.at x) d == 1)
            false
            (bind_other q e y d),
        committed,
      )
  unfolding unbind_queue with_transaction
  run_after q e x y d ns typed was alone = rw ((text_eq_iff _ _).1 ns) (
      attempts-unnoticed (unbind_tx R W direct_routes q e x) 4 (bind_other q e y) [] d _
        (chosen q e x d typed was alone))

  -- A queue that is bound to the routing key `x` of an exchange, and to no other, is unbound from it,
  -- while it is bound to `y`, which is in the exchange's index, between the reads and EXEC. This
  -- leaves each set that is watched as it is, so that EXEC does not notice: the call returns nil and
  -- leaves the queue bound to `y`, and the exchange out of the queue's bindings.
  pub unbind_queue_orphans :
      (q : Queue) (e : Params) (x y : Text) (d : Db)
      → IsQueue q
      → IsExchange e.at
      → q.ns ≡ e.at.ns
      → validate_type R e true d ≡ ok tt
      → is_bound e x q d ≡ true
      → still_bound R W direct_routes q e x d ≡ false
      → text_eq x y ≡ false
      → sismember (routing_keys e.at) y d ≡ true
      → sismember (Keys.exchange_bindings q) (W.marshal_exchange e) d ≡ true
      → ((m : Text)
          → (sismember (routing_keys e.at) m (bind_other q e y d)
              ≡ sismember (routing_keys e.at) m d)
            × (sismember (routing_key_queues e.at x) m (bind_other q e y d)
                ≡ sismember (routing_key_queues e.at x) m d)
            × (sismember (Keys.exchange_bindings q) m (bind_other q e y d)
                ≡ sismember (Keys.exchange_bindings q) m d))
        × ((race q e x y d).1 ≡ committed)
        × (is_bound e y q (race q e x y d).0 ≡ true)
        × (sismember (Keys.exchange_bindings q) (W.marshal_exchange e) (race q e x y d).0 ≡ false)
  unfolding unbind_queue
  unbind_queue_orphans q e x y d hq he ns typed was alone other indexed named =
      let run = run_after q e x y d ns typed was alone in
      (
        λ m. bind_writes_unnoticed q e x y m d hq he other indexed named,
        ap (λ r. r.1) run,
        ap (λ r. is_bound e y q r.0) run
            ∙ bound-unbind_writes R W direct_routes direct-IsSeparate q e x e.at y q _ false
                (bind_other q e y d) hq he he
            ∙ simp (
              other,
              bound-bind_writes R W direct_routes direct-IsSeparate q e y e.at y q d hq he he,
              text_eq_refl,
            ),
        ap (λ r. sismember (Keys.exchange_bindings q) (W.marshal_exchange e) r.0) run
            ∙ bindings-unbind_writes R W direct_routes direct-IsSeparate q e x q
                (W.marshal_exchange e) _ false (bind_other q e y d) hq he hq
            ∙ simp text_eq_refl,
      )
