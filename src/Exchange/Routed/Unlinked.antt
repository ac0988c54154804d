-- ===== src/Exchange/Routed/Unlinked.antt =====
-- internal/exchange/{direct,topic}.go: `UnbindQueue` keeps every queue that stays bound linked.
use go_redis_smq.Prelude.{
  refl, Bool, ℕ, ◌≡◌, sym, true, false, not, ◌&&◌, arith, if◌then◌else◌, Bool-cases, inl, inr, ◌==◌,
  ap, ok, ◌∙◌, &&-true, >>=-eq-ok, subst, ==_iff,
}
use go_redis_smq.Prelude.Text.{
  Text, text_eq, text_eq_iff, text_eq_comm, eq_of_text_eq, any_of_member, member_unique,
}
use go_redis_smq.Keys.{Queue, Exchange}
use go_redis_smq.Redis.HashSets.{HashSets}
use go_redis_smq.Exchange.Params.{Params, Json, IsQueue, IsExchange}
use go_redis_smq.Exchange.Store.{validate_type}
use go_redis_smq.Exchange.Routed.Watched.{Unchanged, Unchanged-refl}
use go_redis_smq.Exchange.Routed.{Routes, unbind_watch_keys, unbind_writes, unbind_tx, still_bound}
use go_redis_smq.Exchange.Routed.Separate.{
  IsSeparate, same_exchange, same_queue, same_exchange_sound, same_exchange_refl, same_queue_refl,
  same_queue_sound, marshal_queue_test, marshal_exchange-injective,
}
use go_redis_smq.Exchange.Routed.Writes.{
  bound, bound-unbind_writes, index-unbind_writes, bindings-unbind_writes, type-unbind_writes,
}
use go_redis_smq.Exchange.Routed.Linked.{Linked, Named}

module _ (R : HashSets) (W : Json) (r : Routes) (sep : IsSeparate r) where
  open R use {Db, sismember, smembers, scard, any-smembers, scard-smembers}
  open r use {index, queues}

  -- An unbinding that succeeds found the queue bound, and runs the pipeline.
  pub unbind_tx-eq-ok :
      (q : Queue) (e : Params) (x : Text) (seen : Db) (write : Db → Db)
      → unbind_tx R W r q e x seen ≡ ok write
      → (bound R W r sep e.at x q seen ≡ true)
        × (write
            ≡ unbind_writes R W r q e x
                (scard (queues e.at x) seen == 1)
                (still_bound R W r q e x seen))
  unfolding unbind_tx
  unbind_tx-eq-ok q e x seen write h =
      let (_, _, rest) = >>=-eq-ok (validate_type R e true seen) _ h in (ground arith, ground arith)

  -- What the transaction of `UnbindQueue` needs to be as it was read: the keys that it watches, and
  -- whether the queue is bound to the other routes, which it does not watch.
  pub record UnbindSame (q : Queue) (e : Params) (x : Text) (seen met : Db) : Type 0 where
    pub watched : Unchanged R (unbind_watch_keys R W r q e x) seen met
    pub elsewhere : (y : Text) → bound R W r sep e.at y q met ≡ bound R W r sep e.at y q seen

  pub UnbindSame-refl : (q : Queue) (e : Params) (x : Text) (c : Db) → UnbindSame q e x c c
  UnbindSame-refl q e x c = record {
    watched = Unchanged-refl R (unbind_watch_keys R W r q e x) c;
    elsewhere = λ y. refl;
  }

  -- Two queues in a set of one are the same.
  only_queue :
      (e : Exchange) (x : Text) (q p : Queue) (d : Db)
      → (scard (queues e x) d == 1) ≡ true
      → bound R W r sep e x q d ≡ true
      → bound R W r sep e x p d ≡ true
      → same_queue q p ≡ true
  only_queue e x q p d h hq hp =
      sym (marshal_queue_test W q p)
      ∙ (text_eq_iff _ _).1 (
          member_unique (W.marshal_queue q) (W.marshal_queue p) (smembers (queues e x) d)
            (sym (scard-smembers _ d) ∙ (==_iff _ _).0 h) (any-smembers _ _ d ∙ hq)
            (any-smembers _ _ d ∙ hp))

  module _ (q : Queue) (e : Params) (x : Text) (seen d : Db) (hq : IsQueue q) (he : IsExchange e.at)
      (before : Linked R W r sep seen) (inv : Linked R W r sep d)
      (was : bound R W r sep e.at x q seen ≡ true) (same : UnbindSame q e x seen d) where
    abbrev last : Bool
    last = scard (queues e.at x) seen == 1

    abbrev elsewhere : Bool
    elsewhere = still_bound R W r q e x seen

    -- The queues of the route are as they were read.
    on_route : (p : Queue) → bound R W r sep e.at x p d ≡ bound R W r sep e.at x p seen
    on_route p = let (_, (_, (route, _))) = same.watched in route.members (W.marshal_queue p)

    unbind_indexed :
        (f : Exchange) (y : Text) (p : Queue)
        → IsExchange f
        → IsQueue p
        → bound R W r sep f y p (unbind_writes R W r q e x last elsewhere d) ≡ true
        → sismember (index f) y (unbind_writes R W r q e x last elsewhere d) ≡ true
    unbind_indexed f y p hf hp h =
        let after = rw (bound-unbind_writes R W r sep q e x f y p last elsewhere d hq he hf) at h in
        let here : (same_exchange e.at f && text_eq x y) ≡ true
            → bound R W r sep e.at x p d ≡ true =
          λ s.
            let (a, b) = &&-true {a = same_exchange e.at f} {b = text_eq x y} s in
            rw (same_exchange_sound e.at f a, eq_of_text_eq x y b) (ground (arith, after)) in
        rw (index-unbind_writes R W r sep q e x f y last elsewhere d hq he hf)
          (elim (Bool-cases (last && (same_exchange e.at f && text_eq x y))) [
            | inl s ↦
                let (one, there) = &&-true {a = last} {b = same_exchange e.at f && text_eq x y} s in
                ground (
                  arith,
                  after,
                  s,
                  there,
                  only_queue e.at x q p seen one was (sym (on_route p) ∙ here there),
                )
            | inr s ↦ ground (arith, s, after, inv.indexed f y p hf hp)
          ])

    still_bound_elsewhere :
        (y : Text) → text_eq x y ≡ false → bound R W r sep e.at y q d ≡ true → elsewhere ≡ true
    unfolding still_bound
    still_bound_elsewhere y other h =
        let there : bound R W r sep e.at y q seen ≡ true = sym (same.elsewhere y) ∙ h in
        any_of_member _ y (smembers (index e.at) seen)
          (any-smembers _ y seen ∙ before.indexed e.at y q he hq there)
          (simp (text_eq_comm y x, other) there)

    -- A queue that is still bound to the exchange is not taken out of its bindings.
    keeps_name :
        (f : Exchange) (y : Text) (p : Queue)
        → q ≡ p
        → e.at ≡ f
        → (if (same_exchange e.at f && text_eq x y) && same_queue q p
            then false
            else bound R W r sep f y p d)
          ≡ true
        → not elsewhere ≡ true
        → ⊥
    keeps_name f y p qp ef after gone =
        let here : bound R W r sep e.at y q d ≡ true = rw (ef, qp) (ground (arith, after)) in
        let se : same_exchange e.at f ≡ true = rw ef (same_exchange_refl f) in
        let sq : same_queue q p ≡ true = rw qp (same_queue_refl p) in
        let other : text_eq x y ≡ false = ground (arith, after, se, sq) in
        ground (arith, still_bound_elsewhere y other here, gone)

    unbind_writes-Named :
        (f : Exchange) (y : Text) (p : Queue)
        → IsExchange f
        → IsQueue p
        → bound R W r sep f y p (unbind_writes R W r q e x last elsewhere d) ≡ true
        → Named R W r sep f p (unbind_writes R W r q e x last elsewhere d)
    unbind_writes-Named f y p hf hp h =
        let after = rw (bound-unbind_writes R W r sep q e x f y p last elsewhere d hq he hf) at h in
        let (t, stored, member) = inv.named f y p hf hp (ground (arith, after)) in
        (
          t,
          type-unbind_writes R W r sep q e x _ _ last elsewhere d ∙ stored,
          bindings-unbind_writes R W r sep q e x p (W.marshal_exchange (record { at = f; typ = t }))
                last elsewhere d hq he hp
              ∙ elim (Bool-cases (
                  not elsewhere
                  && (same_queue q p
                      && text_eq (W.marshal_exchange e)
                          (W.marshal_exchange (record { at = f; typ = t }))))) [
                            | inl s ↦ absurd (removed t after s)
                            | inr s ↦ rw s member
                          ],
        )
      where
        removed :
            (t : ℕ)
            → (if (same_exchange e.at f && text_eq x y) && same_queue q p
                then false
                else bound R W r sep f y p d)
              ≡ true
            → (not elsewhere
                && (same_queue q p
                    && text_eq
                        (W.marshal_exchange e)
                        (W.marshal_exchange (record { at = f; typ = t }))))
              ≡ true
            → ⊥
        removed t after s =
            let (gone, same) =
              &&-true {a = not elsewhere}
                {b = same_queue q p
                  && text_eq (W.marshal_exchange e)
                      (W.marshal_exchange (record { at = f; typ = t }))}
                s in
            let (sq, se) = &&-true same in
            keeps_name f y p (same_queue_sound q p sq)
              (ap Params.at (marshal_exchange-injective W _ _ (eq_of_text_eq _ _ se))) after gone

  -- A successful `UnbindQueue` keeps every queue that is still bound to some route linked, if what
  -- it read and does not watch is as it was. It takes the route out of the index only when no queue
  -- is left on it, and the exchange out of the queue's bindings only when no route binds the queue.
  pub unbind_tx-Linked :
      (q : Queue) (e : Params) (x : Text) (seen met : Db) (write : Db → Db)
      → IsQueue q
      → IsExchange e.at
      → Linked R W r sep seen
      → Linked R W r sep met
      → UnbindSame q e x seen met
      → unbind_tx R W r q e x seen ≡ ok write
      → Linked R W r sep (write met)
  unbind_tx-Linked q e x seen met write hq he before inv same h =
      let (was, result) = unbind_tx-eq-ok q e x seen write h in
      subst (λ w. Linked R W r sep (w met)) (sym result)
        (record {
          indexed = unbind_indexed q e x seen met hq he before inv was same;
          named = unbind_writes-Named q e x seen met hq he before inv was same;
        })
