-- ===== src/Exchange/Routed/Linked.antt =====
-- internal/exchange/{direct,topic}.go: what holds of the routes of every exchange between two
-- operations, and that binding and unbinding keep it.
use go_redis_smq.Prelude.{
  ℕ, ◌≡◌, sym, true, false, arith, Bool-cases, inl, inr, some, Option, ok, ◌∙◌, >>=-eq-ok, subst,
  if_same,
}
use go_redis_smq.Prelude.Text.{Text, text_eq_refl}
use go_redis_smq.Prelude.Decimal.{itoa}
use go_redis_smq.Keys
use go_redis_smq.Keys.{Queue, Exchange}
use go_redis_smq.Redis.HashSets.{HashSets}
use go_redis_smq.Exchange.Store.Checks.{validated_type}
use go_redis_smq.Exchange.Params.{Props, Params, Json, IsQueue, IsExchange, type_field}
use go_redis_smq.Exchange.Store.{validate_queue_binding}
use go_redis_smq.Exchange.Routed.{Routes, bind_watch_keys, bind_writes, bind_tx}
use go_redis_smq.Exchange.Routed.Separate.{
  IsSeparate, same_exchange, same_queue, same_exchange_sound, same_exchange_refl,
}
use go_redis_smq.Exchange.Routed.Writes.{
  bound, bound-bind_writes, index-bind_writes, bindings-bind_writes, type-bind_writes,
}
use go_redis_smq.Exchange.Routed.Watched.{Unchanged}

module _ (R : HashSets) (W : Json) (r : Routes) (sep : IsSeparate r) where
  open R use {Db, hget, sismember, smembers, scard, any-smembers, scard-smembers, exists_of_hget}
  open r use {index, queues}

  -- The exchange has a type, and the queue's own set names the exchange with that type.
  abbrev pub Named : Exchange → Queue → Db → Type 0
  Named f p d =
      (t : ℕ) × (hget (Keys.exchange_properties f) type_field d ≡ some (itoa t))
      × (sismember (Keys.exchange_bindings p) (W.marshal_exchange (record { at = f; typ = t })) d
          ≡ true)

  -- Of each queue that is bound to a route, the route is in the exchange's index and the exchange
  -- in the queue's bindings.
  pub record Linked (d : Db) : Type 0 where
    pub indexed :
        (f : Exchange) (y : Text) (p : Queue)
        → IsExchange f
        → IsQueue p
        → bound R W r sep f y p d ≡ true
        → sismember (index f) y d ≡ true
    pub named :
        (f : Exchange) (y : Text) (p : Queue)
        → IsExchange f
        → IsQueue p
        → bound R W r sep f y p d ≡ true
        → Named f p d

  -- A binding that succeeds passed the checks on what it read, and runs the pipeline.
  pub bind_tx-eq-ok :
      (q : Queue) (e : Params) (x : Text) (seen : Db) (write : Db → Db)
      → bind_tx R W r q e x seen ≡ ok write
      → (o : Option Props) × (validate_queue_binding R e q seen ≡ ok o)
        × (bound R W r sep e.at x q seen ≡ false)
        × (write ≡ bind_writes R W r q e x)
  unfolding bind_tx
  bind_tx-eq-ok q e x seen write h =
      let (o, checked, rest) = >>=-eq-ok (validate_queue_binding R e q seen) _ h in
      (o, checked, ground arith, ground arith)

  module _ (q : Queue) (e : Params) (x : Text) (d : Db) (hq : IsQueue q)
      (he : IsExchange e.at) where
    bind_indexed :
        (f : Exchange) (y : Text) (p : Queue)
        → IsExchange f
        → IsQueue p
        → Linked d
        → bound R W r sep f y p (bind_writes R W r q e x d) ≡ true
        → sismember (index f) y (bind_writes R W r q e x d) ≡ true
    bind_indexed f y p hf hp inv h = rw (index-bind_writes R W r sep q e x f y d hq he hf) (
        ground (
          arith,
          inv.indexed f y p hf hp,
          rw (bound-bind_writes R W r sep q e x f y p d hq he hf) at h,
        ))

    -- The exchange that was bound.
    bind_writes-Named_here :
        (y : Text) (p : Queue)
        → IsQueue p
        → Linked d
        → ((t : ℕ) → hget (Keys.exchange_properties e.at) type_field d ≡ some (itoa t) → t ≡ e.typ)
        → bound R W r sep e.at y p (bind_writes R W r q e x d) ≡ true
        → Named e.at p (bind_writes R W r q e x d)
    bind_writes-Named_here y p hp inv typed h = (
      e.typ,
      type-bind_writes R W r sep q e x e.at d he he ∙ simp (same_exchange_refl e.at),
      bindings-bind_writes R W r sep q e x p (W.marshal_exchange e) d hq he hp
          ∙ elim (Bool-cases (same_queue q p)) [
            | inl s ↦ simp (s, text_eq_refl)
            | inr s ↦
                let old : bound R W r sep e.at y p d ≡ true =
                  ground
                    (arith, s, rw (bound-bind_writes R W r sep q e x e.at y p d hq he he) at h) in
                let (t, stored, member) = inv.named e.at y p he hp old in
                simp s (
                  subst
                    (λ u.
                      sismember (Keys.exchange_bindings p)
                        (W.marshal_exchange (record { at = e.at; typ = u })) d
                      ≡ true)
                    (typed t stored) member)
          ],
    )

    -- Any other exchange.
    bind_writes-Named_there :
        (f : Exchange) (y : Text) (p : Queue)
        → IsExchange f
        → IsQueue p
        → Linked d
        → same_exchange e.at f ≡ false
        → bound R W r sep f y p (bind_writes R W r q e x d) ≡ true
        → Named f p (bind_writes R W r q e x d)
    bind_writes-Named_there f y p hf hp inv other h =
        let old : bound R W r sep f y p d ≡ true =
          rw (bound-bind_writes R W r sep q e x f y p d hq he hf, other) at h in
        let (t, stored, member) = inv.named f y p hf hp old in
        (
          t,
          type-bind_writes R W r sep q e x f d he hf ∙ simp other stored,
          bindings-bind_writes R W r sep q e x p (W.marshal_exchange (record { at = f; typ = t })) d
                hq he hp
              ∙ simp member (if_same _),
        )

    bind_writes-Linked :
        Linked d
        → ((t : ℕ) → hget (Keys.exchange_properties e.at) type_field d ≡ some (itoa t) → t ≡ e.typ)
        → Linked (bind_writes R W r q e x d)
    bind_writes-Linked inv typed = record {
      indexed = λ f y p hf hp h. bind_indexed f y p hf hp inv h;
      named = λ f y p hf hp h. elim (Bool-cases (same_exchange e.at f)) [
        | inl same ↦
            subst
              (λ g.
                bound R W r sep g y p (bind_writes R W r q e x d) ≡ true
                → Named g p (bind_writes R W r q e x d))
              (same_exchange_sound e.at f same) (bind_writes-Named_here y p hp inv typed) h
        | inr other ↦ bind_writes-Named_there f y p hf hp inv other h
      ];
    }

  -- A successful `BindQueue` keeps every bound queue linked: its route stays in the index of the
  -- exchange, and the exchange, with the type that is stored, in the bindings of the queue.
  pub bind_tx-Linked :
      (q : Queue) (e : Params) (x : Text) (seen met : Db) (write : Db → Db)
      → IsQueue q
      → IsExchange e.at
      → Linked met
      → Unchanged R (bind_watch_keys R W r q e x) seen met
      → bind_tx R W r q e x seen ≡ ok write
      → Linked (write met)
  bind_tx-Linked q e x seen met write hq he inv (_, (props, _)) h =
      let (o, checked, _, result) = bind_tx-eq-ok q e x seen write h in
      subst (λ w. Linked (w met)) (sym result)
        (bind_writes-Linked q e x met hq he inv
          (λ t g. validated_type R q e seen t o checked (sym (props.fields type_field) ∙ g)))
