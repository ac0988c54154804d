-- ===== src/Exchange/Routed/Writes.antt =====
-- internal/exchange/{direct,topic}.go: what the pipelines of `BindQueue` and `UnbindQueue` change,
-- seen through each set that the operations read.
use go_redis_smq.Prelude.{
  ◌≡◌, refl, Bool, true, false, not, ◌&&◌, if◌then◌else◌, &&_true, ◌∙◌, some,
}
use go_redis_smq.Prelude.Text.{Text, text_eq, text_eq_refl}
use go_redis_smq.Prelude.Decimal.{itoa}
use go_redis_smq.Keys
use go_redis_smq.Keys.{Queue, Exchange}
use go_redis_smq.Redis.HashSets.{HashSets}
use go_redis_smq.Exchange.Params.{Params, Json, IsQueue, IsExchange, type_field}
use go_redis_smq.Exchange.Routed.{Routes, bind_writes, unbind_writes}
use go_redis_smq.Exchange.Routed.Separate.{
  IsSeparate, same_exchange, same_queue, namespace-bindings, all-bindings, bindings_test,
  marshal_queue_test, properties_test,
}

module _ (R : HashSets) (W : Json) (r : Routes) (sep : IsSeparate r) where
  open R use {
    Db, hget, sismember, scard, sismember-sadd, sismember-srem, sismember-hset, hget-sadd,
    hget-hset, hget-srem, srem,
  }
  open r use {index, queues}

  -- Is the queue bound to the route?
  abbrev pub bound : Exchange → Text → Queue → Db → Bool
  bound f y p d = sismember (queues f y) (W.marshal_queue p) d

  pub bound-bind_writes :
      (q : Queue) (e : Params) (x : Text) (f : Exchange) (y : Text) (p : Queue) (d : Db)
      → IsQueue q
      → IsExchange e.at
      → IsExchange f
      → bound f y p (bind_writes R W r q e x d)
        ≡ (if (same_exchange e.at f && text_eq x y) && same_queue q p then true else bound f y p d)
  unfolding bind_writes
  bound-bind_writes q e x f y p d hq he hf = simp (
    sismember-sadd,
    sismember-hset,
    sep.bindings-queues q f y hq hf,
    sep.index-queues e.at f y he hf,
    sep.namespace-queues e.at.ns f y he.0 hf,
    sep.all-queues f y hf,
    sep.queues_test e.at f x y he hf,
    marshal_queue_test W q p,
  )

  pub index-bind_writes :
      (q : Queue) (e : Params) (x : Text) (f : Exchange) (y : Text) (d : Db)
      → IsQueue q
      → IsExchange e.at
      → IsExchange f
      → sismember (index f) y (bind_writes R W r q e x d)
        ≡ (if same_exchange e.at f && text_eq x y then true else sismember (index f) y d)
  unfolding bind_writes
  index-bind_writes q e x f y d hq he hf = simp (
    sismember-sadd,
    sismember-hset,
    sep.bindings-index q f hq hf,
    sep.queues-index e.at f x he hf,
    sep.namespace-index e.at.ns f he.0 hf,
    sep.all-index f hf,
    sep.index_test e.at f he hf,
  )

  pub bindings-bind_writes :
      (q : Queue) (e : Params) (x : Text) (p : Queue) (m : Text) (d : Db)
      → IsQueue q
      → IsExchange e.at
      → IsQueue p
      → sismember (Keys.exchange_bindings p) m (bind_writes R W r q e x d) ≡ (
          if same_queue q p && text_eq (W.marshal_exchange e) m
          then true
          else sismember (Keys.exchange_bindings p) m d)
  unfolding bind_writes
  bindings-bind_writes q e x p m d hq he hp = simp (
    sismember-sadd,
    sismember-hset,
    bindings_test q p hq hp,
    sep.queues-bindings e.at x p he hp,
    sep.index-bindings e.at p he hp,
    namespace-bindings e.at.ns p he.0 hp,
    all-bindings p hp,
  )

  pub type-bind_writes :
      (q : Queue) (e : Params) (x : Text) (f : Exchange) (d : Db)
      → IsExchange e.at
      → IsExchange f
      → hget (Keys.exchange_properties f) type_field (bind_writes R W r q e x d) ≡ (
          if same_exchange e.at f
          then some (itoa e.typ)
          else hget (Keys.exchange_properties f) type_field d)
  unfolding bind_writes
  type-bind_writes q e x f d he hf =
      simp (hget-sadd, hget-hset, properties_test e.at f he hf, text_eq_refl, &&_true)

  -- A removal from another set does not show.
  srem_when :
      (b : Bool) (j n k m : Text) (d : Db)
      → text_eq k j ≡ false
      → sismember j n (if b then srem k m d else d) ≡ sismember j n d
  srem_when true j n k m d h = simp (sismember-srem, h)
  srem_when false j n k m d h = refl

  srem_unless :
      (b : Bool) (j n k m : Text) (d : Db)
      → text_eq k j ≡ false
      → sismember j n (if b then d else srem k m d) ≡ sismember j n d
  srem_unless true j n k m d h = refl
  srem_unless false j n k m d h = simp (sismember-srem, h)

  pub bound-unbind_writes :
      (q : Queue) (e : Params) (x : Text) (f : Exchange) (y : Text) (p : Queue)
      (last elsewhere : Bool) (d : Db)
      → IsQueue q
      → IsExchange e.at
      → IsExchange f
      → bound f y p (unbind_writes R W r q e x last elsewhere d)
        ≡ (if (same_exchange e.at f && text_eq x y) && same_queue q p then false else bound f y p d)
  unfolding unbind_writes
  bound-unbind_writes q e x f y p last elsewhere d hq he hf =
      srem_unless elsewhere _ _ _ _ _ (sep.bindings-queues q f y hq hf)
      ∙ srem_when last _ _ _ _ _ (sep.index-queues e.at f y he hf)
      ∙ simp (sismember-srem, sep.queues_test e.at f x y he hf, marshal_queue_test W q p)

  pub index-unbind_writes :
      (q : Queue) (e : Params) (x : Text) (f : Exchange) (y : Text) (last elsewhere : Bool) (d : Db)
      → IsQueue q
      → IsExchange e.at
      → IsExchange f
      → sismember (index f) y (unbind_writes R W r q e x last elsewhere d)
        ≡ (if last && (same_exchange e.at f && text_eq x y) then false else sismember (index f) y d)
  unfolding unbind_writes
  index-unbind_writes q e x f y last elsewhere d hq he hf =
      srem_unless elsewhere _ _ _ _ _ (sep.bindings-index q f hq hf) ∙ removed last
    where
      removed :
          (b : Bool)
          → sismember (index f) y (
              if b
              then srem (index e.at) x (srem (queues e.at x) (W.marshal_queue q) d)
              else srem (queues e.at x) (W.marshal_queue q) d)
            ≡ (if b && (same_exchange e.at f && text_eq x y)
                then false
                else sismember (index f) y d)
      removed true =
          simp (sismember-srem, sep.index_test e.at f he hf, sep.queues-index e.at f x he hf)
      removed false = simp (sismember-srem, sep.queues-index e.at f x he hf)

  pub bindings-unbind_writes :
      (q : Queue) (e : Params) (x : Text) (p : Queue) (m : Text) (last elsewhere : Bool) (d : Db)
      → IsQueue q
      → IsExchange e.at
      → IsQueue p
      → sismember (Keys.exchange_bindings p) m (unbind_writes R W r q e x last elsewhere d) ≡ (
          if not elsewhere && (same_queue q p && text_eq (W.marshal_exchange e) m)
          then false
          else sismember (Keys.exchange_bindings p) m d)
  unfolding unbind_writes
  bindings-unbind_writes q e x p m last elsewhere d hq he hp = removed elsewhere
    where
      rest :
          sismember (Keys.exchange_bindings p) m (
            if last
            then srem (index e.at) x (srem (queues e.at x) (W.marshal_queue q) d)
            else srem (queues e.at x) (W.marshal_queue q) d)
          ≡ sismember (Keys.exchange_bindings p) m d
      rest =
          srem_when last _ _ _ _ _ (sep.index-bindings e.at p he hp)
          ∙ simp (sismember-srem, sep.queues-bindings e.at x p he hp)

      removed :
          (b : Bool)
          → sismember (Keys.exchange_bindings p) m (
              let d₂ : Db =
                if last
                then srem (index e.at) x (srem (queues e.at x) (W.marshal_queue q) d)
                else srem (queues e.at x) (W.marshal_queue q) d in
              if b then d₂ else srem (Keys.exchange_bindings q) (W.marshal_exchange e) d₂)
            ≡ (if not b && (same_queue q p && text_eq (W.marshal_exchange e) m)
                then false
                else sismember (Keys.exchange_bindings p) m d)
      removed true = rest
      removed false = simp (sismember-srem, bindings_test q p hq hp, rest)

  pub type-unbind_writes :
      (q : Queue) (e : Params) (x : Text) (j g : Text) (last elsewhere : Bool) (d : Db)
      → hget j g (unbind_writes R W r q e x last elsewhere d) ≡ hget j g d
  unfolding unbind_writes
  type-unbind_writes q e x j g last elsewhere d = kept elsewhere last
    where
      kept :
          (b c : Bool)
          → hget j g (
              let d₂ : Db =
                if c
                then srem (index e.at) x (srem (queues e.at x) (W.marshal_queue q) d)
                else srem (queues e.at x) (W.marshal_queue q) d in
              if b then d₂ else srem (Keys.exchange_bindings q) (W.marshal_exchange e) d₂)
            ≡ hget j g d
      kept true true = simp hget-srem
      kept true false = simp hget-srem
      kept false true = simp hget-srem
      kept false false = simp hget-srem
