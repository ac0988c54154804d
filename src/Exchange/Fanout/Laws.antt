-- ===== src/Exchange/Fanout/Laws.antt =====
-- internal/exchange/fanout.go: what `BindQueue` and `UnbindQueue` do when they return nil, with other
-- clients writing during the attempts.
use go_redis_smq.Prelude.{
  ◌≡◌, refl, sym, ap, ap₂, ◌∙◌, subst, Bool, true, false, ◌&&◌, List, All, arith, if◌then◌else◌, ok,
  >>=-eq-ok,
}
use go_redis_smq.Prelude.Text.{Text, codes, text_eq, text_eq_both, eq_of_text_eq}
use go_redis_smq.Keys
use go_redis_smq.Keys.{Queue, Exchange}
use go_redis_smq.Keys.Injective.{exchange_key-injective}
use go_redis_smq.Keys.Kinds
use go_redis_smq.Redis.HashSets.{HashSets}
use go_redis_smq.Redis.Transaction.{Others, Respect, committed, written, checked-committed}
use go_redis_smq.Exchange.Params.{Params, Json, IsQueue, IsExchange, namespace_mismatch}
use go_redis_smq.Exchange.Store.{validate_queue_binding, validate_type}
use go_redis_smq.Exchange.Routed.Separate.{
  same_exchange, same_queue, namespace-bindings, all-bindings, bindings_test, marshal_queue_test,
}
use go_redis_smq.Exchange.Routed.Watched.{Unchanged, Unchanged-refl}
use go_redis_smq.Exchange.Fanout.{
  bind_queue, unbind_queue, bind_tx, unbind_tx, bind_writes, unbind_writes, bind_watch_keys,
  unbind_watch_keys,
}

fanout_kind : (e : Exchange) → IsExchange e → Kinds.kind (Keys.fanout_queues e) ≡ codes "exs:q"
fanout_kind e (hn, he) = Kinds.kind-exchange_key e (codes "q") hn he refl

bindings_kind : (q : Queue) → IsQueue q → Kinds.kind (Keys.exchange_bindings q) ≡ codes "q:bind"
bindings_kind q (hn, hq) = Kinds.kind-queue_key q (codes "bind") hn hq refl

fanout_test :
    (e f : Exchange)
    → IsExchange e
    → IsExchange f
    → text_eq (Keys.fanout_queues e) (Keys.fanout_queues f) ≡ same_exchange e f
fanout_test e f he hf =
    text_eq_both _ _ e.ns f.ns e.name f.name
      (exchange_key-injective e f (codes "q") he.0 he.1 hf.0 hf.1)
      (λ a b. ap₂ (λ n m. Keys.fanout_queues (record { ns = n; name = m })) a b)

bindings-fanout :
    (q : Queue) (f : Exchange)
    → IsQueue q
    → IsExchange f
    → text_eq (Keys.exchange_bindings q) (Keys.fanout_queues f) ≡ false
unfolding text_eq
bindings-fanout q f hq hf = Kinds.text_eq-kind _ _ (bindings_kind q hq) (fanout_kind f hf) refl

fanout-bindings :
    (e : Exchange) (p : Queue)
    → IsExchange e
    → IsQueue p
    → text_eq (Keys.fanout_queues e) (Keys.exchange_bindings p) ≡ false
unfolding text_eq
fanout-bindings e p he hp = Kinds.text_eq-kind _ _ (fanout_kind e he) (bindings_kind p hp) refl

namespace-fanout :
    (e f : Exchange)
    → IsExchange e
    → IsExchange f
    → text_eq (Keys.namespace_exchanges e.ns) (Keys.fanout_queues f) ≡ false
unfolding text_eq
namespace-fanout e f he hf =
    Kinds.text_eq-kind _ _ (Kinds.kind-namespace_exchanges e.ns he.0) (fanout_kind f hf) refl

all-fanout :
    (f : Exchange) → IsExchange f → text_eq Keys.all_exchanges (Keys.fanout_queues f) ≡ false
unfolding text_eq
all-fanout f hf = Kinds.text_eq-kind _ _ Kinds.kind-all_exchanges (fanout_kind f hf) refl

module _ (R : HashSets) (W : Json) where
  open R use {Db, sismember, sismember-sadd, sismember-srem, sismember-hset}

  -- Is the queue in the exchange's set, and does the queue's set have the exchange?
  abbrev pub has_queue : Exchange → Queue → Db → Bool
  has_queue f p d = sismember (Keys.fanout_queues f) (W.marshal_queue p) d

  abbrev pub has_exchange : Queue → Text → Db → Bool
  has_exchange p m d = sismember (Keys.exchange_bindings p) m d

  -- Both sets change at the one pair of queue and exchange, to `now`, which was not so before.
  pub record Switched (now before : Bool) (q : Queue) (e : Params) (met after : Db) : Type 0 where
    pub was : has_queue e.at q met ≡ before
    pub queues :
        (f : Exchange) (p : Queue)
        → IsExchange f
        → has_queue f p after
          ≡ (if same_exchange e.at f && same_queue q p then now else has_queue f p met)
    pub exchanges :
        (p : Queue) (m : Text)
        → IsQueue p
        → has_exchange p m after ≡ (
            if same_queue q p && text_eq (W.marshal_exchange e) m
            then now
            else has_exchange p m met)

  bind_tx-eq-ok :
      (q : Queue) (e : Params) (seen : Db) (write : Db → Db)
      → bind_tx R W q e seen ≡ ok write
      → (has_queue e.at q seen ≡ false) × (write ≡ bind_writes R W q e)
  unfolding bind_tx
  bind_tx-eq-ok q e seen write h =
      let (_, _, rest) = >>=-eq-ok (validate_queue_binding R e q seen) _ h in
      (ground arith, ground arith)

  unbind_tx-eq-ok :
      (q : Queue) (e : Params) (seen : Db) (write : Db → Db)
      → unbind_tx R W q e seen ≡ ok write
      → (has_queue e.at q seen ≡ true) × (write ≡ unbind_writes R W q e)
  unfolding unbind_tx
  unbind_tx-eq-ok q e seen write h =
      let (_, _, rest) = >>=-eq-ok (validate_type R e true seen) _ h in (ground arith, ground arith)

  bind_writes-Switched :
      (q : Queue) (e : Params) (met : Db)
      → IsQueue q
      → IsExchange e.at
      → has_queue e.at q met ≡ false
      → Switched true false q e met (bind_writes R W q e met)
  unfolding bind_writes
  bind_writes-Switched q e met hq he was = record {
    was = was;
    queues = λ f p hf. simp (
      sismember-sadd,
      sismember-hset,
      bindings-fanout q f hq hf,
      fanout_test e.at f he hf,
      marshal_queue_test W q p,
      namespace-fanout e.at f he hf,
      all-fanout f hf,
    );
    exchanges = λ p m hp. simp (
      sismember-sadd,
      sismember-hset,
      bindings_test q p hq hp,
      fanout-bindings e.at p he hp,
      namespace-bindings e.at.ns p he.0 hp,
      all-bindings p hp,
    );
  }

  unbind_writes-Switched :
      (q : Queue) (e : Params) (met : Db)
      → IsQueue q
      → IsExchange e.at
      → has_queue e.at q met ≡ true
      → Switched false true q e met (unbind_writes R W q e met)
  unfolding unbind_writes
  unbind_writes-Switched q e met hq he was = record {
    was = was;
    queues = λ f p hf. simp (
      sismember-srem,
      bindings-fanout q f hq hf,
      fanout_test e.at f he hf,
      marshal_queue_test W q p,
    );
    exchanges =
        λ p m hp. simp (sismember-srem, bindings_test q p hq hp, fanout-bindings e.at p he hp);
  }

  -- A `BindQueue` that returns nil, of a queue and an exchange with valid names, where the writes of
  -- other clients that EXEC lets pass leave the watched keys as they are, is of a queue in the
  -- exchange's namespace, which the exchange did not have. It adds the queue to the exchange's set
  -- and the exchange to the queue's, and changes no other pair of either.
  pub bind_queue-Switched :
      (q : Queue) (e : Params) (others : List (Others Db)) (d : Db)
      → IsQueue q
      → IsExchange e.at
      → All (Respect (Unchanged R (bind_watch_keys R W q e))) others
      → (bind_queue R W q e others d).1 ≡ committed
      → (q.ns ≡ e.at.ns)
        × Switched true false q e (written 5 others d) (bind_queue R W q e others d).0
  unfolding bind_queue
  bind_queue-Switched q e others d hq he ho h =
      let (same, (seen, write, (_, (_, (set, _))), h', result)) =
        checked-committed (bind_tx R W q e) (Unchanged R (bind_watch_keys R W q e))
          (Unchanged-refl R (bind_watch_keys R W q e)) (text_eq q.ns e.at.ns) namespace_mismatch 4
          others d ho h in
      let (fresh, run) = bind_tx-eq-ok q e seen write h' in
      (
        eq_of_text_eq _ _ same,
        subst (Switched true false q e (written 5 others d))
            (sym (result ∙ ap (λ w. w (written 5 others d)) run))
            (bind_writes-Switched q e (written 5 others d) hq he (set.members _ ∙ fresh)),
      )

  -- An `UnbindQueue` that returns nil, under the same conditions, is of a queue in the exchange's
  -- namespace, which the exchange had. It removes the queue from the exchange's set and the exchange
  -- from the queue's, and changes no other pair of either.
  pub unbind_queue-Switched :
      (q : Queue) (e : Params) (others : List (Others Db)) (d : Db)
      → IsQueue q
      → IsExchange e.at
      → All (Respect (Unchanged R (unbind_watch_keys R W q e))) others
      → (unbind_queue R W q e others d).1 ≡ committed
      → (q.ns ≡ e.at.ns)
        × Switched false true q e (written 5 others d) (unbind_queue R W q e others d).0
  unfolding unbind_queue
  unbind_queue-Switched q e others d hq he ho h =
      let (same, (seen, write, (_, (set, _)), h', result)) =
        checked-committed (unbind_tx R W q e) (Unchanged R (unbind_watch_keys R W q e))
          (Unchanged-refl R (unbind_watch_keys R W q e)) (text_eq q.ns e.at.ns) namespace_mismatch 4
          others d ho h in
      let (present, run) = unbind_tx-eq-ok q e seen write h' in
      (
        eq_of_text_eq _ _ same,
        subst (Switched false true q e (written 5 others d))
            (sym (result ∙ ap (λ w. w (written 5 others d)) run))
            (unbind_writes-Switched q e (written 5 others d) hq he (set.members _ ∙ present)),
      )
