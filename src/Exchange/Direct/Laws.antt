-- ===== src/Exchange/Direct/Laws.antt =====
-- internal/exchange/direct.go: what `BindQueue` and `UnbindQueue` do when they return nil, with other
-- clients writing during the attempts.
use go_redis_smq.Prelude.{◌≡◌, List, All}
use go_redis_smq.Prelude.Text.{Text, text_eq, eq_of_text_eq}
use go_redis_smq.Keys.{Queue}
use go_redis_smq.Redis.HashSets.{HashSets}
use go_redis_smq.Redis.Transaction.{Others, Respect, committed, written, checked-committed}
use go_redis_smq.Exchange.Params.{Params, Json, IsQueue, IsExchange, namespace_mismatch}
use go_redis_smq.Exchange.Routed.{
  direct_routes, bind_tx, unbind_tx, bind_watch_keys, unbind_watch_keys,
}
use go_redis_smq.Exchange.Routed.Separate.{direct-IsSeparate}
use go_redis_smq.Exchange.Routed.Watched.{Unchanged, Unchanged-refl}
use go_redis_smq.Exchange.Routed.Spec.{Bound, Unbound, bind_tx-Bound, unbind_tx-Unbound}
use go_redis_smq.Exchange.Direct.{bind_queue, unbind_queue}

module _ (R : HashSets) (W : Json) where
  open R use {Db}

  -- A `BindQueue` that returns nil, of a queue and an exchange with valid names, where the writes of other
  -- clients that EXEC lets pass leave the watched keys as they are, is of a queue in the exchange's
  -- namespace. On the data that its EXEC met, the queue was not bound to the routing key; what it leaves
  -- differs from these, in the relation of exchanges, routing keys and queues, by that one binding.
  pub bind_queue-committed :
      (q : Queue) (e : Params) (routing_key : Text) (others : List (Others Db)) (d : Db)
      → IsQueue q
      → IsExchange e.at
      → All (Respect (Unchanged R (bind_watch_keys R W direct_routes q e routing_key))) others
      → (bind_queue R W q e routing_key others d).1 ≡ committed
      → (q.ns ≡ e.at.ns)
        × Bound R W direct_routes direct-IsSeparate q e routing_key
            (written 5 others d)
            (bind_queue R W q e routing_key others d).0
  unfolding bind_queue
  bind_queue-committed q e routing_key others d hq he ho h =
      let (same, (seen, write, kept, h', result)) =
        checked-committed (bind_tx R W direct_routes q e routing_key)
          (Unchanged R (bind_watch_keys R W direct_routes q e routing_key))
          (Unchanged-refl R (bind_watch_keys R W direct_routes q e routing_key))
          (text_eq q.ns e.at.ns) namespace_mismatch 4 others d ho h in
      (
        eq_of_text_eq _ _ same,
        bind_tx-Bound R W direct_routes direct-IsSeparate q e routing_key seen (written 5 others d)
            _ write hq he kept h' result,
      )

  -- An `UnbindQueue` that returns nil, of a queue and an exchange with valid names, where the writes of other
  -- clients that EXEC lets pass leave the watched keys as they are, is of a queue in the exchange's
  -- namespace. On the data that its EXEC met, the queue was bound to the routing key; what it leaves
  -- differs from these, in the relation of exchanges, routing keys and queues, by that one binding.
  pub unbind_queue-committed :
      (q : Queue) (e : Params) (routing_key : Text) (others : List (Others Db)) (d : Db)
      → IsQueue q
      → IsExchange e.at
      → All (Respect (Unchanged R (unbind_watch_keys R W direct_routes q e routing_key))) others
      → (unbind_queue R W q e routing_key others d).1 ≡ committed
      → (q.ns ≡ e.at.ns)
        × Unbound R W direct_routes direct-IsSeparate q e routing_key
            (written 5 others d)
            (unbind_queue R W q e routing_key others d).0
  unfolding unbind_queue
  unbind_queue-committed q e routing_key others d hq he ho h =
      let (same, (seen, write, kept, h', result)) =
        checked-committed (unbind_tx R W direct_routes q e routing_key)
          (Unchanged R (unbind_watch_keys R W direct_routes q e routing_key))
          (Unchanged-refl R (unbind_watch_keys R W direct_routes q e routing_key))
          (text_eq q.ns e.at.ns) namespace_mismatch 4 others d ho h in
      (
        eq_of_text_eq _ _ same,
        unbind_tx-Unbound R W direct_routes direct-IsSeparate q e routing_key seen
            (written 5 others d) _ write hq he kept h' result,
      )
