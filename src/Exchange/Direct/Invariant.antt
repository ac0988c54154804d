-- ===== src/Exchange/Direct/Invariant.antt =====
-- internal/exchange/direct.go: `BindQueue` and `UnbindQueue` keep the routes linked, whatever they
-- return and whatever other clients do that keeps them linked.
use go_redis_smq.Prelude.{List, All, Bool-cases, inl, inr}
use go_redis_smq.Prelude.Text.{Text, text_eq}
use go_redis_smq.Keys.{Queue}
use go_redis_smq.Redis.HashSets.{HashSets}
use go_redis_smq.Redis.Transaction.{Others, Respect, Keep, with_transaction_keeps}
use go_redis_smq.Exchange.Params.{Params, Json, IsQueue, IsExchange}
use go_redis_smq.Exchange.Routed.{direct_routes, bind_tx, unbind_tx, bind_watch_keys}
use go_redis_smq.Exchange.Routed.Separate.{direct-IsSeparate}
use go_redis_smq.Exchange.Routed.Watched.{Unchanged, Unchanged-refl}
use go_redis_smq.Exchange.Routed.Linked.{Linked, bind_tx-Linked}
use go_redis_smq.Exchange.Routed.Unlinked.{UnbindSame, UnbindSame-refl, unbind_tx-Linked}
use go_redis_smq.Exchange.Direct.{bind_queue, unbind_queue}

module _ (R : HashSets) (W : Json) where
  open R use {Db}

  -- `BindQueue` keeps the invariant of the routes, that each bound queue's routing key is in its exchange's
  -- index and the exchange, with its stored type, in the queue's bindings: for a queue and an
  -- exchange with valid names, whatever the outcome, if each write of another client keeps it, and
  -- the writes of other clients that EXEC lets pass leave the
  -- watched keys as they are.
  pub bind_queue-Linked :
      (q : Queue) (e : Params) (routing_key : Text) (others : List (Others Db)) (d : Db)
      → IsQueue q
      → IsExchange e.at
      → All (Respect (Unchanged R (bind_watch_keys R W direct_routes q e routing_key))) others
      → All (Keep (Linked R W direct_routes direct-IsSeparate)) others
      → Linked R W direct_routes direct-IsSeparate d
      → Linked R W direct_routes direct-IsSeparate (bind_queue R W q e routing_key others d).0
  unfolding bind_queue
  bind_queue-Linked q e routing_key others d hq he ho hk inv =
      elim (Bool-cases (text_eq q.ns e.at.ns)) [
        | inl same ↦ rw same (
            with_transaction_keeps (bind_tx R W direct_routes q e routing_key)
              (Unchanged R (bind_watch_keys R W direct_routes q e routing_key))
              (Unchanged-refl R (bind_watch_keys R W direct_routes q e routing_key))
              (Linked R W direct_routes direct-IsSeparate)
              (λ seen met write i j kept h.
                bind_tx-Linked R W direct_routes direct-IsSeparate q e routing_key seen met write hq
                  he j kept h)
              5 others d ho hk inv)
        | inr other ↦ rw other inv
      ]

  -- `UnbindQueue` keeps the invariant of the routes, that each bound queue's routing key is in its exchange's
  -- index and the exchange, with its stored type, in the queue's bindings: for a queue and an
  -- exchange with valid names, whatever the outcome, if each write of another client keeps it, and
  -- the writes of other clients that EXEC lets pass leave the
  -- watched keys as they are, and the queue bound or not bound to the other routing keys as it was.
  pub unbind_queue-Linked :
      (q : Queue) (e : Params) (routing_key : Text) (others : List (Others Db)) (d : Db)
      → IsQueue q
      → IsExchange e.at
      → All (Respect (UnbindSame R W direct_routes direct-IsSeparate q e routing_key)) others
      → All (Keep (Linked R W direct_routes direct-IsSeparate)) others
      → Linked R W direct_routes direct-IsSeparate d
      → Linked R W direct_routes direct-IsSeparate (unbind_queue R W q e routing_key others d).0
  unfolding unbind_queue
  unbind_queue-Linked q e routing_key others d hq he ho hk inv =
      elim (Bool-cases (text_eq q.ns e.at.ns)) [
        | inl same ↦ rw same (
            with_transaction_keeps (unbind_tx R W direct_routes q e routing_key)
              (UnbindSame R W direct_routes direct-IsSeparate q e routing_key)
              (UnbindSame-refl R W direct_routes direct-IsSeparate q e routing_key)
              (Linked R W direct_routes direct-IsSeparate)
              (λ seen met write i j kept h.
                unbind_tx-Linked R W direct_routes direct-IsSeparate q e routing_key seen met write
                  hq he i j kept h)
              5 others d ho hk inv)
        | inr other ↦ rw other inv
      ]
