-- ===== src/Exchange/Topic/Invariant.antt =====
-- internal/exchange/topic.go: `BindQueue` and `UnbindQueue` keep the routes linked, whatever they
-- return and whatever other clients do that keeps them linked.
use go_redis_smq.Prelude.{List, All, Bool-cases, inl, inr}
use go_redis_smq.Prelude.Text.{Text, text_eq}
use go_redis_smq.Keys.{Queue}
use go_redis_smq.Redis.HashSets.{HashSets}
use go_redis_smq.Redis.Transaction.{Others, Respect, Keep, with_transaction_keeps}
use go_redis_smq.Exchange.Params.{Params, Json, IsQueue, IsExchange}
use go_redis_smq.Exchange.Token.{validate_topic_pattern}
use go_redis_smq.Exchange.Routed.{topic_routes, bind_tx, unbind_tx, bind_watch_keys}
use go_redis_smq.Exchange.Routed.Separate.{topic-IsSeparate}
use go_redis_smq.Exchange.Routed.Watched.{Unchanged, Unchanged-refl}
use go_redis_smq.Exchange.Routed.Linked.{Linked, bind_tx-Linked}
use go_redis_smq.Exchange.Routed.Unlinked.{UnbindSame, UnbindSame-refl, unbind_tx-Linked}
use go_redis_smq.Exchange.Topic.{bind_queue, unbind_queue}

module _ (R : HashSets) (W : Json) where
  open R use {Db}

  -- `BindQueue` keeps the invariant of the routes, that each bound queue's pattern is in its exchange's
  -- index and the exchange, with its stored type, in the queue's bindings: for a queue and an
  -- exchange with valid names, whatever the outcome, if each write of another client keeps it, and
  -- the writes of other clients that EXEC lets pass leave the
  -- watched keys as they are.
  pub topic_bind_queue-Linked :
      (q : Queue) (e : Params) (pattern_text : Text) (others : List (Others Db)) (d : Db)
      → IsQueue q
      → IsExchange e.at
      → All (Respect (Unchanged R (bind_watch_keys R W topic_routes q e pattern_text))) others
      → All (Keep (Linked R W topic_routes topic-IsSeparate)) others
      → Linked R W topic_routes topic-IsSeparate d
      → Linked R W topic_routes topic-IsSeparate (bind_queue R W q e pattern_text others d).0
  unfolding bind_queue
  topic_bind_queue-Linked q e pattern_text others d hq he ho hk inv =
      elim (Bool-cases (text_eq q.ns e.at.ns)) [
        | inl same ↦ rw same (elim (Bool-cases (validate_topic_pattern pattern_text)) [
          | inl valid ↦ rw valid (
              with_transaction_keeps (bind_tx R W topic_routes q e pattern_text)
                (Unchanged R (bind_watch_keys R W topic_routes q e pattern_text))
                (Unchanged-refl R (bind_watch_keys R W topic_routes q e pattern_text))
                (Linked R W topic_routes topic-IsSeparate)
                (λ seen met write i j kept h.
                  bind_tx-Linked R W topic_routes topic-IsSeparate q e pattern_text seen met write
                    hq he j kept h)
                5 others d ho hk inv)
          | inr bad ↦ rw bad inv
        ])
        | inr other ↦ rw other inv
      ]

  -- `UnbindQueue` keeps the invariant of the routes, that each bound queue's pattern is in its exchange's
  -- index and the exchange, with its stored type, in the queue's bindings: for a queue and an
  -- exchange with valid names, whatever the outcome, if each write of another client keeps it, and
  -- the writes of other clients that EXEC lets pass leave the
  -- watched keys as they are, and the queue bound or not bound to the other patterns as it was.
  pub topic_unbind_queue-Linked :
      (q : Queue) (e : Params) (pattern_text : Text) (others : List (Others Db)) (d : Db)
      → IsQueue q
      → IsExchange e.at
      → All (Respect (UnbindSame R W topic_routes topic-IsSeparate q e pattern_text)) others
      → All (Keep (Linked R W topic_routes topic-IsSeparate)) others
      → Linked R W topic_routes topic-IsSeparate d
      → Linked R W topic_routes topic-IsSeparate (unbind_queue R W q e pattern_text others d).0
  unfolding unbind_queue
  topic_unbind_queue-Linked q e pattern_text others d hq he ho hk inv =
      elim (Bool-cases (text_eq q.ns e.at.ns)) [
        | inl same ↦ rw same (elim (Bool-cases (validate_topic_pattern pattern_text)) [
          | inl valid ↦ rw valid (
              with_transaction_keeps (unbind_tx R W topic_routes q e pattern_text)
                (UnbindSame R W topic_routes topic-IsSeparate q e pattern_text)
                (UnbindSame-refl R W topic_routes topic-IsSeparate q e pattern_text)
                (Linked R W topic_routes topic-IsSeparate)
                (λ seen met write i j kept h.
                  unbind_tx-Linked R W topic_routes topic-IsSeparate q e pattern_text seen met write
                    hq he i j kept h)
                5 others d ho hk inv)
          | inr bad ↦ rw bad inv
        ])
        | inr other ↦ rw other inv
      ]
