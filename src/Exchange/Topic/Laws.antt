-- ===== src/Exchange/Topic/Laws.antt =====
-- internal/exchange/topic.go: what `BindQueue` and `UnbindQueue` do when they return nil, with other
-- clients writing during the attempts.
use go_redis_smq.Prelude.{◌≡◌, List, All}
use go_redis_smq.Prelude.Text.{Text, text_eq, eq_of_text_eq}
use go_redis_smq.Keys.{Queue, split}
use go_redis_smq.Redis.HashSets.{HashSets}
use go_redis_smq.Redis.Transaction.{Others, Respect, committed, written, checked_twice-committed}
use go_redis_smq.Exchange.Params.{
  Params, Json, IsQueue, IsExchange, namespace_mismatch, invalid_pattern,
}
use go_redis_smq.Exchange.Token.{validate_topic_pattern, PatternToken, validate_topic_pattern_iff}
use go_redis_smq.Exchange.Routed.{
  topic_routes, bind_tx, unbind_tx, bind_watch_keys, unbind_watch_keys,
}
use go_redis_smq.Exchange.Routed.Separate.{topic-IsSeparate}
use go_redis_smq.Exchange.Routed.Watched.{Unchanged, Unchanged-refl}
use go_redis_smq.Exchange.Routed.Spec.{Bound, Unbound, bind_tx-Bound, unbind_tx-Unbound}
use go_redis_smq.Exchange.Topic.{bind_queue, unbind_queue}

module _ (R : HashSets) (W : Json) where
  open R use {Db}

  -- A `BindQueue` that returns nil, of a queue and an exchange with valid names, where the writes of other
  -- clients that EXEC lets pass leave the watched keys as they are, is of a queue in the exchange's
  -- namespace and with a pattern of
  -- tokens that are each a wildcard or a word. On the data that its EXEC met, the queue was not bound to the pattern; what it leaves
  -- differs from these, in the relation of exchanges, patterns and queues, by that one binding.
  pub bind_queue-valid :
      (q : Queue) (e : Params) (pattern_text : Text) (others : List (Others Db)) (d : Db)
      → IsQueue q
      → IsExchange e.at
      → All (Respect (Unchanged R (bind_watch_keys R W topic_routes q e pattern_text))) others
      → (bind_queue R W q e pattern_text others d).1 ≡ committed
      → (q.ns ≡ e.at.ns)
        × All PatternToken (split b'.' pattern_text)
        × Bound R W topic_routes topic-IsSeparate q e pattern_text
            (written 5 others d)
            (bind_queue R W q e pattern_text others d).0
  unfolding bind_queue
  bind_queue-valid q e pattern_text others d hq he ho h =
      let (same, valid, (seen, write, kept, h', result)) =
        checked_twice-committed (bind_tx R W topic_routes q e pattern_text)
          (Unchanged R (bind_watch_keys R W topic_routes q e pattern_text))
          (Unchanged-refl R (bind_watch_keys R W topic_routes q e pattern_text))
          (text_eq q.ns e.at.ns) (validate_topic_pattern pattern_text) invalid_pattern
          namespace_mismatch 4 others d ho h in
      (
        eq_of_text_eq _ _ same,
        (validate_topic_pattern_iff pattern_text).0 valid,
        bind_tx-Bound R W topic_routes topic-IsSeparate q e pattern_text seen (written 5 others d) _
            write hq he kept h' result,
      )

  -- An `UnbindQueue` that returns nil, of a queue and an exchange with valid names, where the writes of other
  -- clients that EXEC lets pass leave the watched keys as they are, is of a queue in the exchange's
  -- namespace and with a pattern of
  -- tokens that are each a wildcard or a word. On the data that its EXEC met, the queue was bound to the pattern; what it leaves
  -- differs from these, in the relation of exchanges, patterns and queues, by that one binding.
  pub unbind_queue-valid :
      (q : Queue) (e : Params) (pattern_text : Text) (others : List (Others Db)) (d : Db)
      → IsQueue q
      → IsExchange e.at
      → All (Respect (Unchanged R (unbind_watch_keys R W topic_routes q e pattern_text))) others
      → (unbind_queue R W q e pattern_text others d).1 ≡ committed
      → (q.ns ≡ e.at.ns)
        × All PatternToken (split b'.' pattern_text)
        × Unbound R W topic_routes topic-IsSeparate q e pattern_text
            (written 5 others d)
            (unbind_queue R W q e pattern_text others d).0
  unfolding unbind_queue
  unbind_queue-valid q e pattern_text others d hq he ho h =
      let (same, valid, (seen, write, kept, h', result)) =
        checked_twice-committed (unbind_tx R W topic_routes q e pattern_text)
          (Unchanged R (unbind_watch_keys R W topic_routes q e pattern_text))
          (Unchanged-refl R (unbind_watch_keys R W topic_routes q e pattern_text))
          (text_eq q.ns e.at.ns) (validate_topic_pattern pattern_text) invalid_pattern
          namespace_mismatch 4 others d ho h in
      (
        eq_of_text_eq _ _ same,
        (validate_topic_pattern_iff pattern_text).0 valid,
        unbind_tx-Unbound R W topic_routes topic-IsSeparate q e pattern_text seen
            (written 5 others d) _ write hq he kept h' result,
      )
