-- ===== src/Tests/Bindings.antt =====
-- Bindings of a queue to a direct and to a topic exchange, at a store in memory.
use go_redis_smq.Prelude.{false, ◌≡◌, refl, ◌&&◌, true, [], ◌∷◌, ok, any}
use go_redis_smq.Prelude.Text.{Text, codes, text_eq}
use go_redis_smq.Prelude.Decimal.{itoa, atoi}
use go_redis_smq.Keys.{
  Queue, properties, routing_keys, routing_key_queues, binding_patterns, exchange_bindings,
  is_letter, is_valid_key_char, key, join_parts,
}
use go_redis_smq.Redis.Memory.{Store, memory, members, member, has_key, find_field, add_member}
use go_redis_smq.Redis.Transaction.{written, committed, refused}
use go_redis_smq.Exchange.Params.{queue_already_bound, queue_type_field, type_fifo}
use go_redis_smq.Exchange.Token.{validate_topic_pattern, is_joiner}
use go_redis_smq.Exchange.Store.{
  validate_queue_binding, load_queue_type, check_binding, load, validate_type, int_field,
  int_field_or_zero, check_policy,
}
use go_redis_smq.Exchange.Pattern.{match_topic_pattern}
use go_redis_smq.Exchange.Routed.{
  Routes, direct_routes, topic_routes, route_queues, still_bound, bind_tx, unbind_tx, bind_writes,
}
use go_redis_smq.Exchange.Routed.Separate.{IsSeparate, direct-IsSeparate, topic-IsSeparate}
use go_redis_smq.Exchange.Routed.Linked.{Linked}
use go_redis_smq.Exchange.Routed.Spec.{Bound, Unbound}
use go_redis_smq.Exchange.Direct
use go_redis_smq.Exchange.Direct.Laws.{bind_queue-committed, unbind_queue-committed}
use go_redis_smq.Exchange.Direct.Invariant.{bind_queue-Linked, unbind_queue-Linked}
use go_redis_smq.Exchange.Direct.Race.{race, is_bound, bind_other, unbind_queue_orphans}
use go_redis_smq.Exchange.Topic
use go_redis_smq.Exchange.Topic.Invariant.{topic_bind_queue-Linked}
use go_redis_smq.Exchange.Topic.Matching.{match_queues-eq-ok, distinct, has_seen}
use go_redis_smq.Tests.Samples.{sample_json, orders, direct_exchange, topic_exchange, shop}

abbrev eu : Text
eu = codes "eu"

abbrev any_order : Text
any_order = codes "order.#"

abbrev bound_eu : Store
bound_eu = (Direct.bind_queue memory sample_json orders direct_exchange eu [] shop).0

abbrev bound_orders : Store
bound_orders = (Topic.bind_queue memory sample_json orders topic_exchange any_order [] shop).0

binds : (Direct.bind_queue memory sample_json orders direct_exchange eu [] shop).1 ≡ committed
unfolding Direct.bind_queue text_eq bind_tx validate_queue_binding load_queue_type has_key key
    join_parts check_binding load member
binds = refl

binds_twice :
    (Direct.bind_queue memory sample_json orders direct_exchange eu [] bound_eu).1
    ≡ refused queue_already_bound
unfolding Direct.bind_queue text_eq bind_tx validate_queue_binding load_queue_type has_key key
    join_parts check_binding load member unbind_tx validate_type find_field add_member bind_writes
    itoa atoi int_field int_field_or_zero check_policy
binds_twice = refl

unbinds :
    (Direct.unbind_queue memory sample_json orders direct_exchange eu [] bound_eu).1 ≡ committed
unfolding Direct.bind_queue Direct.unbind_queue text_eq bind_tx validate_queue_binding
    load_queue_type has_key key join_parts check_binding load member unbind_tx validate_type
    find_field add_member bind_writes itoa atoi int_field int_field_or_zero check_policy
unbinds = refl

topic_binds :
    (Topic.bind_queue memory sample_json orders topic_exchange any_order [] shop).1 ≡ committed
unfolding Topic.bind_queue text_eq bind_tx validate_queue_binding load_queue_type has_key key
    join_parts check_binding load member validate_topic_pattern is_joiner
topic_binds = refl

topic_unbinds :
    (Topic.unbind_queue memory sample_json orders topic_exchange any_order [] bound_orders).1
    ≡ committed
unfolding Topic.bind_queue Topic.unbind_queue text_eq bind_tx validate_queue_binding load_queue_type
    has_key key join_parts check_binding load member unbind_tx validate_type find_field add_member
    bind_writes itoa atoi int_field int_field_or_zero check_policy validate_topic_pattern is_joiner
topic_unbinds = refl

bind_queue-committed_example :
    (codes "shop" ≡ codes "shop")
    × Bound memory sample_json direct_routes direct-IsSeparate orders direct_exchange eu shop
        (Direct.bind_queue memory sample_json orders direct_exchange eu [] shop).0
unfolding is_letter is_valid_key_char written
bind_queue-committed_example =
    bind_queue-committed memory sample_json orders direct_exchange eu [] shop
      ((refl, refl), (refl, refl)) ((refl, refl), (refl, refl)) tt binds

unbind_queue-committed_example :
    (codes "shop" ≡ codes "shop")
    × Unbound memory sample_json direct_routes direct-IsSeparate orders direct_exchange eu bound_eu
        (Direct.unbind_queue memory sample_json orders direct_exchange eu [] bound_eu).0
unfolding is_letter is_valid_key_char written
unbind_queue-committed_example =
    unbind_queue-committed memory sample_json orders direct_exchange eu [] bound_eu
      ((refl, refl), (refl, refl)) ((refl, refl), (refl, refl)) tt unbinds

-- Nothing is bound in the first store.
shop-Linked : (r : Routes) (sep : IsSeparate r) → Linked memory sample_json r sep shop
unfolding member
shop-Linked r sep = record { indexed = λ f y p hf hp h. cc; named = λ f y p hf hp h. cc }

bind_queue-Linked_example :
    Linked memory sample_json direct_routes direct-IsSeparate
      (Direct.bind_queue memory sample_json orders direct_exchange eu [] shop).0
unfolding is_letter is_valid_key_char
bind_queue-Linked_example =
    bind_queue-Linked memory sample_json orders direct_exchange eu [] shop
      ((refl, refl), (refl, refl)) ((refl, refl), (refl, refl)) tt tt
      (shop-Linked direct_routes direct-IsSeparate)

unbind_queue-Linked_example :
    Linked memory sample_json direct_routes direct-IsSeparate
      (Direct.unbind_queue memory sample_json orders direct_exchange eu [] bound_eu).0
unfolding is_letter is_valid_key_char
unbind_queue-Linked_example =
    unbind_queue-Linked memory sample_json orders direct_exchange eu [] bound_eu
      ((refl, refl), (refl, refl)) ((refl, refl), (refl, refl)) tt tt bind_queue-Linked_example

topic_bind_queue-Linked_example :
    Linked memory sample_json topic_routes topic-IsSeparate
      (Topic.bind_queue memory sample_json orders topic_exchange any_order [] shop).0
unfolding is_letter is_valid_key_char
topic_bind_queue-Linked_example =
    topic_bind_queue-Linked memory sample_json orders topic_exchange any_order [] shop
      ((refl, refl), (refl, refl)) ((refl, refl), (refl, refl)) tt tt
      (shop-Linked topic_routes topic-IsSeparate)

-- The topic exchange sends an order to the queue, once, though two of its patterns match.
abbrev two_patterns : Store
two_patterns =
    (Topic.bind_queue memory sample_json orders topic_exchange (codes "order.*") [] bound_orders).0

finds_orders :
    Topic.match_queues memory sample_json topic_exchange (codes "order.eu") two_patterns
    ≡ ok (orders ∷ [])
unfolding Topic.match_queues Topic.bind_queue text_eq bind_tx validate_queue_binding load_queue_type
    has_key key join_parts check_binding load member unbind_tx validate_type find_field add_member
    bind_writes itoa atoi int_field int_field_or_zero check_policy validate_topic_pattern is_joiner
    members Topic.collect_queues Topic.matched_patterns route_queues match_topic_pattern
finds_orders = refl

match_queues-eq-ok_example :
    (distinct (orders ∷ []) ≡ true)
    × ((k : Text)
        → has_seen k (orders ∷ [])
          ≡ any
              (λ p.
                match_topic_pattern (codes "order.eu") p
                && has_seen k
                    (route_queues memory sample_json topic_routes topic_exchange p two_patterns))
              (memory.smembers (binding_patterns topic_exchange.at) two_patterns))
match_queues-eq-ok_example =
    match_queues-eq-ok memory sample_json topic_exchange (codes "order.eu") two_patterns
      (orders ∷ []) finds_orders

abbrev us : Text
us = codes "us"

abbrev returns : Queue
returns = record { ns = codes "shop"; name = codes "returns" }

abbrev two_queues : Store
two_queues = record shop {
  hashes =
      record { key = properties returns; field = queue_type_field; value = itoa type_fifo }
      ∷ shop.hashes;
}

-- Orders are bound to "eu", and returns to "us".
abbrev both_bound : Store
both_bound =
    (Direct.bind_queue memory sample_json returns direct_exchange us []
      (Direct.bind_queue memory sample_json orders direct_exchange eu [] two_queues).0).0

us_indexed : memory.sismember (routing_keys direct_exchange.at) us both_bound ≡ true
unfolding is_letter is_valid_key_char Direct.bind_queue text_eq bind_tx validate_queue_binding
    load_queue_type has_key key join_parts check_binding load member bind_writes validate_type
    find_field itoa atoi add_member int_field int_field_or_zero check_policy
us_indexed = refl

-- Orders, which are bound to "eu", are bound to "us" while they are unbound from "eu".
unbind_queue_orphans_example :
    ((m : Text)
      → (memory.sismember
            (routing_keys direct_exchange.at)
            m
            (bind_other memory sample_json orders direct_exchange us both_bound)
          ≡ memory.sismember (routing_keys direct_exchange.at) m both_bound)
        × (memory.sismember
              (routing_key_queues direct_exchange.at eu)
              m
              (bind_other memory sample_json orders direct_exchange us both_bound)
            ≡ memory.sismember (routing_key_queues direct_exchange.at eu) m both_bound)
        × (memory.sismember
              (exchange_bindings orders)
              m
              (bind_other memory sample_json orders direct_exchange us both_bound)
            ≡ memory.sismember (exchange_bindings orders) m both_bound))
    × ((race memory sample_json orders direct_exchange eu us both_bound).1 ≡ committed)
    × (is_bound memory sample_json direct_exchange us orders
          (race memory sample_json orders direct_exchange eu us both_bound).0
        ≡ true)
    × (memory.sismember
          (exchange_bindings orders)
          (sample_json.marshal_exchange direct_exchange)
          (race memory sample_json orders direct_exchange eu us both_bound).0
        ≡ false)
unfolding is_letter is_valid_key_char Direct.bind_queue text_eq bind_tx validate_queue_binding
    load_queue_type has_key key join_parts check_binding load member bind_writes validate_type
    find_field itoa atoi add_member still_bound members int_field int_field_or_zero check_policy
unbind_queue_orphans_example =
    unbind_queue_orphans memory sample_json orders direct_exchange eu us both_bound
      ((refl, refl), (refl, refl)) ((refl, refl), (refl, refl)) refl refl refl refl refl us_indexed
      refl
