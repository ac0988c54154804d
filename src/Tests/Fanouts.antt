-- ===== src/Tests/Fanouts.antt =====
-- A binding of a queue to a fanout exchange, at a store in memory.
use go_redis_smq.Prelude.{◌≡◌, refl, true, false, [], ◌∷◌, ok}
use go_redis_smq.Prelude.Text.{codes, text_eq}
use go_redis_smq.Prelude.Decimal.{itoa, atoi}
use go_redis_smq.Keys.{is_letter, is_valid_key_char, key, join_parts}
use go_redis_smq.Redis.Memory.{Store, memory, members, member, has_key, find_field, add_member}
use go_redis_smq.Redis.Transaction.{written, committed}
use go_redis_smq.Exchange.Params.{Params, type_fanout}
use go_redis_smq.Exchange.Store.{
  validate_queue_binding, load_queue_type, check_binding, load, validate_type,
}
use go_redis_smq.Exchange.Fanout
use go_redis_smq.Exchange.Fanout.Laws.{Switched, bind_queue-Switched}
use go_redis_smq.Tests.Samples.{sample_json, orders, shop}

abbrev fanout_exchange : Params
fanout_exchange = record { at = record { ns = codes "shop"; name = codes "f" }; typ = type_fanout }

abbrev bound : Store
bound = (Fanout.bind_queue memory sample_json orders fanout_exchange [] shop).0

abbrev unbound : Store
unbound = (Fanout.unbind_queue memory sample_json orders fanout_exchange [] bound).0

fanout_binds : (Fanout.bind_queue memory sample_json orders fanout_exchange [] shop).1 ≡ committed
unfolding Fanout.bind_queue text_eq Fanout.bind_tx validate_queue_binding load_queue_type has_key
    key join_parts check_binding load member
fanout_binds = refl

fanout_unbinds :
    (Fanout.unbind_queue memory sample_json orders fanout_exchange [] bound).1 ≡ committed
unfolding Fanout.bind_queue Fanout.unbind_queue text_eq Fanout.bind_tx Fanout.unbind_tx
    validate_queue_binding load_queue_type has_key key join_parts check_binding load member
    validate_type find_field add_member Fanout.bind_writes itoa atoi
fanout_unbinds = refl

-- The exchange sends to the queue.
fanout_finds : Fanout.match_queues memory sample_json fanout_exchange bound ≡ ok (orders ∷ [])
unfolding Fanout.match_queues Fanout.bind_queue text_eq Fanout.bind_tx validate_queue_binding
    load_queue_type has_key key join_parts check_binding load member validate_type find_field
    add_member Fanout.bind_writes itoa atoi members
fanout_finds = refl

bind_queue-Switched_example :
    (codes "shop" ≡ codes "shop")
    × Switched memory sample_json true false orders fanout_exchange shop bound
unfolding is_letter is_valid_key_char written
bind_queue-Switched_example =
    bind_queue-Switched memory sample_json orders fanout_exchange [] shop
      ((refl, refl), (refl, refl)) ((refl, refl), (refl, refl)) tt fanout_binds
