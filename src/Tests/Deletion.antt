-- ===== src/Tests/Deletion.antt =====
-- The removal of a direct exchange with a routing key that has no queue, at a store in memory.
use go_redis_smq.Prelude.{◌≡◌, refl, [], ◌∷◌, ok}
use go_redis_smq.Prelude.Text.{Text, codes, text_eq}
use go_redis_smq.Prelude.Decimal.{itoa, atoi}
use go_redis_smq.Keys
use go_redis_smq.Keys.{is_letter, is_valid_key_char, key, join_parts}
use go_redis_smq.Redis.Memory.{Store, memory, members, find_field}
use go_redis_smq.Redis.Transaction.{written, committed, refused}
use go_redis_smq.Exchange.Params.{type_field, type_direct, not_found}
use go_redis_smq.Exchange.Store.{validate_type}
use go_redis_smq.Exchange.Routed.{delete_tx}
use go_redis_smq.Exchange.Direct
use go_redis_smq.Exchange.Direct.Deleted.{Deleted, delete-Deleted}
use go_redis_smq.Tests.Samples.{sample_json, direct_exchange, shop}

abbrev eu : Text
eu = codes "eu"

abbrev no_queues : Store
no_queues = record {
  hashes =
      record {
        key = Keys.exchange_properties direct_exchange.at;
        field = type_field;
        value = itoa type_direct;
      }
      ∷ [];
  sets = (Keys.routing_keys direct_exchange.at, eu) ∷ [];
}

abbrev deleted : Store
deleted = (Direct.delete memory sample_json direct_exchange (λ d. d) [] no_queues).0

reads_keys : Direct.routing_keys memory sample_json direct_exchange no_queues ≡ ok (eu ∷ [])
unfolding Direct.routing_keys validate_type text_eq find_field key join_parts itoa atoi members
reads_keys = refl

deletes : (Direct.delete memory sample_json direct_exchange (λ d. d) [] no_queues).1 ≡ committed
unfolding Direct.delete Direct.routing_keys validate_type text_eq find_field key join_parts itoa
    atoi members delete_tx
deletes = refl

no_exchange :
    (Direct.delete memory sample_json direct_exchange (λ d. d) [] shop).1 ≡ refused not_found
unfolding Direct.delete Direct.routing_keys validate_type text_eq find_field key join_parts itoa
    atoi members delete_tx
no_exchange = refl

delete-Deleted_example : Deleted memory sample_json direct_exchange (eu ∷ []) no_queues deleted
unfolding is_letter is_valid_key_char written
delete-Deleted_example =
    delete-Deleted memory sample_json direct_exchange (eu ∷ []) (λ d. d) [] no_queues
      ((refl, refl), (refl, refl)) reads_keys tt deletes
