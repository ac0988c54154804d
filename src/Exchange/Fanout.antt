-- ===== src/Exchange/Fanout.antt =====
-- internal/exchange/fanout.go: `FanoutStore`. `others` are as for a direct exchange.
pub mod Laws
use go_redis_smq.Prelude.{ℕ, true, List, [], ◌∷◌, ltb, ◌==◌, if◌then◌else◌, Result, ok, err, ◌>>=◌}
use go_redis_smq.Prelude.Text.{Text, text_eq}
use go_redis_smq.Prelude.Decimal.{itoa}
use go_redis_smq.Keys
use go_redis_smq.Keys.{Queue}
use go_redis_smq.Redis.HashSets.{HashSets}
use go_redis_smq.Redis.Transaction.{Others, Outcome, refused, with_transaction}
use go_redis_smq.Exchange.Params.{
  Params, Error, namespace_mismatch, type_mismatch, queue_already_bound, queue_not_bound,
  has_bound_queues, type_field, type_fanout, Json, decode_queues,
}
use go_redis_smq.Exchange.Store.{save, validate_type, validate_queue_binding}

module _ (R : HashSets) (J : Json) where
  open R use {Db, sismember, smembers, scard, hset, sadd, srem, del}

  unfoldable pub create : Params → ℕ → List (Others Db) → Db → Db × Outcome Error
  unfolding with_transaction
  create e policy others d =
      if e.typ == type_fanout
      then with_transaction (save R J e policy) 3 others d
      else (d, refused type_mismatch)

  -- The keys that `BindQueue` and `UnbindQueue` watch.
  abbrev pub bind_watch_keys : Queue → Params → List Text
  bind_watch_keys q e =
      Keys.exchange e.at
      ∷ Keys.exchange_properties e.at
      ∷ Keys.fanout_queues e.at
      ∷ Keys.exchange_bindings q
      ∷ Keys.all_exchanges
      ∷ Keys.namespace_exchanges e.at.ns
      ∷ []

  abbrev pub unbind_watch_keys : Queue → Params → List Text
  unbind_watch_keys q e =
      Keys.exchange e.at ∷ Keys.fanout_queues e.at ∷ Keys.exchange_bindings q ∷ []

  -- The pipeline of `BindQueue`.
  unfoldable pub bind_writes : Queue → Params → Db → Db
  bind_writes q e d = sadd (Keys.exchange_bindings q) (J.marshal_exchange e) (
      sadd (Keys.fanout_queues e.at) (J.marshal_queue q) (
        sadd (Keys.namespace_exchanges e.at.ns) (J.marshal_exchange e) (
          sadd Keys.all_exchanges (J.marshal_exchange e)
            (hset (Keys.exchange_properties e.at) type_field (itoa e.typ) d))))

  -- The transaction of `BindQueue`.
  unfoldable pub bind_tx : Queue → Params → Db → Result Error (Db → Db)
  bind_tx q e d = do
    _ ← validate_queue_binding R e q d
    if sismember (Keys.fanout_queues e.at) (J.marshal_queue q) d
        then err queue_already_bound
        else ok (bind_writes q e)

  unfoldable pub bind_queue : Queue → Params → List (Others Db) → Db → Db × Outcome Error
  unfolding with_transaction
  bind_queue q e others d =
      if text_eq q.ns e.at.ns
      then with_transaction (bind_tx q e) 5 others d
      else (d, refused namespace_mismatch)

  -- The pipeline of `UnbindQueue`.
  unfoldable pub unbind_writes : Queue → Params → Db → Db
  unbind_writes q e d =
      srem (Keys.exchange_bindings q) (J.marshal_exchange e)
        (srem (Keys.fanout_queues e.at) (J.marshal_queue q) d)

  -- The transaction of `UnbindQueue`.
  unfoldable pub unbind_tx : Queue → Params → Db → Result Error (Db → Db)
  unbind_tx q e d = do
    _ ← validate_type R e true d
    if sismember (Keys.fanout_queues e.at) (J.marshal_queue q) d
        then ok (unbind_writes q e)
        else err queue_not_bound

  unfoldable pub unbind_queue : Queue → Params → List (Others Db) → Db → Db × Outcome Error
  unfolding with_transaction
  unbind_queue q e others d =
      if text_eq q.ns e.at.ns
      then with_transaction (unbind_tx q e) 5 others d
      else (d, refused namespace_mismatch)

  unfoldable pub bound_queues : Params → Db → Result Error (List Queue)
  unfolding decode_queues
  bound_queues e d = do
    _ ← validate_type R e true d
    ok (decode_queues J (smembers (Keys.fanout_queues e.at) d))

  unfoldable pub match_queues : Params → Db → Result Error (List Queue)
  unfolding bound_queues
  match_queues e d = bound_queues e d

  -- The pipeline of `Delete`.
  unfoldable pub delete_writes : Params → Db → Db
  delete_writes e d = srem (Keys.namespace_exchanges e.at.ns) (J.marshal_exchange e) (
      srem Keys.all_exchanges (J.marshal_exchange e) (
        del (Keys.fanout_queues e.at)
          (del (Keys.exchange_properties e.at) (del (Keys.exchange e.at) d))))

  -- The transaction of `Delete`.
  unfoldable pub delete_tx : Params → Db → Result Error (Db → Db)
  delete_tx e d = do
    _ ← validate_type R e true d
    if ltb 0 (scard (Keys.fanout_queues e.at) d) then err has_bound_queues else ok (delete_writes e)

  unfoldable pub delete : Params → List (Others Db) → Db → Db × Outcome Error
  unfolding with_transaction
  delete e others d = with_transaction (delete_tx e) 5 others d
