-- ===== src/Exchange/Store.antt =====
-- internal/exchange/{store,codec,validate,lookup}.go: the stored properties of an exchange, the
-- checks before a binding, and the removal of an exchange.
pub mod Checks
use go_redis_smq.Prelude.{
  ℕ, ◌≡◌, Bool, true, false, not, ◌&&◌, ◌||◌, Option, none, some, List, [], ◌∷◌, ltb, ◌==◌,
  if◌then◌else◌, any, is_some, Result, ok, err, ◌>>=◌, guard,
}
use go_redis_smq.Prelude.Text.{Text}
use go_redis_smq.Prelude.Decimal.{itoa, atoi}
use go_redis_smq.Keys
use go_redis_smq.Keys.{Queue, Exchange}
use go_redis_smq.Redis.HashSets.{HashSets}
use go_redis_smq.Exchange.Params.{
  Params, Props, Error, not_found, already_exists, has_bound_queues, type_mismatch,
  policy_violation, queue_not_found, bad_props, type_field, policy_field, queue_type_field,
  type_direct, type_fanout, type_topic, policy_standard, policy_priority, type_fifo, type_lifo,
  type_priority, Json, decode_exchanges,
}

-- A field of `DecodeProps`: 0 if it is missing, an error if it is no number.
unfoldable pub int_field : Option Text → Result Error ℕ
unfolding atoi
int_field none = ok 0
int_field (some v) = elim (atoi v) [ none ↦ err bad_props | some n ↦ ok n ]

-- The same with `n, _ := strconv.Atoi(v)`, as internal/queue/codec.go reads the type of a queue.
unfoldable pub int_field_or_zero : Option Text → ℕ
unfolding atoi
int_field_or_zero none = 0
int_field_or_zero (some v) = elim (atoi v) [ none ↦ 0 | some n ↦ n ]

-- `checkPolicy`
unfoldable pub check_policy : Props → ℕ → Result Error (Unit {0})
check_policy props queue_type =
    if props.policy == policy_standard
    then (guard (queue_type == type_fifo || queue_type == type_lifo) policy_violation)
    else (if props.policy == policy_priority
        then (guard (queue_type == type_priority) policy_violation)
        else ok tt)

-- What `ValidateQueueBinding` does with the exchange's properties.
unfoldable pub check_binding : Params → ℕ → Result Error Props → Result Error (Option Props)
check_binding e queue_type (err not_found) = ok none
check_binding e queue_type (err x) = err x
check_binding e queue_type (ok props) = do
  _ ← guard (props.typ == e.typ) type_mismatch
  _ ← check_policy props queue_type
  ok (some props)

module _ (R : HashSets) where
  open R use {Db, hget, exists, sismember, smembers, scard, hset, sadd, srem, del}

  -- `Store.Load`
  unfoldable pub load : Params → Db → Result Error Props
  load e d =
      if exists (Keys.exchange_properties e.at) d
      then (do
        t ← int_field (hget (Keys.exchange_properties e.at) type_field d)
        p ← int_field (hget (Keys.exchange_properties e.at) policy_field d)
        ok (record { typ = t; policy = p }))
      else err not_found

  -- The type that the queue store loads: `Store.Load` of internal/queue.
  unfoldable pub load_queue_type : Queue → Db → Result Error ℕ
  load_queue_type q d =
      if exists (Keys.properties q) d
      then ok (int_field_or_zero (hget (Keys.properties q) queue_type_field d))
      else err queue_not_found

  -- `ValidateType` with `required`.
  unfoldable pub validate_type : Params → Bool → Db → Result Error (Unit {0})
  validate_type e required d = elim (hget (Keys.exchange_properties e.at) type_field d) [
    | none ↦ if required then err not_found else ok tt
    | some v ↦ elim (atoi v) [ none ↦ err bad_props | some t ↦ guard (t == e.typ) type_mismatch ]
  ]

  -- `ValidateQueueBinding`
  unfoldable pub validate_queue_binding : Params → Queue → Db → Result Error (Option Props)
  validate_queue_binding e q d = do
    queue_type ← load_queue_type q d
    check_binding e queue_type (load e d)

  module _ (J : Json) where
    -- The pipeline of `Save`.
    unfoldable pub save_writes : Params → ℕ → Db → Db
    save_writes e policy d = sadd (Keys.namespace_exchanges e.at.ns) (J.marshal_exchange e) (
        sadd Keys.all_exchanges (J.marshal_exchange e) (
          sadd Keys.all_namespaces e.at.ns (
            hset (Keys.exchange_properties e.at) policy_field (itoa policy)
              (hset (Keys.exchange_properties e.at) type_field (itoa e.typ) d))))

    -- `Save`
    unfoldable pub save : Params → ℕ → Db → Result Error (Db → Db)
    save e policy d =
        if is_some (hget (Keys.exchange_properties e.at) type_field d)
        then err already_exists
        else ok (save_writes e policy)

    -- The queues that `Delete` finds bound, by the type of the exchange.
    unfoldable pub has_bound : Params → Db → Bool
    has_bound e d =
        if e.typ == type_direct
        then any (λ rk. ltb 0 (scard (Keys.routing_key_queues e.at rk) d))
            (smembers (Keys.routing_keys e.at) d)
        else (if e.typ == type_topic
            then any (λ p. ltb 0 (scard (Keys.pattern_queues e.at p) d))
                (smembers (Keys.binding_patterns e.at) d)
            else (if e.typ == type_fanout
                then ltb 0 (scard (Keys.fanout_queues e.at) d)
                else false))

    -- The second switch of `Delete`.
    unfoldable pub del_index : Params → Db → Db
    del_index e d =
        if e.typ == type_direct
        then del (Keys.routing_keys e.at) d
        else (if e.typ == type_topic
            then del (Keys.binding_patterns e.at) d
            else (if e.typ == type_fanout then del (Keys.fanout_queues e.at) d else d))

    -- `Store.Delete`
    unfoldable pub delete : Params → Db → Result Error Db
    delete e d =
        if not (exists (Keys.exchange_properties e.at) d)
        then err not_found
        else (if has_bound e d
            then err has_bound_queues
            else ok (
                del_index e (
                  srem (Keys.namespace_exchanges e.at.ns) (J.marshal_exchange e) (
                    srem Keys.all_exchanges (J.marshal_exchange e)
                      (del (Keys.exchange_properties e.at) (del (Keys.exchange e.at) d))))))

    -- `Lookup.All`
    unfoldable pub list_all : Db → List Params
    unfolding decode_exchanges
    list_all d = decode_exchanges J (smembers Keys.all_exchanges d)

    -- `Lookup.ByNamespace`
    unfoldable pub list_by_namespace : Text → Db → List Params
    unfolding decode_exchanges
    list_by_namespace ns d = decode_exchanges J (smembers (Keys.namespace_exchanges ns) d)

    -- `Lookup.ByQueue`
    unfoldable pub list_by_queue : Queue → Db → List Params
    unfolding decode_exchanges
    list_by_queue q d = decode_exchanges J (smembers (Keys.exchange_bindings q) d)
