-- ===== src/Exchange/Routed.antt =====
-- internal/exchange/{direct,topic}.go: what the two stores share. A direct exchange keeps its routing
-- keys, a topic exchange its binding patterns; both keep the queues bound to each.
pub mod Separate
pub mod Writes
pub mod Watched
pub mod Linked
pub mod Unlinked
pub mod Spec
use go_redis_smq.Prelude.{
  ℕ, ◌≡◌, Bool, true, false, not, ◌&&◌, Option, none, some, List, [], ◌∷◌, map, ltb, ◌==◌,
  if◌then◌else◌, any, Result, ok, err, ◌>>=◌,
}
use go_redis_smq.Prelude.Text.{Text, text_eq}
use go_redis_smq.Prelude.Decimal.{itoa}
use go_redis_smq.Keys
use go_redis_smq.Keys.{Queue, Exchange}
use go_redis_smq.Redis.HashSets.{HashSets}
use go_redis_smq.Redis.Transaction.{Outcome, refused, with_transaction}
use go_redis_smq.Exchange.Params.{
  Params, Error, namespace_mismatch, queue_already_bound, queue_not_bound, has_bound_queues,
  type_field, Json, decode_queues,
}
use go_redis_smq.Exchange.Store.{validate_type, validate_queue_binding}

-- Where an exchange keeps its routes, and the queues of each.
pub record Routes : Type 0 where
  pub index : Exchange → Text
  pub queues : Exchange → Text → Text

abbrev pub direct_routes : Routes
direct_routes = record { index = Keys.routing_keys; queues = Keys.routing_key_queues }

abbrev pub topic_routes : Routes
topic_routes = record { index = Keys.binding_patterns; queues = Keys.pattern_queues }

module _ (R : HashSets) (J : Json) (routes : Routes) where
  open R use {Db, sismember, smembers, scard, hset, sadd, srem, del}
  open routes use {index, queues}

  -- The keys that `BindQueue` and `UnbindQueue` watch.
  abbrev pub bind_watch_keys : Queue → Params → Text → List Text
  bind_watch_keys q e route =
      Keys.exchange e.at
      ∷ Keys.exchange_properties e.at
      ∷ index e.at
      ∷ queues e.at route
      ∷ Keys.exchange_bindings q
      ∷ Keys.all_exchanges
      ∷ Keys.namespace_exchanges e.at.ns
      ∷ []

  abbrev pub unbind_watch_keys : Queue → Params → Text → List Text
  unbind_watch_keys q e route =
      Keys.exchange e.at ∷ index e.at ∷ queues e.at route ∷ Keys.exchange_bindings q ∷ []

  -- The pipeline of `BindQueue`, in the order of the source.
  unfoldable pub bind_writes : Queue → Params → Text → Db → Db
  bind_writes q e route d = sadd (Keys.exchange_bindings q) (J.marshal_exchange e) (
      sadd (queues e.at route) (J.marshal_queue q) (
        sadd (index e.at) route (
          sadd (Keys.namespace_exchanges e.at.ns) (J.marshal_exchange e) (
            sadd Keys.all_exchanges (J.marshal_exchange e)
              (hset (Keys.exchange_properties e.at) type_field (itoa e.typ) d)))))

  -- The transaction of `BindQueue`.
  unfoldable pub bind_tx : Queue → Params → Text → Db → Result Error (Db → Db)
  bind_tx q e route d = do
    _ ← validate_queue_binding R e q d
    if sismember (queues e.at route) (J.marshal_queue q) d
        then err queue_already_bound
        else ok (bind_writes q e route)

  -- The loop over the other routes: is the queue bound to one of them?
  unfoldable pub still_bound : Queue → Params → Text → Db → Bool
  unfolding text_eq
  still_bound q e route d =
      any (λ r. if text_eq r route then false else sismember (queues e.at r) (J.marshal_queue q) d)
        (smembers (index e.at) d)

  -- The pipeline of `UnbindQueue`: is the queue the last one on the route, and bound elsewhere?
  unfoldable pub unbind_writes : Queue → Params → Text → Bool → Bool → Db → Db
  unbind_writes q e route last elsewhere d =
      let d₁ = srem (queues e.at route) (J.marshal_queue q) d in
      let d₂ = if last then srem (index e.at) route d₁ else d₁ in
      if elsewhere then d₂ else srem (Keys.exchange_bindings q) (J.marshal_exchange e) d₂

  -- The transaction of `UnbindQueue`.
  unfoldable pub unbind_tx : Queue → Params → Text → Db → Result Error (Db → Db)
  unfolding still_bound
  unbind_tx q e route d = do
    _ ← validate_type R e true d
    if sismember (queues e.at route) (J.marshal_queue q) d
        then ok
            (unbind_writes q e route (scard (queues e.at route) d == 1) (still_bound q e route d))
        else err queue_not_bound

  -- `Del` of the queues of each route.
  unfoldable pub del_queues : Exchange → List Text → Db → Db
  del_queues e [] d = d
  del_queues e (r ∷ rs) d = del_queues e rs (del (queues e r) d)

  -- The keys that `Delete` watches.
  abbrev pub delete_watch_keys : Params → List Text → List Text
  delete_watch_keys e all_routes =
      Keys.exchange e.at
      ∷ index e.at
      ∷ Keys.all_exchanges
      ∷ Keys.namespace_exchanges e.at.ns
      ∷ map (queues e.at) all_routes

  -- The pipeline of `Delete`, over the routes that were read before it.
  unfoldable pub delete_writes : Params → List Text → Db → Db
  unfolding del_queues
  delete_writes e all_routes d = del_queues e.at all_routes (
      srem (Keys.namespace_exchanges e.at.ns) (J.marshal_exchange e) (
        srem Keys.all_exchanges (J.marshal_exchange e)
          (del (index e.at) (del (Keys.exchange_properties e.at) (del (Keys.exchange e.at) d)))))

  -- The transaction of `Delete`.
  unfoldable pub delete_tx : Params → List Text → Db → Result Error (Db → Db)
  delete_tx e all_routes d = do
    _ ← validate_type R e true d
    if any (λ r. ltb 0 (scard (queues e.at r) d)) all_routes
        then err has_bound_queues
        else ok (delete_writes e all_routes)

  -- The queues of one route, as `LoadSetMembers` and `DecodeParamsSlice` return them.
  unfoldable pub route_queues : Params → Text → Db → List Queue
  unfolding decode_queues
  route_queues e route d = decode_queues J (smembers (queues e.at route) d)

  -- `BoundQueues`
  unfoldable pub bound_queues : Params → Text → Db → Result Error (List Queue)
  unfolding validate_type route_queues
  bound_queues e route d = do _ ← validate_type R e true d; ok (route_queues e route d)

  -- `RoutingKeys`, `Patterns`
  unfoldable pub all_routes : Params → Db → Result Error (List Text)
  all_routes e d = do _ ← validate_type R e true d; ok (smembers (index e.at) d)

  -- `Bindings` after its type check: each route with its queues.
  unfoldable pub bindings_of : Params → List Text → Db → List (Text × List Queue)
  unfolding route_queues
  bindings_of e [] d = []
  bindings_of e (r ∷ rs) d = (r, route_queues e r d) ∷ bindings_of e rs d

  -- `Bindings`
  unfoldable pub bindings : Params → Db → Result Error (List (Text × List Queue))
  unfolding all_routes bindings_of
  bindings e d = do rs ← all_routes e d; ok (bindings_of e rs d)
