-- ===== src/Exchange/Direct.antt =====
-- internal/exchange/direct.go: `DirectStore`. `others` are the writes of other clients during the
-- attempts of the transaction, `between` those that come between the read of the routing keys
-- and the transaction of `Delete`.
pub mod Laws
pub mod Invariant
pub mod Race
pub mod Deleted
use go_redis_smq.Prelude.{
  ℕ, ◌≡◌, Bool, true, not, List, [], ◌∷◌, ◌==◌, if◌then◌else◌, Result, ok, err, ◌>>=◌,
}
use go_redis_smq.Prelude.Text.{Text, text_eq}
use go_redis_smq.Keys.{Queue}
use go_redis_smq.Redis.HashSets.{HashSets}
use go_redis_smq.Redis.Transaction.{Others, Outcome, refused, with_transaction}
use go_redis_smq.Exchange.Params.{
  Params, Error, namespace_mismatch, type_mismatch, type_direct, Json,
}
use go_redis_smq.Exchange.Store.{save, validate_type}
use go_redis_smq.Exchange.Routed
use go_redis_smq.Exchange.Routed.{direct_routes, bind_tx, unbind_tx, delete_tx}

module _ (R : HashSets) (J : Json) where
  open R use {Db}

  unfoldable pub create : Params → ℕ → List (Others Db) → Db → Db × Outcome Error
  unfolding with_transaction
  create e policy others d =
      if e.typ == type_direct
      then with_transaction (save R J e policy) 3 others d
      else (d, refused type_mismatch)

  unfoldable pub bind_queue : Queue → Params → Text → List (Others Db) → Db → Db × Outcome Error
  unfolding with_transaction
  bind_queue q e routing_key others d =
      if text_eq q.ns e.at.ns
      then with_transaction (bind_tx R J direct_routes q e routing_key) 5 others d
      else (d, refused namespace_mismatch)

  unfoldable pub unbind_queue : Queue → Params → Text → List (Others Db) → Db → Db × Outcome Error
  unfolding with_transaction
  unbind_queue q e routing_key others d =
      if text_eq q.ns e.at.ns
      then with_transaction (unbind_tx R J direct_routes q e routing_key) 5 others d
      else (d, refused namespace_mismatch)

  unfoldable pub routing_keys : Params → Db → Result Error (List Text)
  unfolding Routed.all_routes
  routing_keys e d = Routed.all_routes R J direct_routes e d

  unfoldable pub bound_queues : Params → Text → Db → Result Error (List Queue)
  unfolding Routed.bound_queues
  bound_queues e routing_key d = Routed.bound_queues R J direct_routes e routing_key d

  unfoldable pub match_queues : Params → Text → Db → Result Error (List Queue)
  unfolding bound_queues
  match_queues e routing_key d = do _ ← validate_type R e true d; bound_queues e routing_key d

  unfoldable pub bindings : Params → Db → Result Error (List (Text × List Queue))
  unfolding Routed.bindings
  bindings e d = Routed.bindings R J direct_routes e d

  unfoldable pub delete : Params → (Db → Db) → List (Others Db) → Db → Db × Outcome Error
  unfolding with_transaction
  delete e between others d = elim (routing_keys e d) [
    | err x ↦ (d, refused x)
    | ok keys ↦ with_transaction (delete_tx R J direct_routes e keys) 5 others (between d)
  ]
