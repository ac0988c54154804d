-- ===== src/Exchange/Topic.antt =====
-- internal/exchange/topic.go: `TopicStore`. `others` and `between` are as for a direct exchange.
pub mod Laws
pub mod Invariant
pub mod Matching
use go_redis_smq.Prelude.{
  ℕ, ◌≡◌, Bool, true, not, List, [], ◌∷◌, ◌++◌, ◌==◌, if◌then◌else◌, any, Result, ok, err, ◌>>=◌,
}
use go_redis_smq.Prelude.Text.{Text, text_eq}
use go_redis_smq.Keys
use go_redis_smq.Keys.{Queue, sep}
use go_redis_smq.Redis.HashSets.{HashSets}
use go_redis_smq.Redis.Transaction.{Others, Outcome, refused, with_transaction}
use go_redis_smq.Exchange.Params.{
  Params, Error, namespace_mismatch, type_mismatch, invalid_pattern, type_topic, Json,
}
use go_redis_smq.Exchange.Store.{save, validate_type}
use go_redis_smq.Exchange.Token.{validate_topic_pattern}
use go_redis_smq.Exchange.Pattern.{match_topic_pattern}
use go_redis_smq.Exchange.Routed
use go_redis_smq.Exchange.Routed.{topic_routes, bind_tx, unbind_tx, delete_tx}

-- The key of the map `seen`.
abbrev pub seen_key : Queue → Text
seen_key q = q.ns ++ sep ∷ q.name

-- The inner loop of `MatchQueues`: the queues of one pattern that were not seen yet.
unfoldable pub add_unseen : List Queue → List Queue → List Queue
unfolding text_eq
add_unseen acc [] = acc
add_unseen acc (q ∷ qs) =
    add_unseen (if any (λ p. text_eq (seen_key p) (seen_key q)) acc then acc else acc ++ q ∷ []) qs

-- `matchedPatterns`
unfoldable pub matched_patterns : Text → List Text → List Text
unfolding match_topic_pattern
matched_patterns routing_key [] = []
matched_patterns routing_key (p ∷ ps) =
    let rest = matched_patterns routing_key ps in
    if match_topic_pattern routing_key p then p ∷ rest else rest

module _ (R : HashSets) (J : Json) where
  open R use {Db, smembers}

  unfoldable pub create : Params → ℕ → List (Others Db) → Db → Db × Outcome Error
  unfolding with_transaction
  create e policy others d =
      if e.typ == type_topic
      then with_transaction (save R J e policy) 3 others d
      else (d, refused type_mismatch)

  unfoldable pub bind_queue : Queue → Params → Text → List (Others Db) → Db → Db × Outcome Error
  unfolding with_transaction
  bind_queue q e pattern_text others d =
      if text_eq q.ns e.at.ns
      then (if validate_topic_pattern pattern_text
          then with_transaction (bind_tx R J topic_routes q e pattern_text) 5 others d
          else (d, refused invalid_pattern))
      else (d, refused namespace_mismatch)

  unfoldable pub unbind_queue : Queue → Params → Text → List (Others Db) → Db → Db × Outcome Error
  unfolding with_transaction
  unbind_queue q e pattern_text others d =
      if text_eq q.ns e.at.ns
      then (if validate_topic_pattern pattern_text
          then with_transaction (unbind_tx R J topic_routes q e pattern_text) 5 others d
          else (d, refused invalid_pattern))
      else (d, refused namespace_mismatch)

  -- The outer loop of `MatchQueues`.
  unfoldable pub collect_queues : Params → Db → List Text → List Queue → List Queue
  unfolding add_unseen Routed.route_queues
  collect_queues e d [] acc = acc
  collect_queues e d (p ∷ ps) acc =
      collect_queues e d ps (add_unseen acc (Routed.route_queues R J topic_routes e p d))

  unfoldable pub match_queues : Params → Text → Db → Result Error (List Queue)
  match_queues e routing_key d = do
    _ ← validate_type R e true d
    ok (
        collect_queues e d (matched_patterns routing_key (smembers (Keys.binding_patterns e.at) d))
          [])

  unfoldable pub patterns : Params → Db → Result Error (List Text)
  unfolding Routed.all_routes
  patterns e d = Routed.all_routes R J topic_routes e d

  unfoldable pub bound_queues : Params → Text → Db → Result Error (List Queue)
  unfolding Routed.bound_queues
  bound_queues e pattern_text d = Routed.bound_queues R J topic_routes e pattern_text d

  unfoldable pub bindings : Params → Db → Result Error (List (Text × List Queue))
  unfolding Routed.bindings
  bindings e d = Routed.bindings R J topic_routes e d

  -- `Delete` reads the patterns with no check of the type.
  unfoldable pub delete : Params → (Db → Db) → List (Others Db) → Db → Db × Outcome Error
  unfolding with_transaction
  delete e between others d =
      with_transaction (delete_tx R J topic_routes e (smembers (Keys.binding_patterns e.at) d)) 5
        others (between d)
