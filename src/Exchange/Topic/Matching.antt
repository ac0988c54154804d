-- ===== src/Exchange/Topic/Matching.antt =====
-- internal/exchange/topic.go: `MatchQueues`, the queues of the patterns that match a routing key.
use go_redis_smq.Prelude.{
  ◌≡◌, refl, sym, ◌∙◌, Bool, true, false, not, ◌&&◌, ◌||◌, List, [], ◌∷◌, ◌++◌, arith, any, ok,
  >>=-eq-ok, Bool-cases, inl, inr,
}
use go_redis_smq.Prelude.Text.{Text, text_eq, eq_of_text_eq, text_eq_comm}
use go_redis_smq.Keys
use go_redis_smq.Keys.{Queue}
use go_redis_smq.Redis.HashSets.{HashSets}
use go_redis_smq.Exchange.Params.{Params, Json}
use go_redis_smq.Exchange.Pattern.{match_topic_pattern}
use go_redis_smq.Exchange.Store.{validate_type}
use go_redis_smq.Exchange.Routed.{route_queues, topic_routes}
use go_redis_smq.Exchange.Topic.{
  seen_key, add_unseen, matched_patterns, collect_queues, match_queues,
}

-- A list of queues has one with this key.
abbrev pub has_seen : Text → List Queue → Bool
has_seen k = any (λ q. text_eq (seen_key q) k)

-- No two queues of the list have the same key.
abbrev pub distinct : List Queue → Bool
distinct [] = true
distinct (q ∷ qs) = not (has_seen (seen_key q) qs) && distinct qs

has_seen-append :
    (k : Text) (ps qs : List Queue) → has_seen k (ps ++ qs) ≡ (has_seen k ps || has_seen k qs)
has_seen-append k [] qs = refl
has_seen-append k (p ∷ ps) qs = ground (arith, has_seen-append k ps qs)

distinct-snoc :
    (ps : List Queue) (q : Queue)
    → distinct ps ≡ true
    → has_seen (seen_key q) ps ≡ false
    → distinct (ps ++ q ∷ []) ≡ true
distinct-snoc [] q h n = refl
distinct-snoc (p ∷ ps) q h n = ground (
  arith,
  distinct-snoc ps q,
  has_seen-append (seen_key p) ps (q ∷ []),
  text_eq_comm (seen_key p) (seen_key q),
)

add_unseen-has_seen :
    (k : Text) (acc qs : List Queue)
    → has_seen k (add_unseen acc qs) ≡ (has_seen k acc || has_seen k qs)
unfolding add_unseen
add_unseen-has_seen k acc [] = ground arith
add_unseen-has_seen k acc (q ∷ qs) = elim (Bool-cases (has_seen (seen_key q) acc)) [
  | inl seen ↦ rw seen (ground (arith, add_unseen-has_seen k acc qs, already seen))
  | inr new ↦
      rw new
        (ground (arith, add_unseen-has_seen k (acc ++ q ∷ []) qs, has_seen-append k acc (q ∷ [])))
]
  where
    already :
        has_seen (seen_key q) acc ≡ true → text_eq (seen_key q) k ≡ true → has_seen k acc ≡ true
    already seen e = rw (sym (eq_of_text_eq (seen_key q) k e)) seen

add_unseen-distinct :
    (acc qs : List Queue) → distinct acc ≡ true → distinct (add_unseen acc qs) ≡ true
unfolding add_unseen
add_unseen-distinct acc [] h = h
add_unseen-distinct acc (q ∷ qs) h = elim (Bool-cases (has_seen (seen_key q) acc)) [
  | inl seen ↦ rw seen (add_unseen-distinct acc qs h)
  | inr new ↦ rw new (add_unseen-distinct (acc ++ q ∷ []) qs (distinct-snoc acc q h new))
]

any-matched_patterns :
    (routing_key : Text) (f : Text → Bool) (ps : List Text)
    → any f (matched_patterns routing_key ps)
      ≡ any (λ p. match_topic_pattern routing_key p && f p) ps
unfolding matched_patterns
any-matched_patterns routing_key f [] = refl
any-matched_patterns routing_key f (p ∷ ps) = ground (arith, any-matched_patterns routing_key f ps)

module _ (R : HashSets) (J : Json) where
  open R use {Db, smembers}

  collect_queues-has_seen :
      (k : Text) (e : Params) (d : Db) (ps : List Text) (acc : List Queue)
      → has_seen k (collect_queues R J e d ps acc)
        ≡ (has_seen k acc || any (λ p. has_seen k (route_queues R J topic_routes e p d)) ps)
  unfolding collect_queues
  collect_queues-has_seen k e d [] acc = ground arith
  collect_queues-has_seen k e d (p ∷ ps) acc = ground (
    arith,
    collect_queues-has_seen k e d ps (add_unseen acc (route_queues R J topic_routes e p d)),
    add_unseen-has_seen k acc (route_queues R J topic_routes e p d),
  )

  collect_queues-distinct :
      (e : Params) (d : Db) (ps : List Text) (acc : List Queue)
      → distinct acc ≡ true
      → distinct (collect_queues R J e d ps acc) ≡ true
  unfolding collect_queues
  collect_queues-distinct e d [] acc h = h
  collect_queues-distinct e d (p ∷ ps) acc h =
      collect_queues-distinct e d ps _
        (add_unseen-distinct acc (route_queues R J topic_routes e p d) h)

  -- A `MatchQueues` that returns no error returns a queue with the key `k`, its namespace and name
  -- joined by a colon, exactly when one of the exchange's patterns that match the routing key has
  -- such a queue, and returns no two queues with one key, however many patterns match.
  pub match_queues-eq-ok :
      (e : Params) (routing_key : Text) (d : Db) (qs : List Queue)
      → match_queues R J e routing_key d ≡ ok qs
      → (distinct qs ≡ true)
        × ((k : Text)
            → has_seen k qs
              ≡ any
                  (λ p.
                    match_topic_pattern routing_key p
                    && has_seen k (route_queues R J topic_routes e p d))
                  (smembers (Keys.binding_patterns e.at) d))
  unfolding match_queues
  match_queues-eq-ok e routing_key d qs h =
      let (_, _, result) = >>=-eq-ok (validate_type R e true d) _ h in
      let found : qs
          ≡ collect_queues R J e d
              (matched_patterns routing_key (smembers (Keys.binding_patterns e.at) d)) [] =
        cc in
      rw found (
        collect_queues-distinct e d _ [] refl,
        λ k. collect_queues-has_seen k e d _ [] ∙ any-matched_patterns routing_key _ _,
      )
