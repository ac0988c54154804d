-- ===== src/Tests/Names.antt =====
-- Key names, keys, tokens, patterns and transactions at concrete inputs.
use go_redis_smq.Prelude.{
  List, ℕ, ◌+◌, ◌≡◌, refl, ◌↔◌, ◌⊎◌, true, false, none, some, [], ◌∷◌, map, All, Result, ok, err,
  ltb, if◌then◌else◌, arith,
}
use go_redis_smq.Prelude.Text.{Text, codes, text_eq}
use go_redis_smq.Keys.{validate_key, lower, IsName, validate_key-eq-some, split, key, sep}
use go_redis_smq.Keys.Injective.{split-key}
use go_redis_smq.Redis.Transaction.{
  committed, attempts, attempts_atomic, attempts_commits, last_attempt, Others, conflict, unnoticed,
  with_transaction,
}
use go_redis_smq.Exchange.Token.{
  is_joiner, validate_topic_pattern, PatternToken, validate_topic_pattern_iff,
}
use go_redis_smq.Exchange.Pattern.{match_topic_pattern, Matches, match_topic_pattern_iff}

-- Names are lowered; a digit does not start one.
orders_name : validate_key (λ c. c) (codes "Orders.v2") ≡ some (codes "orders.v2")
unfolding validate_key
orders_name = refl

digit_name : validate_key (λ c. c) (codes "2nd") ≡ none
unfolding validate_key
digit_name = refl

validate_key-eq-some_example :
    (validate_key (λ c. c) (codes "Orders.v2") ≡ some (codes "orders.v2"))
    ↔ ((codes "orders.v2" ≡ map (lower (λ c. c)) (codes "Orders.v2")) × IsName (codes "orders.v2"))
validate_key-eq-some_example = validate_key-eq-some (λ c. c) (codes "Orders.v2") (codes "orders.v2")

split-key_example :
    split sep (key (codes "ns" ∷ codes "shop" ∷ []))
    ≡ codes "redis-smq" ∷ codes "10" ∷ codes "ns" ∷ codes "shop" ∷ []
split-key_example = split-key (codes "ns" ∷ codes "shop" ∷ []) (refl, (refl, tt))

good_pattern : validate_topic_pattern (codes "order.*.new_v2.#") ≡ true
unfolding validate_topic_pattern is_joiner
good_pattern = refl

-- A joiner may not end a word.
bad_pattern : validate_topic_pattern (codes "order.new_") ≡ false
unfolding validate_topic_pattern is_joiner
bad_pattern = refl

validate_topic_pattern_iff_example :
    (validate_topic_pattern (codes "order.*.#") ≡ true)
    ↔ All PatternToken (split b'.' (codes "order.*.#"))
validate_topic_pattern_iff_example = validate_topic_pattern_iff (codes "order.*.#")

matched : match_topic_pattern (codes "order.eu.new.big") (codes "order.*.#.big") ≡ true
unfolding match_topic_pattern text_eq
matched = refl

unmatched : match_topic_pattern (codes "order") (codes "order.*.#") ≡ false
unfolding match_topic_pattern text_eq
unmatched = refl

match_topic_pattern_iff_example :
    (match_topic_pattern (codes "order.eu.new") (codes "order.#") ≡ true)
    ↔ Matches (split b'.' (codes "order.eu.new")) (split b'.' (codes "order.#"))
match_topic_pattern_iff_example = match_topic_pattern_iff (codes "order.eu.new") (codes "order.#")

-- Adding one, unless the number is large already.
abbrev bump : ℕ → Result Text (ℕ → ℕ)
bump n = if ltb n 100 then ok (λ m. m + 1) else err (codes "large")

abbrev two_others : List (Others ℕ)
two_others = conflict (λ n. n + 10) ∷ unnoticed (λ n. n + 20) ∷ []

bumped : with_transaction bump 5 two_others 1 ≡ (32, committed)
unfolding with_transaction
bumped = refl

attempts_atomic_example :
    ((attempts bump 5 two_others 1).1 ≡ committed)
      × ((write : ℕ → ℕ) × (bump (last_attempt bump 5 two_others 1).0 ≡ ok write)
          × ((attempts bump 5 two_others 1).0 ≡ write (last_attempt bump 5 two_others 1).1))
    ⊎ (((attempts bump 5 two_others 1).1 ≡ committed → ⊥)
        × ((attempts bump 5 two_others 1).0 ≡ (last_attempt bump 5 two_others 1).1))
attempts_atomic_example = attempts_atomic bump 5 two_others 1

abbrev double : ℕ → Result Text (ℕ → ℕ)
double n = ok (λ m. m + m)

attempts_commits_example : (attempts double 5 two_others 1).1 ≡ committed
attempts_commits_example =
    attempts_commits double 5 two_others 1 (omega arith) (λ c. (λ m. m + m, refl))
