-- ===== src/Keys/Kinds.antt =====
-- Keys of different kinds differ: a key tells from its parts what it is for.
use go_redis_smq.Prelude.{
  List, [], ◌∷◌, ◌++◌, ◌≡◌, refl, ap, sym, ◌∙◌, All, false, ◌≢◌, ◌==◌, ℕ, arith, Bool-cases, inl,
  inr,
}
use go_redis_smq.Prelude.Text.{Text, codes, text_eq, text_eq_ne, text_eq_refl}
use go_redis_smq.Keys.{
  Lacks, split, split-append, sep, key, join_parts, Exchange, Queue, IsKey, IsKey-Lacks, queue_key,
  exchange_key, exchange, routing_key_queues, pattern_queues, namespace_exchanges, all_exchanges,
  ns_part, q_part, exs_part, main_part, cons_head,
}
use go_redis_smq.Keys.Injective.{split-key}

-- Parts without separators are read off; what follows them is split further.
split-join_parts_open :
    (p : Text) (ps : List Text) (x : Text) (xs : List Text)
    → Lacks sep p
    → All (Lacks sep) ps
    → split sep (p ++ join_parts (ps ++ x ∷ xs)) ≡ (p ∷ ps) ++ split sep (x ++ join_parts xs)
unfolding join_parts
split-join_parts_open p [] x xs h hs = split-append sep p (x ++ join_parts xs) h
split-join_parts_open p (q ∷ ps) x xs h hs =
    split-append sep p (q ++ join_parts (ps ++ x ∷ xs)) h
    ∙ ap (λ t. p ∷ t) (split-join_parts_open q ps x xs hs.0 hs.1)

-- The second and the fourth part behind the prefix, and whether more follow.
more_parts : List Text → Text
more_parts [] = []
more_parts (p ∷ ps) = codes "+"

signature : List Text → Text
unfolding more_parts
signature (a ∷ b ∷ c ∷ d ∷ e ∷ f ∷ g ∷ rest) = e ++ sep ∷ (g ++ more_parts rest)
signature (a ∷ b ∷ c ∷ d ∷ e ∷ []) = codes "namespace"
signature _ = codes "other"

pub kind : Text → Text
kind k = signature (split sep k)

-- Keys of two kinds are not equal.
pub text_eq-kind :
    (j k : Text) {a b : Text} → kind j ≡ a → kind k ≡ b → text_eq a b ≡ false → text_eq j k ≡ false
text_eq-kind j k {a} {b} p q h = text_eq_ne j k (λ e. ne_of_test (sym p ∙ ap kind e ∙ q))
  where
    ne_of_test : a ≢ b
    ne_of_test e = ground (arith, text_eq_refl b)

pub kind-queue_key :
    (q : Queue) (field : Text)
    → IsKey q.ns
    → IsKey q.name
    → Lacks sep field
    → kind (queue_key q field) ≡ q_part ++ sep ∷ (field ++ [])
unfolding kind signature
kind-queue_key q field hn hq hf = ap signature (
    split-key (ns_part ∷ q.ns ∷ q_part ∷ q.name ∷ field ∷ [])
      (refl, (IsKey-Lacks _ hn, (refl, (IsKey-Lacks _ hq, (hf, tt))))))

pub kind-exchange_key :
    (e : Exchange) (field : Text)
    → IsKey e.ns
    → IsKey e.name
    → Lacks sep field
    → kind (exchange_key e field) ≡ exs_part ++ sep ∷ (field ++ [])
unfolding kind signature
kind-exchange_key e field hn he hf = ap signature (
    split-key (ns_part ∷ e.ns ∷ exs_part ∷ e.name ∷ field ∷ [])
      (refl, (IsKey-Lacks _ hn, (refl, (IsKey-Lacks _ he, (hf, tt))))))

split-ne-nil : (s : Text) → more_parts (split sep s) ≡ codes "+"
unfolding split more_parts
split-ne-nil [] = refl
split-ne-nil (x ∷ xs) = elim (Bool-cases (x == sep)) [
  | inl e ↦ rw e
  | inr e ↦ rw e (head_kept x (split sep xs))
]
  where
    head_kept : (y : ℕ) (ps : List Text) → more_parts (cons_head y ps) ≡ codes "+"
    head_kept y [] = refl
    head_kept y (p ∷ ps) = refl

-- The queues of one routing key or pattern: any text may stand in that part.
kind-open :
    (e : Exchange) (field x : Text)
    → IsKey e.ns
    → IsKey e.name
    → Lacks sep field
    → kind (key (ns_part ∷ e.ns ∷ exs_part ∷ e.name ∷ field ∷ x ∷ q_part ∷ []))
      ≡ exs_part ++ sep ∷ (field ++ codes "+")
unfolding kind signature key join_parts
kind-open e field x hn he hf =
    ap signature (
      split-join_parts_open (codes "redis-smq")
        (codes "10" ∷ ns_part ∷ e.ns ∷ exs_part ∷ e.name ∷ field ∷ []) x (q_part ∷ []) refl
        (refl, (refl, (IsKey-Lacks _ hn, (refl, (IsKey-Lacks _ he, (hf, tt)))))))
    ∙ ap (λ t. exs_part ++ sep ∷ (field ++ t)) (split-ne-nil (x ++ join_parts (q_part ∷ [])))

pub kind-routing_key_queues :
    (e : Exchange) (rk : Text)
    → IsKey e.ns
    → IsKey e.name
    → kind (routing_key_queues e rk) ≡ codes "exs:rk+"
kind-routing_key_queues e rk hn he = kind-open e (codes "rk") rk hn he refl

pub kind-pattern_queues :
    (e : Exchange) (p : Text)
    → IsKey e.ns
    → IsKey e.name
    → kind (pattern_queues e p) ≡ codes "exs:pat+"
kind-pattern_queues e p hn he = kind-open e (codes "pat") p hn he refl

pub kind-namespace_exchanges :
    (ns : Text) → IsKey ns → kind (namespace_exchanges ns) ≡ codes "namespace"
unfolding kind signature
kind-namespace_exchanges ns h =
    ap signature (split-key (ns_part ∷ ns ∷ exs_part ∷ []) (refl, (IsKey-Lacks _ h, (refl, tt))))

pub kind-all_exchanges : kind all_exchanges ≡ codes "other"
unfolding kind signature
kind-all_exchanges = ap signature (split-key (main_part ∷ exs_part ∷ []) (refl, (refl, tt)))

pub kind-exchange : (e : Exchange) → IsKey e.ns → IsKey e.name → kind (exchange e) ≡ codes "other"
unfolding kind signature
kind-exchange e hn he = ap signature (
    split-key (ns_part ∷ e.ns ∷ exs_part ∷ e.name ∷ [])
      (refl, (IsKey-Lacks _ hn, (refl, (IsKey-Lacks _ he, tt)))))
