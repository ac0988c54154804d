-- ===== src/Keys/Injective.antt =====
-- No two of the keys collide: a key gives back the parts that it was built from.
use go_redis_smq.Prelude.{List, [], ◌∷◌, ◌++◌, ◌≡◌, ap, All, drop, refl, append-nil, ◌∙◌, sym}
use mathlib.Core.List.{append_cancel_right}
use go_redis_smq.Prelude.Text.{Text, codes}
use go_redis_smq.Keys.{
  Lacks, split, split-append, split_unbroken, sep, key, join_parts, peel, IsKey, IsKey-Lacks,
  Exchange, routing_key_queues, pattern_queues, exchange_key, queue_key, Queue,
}

-- A key splits into its parts.
split-join_parts :
    (p : Text) (ps : List Text)
    → Lacks sep p
    → All (Lacks sep) ps
    → split sep (p ++ join_parts ps) ≡ p ∷ ps
unfolding join_parts
split-join_parts p [] h hs = rw append-nil (split_unbroken sep p h)
split-join_parts p (q ∷ ps) h hs =
    split-append sep p (q ++ join_parts ps) h ∙ ap (λ t. p ∷ t) (split-join_parts q ps hs.0 hs.1)

-- Splitting a key at the separators gives back the two parts of the prefix and the parts that the
-- key was built from, if none of them holds a separator.
pub split-key :
    (ps : List Text) → All (Lacks sep) ps → split sep (key ps) ≡ codes "redis-smq" ∷ codes "10" ∷ ps
unfolding key join_parts
split-key ps h = split-join_parts (codes "redis-smq") (codes "10" ∷ ps) refl (refl, h)

-- Two keys built from parts without separators are equal only if their parts are.
pub key-injective :
    (ps qs : List Text) → All (Lacks sep) ps → All (Lacks sep) qs → key ps ≡ key qs → ps ≡ qs
key-injective ps qs hp hq e =
    ap (drop 2) (sym (split-key ps hp) ∙ ap (split sep) e ∙ split-key qs hq)

-- A routing key may be any text, colons included: two exchanges with key names keep the queues of
-- two routing keys under one Redis key only if they are the same exchange and the same routing key.
pub routing_key_queues-injective :
    (e f : Exchange) (rk sk : Text)
    → IsKey e.ns
    → IsKey e.name
    → IsKey f.ns
    → IsKey f.name
    → routing_key_queues e rk ≡ routing_key_queues f sk
    → (e.ns ≡ f.ns) × (e.name ≡ f.name) × (rk ≡ sk)
unfolding key join_parts
routing_key_queues-injective e f rk sk ens ename fns fname h =
    let (same_ns, h₁) =
      peel sep e.ns f.ns (IsKey-Lacks _ ens) (IsKey-Lacks _ fns) (ap (drop 16) h) in
    let (same_name, h₂) =
      peel sep e.name f.name (IsKey-Lacks _ ename) (IsKey-Lacks _ fname) (ap (drop 4) h₁) in
    (same_ns, same_name, append_cancel_right rk sk (codes ":q") (ap (drop 3) h₂))

-- The same of the queues of a binding pattern.
pub pattern_queues-injective :
    (e f : Exchange) (p q : Text)
    → IsKey e.ns
    → IsKey e.name
    → IsKey f.ns
    → IsKey f.name
    → pattern_queues e p ≡ pattern_queues f q
    → (e.ns ≡ f.ns) × (e.name ≡ f.name) × (p ≡ q)
unfolding key join_parts
pattern_queues-injective e f p q ens ename fns fname h =
    let (same_ns, h₁) =
      peel sep e.ns f.ns (IsKey-Lacks _ ens) (IsKey-Lacks _ fns) (ap (drop 16) h) in
    let (same_name, h₂) =
      peel sep e.name f.name (IsKey-Lacks _ ename) (IsKey-Lacks _ fname) (ap (drop 4) h₁) in
    (same_ns, same_name, append_cancel_right p q (codes ":q") (ap (drop 4) h₂))

pub exchange_key-injective :
    (e f : Exchange) (field : Text)
    → IsKey e.ns
    → IsKey e.name
    → IsKey f.ns
    → IsKey f.name
    → exchange_key e field ≡ exchange_key f field
    → (e.ns ≡ f.ns) × (e.name ≡ f.name)
unfolding key join_parts
exchange_key-injective e f field ens ename fns fname h =
    let (same_ns, h₁) =
      peel sep e.ns f.ns (IsKey-Lacks _ ens) (IsKey-Lacks _ fns) (ap (drop 16) h) in
    let (same_name, _) =
      peel sep e.name f.name (IsKey-Lacks _ ename) (IsKey-Lacks _ fname) (ap (drop 4) h₁) in
    (same_ns, same_name)

pub queue_key-injective :
    (q p : Queue) (field : Text)
    → IsKey q.ns
    → IsKey q.name
    → IsKey p.ns
    → IsKey p.name
    → queue_key q field ≡ queue_key p field
    → (q.ns ≡ p.ns) × (q.name ≡ p.name)
unfolding key join_parts
queue_key-injective q p field qns qname pns pname h =
    let (same_ns, h₁) =
      peel sep q.ns p.ns (IsKey-Lacks _ qns) (IsKey-Lacks _ pns) (ap (drop 16) h) in
    let (same_name, _) =
      peel sep q.name p.name (IsKey-Lacks _ qname) (IsKey-Lacks _ pname) (ap (drop 2) h₁) in
    (same_ns, same_name)
