-- ===== src/Exchange/Routed/Separate.antt =====
-- The keys of an exchange's routes do not collide with one another or with the other keys that the
-- operations of internal/exchange write.
use go_redis_smq.Prelude.{◌≡◌, refl, Bool, true, false, ◌&&◌, ap, ap₂, &&-true, sym, ◌∙◌, some_inj}
use go_redis_smq.Prelude.Text.{
  Text, codes, text_eq, text_eq_refl, eq_of_text_eq, text_eq_both, text_eq_three,
}
use go_redis_smq.Keys
use go_redis_smq.Keys.{Queue, Exchange, IsKey}
use go_redis_smq.Keys.Injective.{
  routing_key_queues-injective, pattern_queues-injective, exchange_key-injective,
  queue_key-injective,
}
use go_redis_smq.Keys.Kinds
use go_redis_smq.Exchange.Params.{IsQueue, IsExchange, Params, Json}
use go_redis_smq.Exchange.Routed.{Routes, direct_routes, topic_routes}

abbrev pub same_exchange : Exchange → Exchange → Bool
same_exchange e f = text_eq e.ns f.ns && text_eq e.name f.name

abbrev pub same_queue : Queue → Queue → Bool
same_queue q p = text_eq q.ns p.ns && text_eq q.name p.name

pub same_exchange_refl : (e : Exchange) → same_exchange e e ≡ true
same_exchange_refl e = simp text_eq_refl

pub same_queue_refl : (q : Queue) → same_queue q q ≡ true
same_queue_refl q = simp text_eq_refl

pub record IsSeparate (r : Routes) : Type 0 where
  pub queues_test :
      (e f : Exchange) (x y : Text)
      → IsExchange e
      → IsExchange f
      → text_eq (r.queues e x) (r.queues f y) ≡ (same_exchange e f && text_eq x y)
  pub index_test :
      (e f : Exchange)
      → IsExchange e
      → IsExchange f
      → text_eq (r.index e) (r.index f) ≡ same_exchange e f
  pub index-queues :
      (e f : Exchange) (y : Text)
      → IsExchange e
      → IsExchange f
      → text_eq (r.index e) (r.queues f y) ≡ false
  pub queues-index :
      (e f : Exchange) (x : Text)
      → IsExchange e
      → IsExchange f
      → text_eq (r.queues e x) (r.index f) ≡ false
  pub bindings-queues :
      (q : Queue) (f : Exchange) (y : Text)
      → IsQueue q
      → IsExchange f
      → text_eq (Keys.exchange_bindings q) (r.queues f y) ≡ false
  pub queues-bindings :
      (e : Exchange) (x : Text) (q : Queue)
      → IsExchange e
      → IsQueue q
      → text_eq (r.queues e x) (Keys.exchange_bindings q) ≡ false
  pub bindings-index :
      (q : Queue) (f : Exchange)
      → IsQueue q
      → IsExchange f
      → text_eq (Keys.exchange_bindings q) (r.index f) ≡ false
  pub index-bindings :
      (e : Exchange) (q : Queue)
      → IsExchange e
      → IsQueue q
      → text_eq (r.index e) (Keys.exchange_bindings q) ≡ false
  pub namespace-queues :
      (ns : Text) (f : Exchange) (y : Text)
      → IsKey ns
      → IsExchange f
      → text_eq (Keys.namespace_exchanges ns) (r.queues f y) ≡ false
  pub namespace-index :
      (ns : Text) (f : Exchange)
      → IsKey ns
      → IsExchange f
      → text_eq (Keys.namespace_exchanges ns) (r.index f) ≡ false
  pub all-queues :
      (f : Exchange) (y : Text) → IsExchange f → text_eq Keys.all_exchanges (r.queues f y) ≡ false
  pub all-index : (f : Exchange) → IsExchange f → text_eq Keys.all_exchanges (r.index f) ≡ false

pub namespace-bindings :
    (ns : Text) (q : Queue)
    → IsKey ns
    → IsQueue q
    → text_eq (Keys.namespace_exchanges ns) (Keys.exchange_bindings q) ≡ false
unfolding text_eq
namespace-bindings ns q h (hn, hq) =
    Kinds.text_eq-kind _ _ (Kinds.kind-namespace_exchanges ns h)
      (Kinds.kind-queue_key q (codes "bind") hn hq refl) refl

pub all-bindings :
    (q : Queue) → IsQueue q → text_eq Keys.all_exchanges (Keys.exchange_bindings q) ≡ false
unfolding text_eq
all-bindings q (hn, hq) =
    Kinds.text_eq-kind _ _ Kinds.kind-all_exchanges
      (Kinds.kind-queue_key q (codes "bind") hn hq refl) refl

pub bindings_test :
    (q p : Queue)
    → IsQueue q
    → IsQueue p
    → text_eq (Keys.exchange_bindings q) (Keys.exchange_bindings p) ≡ same_queue q p
bindings_test q p hq hp =
    text_eq_both _ _ q.ns p.ns q.name p.name
      (queue_key-injective q p (codes "bind") hq.0 hq.1 hp.0 hp.1)
      (λ a b. ap₂ (λ n m. Keys.exchange_bindings (record { ns = n; name = m })) a b)

-- The keys of the properties.
pub properties_test :
    (e f : Exchange)
    → IsExchange e
    → IsExchange f
    → text_eq (Keys.exchange_properties e) (Keys.exchange_properties f) ≡ same_exchange e f
properties_test e f he hf =
    text_eq_both _ _ e.ns f.ns e.name f.name
      (exchange_key-injective e f (codes "prop") he.0 he.1 hf.0 hf.1)
      (λ a b. ap₂ (λ n m. Keys.exchange_properties (record { ns = n; name = m })) a b)

pub same_exchange_sound : (e f : Exchange) → same_exchange e f ≡ true → e ≡ f
same_exchange_sound e f h =
    let (p, q) = &&-true h in
    ap₂ (λ n m. record { ns = n; name = m }) (eq_of_text_eq _ _ p) (eq_of_text_eq _ _ q)

pub same_queue_sound : (q p : Queue) → same_queue q p ≡ true → q ≡ p
same_queue_sound q p h =
    let (a, b) = &&-true h in
    ap₂ (λ n m. record { ns = n; name = m }) (eq_of_text_eq _ _ a) (eq_of_text_eq _ _ b)

-- What is written of a queue tells the queue.
pub marshal_queue_test :
    (W : Json) (q p : Queue) → text_eq (W.marshal_queue q) (W.marshal_queue p) ≡ same_queue q p
marshal_queue_test W q p =
    text_eq_both _ _ q.ns p.ns q.name p.name (λ e. (ap Queue.ns (same e), ap Queue.name (same e)))
      (λ a b. ap₂ (λ n m. W.marshal_queue (record { ns = n; name = m })) a b)
  where
    same : W.marshal_queue q ≡ W.marshal_queue p → q ≡ p
    same e =
        some_inj
          (sym (W.unmarshal-marshal_queue q) ∙ ap W.unmarshal_queue e ∙ W.unmarshal-marshal_queue p)

pub marshal_exchange-injective :
    (W : Json) (e f : Params) → W.marshal_exchange e ≡ W.marshal_exchange f → e ≡ f
marshal_exchange-injective W e f h = some_inj (
    sym (W.unmarshal-marshal_exchange e)
    ∙ ap W.unmarshal_exchange h
    ∙ W.unmarshal-marshal_exchange f)

bindings_kind : (q : Queue) → IsQueue q → Kinds.kind (Keys.exchange_bindings q) ≡ codes "q:bind"
bindings_kind q (hn, hq) = Kinds.kind-queue_key q (codes "bind") hn hq refl

-- The keys of a direct exchange.
pub direct-IsSeparate : IsSeparate direct_routes
unfolding text_eq
direct-IsSeparate = record {
  queues_test = λ e f x y he hf.
      text_eq_three _ _ e.ns f.ns e.name f.name x y
        (routing_key_queues-injective e f x y he.0 he.1 hf.0 hf.1)
        (λ a b c.
          ap₂ (λ n m. Keys.routing_key_queues (record { ns = n; name = m }) x) a b
          ∙ ap (Keys.routing_key_queues f) c);
  index_test = λ e f he hf.
      text_eq_both _ _ e.ns f.ns e.name f.name
        (exchange_key-injective e f (codes "rk") he.0 he.1 hf.0 hf.1)
        (λ a b. ap₂ (λ n m. Keys.routing_keys (record { ns = n; name = m })) a b);
  index-queues = λ e f y he hf. Kinds.text_eq-kind _ _ (index_kind e he) (queues_kind f y hf) refl;
  queues-index = λ e f x he hf. Kinds.text_eq-kind _ _ (queues_kind e x he) (index_kind f hf) refl;
  bindings-queues =
      λ q f y hq hf. Kinds.text_eq-kind _ _ (bindings_kind q hq) (queues_kind f y hf) refl;
  queues-bindings =
      λ e x q he hq. Kinds.text_eq-kind _ _ (queues_kind e x he) (bindings_kind q hq) refl;
  bindings-index = λ q f hq hf. Kinds.text_eq-kind _ _ (bindings_kind q hq) (index_kind f hf) refl;
  index-bindings = λ e q he hq. Kinds.text_eq-kind _ _ (index_kind e he) (bindings_kind q hq) refl;
  namespace-queues = λ ns f y hn hf.
      Kinds.text_eq-kind _ _ (Kinds.kind-namespace_exchanges ns hn) (queues_kind f y hf) refl;
  namespace-index = λ ns f hn hf.
      Kinds.text_eq-kind _ _ (Kinds.kind-namespace_exchanges ns hn) (index_kind f hf) refl;
  all-queues = λ f y hf. Kinds.text_eq-kind _ _ Kinds.kind-all_exchanges (queues_kind f y hf) refl;
  all-index = λ f hf. Kinds.text_eq-kind _ _ Kinds.kind-all_exchanges (index_kind f hf) refl;
}
  where
    index_kind : (e : Exchange) → IsExchange e → Kinds.kind (Keys.routing_keys e) ≡ codes "exs:rk"
    index_kind e (hn, he) = Kinds.kind-exchange_key e (codes "rk") hn he refl

    queues_kind :
        (e : Exchange) (x : Text)
        → IsExchange e
        → Kinds.kind (Keys.routing_key_queues e x) ≡ codes "exs:rk+"
    queues_kind e x (hn, he) = Kinds.kind-routing_key_queues e x hn he

-- The keys of a topic exchange.
pub topic-IsSeparate : IsSeparate topic_routes
unfolding text_eq
topic-IsSeparate = record {
  queues_test = λ e f x y he hf.
      text_eq_three _ _ e.ns f.ns e.name f.name x y
        (pattern_queues-injective e f x y he.0 he.1 hf.0 hf.1)
        (λ a b c.
          ap₂ (λ n m. Keys.pattern_queues (record { ns = n; name = m }) x) a b
          ∙ ap (Keys.pattern_queues f) c);
  index_test = λ e f he hf.
      text_eq_both _ _ e.ns f.ns e.name f.name
        (exchange_key-injective e f (codes "pat") he.0 he.1 hf.0 hf.1)
        (λ a b. ap₂ (λ n m. Keys.binding_patterns (record { ns = n; name = m })) a b);
  index-queues = λ e f y he hf. Kinds.text_eq-kind _ _ (index_kind e he) (queues_kind f y hf) refl;
  queues-index = λ e f x he hf. Kinds.text_eq-kind _ _ (queues_kind e x he) (index_kind f hf) refl;
  bindings-queues =
      λ q f y hq hf. Kinds.text_eq-kind _ _ (bindings_kind q hq) (queues_kind f y hf) refl;
  queues-bindings =
      λ e x q he hq. Kinds.text_eq-kind _ _ (queues_kind e x he) (bindings_kind q hq) refl;
  bindings-index = λ q f hq hf. Kinds.text_eq-kind _ _ (bindings_kind q hq) (index_kind f hf) refl;
  index-bindings = λ e q he hq. Kinds.text_eq-kind _ _ (index_kind e he) (bindings_kind q hq) refl;
  namespace-queues = λ ns f y hn hf.
      Kinds.text_eq-kind _ _ (Kinds.kind-namespace_exchanges ns hn) (queues_kind f y hf) refl;
  namespace-index = λ ns f hn hf.
      Kinds.text_eq-kind _ _ (Kinds.kind-namespace_exchanges ns hn) (index_kind f hf) refl;
  all-queues = λ f y hf. Kinds.text_eq-kind _ _ Kinds.kind-all_exchanges (queues_kind f y hf) refl;
  all-index = λ f hf. Kinds.text_eq-kind _ _ Kinds.kind-all_exchanges (index_kind f hf) refl;
}
  where
    index_kind :
        (e : Exchange) → IsExchange e → Kinds.kind (Keys.binding_patterns e) ≡ codes "exs:pat"
    index_kind e (hn, he) = Kinds.kind-exchange_key e (codes "pat") hn he refl

    queues_kind :
        (e : Exchange) (x : Text)
        → IsExchange e
        → Kinds.kind (Keys.pattern_queues e x) ≡ codes "exs:pat+"
    queues_kind e x (hn, he) = Kinds.kind-pattern_queues e x hn he
