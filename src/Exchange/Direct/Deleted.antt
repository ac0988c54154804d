-- ===== src/Exchange/Direct/Deleted.antt =====
-- internal/exchange/direct.go: `Delete`.
use go_redis_smq.Prelude.{
  ◌≡◌, refl, sym, ap, ◌∙◌, Bool, true, false, ◌&&◌, none, List, [], ◌∷◌, All, arith, if◌then◌else◌,
  any, map, ok, Bool-cases, inl, inr, >>=-eq-ok, ltb, length, if_same, subst,
}
use go_redis_smq.Prelude.Text.{Text, codes, text_eq, text_eq_refl, eq_of_text_eq}
use go_redis_smq.Keys
use go_redis_smq.Keys.{Queue, Exchange}
use go_redis_smq.Keys.Kinds
use go_redis_smq.Redis.HashSets.{HashSets}
use go_redis_smq.Redis.Transaction.{
  Others, Respect, committed, written, with_transaction, with_transaction-committed,
}
use go_redis_smq.Exchange.Params.{Params, Json, IsExchange, type_field}
use go_redis_smq.Exchange.Store.{validate_type}
use go_redis_smq.Exchange.Routed.{
  direct_routes, del_queues, delete_writes, delete_tx, delete_watch_keys,
}
use go_redis_smq.Exchange.Routed.Separate.{direct-IsSeparate, same_exchange}
use go_redis_smq.Exchange.Routed.Watched.{Unchanged, Unchanged-refl}
use go_redis_smq.Exchange.Routed.Writes.{bound}
use go_redis_smq.Exchange.Direct.{delete, routing_keys}

properties-queues :
    (e f : Exchange) (y : Text)
    → IsExchange e
    → IsExchange f
    → text_eq (Keys.exchange_properties e) (Keys.routing_key_queues f y) ≡ false
unfolding text_eq
properties-queues e f y he hf =
    Kinds.text_eq-kind _ _ (Kinds.kind-exchange_key e (codes "prop") he.0 he.1 refl)
      (Kinds.kind-routing_key_queues f y hf.0 hf.1) refl

exchange-queues :
    (e f : Exchange) (y : Text)
    → IsExchange e
    → IsExchange f
    → text_eq (Keys.exchange e) (Keys.routing_key_queues f y) ≡ false
unfolding text_eq
exchange-queues e f y he hf =
    Kinds.text_eq-kind _ _ (Kinds.kind-exchange e he.0 he.1)
      (Kinds.kind-routing_key_queues f y hf.0 hf.1) refl

module _ (R : HashSets) (W : Json) where
  open R use {
    Db, hget, sismember, smembers, scard, sismember-del, sismember-srem, hget-del, hget-srem,
    any-smembers, scard-smembers,
  }

  abbrev pub has_binding : Exchange → Text → Queue → Db → Bool
  has_binding f y p d = bound R W direct_routes direct-IsSeparate f y p d

  sismember-del_queues :
      (e : Exchange) (rs : List Text) (j n : Text) (d : Db)
      → sismember j n (del_queues R W direct_routes e rs d)
        ≡ (if any (λ r. text_eq (Keys.routing_key_queues e r) j) rs then false else sismember j n d)
  unfolding del_queues
  sismember-del_queues e [] j n d = refl
  sismember-del_queues e (r ∷ rs) j n d = ground (
    arith,
    sismember-del_queues e rs j n (R.del (Keys.routing_key_queues e r) d),
    sismember-del j n (Keys.routing_key_queues e r) d,
  )

  hget-del_queues :
      (e : Exchange) (rs : List Text) (j g : Text) (d : Db)
      → hget j g d ≡ none
      → hget j g (del_queues R W direct_routes e rs d) ≡ none
  unfolding del_queues
  hget-del_queues e [] j g d h = h
  hget-del_queues e (r ∷ rs) j g d h =
      hget-del_queues e rs j g _ (hget-del j g (Keys.routing_key_queues e r) d ∙ ground (arith, h))

  any-queues_key :
      (e f : Exchange) (y : Text) (rs : List Text)
      → IsExchange e
      → IsExchange f
      → any (λ r. text_eq (Keys.routing_key_queues e r) (Keys.routing_key_queues f y)) rs
        ≡ (same_exchange e f && any (λ r. text_eq r y) rs)
  any-queues_key e f y [] he hf = ground arith
  any-queues_key e f y (r ∷ rs) he hf =
      ground (arith, any-queues_key e f y rs he hf, direct-IsSeparate.queues_test e f r y he hf)

  -- What a `Delete` did that had read the routing keys `rks`.
  pub record Deleted (e : Params) (rks : List Text) (met after : Db) : Type 0 where
    pub unbound :
        (y : Text) (p : Queue)
        → any (λ r. text_eq r y) rks ≡ true
        → has_binding e.at y p met ≡ false
    pub no_type : hget (Keys.exchange_properties e.at) type_field after ≡ none
    pub no_keys : (y : Text) → sismember (Keys.routing_keys e.at) y after ≡ false
    pub bindings :
        (f : Exchange) (y : Text) (p : Queue)
        → IsExchange f
        → has_binding f y p after ≡ (
            if same_exchange e.at f && any (λ r. text_eq r y) rks
            then false
            else has_binding f y p met)

  delete_writes-bindings :
      (e : Params) (rks : List Text) (f : Exchange) (y : Text) (p : Queue) (d : Db)
      → IsExchange e.at
      → IsExchange f
      → has_binding f y p (delete_writes R W direct_routes e rks d) ≡ (
          if same_exchange e.at f && any (λ r. text_eq r y) rks then false else has_binding f y p d)
  unfolding delete_writes
  delete_writes-bindings e rks f y p d he hf = simp (
    sismember-del_queues,
    any-queues_key e.at f y rks he hf,
    sismember-srem,
    sismember-del,
    direct-IsSeparate.namespace-queues e.at.ns f y he.0 hf,
    direct-IsSeparate.all-queues f y hf,
    direct-IsSeparate.index-queues e.at f y he hf,
    properties-queues e.at f y he hf,
    exchange-queues e.at f y he hf,
  )

  empty_set : (xs : List Text) (m : Text) → length xs ≡ 0 → any (text_eq m) xs ≡ false
  empty_set [] m h = refl
  empty_set (x ∷ xs) m h = absurd (omega (arith, h))

  no_member : (k m : Text) (d : Db) → ltb 0 (scard k d) ≡ false → sismember k m d ≡ false
  no_member k m d h =
      sym (any-smembers k m d)
      ∙ empty_set (smembers k d) m (sym (scard-smembers k d) ∙ ground (arith, h))

  -- A routing key that was read has no queue, and its set is watched.
  unbound_route :
      (e : Exchange) (y : Text) (p : Queue) (rks : List Text) (seen met : Db)
      → any (λ r. ltb 0 (scard (Keys.routing_key_queues e r) seen)) rks ≡ false
      → Unchanged R (map (Keys.routing_key_queues e) rks) seen met
      → any (λ r. text_eq r y) rks ≡ true
      → has_binding e y p met ≡ false
  unbound_route e y p [] seen met none_bound kept h = cc
  unbound_route e y p (r ∷ rs) seen met none_bound (here, kept) h =
      elim (Bool-cases (text_eq r y)) [
        | inl same ↦
            subst (λ t. has_binding e t p met ≡ false) (eq_of_text_eq r y same)
              (here.members _ ∙ no_member _ _ seen (ground (arith, none_bound)))
        | inr other ↦
            unbound_route e y p rs seen met (ground (arith, none_bound)) kept
              (ground (arith, h, other))
      ]

  delete_tx-eq-ok :
      (e : Params) (rks : List Text) (seen : Db) (write : Db → Db)
      → delete_tx R W direct_routes e rks seen ≡ ok write
      → (any (λ r. ltb 0 (scard (Keys.routing_key_queues e.at r) seen)) rks ≡ false)
        × (write ≡ delete_writes R W direct_routes e rks)
  unfolding delete_tx
  delete_tx-eq-ok e rks seen write h =
      let (_, _, rest) = >>=-eq-ok (validate_type R e true seen) _ h in (ground arith, ground arith)

  delete_writes-Deleted :
      (e : Params) (rks : List Text) (seen met : Db)
      → IsExchange e.at
      → any (λ r. ltb 0 (scard (Keys.routing_key_queues e.at r) seen)) rks ≡ false
      → Unchanged R (delete_watch_keys R W direct_routes e rks) seen met
      → Deleted e rks met (delete_writes R W direct_routes e rks met)
  unfolding delete_writes
  delete_writes-Deleted e rks seen met he none_bound (_, (_, (_, (_, kept)))) = record {
    unbound = λ y p h. unbound_route e.at y p rks seen met none_bound kept h;
    no_type = hget-del_queues e.at rks _ _ _ (simp (hget-srem, hget-del, text_eq_refl, if_same));
    no_keys = λ y.
        sismember-del_queues e.at rks _ _ _
        ∙ simp (sismember-srem, sismember-del, text_eq_refl, if_same);
    bindings = λ f y p hf. delete_writes-bindings e rks f y p met he hf;
  }

  -- A `Delete` that returns nil had read the exchange's routing keys, and none of these had a queue
  -- when its EXEC ran, for an exchange with valid names, and where the writes of other clients that
  -- EXEC lets pass leave the watched keys as they are. The exchange is left with no type and no
  -- routing key in its index, and the bindings to these routing keys are removed, and no others. A
  -- binding to a routing key that other clients added after they were read stays.
  pub delete-Deleted :
      (e : Params) (rks : List Text) (between : Db → Db) (others : List (Others Db)) (d : Db)
      → IsExchange e.at
      → routing_keys R W e d ≡ ok rks
      → All (Respect (Unchanged R (delete_watch_keys R W direct_routes e rks))) others
      → (delete R W e between others d).1 ≡ committed
      → Deleted e rks (written 5 others (between d)) (delete R W e between others d).0
  unfolding delete
  delete-Deleted e rks between others d he read ho h =
      let ks = delete_watch_keys R W direct_routes e rks in
      let (seen, write, kept, chosen, result) =
        with_transaction-committed (delete_tx R W direct_routes e rks) (Unchanged R ks)
          (Unchanged-refl R ks) 4 others (between d) ho (ap (λ r. r.1) (sym run) ∙ h) in
      let met = written 5 others (between d) in
      let (none_bound, same) = delete_tx-eq-ok e rks seen write chosen in
      subst (Deleted e rks met) (sym (ap (λ r. r.0) run ∙ (result ∙ ap (λ w. w met) same)))
        (delete_writes-Deleted e rks seen met he none_bound kept)
    where
      run :
          delete R W e between others d
          ≡ with_transaction (delete_tx R W direct_routes e rks) 5 others (between d)
      run = rw (read, delete)
