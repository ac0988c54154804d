-- ===== src/Exchange/Routed/Spec.antt =====
-- internal/exchange/{direct,topic}.go: the routes of all exchanges as one relation between exchanges,
-- routes and queues, and the transactions of binding and unbinding as changes of that relation.
use go_redis_smq.Prelude.{◌≡◌, Bool, true, false, ◌&&◌, if◌then◌else◌, ok, ap, ◌∙◌}
use go_redis_smq.Prelude.Text.{Text, text_eq}
use go_redis_smq.Keys.{Queue, Exchange}
use go_redis_smq.Redis.HashSets.{HashSets}
use go_redis_smq.Exchange.Params.{Params, Json, IsQueue, IsExchange}
use go_redis_smq.Exchange.Routed.{Routes, bind_tx, unbind_tx}
use go_redis_smq.Exchange.Routed.Watched.{Unchanged}
use go_redis_smq.Exchange.Routed.{bind_watch_keys, unbind_watch_keys}
use go_redis_smq.Exchange.Routed.Separate.{IsSeparate, same_exchange, same_queue}
use go_redis_smq.Exchange.Routed.Writes.{bound, bound-bind_writes, bound-unbind_writes}
use go_redis_smq.Exchange.Routed.Linked.{bind_tx-eq-ok}
use go_redis_smq.Exchange.Routed.Unlinked.{unbind_tx-eq-ok}

-- The abstract state: which queue is bound to which route of which exchange.
abbrev pub Relation : Type 0
Relation = Exchange → Text → Queue → Bool

abbrev pub same_binding : Exchange → Text → Queue → Exchange → Text → Queue → Bool
same_binding e x q f y p = (same_exchange e f && text_eq x y) && same_queue q p

abbrev pub add_binding : Exchange → Text → Queue → Relation → Relation
add_binding e x q b f y p = if same_binding e x q f y p then true else b f y p

abbrev pub remove_binding : Exchange → Text → Queue → Relation → Relation
remove_binding e x q b f y p = if same_binding e x q f y p then false else b f y p

-- The two relations agree on exchanges with valid names.
abbrev pub Agree : Relation → Relation → Type 0
Agree a b = (f : Exchange) (y : Text) (p : Queue) → IsExchange f → a f y p ≡ b f y p

module _ (R : HashSets) (W : Json) (r : Routes) (sep : IsSeparate r) where
  open R use {Db}

  abbrev pub relation : Db → Relation
  relation d f y p = bound R W r sep f y p d

  -- What a committed `BindQueue` of the queue did to the data that its EXEC met.
  pub record Bound (q : Queue) (e : Params) (x : Text) (met after : Db) : Type 0 where
    pub fresh : relation met e.at x q ≡ false
    pub added : Agree (relation after) (add_binding e.at x q (relation met))

  pub record Unbound (q : Queue) (e : Params) (x : Text) (met after : Db) : Type 0 where
    pub present : relation met e.at x q ≡ true
    pub removed : Agree (relation after) (remove_binding e.at x q (relation met))

  pub bind_tx-Bound :
      (q : Queue) (e : Params) (x : Text) (seen met after : Db) (write : Db → Db)
      → IsQueue q
      → IsExchange e.at
      → Unchanged R (bind_watch_keys R W r q e x) seen met
      → bind_tx R W r q e x seen ≡ ok write
      → after ≡ write met
      → Bound q e x met after
  bind_tx-Bound q e x seen met after write hq he (_, (_, (_, (route, _)))) h result =
      let (_, _, fresh, run) = bind_tx-eq-ok R W r sep q e x seen write h in
      record {
        fresh = route.members _ ∙ fresh;
        added = λ f y p hf.
            ap (λ d. relation d f y p) result
            ∙ ap (λ w. relation (w met) f y p) run
            ∙ bound-bind_writes R W r sep q e x f y p met hq he hf;
      }

  pub unbind_tx-Unbound :
      (q : Queue) (e : Params) (x : Text) (seen met after : Db) (write : Db → Db)
      → IsQueue q
      → IsExchange e.at
      → Unchanged R (unbind_watch_keys R W r q e x) seen met
      → unbind_tx R W r q e x seen ≡ ok write
      → after ≡ write met
      → Unbound q e x met after
  unbind_tx-Unbound q e x seen met after write hq he (_, (_, (route, _))) h result =
      let (present, run) = unbind_tx-eq-ok R W r sep q e x seen write h in
      record {
        present = route.members _ ∙ present;
        removed = λ f y p hf.
            ap (λ d. relation d f y p) result
            ∙ ap (λ w. relation (w met) f y p) run
            ∙ bound-unbind_writes R W r sep q e x f y p _ _ met hq he hf;
      }
