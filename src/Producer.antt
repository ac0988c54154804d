-- ===== src/Producer.antt =====
-- internal/producer/producer.go: `Produce`, which sends a message to a queue, or to the queues that an
-- exchange matches, and to each consumer group of a queue that has those. The groups are known from
-- internal/producer/pubsub_resolver.go, which follows the events of queues, in Resolver.
pub mod Resolver
pub mod Plan
use go_redis_smq.Prelude.{
  ℕ, suc, ◌+◌, Bool, true, false, Option, none, some, List, [], ◌∷◌, ◌++◌, ◌==◌, if◌then◌else◌,
  Result, ok, err,
}
use go_redis_smq.Prelude.Text.{Text, text_eq}
use go_redis_smq.Keys.{Queue}
use go_redis_smq.QueueState.Script.{is_empty}
use go_redis_smq.Exchange.Params.{Params, type_direct, type_topic, type_fanout}
use go_redis_smq.Exchange.Params
use go_redis_smq.Scheduling.{Message}
use go_redis_smq.Delivery.Data.{Db}
use go_redis_smq.Delivery.Publish.{Outgoing, dispatch}
use go_redis_smq.Delivery.Publish
use go_redis_smq.Producer.Resolver.{Targets, resolve, queue_string}

-- `ProducibleMessage`, as far as a producer reads it.
pub record ProducibleMessage : Type 0 where
  pub content : Message
  pub priority : Option ℕ
  pub queue : Option Queue
  pub exchange : Option Params
  pub routing_key : Text

pub data Error : Type 0 where
  not_running exchange_required routing_key_required no_matching_queues : Error
  unsupported_exchange_type : Error
  match_error : Params.Error → Error
  dispatch_error : Publish.Error → Error

-- The stores of the three kinds of exchange, as a producer uses them.
pub record Exchanges : Type 0 where
  pub match_direct : Params → Text → Result Params.Error (List Queue)
  pub match_topic : Params → Text → Result Params.Error (List Queue)
  pub match_fanout : Params → Result Params.Error (List Queue)

-- The queues, by the text of their parameters, and how many ids have been drawn.
pub record World : Type 0 where
  pub queues : Text → Db
  pub drawn : ℕ

-- A running producer that knows the targets of queues, or knows of none.
pub record Producer : Type 0 where
  pub running : Bool
  pub resolver : Option Targets

-- The error of an exchange's store is handed on.
unfoldable pub matched : Result Params.Error (List Queue) → Result Error (List Queue)
matched (ok qs) = ok qs
matched (err e) = err (match_error e)

-- `matchExchangeQueues`
unfoldable pub match_exchange_queues : Exchanges → Params → Text → Result Error (List Queue)
unfolding matched
match_exchange_queues x e routing_key =
    if e.typ == type_direct
    then (if is_empty routing_key
        then err routing_key_required
        else matched (x.match_direct e routing_key))
    else (if e.typ == type_topic
        then (if is_empty routing_key
            then err routing_key_required
            else matched (x.match_topic e routing_key))
        else (if e.typ == type_fanout
            then matched (x.match_fanout e)
            else err unsupported_exchange_type))

-- A producer that has no resolver knows of no groups.
abbrev pub targets_of : Option Targets → Queue → List Text
targets_of none q = []
targets_of (some ts) q = resolve (queue_string q) ts

-- `new_id` are the ids in the order that they are drawn, and `encode` is the JSON of an envelope: the
-- message with its queue and its group.
module _ (next_tick : Text → ℕ → Option ℕ) (new_id : ℕ → ℕ)
    (encode : ProducibleMessage → Queue → Text → Text) where
  -- `NewEnvelope`, with a group if any, and `dispatch`.
  unfoldable pub dispatch_to : ℕ → ProducibleMessage → Queue × Text → World → World × Result Error ℕ
  unfolding dispatch
  dispatch_to now m (q, group) w =
      let e : Outgoing = record {
        id = new_id w.drawn;
        content = m.content;
        priority = m.priority;
        group = group;
        json = encode m q group;
      } in
      let (d, result) = dispatch next_tick now e (w.queues (queue_string q)) in
      (
        record {
          queues = λ key. if text_eq key (queue_string q) then d else w.queues key;
          drawn = suc w.drawn;
        },
        elim result [ ok id ↦ ok id | err e ↦ err (dispatch_error e) ],
      )

  -- The loop over the groups of a queue.
  unfoldable pub produce_to_groups :
      ℕ → ProducibleMessage → Queue → List Text → World → World × Result Error (List ℕ)
  produce_to_groups now m q [] w = (w, ok [])
  produce_to_groups now m q (group ∷ groups) w =
      let (w', result) = dispatch_to now m (q, group) w in
      let (w'', rest) = produce_to_groups now m q groups w' in
      elim result [
        | err e ↦ (w', err e)
        | ok id ↦ (w'', elim rest [ err e ↦ err e | ok ids ↦ ok (id ∷ ids) ])
      ]

  -- A message to the groups of a queue, or to the queue if there are none.
  unfoldable pub to_targets :
      ℕ → ProducibleMessage → Queue → List Text → World → World × Result Error (List ℕ)
  unfolding produce_to_groups
  to_targets now m q [] w =
      let (w', result) = dispatch_to now m (q, []) w in
      (w', elim result [ err e ↦ err e | ok id ↦ ok (id ∷ []) ])
  to_targets now m q (group ∷ groups) w = produce_to_groups now m q (group ∷ groups) w

  -- `produceToQueue`
  unfoldable pub produce_to_queue :
      ℕ → ProducibleMessage → Option Targets → Queue → World → World × Result Error (List ℕ)
  unfolding to_targets
  produce_to_queue now m resolver q w = to_targets now m q (targets_of resolver q) w

  -- The loop of `produceToExchange`.
  unfoldable pub produce_to_queues :
      ℕ → ProducibleMessage → Option Targets → List Queue → World → World × Result Error (List ℕ)
  unfolding produce_to_queue
  produce_to_queues now m resolver [] w = (w, ok [])
  produce_to_queues now m resolver (q ∷ qs) w =
      let (w', result) = produce_to_queue now m resolver q w in
      let (w'', rest) = produce_to_queues now m resolver qs w' in
      elim result [
        | err e ↦ (w', err e)
        | ok ids ↦ (w'', elim rest [ err e ↦ err e | ok more ↦ ok (ids ++ more) ])
      ]

  -- `produceToExchange`
  unfoldable pub produce_to_exchange :
      ℕ
      → ProducibleMessage
      → Exchanges
      → Option Targets
      → Params
      → World
      → World × Result Error (List ℕ)
  unfolding match_exchange_queues produce_to_queues
  produce_to_exchange now m x resolver e w = elim (match_exchange_queues x e m.routing_key) [
    | err error ↦ (w, err error)
    | ok [] ↦ (w, err no_matching_queues)
    | ok (q ∷ qs) ↦ produce_to_queues now m resolver (q ∷ qs) w
  ]

  -- `Produce`
  unfoldable pub produce :
      ℕ → ProducibleMessage → Exchanges → Producer → World → World × Result Error (List ℕ)
  unfolding produce_to_queue produce_to_exchange
  produce now m x p w =
      if p.running
      then (elim m.queue [
        | some q ↦ produce_to_queue now m p.resolver q w
        | none ↦ elim m.exchange [
          | none ↦ (w, err exchange_required)
          | some e ↦ produce_to_exchange now m x p.resolver e w
        ]
      ])
      else (w, err not_running)
