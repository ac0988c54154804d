-- ===== src/Tests/Producers.antt =====
-- A producer on concrete queues.
use go_redis_smq.Prelude.{ℕ, ◌+◌, ◌≡◌, refl, true, none, some, [], ◌∷◌, ◌++◌, ok}
use go_redis_smq.Prelude.Text.{Text}
use go_redis_smq.Keys.{Queue}
use go_redis_smq.Delivery.Publish.{objection}
use go_redis_smq.Exchange.Params.{type_fanout}
use go_redis_smq.Producer.Resolver.{
  Targets, queue_created, group_created, group_deleted, on_event, queue_string, resolve,
}
use go_redis_smq.Producer.{
  ProducibleMessage, Exchanges, World, Producer, dispatch_to, produce_to_queues, produce,
}
use go_redis_smq.Producer.Plan.{plan, send_all, produce_to_queues-send_all}
use go_redis_smq.Tests.Failures.{task}
use go_redis_smq.Tests.Deliveries.{next_tick, empty_queue}

abbrev orders : Queue
orders = record { ns = 110 ∷ []; name = 111 ∷ [] }

abbrev mails : Queue
mails = record { ns = 110 ∷ []; name = 112 ∷ [] }

-- Both queues have two groups, as far as Redis knows.
abbrev world : World
world = record {
  queues = λ key. record empty_queue { groups = (1 ∷ []) ∷ (2 ∷ []) ∷ [] };
  drawn = 0;
}

-- The producer knows those of one.
abbrev targets : Targets
targets = (queue_string mails, (1 ∷ []) ∷ (2 ∷ []) ∷ []) ∷ []

learnt :
    on_event (group_deleted mails (3 ∷ [])) (
      on_event (group_created mails (2 ∷ [])) (
        on_event
          (group_created mails (3 ∷ []))
          (on_event (group_created mails (1 ∷ [])) (on_event (queue_created mails 1) []))))
    ≡ targets
unfolding on_event queue_string
learnt = refl

abbrev news : ProducibleMessage
news = record {
  content = task;
  priority = none;
  queue = none;
  exchange = some (record { at = record { ns = 110 ∷ []; name = 113 ∷ [] }; typ = type_fanout });
  routing_key = [];
}

abbrev fanout : Exchanges
fanout = record {
  match_direct = λ e k. ok [];
  match_topic = λ e k. ok [];
  match_fanout = λ e. ok (orders ∷ mails ∷ []);
}

abbrev encode : ProducibleMessage → Queue → Text → Text
encode m q group = 123 ∷ q.name ++ group

abbrev new_id : ℕ → ℕ
new_id k = 500 + k

abbrev producer : Producer
producer = record { running = true; resolver = some targets }

three_messages :
    (produce next_tick new_id encode 10 news fanout producer world).1 ≡ ok (500 ∷ 501 ∷ 502 ∷ [])
unfolding produce dispatch_to objection queue_string resolve
three_messages = refl

produce_to_queues-send_all_example :
    produce_to_queues next_tick new_id encode 10 news (some targets) (orders ∷ mails ∷ []) world
    ≡ send_all
        (dispatch_to next_tick new_id encode 10 news)
        ((orders, []) ∷ (mails, 1 ∷ []) ∷ (mails, 2 ∷ []) ∷ [])
        world
unfolding plan queue_string resolve
produce_to_queues-send_all_example =
    produce_to_queues-send_all next_tick new_id encode 10 news (some targets) (orders ∷ mails ∷ [])
      world
