-- ===== src/Keys/Build.antt =====
-- internal/redis/keys/{redis_keys,namespace,queue,exchange,message,system}.go: the key builders.
use go_redis_smq.Prelude.{List, [], ◌∷◌, ◌++◌, ℕ}
use go_redis_smq.Prelude.Text.{Text, codes}

-- `sep`
abbrev pub sep : ℕ
sep = b':'

-- `prefix`: "redis-smq" and the version.
abbrev pub prefix : Text
prefix = codes "redis-smq:10"

-- The loop of `Key`: each part behind a separator.
unfoldable pub join_parts : List Text → Text
join_parts [] = []
join_parts (p ∷ ps) = sep ∷ (p ++ join_parts ps)

unfoldable pub key : List Text → Text
key parts = prefix ++ join_parts parts

abbrev pub ns_part : Text
ns_part = codes "ns"

abbrev pub q_part : Text
q_part = codes "q"

abbrev pub exs_part : Text
exs_part = codes "exs"

abbrev pub main_part : Text
main_part = codes "main"

pub record Queue : Type 0 where
  pub ns : Text
  pub name : Text

pub record Exchange : Type 0 where
  pub ns : Text
  pub name : Text

-- The keys of a queue by their last part.
abbrev pub queue_key : Queue → Text → Text
queue_key q field = key (ns_part ∷ q.ns ∷ q_part ∷ q.name ∷ field ∷ [])

-- `Properties`
abbrev pub properties : Queue → Text
properties q = queue_key q (codes "prop")

-- `Pending`
abbrev pub pending : Queue → Text
pending q = queue_key q (codes "pend")

-- `DeadLetter`
abbrev pub dead_letter : Queue → Text
dead_letter q = queue_key q (codes "dl")

-- `Acknowledged`
abbrev pub acknowledged : Queue → Text
acknowledged q = queue_key q (codes "ack")

-- `Requeued`
abbrev pub requeued : Queue → Text
requeued q = queue_key q (codes "req")

-- `StateHistory`
abbrev pub state_history : Queue → Text
state_history q = queue_key q (codes "sh")

-- `ExchangeBindings`
abbrev pub exchange_bindings : Queue → Text
exchange_bindings q = queue_key q (codes "bind")

-- `WorkersLock`
abbrev pub workers_lock : Queue → Text
workers_lock q = queue_key q (codes "wlock")

-- `RateLimit`
abbrev pub rate_limit : Queue → Text
rate_limit q = queue_key q (codes "rate")

-- `PendingWithGroup`
abbrev pub pending_with_group : Queue → Text → Text
pending_with_group q group =
    key (ns_part ∷ q.ns ∷ q_part ∷ q.name ∷ codes "cgp" ∷ group ∷ codes "pend" ∷ [])

-- `ConsumerProcessing`
abbrev pub consumer_processing : Queue → Text → Text
consumer_processing q consumer =
    key (ns_part ∷ q.ns ∷ q_part ∷ q.name ∷ codes "cons" ∷ consumer ∷ codes "proc" ∷ [])

-- `Exchange.Exchange`
abbrev pub exchange : Exchange → Text
exchange e = key (ns_part ∷ e.ns ∷ exs_part ∷ e.name ∷ [])

-- The keys of an exchange with one more part.
abbrev pub exchange_key : Exchange → Text → Text
exchange_key e field = key (ns_part ∷ e.ns ∷ exs_part ∷ e.name ∷ field ∷ [])

-- `Exchange.Properties`
abbrev pub exchange_properties : Exchange → Text
exchange_properties e = exchange_key e (codes "prop")

-- `RoutingKeys`
abbrev pub routing_keys : Exchange → Text
routing_keys e = exchange_key e (codes "rk")

-- `RoutingKeyQueues`
abbrev pub routing_key_queues : Exchange → Text → Text
routing_key_queues e rk = key (ns_part ∷ e.ns ∷ exs_part ∷ e.name ∷ codes "rk" ∷ rk ∷ q_part ∷ [])

-- `BindingPatterns`
abbrev pub binding_patterns : Exchange → Text
binding_patterns e = exchange_key e (codes "pat")

-- `PatternQueues`
abbrev pub pattern_queues : Exchange → Text → Text
pattern_queues e pattern_text =
    key (ns_part ∷ e.ns ∷ exs_part ∷ e.name ∷ codes "pat" ∷ pattern_text ∷ q_part ∷ [])

-- `FanoutQueues`
abbrev pub fanout_queues : Exchange → Text
fanout_queues e = exchange_key e q_part

-- `Namespace.Queues`
abbrev pub namespace_queues : Text → Text
namespace_queues ns = key (ns_part ∷ ns ∷ q_part ∷ [])

-- `Namespace.Exchanges`
abbrev pub namespace_exchanges : Text → Text
namespace_exchanges ns = key (ns_part ∷ ns ∷ exs_part ∷ [])

-- `System.AllQueues`
abbrev pub all_queues : Text
all_queues = key (main_part ∷ q_part ∷ [])

-- `System.AllExchanges`
abbrev pub all_exchanges : Text
all_exchanges = key (main_part ∷ exs_part ∷ [])

-- `System.AllNamespaces`
abbrev pub all_namespaces : Text
all_namespaces = key (main_part ∷ ns_part ∷ [])

-- `System.Message`
abbrev pub message : Text → Text
message id = key (main_part ∷ codes "msg" ∷ id ∷ [])

-- `System.MessageAcknowledgementHistory`
abbrev pub message_history : Text → Text
message_history id = key (main_part ∷ codes "msg" ∷ id ∷ codes "uh" ∷ [])

-- `System.ConsumerQueues`
abbrev pub consumer_queues : Text → Text
consumer_queues consumer = key (main_part ∷ codes "cons" ∷ consumer ∷ q_part ∷ [])

-- `System.ConsumerHeartbeat`
abbrev pub consumer_heartbeat : Text → Text
consumer_heartbeat consumer = key (main_part ∷ codes "cons" ∷ consumer ∷ codes "hb" ∷ [])
