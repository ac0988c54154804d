-- ===== src/Exchange/Params.antt =====
-- pkg/exchange and pkg/queue: the parameters of exchanges and queues, the numbers that stand for
-- types and policies, and the errors. encoding/json is an interface: what it writes it reads back.
use go_redis_smq.Prelude.{ℕ, ◌≡◌, Bool, Option, none, some, List, [], ◌∷◌, ◌||◌, if◌then◌else◌}
use go_redis_smq.Prelude.Text.{Text, text_eq}
use go_redis_smq.Prelude.Decimal.{itoa}
use go_redis_smq.Keys.{IsKey, Queue, Exchange}

-- `Type`: a number in Redis, `TypeDirect`, `TypeFanout` and `TypeTopic`.
abbrev pub type_direct : ℕ
type_direct = 0

abbrev pub type_fanout : ℕ
type_fanout = 1

abbrev pub type_topic : ℕ
type_topic = 2

-- `Policy`
abbrev pub policy_standard : ℕ
policy_standard = 0

abbrev pub policy_priority : ℕ
policy_priority = 1

-- pkg/queue/type.go
abbrev pub type_lifo : ℕ
type_lifo = 0

abbrev pub type_fifo : ℕ
type_fifo = 1

abbrev pub type_priority : ℕ
type_priority = 2

-- `exchange.Params`
pub record Params : Type 0 where
  pub at : Exchange
  pub typ : ℕ

-- `exchange.Props`
pub record Props : Type 0 where
  pub typ : ℕ
  pub policy : ℕ

-- pkg/exchange/errors.go, the error of a queue that is not there, that of a property that is no
-- number, and that of a transaction that met a conflict at every attempt.
pub data Error : Type 0 where
  not_found already_exists namespace_mismatch queue_already_bound queue_not_bound : Error
  has_bound_queues invalid_pattern type_mismatch policy_violation : Error
  queue_not_found bad_props conflict : Error

-- `schema.Type.Key()` and `schema.Policy.Key()` of internal/exchange/schema.
abbrev pub type_field : Text
type_field = itoa 0

abbrev pub policy_field : Text
policy_field = itoa 1

-- `schema.Type.Key()` of internal/queue/schema.
abbrev pub queue_type_field : Text
queue_type_field = itoa 0

-- The names of a queue or an exchange, as the constructors validate them.
abbrev pub IsQueue : Queue → Type 0
IsQueue q = IsKey q.ns × IsKey q.name

abbrev pub IsExchange : Exchange → Type 0
IsExchange e = IsKey e.ns × IsKey e.name

-- `json.Marshal` and `json.Unmarshal` at queue and exchange parameters.
pub record Json : Type 0 where
  pub marshal_queue : Queue → Text
  pub unmarshal_queue : Text → Option Queue
  pub marshal_exchange : Params → Text
  pub unmarshal_exchange : Text → Option Params
  pub unmarshal-marshal_queue : (q : Queue) → unmarshal_queue (marshal_queue q) ≡ some q
  pub unmarshal-marshal_exchange : (e : Params) → unmarshal_exchange (marshal_exchange e) ≡ some e

abbrev pub is_empty : Text → Bool
is_empty s = text_eq s []

module _ (J : Json) where
  -- `Codec.DecodeParams` of internal/queue: a name or a namespace that is empty is refused.
  unfoldable pub decode_queue : Text → Option Queue
  unfolding text_eq
  decode_queue s = elim (J.unmarshal_queue s) [
    | none ↦ none
    | some q ↦ if is_empty q.name || is_empty q.ns then none else some q
  ]

  -- `Codec.DecodeParamsSlice`: a member that does not decode is left out.
  unfoldable pub decode_queues : List Text → List Queue
  unfolding decode_queue
  decode_queues [] = []
  decode_queues (s ∷ ss) =
      let rest = decode_queues ss in elim (decode_queue s) [ none ↦ rest | some q ↦ q ∷ rest ]

  -- `Codec.DecodeParams` of internal/exchange.
  unfoldable pub decode_exchange : Text → Option Params
  unfolding text_eq
  decode_exchange s = elim (J.unmarshal_exchange s) [
    | none ↦ none
    | some e ↦ if is_empty e.at.name || is_empty e.at.ns then none else some e
  ]

  -- `Lookup.decodeExchangeParams`
  unfoldable pub decode_exchanges : List Text → List Params
  unfolding decode_exchange
  decode_exchanges [] = []
  decode_exchanges (s ∷ ss) =
      let rest = decode_exchanges ss in elim (decode_exchange s) [ none ↦ rest | some e ↦ e ∷ rest ]
