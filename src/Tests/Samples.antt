-- ===== src/Tests/Samples.antt =====
-- A queue, a direct and a topic exchange, a store in memory that holds the queue, and encodings of
-- parameters and transitions that read back what they write.
use go_redis_smq.Prelude.{
  ℕ, zero, suc, ◌≡◌, refl, ap, ap₂, Option, none, some, [], ◌∷◌, ◌++◌, length, take, drop,
}
use go_redis_smq.Prelude.Text.{Text, codes}
use go_redis_smq.Prelude.Decimal.{itoa}
use go_redis_smq.Keys.{Queue, properties}
use go_redis_smq.Redis.Memory.{Store}
use go_redis_smq.Exchange.Params.{
  Params, Json, type_direct, type_topic, type_fifo, queue_type_field,
}
use go_redis_smq.QueueState.{Transition, or_else}
use go_redis_smq.QueueState.Script.{Db}
use go_redis_smq.QueueState.Created.{create_queue}
use go_redis_smq.QueueState.Manager.{TransitionJson, Others}

pub take-append : (s t : Text) → take (length s) (s ++ t) ≡ s
take-append [] t = refl
take-append (c ∷ s) t = ap (λ u. c ∷ u) (take-append s t)

pub drop-append : (s t : Text) → drop (length s) (s ++ t) ≡ t
drop-append [] t = refl
drop-append (c ∷ s) t = drop-append s t

-- Two texts as one: the length of the first stands before them.
abbrev pack : Text → Text → Text
pack s t = length s ∷ s ++ t

abbrev unpack_queue : Text → Option Queue
unpack_queue [] = none
unpack_queue (n ∷ s) = some (record { ns = take n s; name = drop n s })

abbrev unpack_exchange : Text → Option Params
unpack_exchange [] = none
unpack_exchange (typ ∷ []) = none
unpack_exchange (typ ∷ n ∷ s) =
    some (record { at = record { ns = take n s; name = drop n s }; typ = typ })

abbrev pub sample_json : Json
sample_json = record {
  marshal_queue = λ q. pack q.ns q.name;
  unmarshal_queue = unpack_queue;
  marshal_exchange = λ e. e.typ ∷ pack e.at.ns e.at.name;
  unmarshal_exchange = unpack_exchange;
  unmarshal-marshal_queue = λ q.
      ap₂ (λ s t. some (record { ns = s; name = t })) (take-append q.ns q.name)
        (drop-append q.ns q.name);
  unmarshal-marshal_exchange = λ e.
      ap₂ (λ s t. some (record { at = record { ns = s; name = t }; typ = e.typ }))
        (take-append e.at.ns e.at.name) (drop-append e.at.ns e.at.name);
}

abbrev pub orders : Queue
orders = record { ns = codes "shop"; name = codes "orders" }

abbrev pub direct_exchange : Params
direct_exchange = record { at = record { ns = codes "shop"; name = codes "d" }; typ = type_direct }

abbrev pub topic_exchange : Params
topic_exchange = record { at = record { ns = codes "shop"; name = codes "t" }; typ = type_topic }

-- The queue is a FIFO queue, and nothing else is stored.
abbrev pub shop : Store
shop = record {
  hashes =
      record { key = properties orders; field = queue_type_field; value = itoa type_fifo } ∷ [];
  sets = [];
}

-- A transition as numbers: tags and lengths first, then the texts.
abbrev flag {ℓ} : {A : Type ℓ} → Option A → ℕ
flag none = 0
flag (some _) = 1

abbrev unflag {ℓ} : {A : Type ℓ} → ℕ → A → Option A
unflag zero x = none
unflag (suc _) x = some x

abbrev marshal : Transition → Text
marshal t =
    flag t.from_state
      ∷ or_else t.from_state 0
      ∷ t.to_state
      ∷ t.timestamp
      ∷ flag t.lock_id
      ∷ flag t.owner
      ∷ or_else t.owner 0
      ∷ length t.reason
      ∷ length t.description
      ∷ length (or_else t.lock_id [])
      ∷ t.reason
    ++ (t.description ++ (or_else t.lock_id [] ++ t.metadata))

abbrev unmarshal : Text → Option Transition
unmarshal (f₁ ∷ n₁ ∷ s ∷ ms ∷ f₂ ∷ f₃ ∷ n₃ ∷ l₁ ∷ l₂ ∷ l₃ ∷ rest) = some (record {
  from_state = unflag f₁ n₁;
  to_state = s;
  reason = take l₁ rest;
  timestamp = ms;
  description = take l₂ (drop l₁ rest);
  lock_id = unflag f₂ (take l₃ (drop l₂ (drop l₁ rest)));
  owner = unflag f₃ n₃;
  metadata = drop l₃ (drop l₂ (drop l₁ rest));
})
unmarshal _ = none

unflag-flag {ℓ} : {A : Type ℓ} (o : Option A) (x : A) → unflag (flag o) (or_else o x) ≡ o
unflag-flag none x = refl
unflag-flag (some y) x = refl

pub unmarshal-marshal : (t : Transition) → unmarshal (marshal t) ≡ some t
unmarshal-marshal t = rw (
  unflag-flag t.from_state 0,
  unflag-flag t.owner 0,
  take-append t.reason (t.description ++ (or_else t.lock_id [] ++ t.metadata)),
  drop-append t.reason (t.description ++ (or_else t.lock_id [] ++ t.metadata)),
  take-append t.description (or_else t.lock_id [] ++ t.metadata),
  drop-append t.description (or_else t.lock_id [] ++ t.metadata),
  take-append (or_else t.lock_id []) t.metadata,
  drop-append (or_else t.lock_id []) t.metadata,
  unflag-flag t.lock_id [],
)

abbrev pub sample_transitions : TransitionJson
sample_transitions = record {
  marshal = marshal;
  unmarshal = unmarshal;
  unmarshal-marshal = unmarshal-marshal;
}

-- A queue as it is created.
abbrev pub created : Db
created = create_queue sample_transitions 5 []

abbrev pub nobody : Others
nobody = record { before_history = λ d. d; before_script = λ d. d }
