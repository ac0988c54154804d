-- ===== src/Producer/Resolver.antt =====
-- internal/producer/pubsub_resolver.go: the consumer groups of the queues that deliver to groups, as a
-- producer learns of them, first by `Load`, then by the events of queues and groups.
use go_redis_smq.Prelude.{
  ℕ, Bool, Option, none, some, List, [], ◌∷◌, ◌++◌, any, ◌==◌, if◌then◌else◌,
}
use go_redis_smq.Prelude.Text.{Text, text_eq}
use go_redis_smq.Keys.{Queue}

-- `String` of pkg/queue/params.go.
unfoldable pub queue_string : Queue → Text
queue_string q = q.name ++ 64 ∷ q.ns

-- `DeliveryPubSub`
abbrev pub delivery_pub_sub : ℕ
delivery_pub_sub = 1

-- The map `targets`, a key at most once.
abbrev pub Targets : Type 0
Targets = List (Text × List Text)

-- A key that is missing has no groups.
unfoldable pub resolve : Text → Targets → List Text
unfolding text_eq
resolve key [] = []
resolve key ((k, groups) ∷ ts) = if text_eq k key then groups else resolve key ts

unfoldable pub has_key : Text → Targets → Bool
unfolding text_eq
has_key key ts = any (λ t. text_eq t.0 key) ts

unfoldable pub set_targets : Text → List Text → Targets → Targets
unfolding text_eq
set_targets key groups [] = (key, groups) ∷ []
set_targets key groups ((k, old) ∷ ts) =
    if text_eq k key then (k, groups) ∷ ts else (k, old) ∷ set_targets key groups ts

unfoldable pub delete_key : Text → Targets → Targets
unfolding text_eq
delete_key key [] = []
delete_key key ((k, old) ∷ ts) = if text_eq k key then ts else (k, old) ∷ delete_key key ts

-- `Add`
unfoldable pub add : Text → Text → Targets → Targets
unfolding resolve set_targets
add key group ts =
    if any (λ g. text_eq g group) (resolve key ts)
    then ts
    else set_targets key (resolve key ts ++ group ∷ []) ts

unfoldable pub without : Text → List Text → List Text
unfolding text_eq
without group [] = []
without group (g ∷ gs) = if text_eq g group then gs else g ∷ without group gs

-- `Remove`
unfoldable pub remove_target : Text → Text → Targets → Targets
unfolding resolve set_targets without
remove_target key group ts =
    if any (λ g. text_eq g group) (resolve key ts)
    then set_targets key (without group (resolve key ts)) ts
    else ts

-- The events that the resolver subscribes to.
pub data Event : Type 0 where
  queue_created : Queue → ℕ → Event
  queue_deleted : Queue → Event
  group_created : Queue → Text → Event
  group_deleted : Queue → Text → Event

-- `onQueueCreated`, `onQueueDeleted`, `onConsumerGroupCreated` and `onConsumerGroupDeleted`.
unfoldable pub on_event : Event → Targets → Targets
unfolding has_key set_targets delete_key add remove_target queue_string
on_event (queue_created q delivery_model) ts =
    if delivery_model == delivery_pub_sub
    then (if has_key (queue_string q) ts then ts else set_targets (queue_string q) [] ts)
    else ts
on_event (queue_deleted q) ts = delete_key (queue_string q) ts
on_event (group_created q group) ts = add (queue_string q) group ts
on_event (group_deleted q group) ts = remove_target (queue_string q) group ts

-- What `Load` finds of a queue: how it delivers, if that is stored, and its groups.
pub record Found : Type 0 where
  pub queue : Queue
  pub delivery_model : Option ℕ
  pub groups : List Text

-- The loop of `Load`.
unfoldable pub load_targets : List Found → Targets → Targets
unfolding set_targets queue_string
load_targets [] ts = ts
load_targets (f ∷ fs) ts = elim f.delivery_model [
  | none ↦ load_targets fs ts
  | some delivery_model ↦
      let kept =
        if delivery_model == delivery_pub_sub
        then set_targets (queue_string f.queue) f.groups ts
        else ts in
      load_targets fs kept
]
