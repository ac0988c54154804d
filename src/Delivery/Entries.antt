-- ===== src/Delivery/Entries.antt =====
-- The lists and sorted sets that Redis keeps of one queue, as one sequence of entries: those of a key
-- in their order, or with their scores. A key is a kind of place and a label, which is a consumer
-- group or a consumer, or empty. The commands are Redis's own, by their names.
use go_redis_smq.Prelude.{
  ℕ, zero, suc, ◌+◌, ◌-◌, Bool, not, ◌&&◌, ◌||◌, Option, none, some, is_some, List, [], ◌∷◌, ◌++◌,
  any, ltb, leb, ◌==◌, if◌then◌else◌,
}
use go_redis_smq.Prelude.Text.{Text, text_eq}

pub record Entry : Type 0 where
  pub kind : ℕ
  pub label : Text
  pub score : ℕ
  pub id : ℕ

-- The keys of internal/redis/keys/queue.go.
abbrev pub pending : ℕ
pending = 0

abbrev pub priority : ℕ
priority = 1

abbrev pub processing : ℕ
processing = 2

abbrev pub requeued : ℕ
requeued = 3

abbrev pub delayed : ℕ
delayed = 4

abbrev pub scheduled : ℕ
scheduled = 5

abbrev pub dead_lettered : ℕ
dead_lettered = 6

abbrev pub acknowledged : ℕ
acknowledged = 7

abbrev pub published : ℕ
published = 8

unfoldable pub of_key : ℕ → Text → Entry → Bool
of_key kind label e = e.kind == kind && text_eq e.label label

unfoldable pub holds : ℕ → Text → ℕ → Entry → Bool
unfolding of_key
holds kind label id e = of_key kind label e && e.id == id

-- The reply of LREM with count 1, and of ZREM.
unfoldable pub removed : ℕ → Text → ℕ → List Entry → Bool
removed kind label id es = any (holds kind label id) es

unfoldable pub remove : ℕ → Text → ℕ → List Entry → List Entry
unfolding holds
remove kind label id [] = []
remove kind label id (e ∷ es) = if holds kind label id e then es else e ∷ remove kind label id es

abbrev pub lpush : ℕ → Text → ℕ → List Entry → List Entry
lpush kind label id es = record { kind = kind; label = label; score = 0; id = id } ∷ es

abbrev pub rpush : ℕ → Text → ℕ → List Entry → List Entry
rpush kind label id es = es ++ record { kind = kind; label = label; score = 0; id = id } ∷ []

abbrev pub zadd : ℕ → Text → ℕ → ℕ → List Entry → List Entry
zadd kind label score id es =
    remove kind label id es ++ record { kind = kind; label = label; score = score; id = id } ∷ []

-- The right end of a list.
unfoldable pub last_of : ℕ → Text → List Entry → Option ℕ
unfolding of_key
last_of kind label [] = none
last_of kind label (e ∷ es) = elim (last_of kind label es) [
  | none ↦ if of_key kind label e then some e.id else none
  | some id ↦ some id
]

unfoldable pub drop_last : ℕ → Text → List Entry → List Entry
unfolding of_key last_of
drop_last kind label [] = []
drop_last kind label (e ∷ es) =
    if of_key kind label e && not (is_some (last_of kind label es))
    then es
    else e ∷ drop_last kind label es

-- The lowest member of a sorted set: by score, then by the member itself.
unfoldable pub precedes : Entry → Entry → Bool
precedes e f = ltb e.score f.score || (e.score == f.score && leb e.id f.id)

unfoldable pub lowest : ℕ → Text → List Entry → Option Entry
unfolding of_key precedes
lowest kind label [] = none
lowest kind label (e ∷ es) =
    if of_key kind label e
    then (elim (lowest kind label es) [
      | none ↦ some e
      | some f ↦ if precedes e f then some e else some f
    ])
    else lowest kind label es

-- LTRIM key -size -1: keeps the last `size` elements of a list.
unfoldable pub entries_of : ℕ → Text → List Entry → ℕ
unfolding of_key
entries_of kind label [] = 0
entries_of kind label (e ∷ es) = (if of_key kind label e then 1 else 0) + entries_of kind label es

unfoldable pub drop_first : ℕ → Text → ℕ → List Entry → List Entry
unfolding of_key
drop_first kind label zero es = es
drop_first kind label (suc n) [] = []
drop_first kind label (suc n) (e ∷ es) =
    if of_key kind label e then drop_first kind label n es else e ∷ drop_first kind label (suc n) es

unfoldable pub ltrim : ℕ → Text → ℕ → List Entry → List Entry
unfolding entries_of drop_first
ltrim kind label size es = drop_first kind label (entries_of kind label es - size) es

-- The places of a message: a message that waits in its queue and one that a consumer has are in one
-- place, since the two change hands before the message's hash does.
abbrev pub in_queue : ℕ
in_queue = processing

abbrev pub place_of : ℕ → ℕ
place_of kind = if leb kind processing then in_queue else kind

-- How often a message stands in a place, and how many entries the place has.
unfoldable pub count : ℕ → ℕ → List Entry → ℕ
count place id [] = 0
count place id (e ∷ es) =
    (if place_of e.kind == place && e.id == id then 1 else 0) + count place id es

unfoldable pub size : ℕ → List Entry → ℕ
size place [] = 0
size place (e ∷ es) = (if place_of e.kind == place then 1 else 0) + size place es
