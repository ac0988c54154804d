-- ===== src/Delivery/Order.antt =====
-- In which order the messages of a queue that is first-in-first-out, or last-in-first-out, are taken
-- by the consumers of a group.
use go_redis_smq.Prelude.{
  ℕ, ◌≡◌, refl, ap, ◌∙◌, Bool, false, ◌&&◌, Option, none, some, List, [], ◌∷◌, ◌++◌, ◌==◌,
  if◌then◌else◌, arith,
}
use go_redis_smq.Prelude.Text.{Text, text_eq}
use go_redis_smq.Delivery.Entries
use go_redis_smq.Delivery.Entries.{Entry, lpush, rpush, remove, holds, of_key, last_of, drop_last}
use go_redis_smq.Delivery.Data.{Db, has_status, status_pending, type_lifo, type_priority}
use go_redis_smq.Delivery.Publish.{
  Publication, objection, put, record_message, enqueue_new, publish_message,
}
use go_redis_smq.Delivery.Checkout.{Dequeuer, pop, pop_fifo, pop_priority}
use go_redis_smq.Delivery.Refusals.{publish_message-finish}

-- The ids that wait for a group, those first that are taken first.
unfoldable pub waiting : Text → List Entry → List ℕ
unfolding of_key
waiting group [] = []
waiting group (e ∷ es) =
    if of_key Entries.pending group e then waiting group es ++ e.id ∷ [] else waiting group es

abbrev pub first : List ℕ → Option ℕ
first [] = none
first (id ∷ ids) = some id

abbrev pub others : List ℕ → List ℕ
others [] = []
others (id ∷ ids) = ids

waiting-last_of :
    (group : Text) (es : List Entry) → last_of Entries.pending group es ≡ first (waiting group es)
unfolding waiting last_of of_key
waiting-last_of group [] = refl
waiting-last_of group (e ∷ es) = ground (arith, waiting-last_of group es)

waiting-drop_last :
    (group : Text) (es : List Entry)
    → waiting group (drop_last Entries.pending group es) ≡ others (waiting group es)
unfolding waiting drop_last of_key
waiting-drop_last group [] = refl
waiting-drop_last group (e ∷ es) =
    ground (arith, waiting-last_of group es, waiting-drop_last group es)

waiting-append :
    (group : Text) (es : List Entry) (e : Entry)
    → waiting group (es ++ e ∷ [])
      ≡ (if of_key Entries.pending group e then e.id ∷ waiting group es else waiting group es)
unfolding waiting of_key
waiting-append group [] e = ground arith
waiting-append group (f ∷ es) e = ground (arith, waiting-append group es e)

waiting-remove :
    (kind : ℕ) (label group : Text) (id : ℕ) (es : List Entry)
    → (kind == Entries.pending) ≡ false
    → waiting group (remove kind label id es) ≡ waiting group es
unfolding waiting remove holds of_key
waiting-remove kind label group id [] h = refl
waiting-remove kind label group id (e ∷ es) h =
    ground (arith, waiting-remove kind label group id es h)

-- Whether a publication waits for the group at once.
abbrev pub joins : Text → Publication → Bool
joins group p = has_status status_pending p.fields.status && text_eq p.group group

pub data Turn : Type 0 where
  arrives : Publication → Turn
  leaves : Turn

-- What the consumers of a group get, as the calls come.
unfoldable pub play : Dequeuer → List Turn → Db → List (Option ℕ)
unfolding publish_message pop
play c [] d = []
play c (arrives p ∷ ts) d = play c ts (publish_message p d).0
play c (leaves ∷ ts) d = (pop c d).1 ∷ play c ts (pop c d).0

-- What they should get: a queue of ids, or a stack.
unfoldable pub expect : Bool → Text → List Turn → List ℕ → List (Option ℕ)
expect is_lifo group [] ids = []
expect is_lifo group (arrives p ∷ ts) ids =
    expect is_lifo group ts
      (if joins group p then (if is_lifo then p.id ∷ ids else ids ++ p.id ∷ []) else ids)
expect is_lifo group (leaves ∷ ts) ids = first ids ∷ expect is_lifo group ts (others ids)

-- The queue objects to none of the publications.
abbrev pub AllWelcome : ℕ → List Turn → Db → Type 0
AllWelcome queue_type [] d = Unit
AllWelcome queue_type (arrives p ∷ ts) d =
    (objection d queue_type p ≡ none) × AllWelcome queue_type ts d
AllWelcome queue_type (leaves ∷ ts) d = AllWelcome queue_type ts d

-- What the objections of the queue depend on.
abbrev SameQueue : Db → Db → Type 0
SameQueue d d' =
    (d'.queue_type ≡ d.queue_type)
    × ((t : ℕ) (p : Publication) → objection d' t p ≡ objection d t p)

AllWelcome-SameQueue :
    (queue_type : ℕ) (ts : List Turn) (d d' : Db)
    → SameQueue d d'
    → AllWelcome queue_type ts d
    → AllWelcome queue_type ts d'
AllWelcome-SameQueue queue_type [] d d' same h = tt
AllWelcome-SameQueue queue_type (arrives p ∷ ts) d d' same (h, rest) =
    (same.1 queue_type p ∙ h, AllWelcome-SameQueue queue_type ts d d' same rest)
AllWelcome-SameQueue queue_type (leaves ∷ ts) d d' same h =
    AllWelcome-SameQueue queue_type ts d d' same h

pop-SameQueue : (c : Dequeuer) (d : Db) → SameQueue d (pop c d).0
unfolding pop pop_fifo pop_priority objection
pop-SameQueue c d = (ground arith, (λ t p. ground arith))

record_message-SameQueue :
    (p : Publication) (queue_type : ℕ) (d : Db)
    → SameQueue d (record_message p (put queue_type p d))
unfolding record_message put objection
record_message-SameQueue p queue_type d = (ground arith, (λ t q. ground arith))

waiting-publish :
    (p : Publication) (queue_type : ℕ) (group : Text) (d : Db)
    → (queue_type == type_priority) ≡ false
    → waiting group (record_message p (put queue_type p d)).entries ≡ (
        if joins group p
        then (if queue_type == type_lifo
            then p.id ∷ waiting group d.entries
            else waiting group d.entries ++ p.id ∷ [])
        else waiting group d.entries)
unfolding record_message put enqueue_new waiting of_key
waiting-publish p queue_type group d h =
    let entry : ℕ → Text → ℕ → Entry =
      λ kind label score. record { kind = kind; label = label; score = score; id = p.id } in
    ground (
      arith,
      waiting-append group (put queue_type p d).entries (entry Entries.published [] 0),
      waiting-append group d.entries (entry Entries.pending p.group 0),
      waiting-append group (remove Entries.scheduled [] p.id d.entries)
          (entry Entries.scheduled [] p.scheduled_timestamp),
      waiting-remove Entries.scheduled [] group p.id d.entries refl,
    )

waiting-pop :
    (c : Dequeuer) (d : Db)
    → (c.queue_type == type_priority) ≡ false
    → ((pop c d).1 ≡ first (waiting c.group d.entries))
      × (waiting c.group (pop c d).0.entries ≡ others (waiting c.group d.entries))
unfolding pop pop_fifo waiting of_key
waiting-pop c d h = (
  ground (arith, h, waiting-last_of c.group d.entries),
  ground (arith, h, waiting-last_of c.group d.entries, waiting-drop_last c.group d.entries),
)

welcome :
    (p : Publication) (queue_type : ℕ) (d : Db)
    → d.queue_type ≡ some queue_type
    → objection d queue_type p ≡ none
    → (publish_message p d).0 ≡ record_message p (put queue_type p d)
welcome p queue_type d n fine = ap (λ r. r.0) (publish_message-finish p d queue_type none n fine)

-- The consumers of a group get the ids that arrive for it in the order of a queue, if the queue is not
-- LIFO, and of a stack, if it is, however arrivals (of this group and of others, at once or scheduled)
-- and takings alternate, if the queue does not order by priority and objects to none of the messages.
pub play-expect :
    (c : Dequeuer) (ts : List Turn) (d : Db)
    → d.queue_type ≡ some c.queue_type
    → (c.queue_type == type_priority) ≡ false
    → AllWelcome c.queue_type ts d
    → play c ts d ≡ expect (c.queue_type == type_lifo) c.group ts (waiting c.group d.entries)
unfolding play expect
play-expect c [] d n t ok' = refl
play-expect c (arrives p ∷ ts) d n t (fine, ok') =
    let d' = record_message p (put c.queue_type p d) in
    let same = record_message-SameQueue p c.queue_type d in
    ap (λ x. play c ts x) (welcome p c.queue_type d n fine)
    ∙ play-expect c ts d' (same.0 ∙ n) t (AllWelcome-SameQueue c.queue_type ts d d' same ok')
    ∙ ap (expect (c.queue_type == type_lifo) c.group ts)
        (waiting-publish p c.queue_type c.group d t)
play-expect c (leaves ∷ ts) d n t ok' =
    let d' = (pop c d).0 in
    let same = pop-SameQueue c d in
    let (taken, left) = waiting-pop c d t in
    rw taken (
      ap (λ x. first (waiting c.group d.entries) ∷ x)
        (play-expect c ts d' (same.0 ∙ n) t (AllWelcome-SameQueue c.queue_type ts d d' same ok')
          ∙ ap (expect (c.queue_type == type_lifo) c.group ts) left))
