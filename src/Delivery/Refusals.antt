-- ===== src/Delivery/Refusals.antt =====
-- What producers and consumers get from a queue that refuses: a publication that is refused writes
-- nothing, and a consumer's failure is not made good.
use go_redis_smq.Prelude.{
  ℕ, ◌≡◌, refl, ap, ◌∙◌, Bool, true, false, not, ◌&&◌, ◌||◌, Option, none, some, is_some, any, ltb,
  List, [], ◌∷◌, ◌++◌, sym, subst, Bool-cases, ◌==◌, if◌then◌else◌, arith, inl, inr, Option-cases,
  ok, err,
}
use go_redis_smq.Prelude.Text.{Text, text_eq, text_eq_refl}
use go_redis_smq.QueueState.{state_active, state_paused}
use go_redis_smq.QueueState.Script.{is_empty}
use go_redis_smq.Scheduling.{next_scheduled_timestamp}
use go_redis_smq.Scheduling.Publisher.{new_state}
use go_redis_smq.Prelude.Int.{pos, ◌+ℤ◌}
use go_redis_smq.QueueState.{or_else}
use go_redis_smq.Delivery.Entries
use go_redis_smq.Delivery.Entries.{Entry, removed, remove, holds, of_key}
use go_redis_smq.Delivery.Data.{
  Db, status_pending, status_scheduled, update, current_state, type_lifo, type_fifo, type_priority,
}
use go_redis_smq.Delivery.Publish.{
  Outgoing, Publication, Error, Reply, objection, put, enqueue_new, record_message, publish_message,
  interpret, build_publish_args, dispatch, published_ok, queue_not_found, consumer_group_not_found,
  message_priority_required, priority_queuing_not_enabled, unknown_queue_type, queue_stopped,
  queue_locked, queue_invalid_state, not_found,
}

-- A queue takes a message if it is active or paused, knows the consumer group, and the message has a
-- priority just when the queue orders by priority.
abbrev takes_as : ℕ → ℕ → Outgoing → Db → Bool
takes_as queue_type timestamp e d =
    (current_state d == state_active || current_state d == state_paused)
    && (is_empty e.group || any (text_eq e.group) d.groups)
    && (if queue_type == type_priority then is_some e.priority else not (is_some e.priority))
    && (ltb 0 timestamp
        || queue_type == type_lifo
        || queue_type == type_fifo
        || queue_type == type_priority)

abbrev pub takes : ℕ → Outgoing → Db → Bool
takes timestamp e d = elim d.queue_type [
  | none ↦ false
  | some queue_type ↦ takes_as queue_type timestamp e d
]

objection_takes :
    (now timestamp queue_type : ℕ) (e : Outgoing) (d : Db)
    → is_some (objection d queue_type (build_publish_args now timestamp e))
      ≡ not (takes_as queue_type timestamp e d)
unfolding objection build_publish_args
objection_takes now timestamp queue_type e d = ground arith

-- An objection is never the reply to a publication.
objection_is_error :
    (d : Db) (queue_type : ℕ) (p : Publication) (reply : Reply)
    → objection d queue_type p ≡ some reply
    → (error : Error) × (interpret p.id reply ≡ err error)
unfolding objection interpret
objection_is_error d queue_type p published_ok h = absurd (ground (arith, h))
objection_is_error d queue_type p queue_not_found h = (_, refl)
objection_is_error d queue_type p consumer_group_not_found h = (_, refl)
objection_is_error d queue_type p message_priority_required h = (_, refl)
objection_is_error d queue_type p priority_queuing_not_enabled h = (_, refl)
objection_is_error d queue_type p unknown_queue_type h = (_, refl)
objection_is_error d queue_type p queue_stopped h = (_, refl)
objection_is_error d queue_type p queue_locked h = (_, refl)
objection_is_error d queue_type p queue_invalid_state h = (_, refl)

-- The script once the objection, and the type of the queue, are known.
abbrev finish : Publication → Db → ℕ → Option Reply → Db × Reply
finish p d queue_type objection' = elim objection' [
  | some reply ↦ (d, reply)
  | none ↦ (record_message p (put queue_type p d), published_ok)
]

abbrev publish_as : Publication → Db → Option ℕ → Db × Reply
publish_as p d queue_type? = elim queue_type? [
  | none ↦ (d, queue_not_found)
  | some queue_type ↦ finish p d queue_type (objection d queue_type p)
]

publish_message_missing :
    (p : Publication) (d : Db) → d.queue_type ≡ none → publish_message p d ≡ (d, queue_not_found)
unfolding publish_message
publish_message_missing p d n = ap (publish_as p d) n

pub publish_message-finish :
    (p : Publication) (d : Db) (queue_type : ℕ) (objection' : Option Reply)
    → d.queue_type ≡ some queue_type
    → objection d queue_type p ≡ objection'
    → publish_message p d ≡ finish p d queue_type objection'
unfolding publish_message
publish_message-finish p d queue_type objection' n o =
    ap (publish_as p d) n ∙ ap (finish p d queue_type) o

-- Where a new message waits: in the sorted set of its group or the list of its group, or with those
-- that are scheduled.
abbrev pub waits_at : ℕ → ℕ → Outgoing → ℕ × Text
waits_at queue_type timestamp e =
    if ltb 0 timestamp
    then (Entries.scheduled, [])
    else (if queue_type == type_priority
        then (Entries.priority, e.group)
        else (Entries.pending, e.group))

-- What a publication writes: the message's hash, one entry where it waits and one with the published
-- messages, and the counts of these two.
pub record Published (queue_type timestamp : ℕ) (e : Outgoing) (d after : Db) : Type 0 where
  pub text : (after.message e.id).message ≡ e.json
  pub status :
      (after.message e.id).status
      ≡ some (if ltb 0 timestamp then status_scheduled else status_pending)
  pub waits :
      let (kind, label) = waits_at queue_type timestamp e in
      removed kind label e.id after.entries ≡ true
  pub listed : removed Entries.published [] e.id after.entries ≡ true
  pub messages : after.messages_count ≡ d.messages_count +ℤ pos 1
  pub pending :
      after.pending_count ≡ (if ltb 0 timestamp then d.pending_count else d.pending_count +ℤ pos 1)
  pub scheduled :
      after.scheduled_count
      ≡ (if ltb 0 timestamp then d.scheduled_count +ℤ pos 1 else d.scheduled_count)

removed_last :
    (kind score id : ℕ) (label : Text) (es : List Entry)
    → removed kind label id
        (es ++ record { kind = kind; label = label; score = score; id = id } ∷ [])
      ≡ true
unfolding removed holds of_key
removed_last kind score id label [] = ground (arith, text_eq_refl label)
removed_last kind score id label (e ∷ es) = ground (arith, removed_last kind score id label es)

removed_kept :
    (kind id : ℕ) (label : Text) (es : List Entry) (e : Entry)
    → removed kind label id es ≡ true
    → removed kind label id (es ++ e ∷ []) ≡ true
unfolding removed
removed_kept kind id label [] e h = cc
removed_kept kind id label (f ∷ es) e h = ground (arith, removed_kept kind id label es e, h)

-- The entry stands in the lists before the message is listed as published.
enqueued :
    (queue_type now timestamp : ℕ) (e : Outgoing) (d : Db)
    → let (kind, label) = waits_at queue_type timestamp e in
      removed kind label e.id (put queue_type (build_publish_args now timestamp e) d).entries ≡ true
unfolding put build_publish_args enqueue_new removed holds of_key
enqueued queue_type now timestamp e d =
    let score : ℕ = elim e.priority [ none ↦ 0 | some n ↦ n ] in
    elim (Bool-cases (ltb 0 timestamp)) [
      | inl later ↦ rw later (
          removed_last Entries.scheduled timestamp e.id []
            (remove Entries.scheduled [] e.id d.entries))
      | inr now' ↦ elim (Bool-cases (queue_type == type_priority)) [
        | inl prior ↦
            rw (now', prior)
              (removed_last Entries.priority score e.id e.group
                (remove Entries.priority e.group e.id d.entries))
        | inr listed ↦ elim (Bool-cases (queue_type == type_lifo)) [
          | inl lifo ↦
              rw (now', listed, lifo) (removed_last Entries.pending 0 e.id e.group d.entries)
          | inr fifo ↦ rw (now', listed, fifo) (ground (arith, text_eq_refl e.group))
        ]
      ]
    ]

put-Published :
    (queue_type now timestamp : ℕ) (e : Outgoing) (d : Db)
    → let p = build_publish_args now timestamp e in
      Published queue_type timestamp e d (record_message p (put queue_type p d))
unfolding record_message put update build_publish_args
put-Published queue_type now timestamp e d =
    let p = build_publish_args now timestamp e in
    let (kind, label) = waits_at queue_type timestamp e in
    record {
      text = ground arith;
      status = ground arith;
      waits =
          removed_kept kind e.id label (put queue_type p d).entries
            (record { kind = Entries.published; label = []; score = 0; id = e.id })
            (enqueued queue_type now timestamp e d);
      listed = removed_last Entries.published 0 e.id [] (put queue_type p d).entries;
      messages = ground arith;
      pending = ground arith;
      scheduled = ground arith;
    }

module _ (next_tick : Text → ℕ → Option ℕ) where
  -- A message is published as specified, and its id returned, if the queue takes it: the queue exists, is active or
  -- paused, has the message's consumer group, if it names one, and a message has a priority just when
  -- the queue orders by priority (a queue of unknown type takes scheduled messages only). Otherwise
  -- there is an error, and nothing is written.
  pub dispatch_decides :
      (now : ℕ) (e : Outgoing) (d : Db)
      → let timestamp =
          (next_scheduled_timestamp next_tick now e.content (new_state e.content)).1 in
        let (d', result) = dispatch next_tick now e d in
        (takes timestamp e d ≡ true
          → (result ≡ ok e.id) × Published (or_else d.queue_type 0) timestamp e d d')
        × (takes timestamp e d ≡ false → (d' ≡ d) × ((error : Error) × (result ≡ err error)))
  unfolding dispatch interpret record_message update build_publish_args
  dispatch_decides now e d =
      let timestamp = (next_scheduled_timestamp next_tick now e.content (new_state e.content)).1 in
      let p = build_publish_args now timestamp e in
      elim (Option-cases d.queue_type) [
        | inl n ↦
            let q = publish_message_missing p d n in
            (
              (λ t. absurd (ground (arith, n, t))),
              (λ t. (ap (λ r. r.0) q, (not_found, ap (λ r. interpret e.id r.1) q))),
            )
        | inr (queue_type, n) ↦
            let same = objection_takes now timestamp queue_type e d in
            elim (Option-cases (objection d queue_type p)) [
              | inl fine ↦
                  let q = publish_message-finish p d queue_type none n fine in
                  (
                    (λ t. (
                      ap (λ r. interpret e.id r.1) q,
                      subst (λ r. Published (or_else d.queue_type 0) timestamp e d r.0) (sym q)
                          (subst
                            (λ t.
                              Published (or_else t 0) timestamp e d
                                (record_message p (put queue_type p d)))
                            (sym n) (put-Published queue_type now timestamp e d)),
                    )),
                    (λ t. absurd (ground (arith, n, t, same, fine))),
                  )
              | inr (reply, bad) ↦
                  let q = publish_message-finish p d queue_type (some reply) n bad in
                  let (error, is_error) = objection_is_error d queue_type p reply bad in
                  (
                    (λ t. absurd (ground (arith, n, t, same, bad))),
                    (λ t. (ap (λ r. r.0) q, (error, ap (λ r. interpret e.id r.1) q ∙ is_error))),
                  )
            ]
      ]
