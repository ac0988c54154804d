-- ===== src/Delivery/Kept/Calls.antt =====
-- Every call keeps the dead-lettered messages in their list.
use go_redis_smq.Prelude.{
  ℕ, ◌≡◌, refl, ◌∙◌, true, false, some, List, [], ◌∷◌, ltb, length, arith, inl, inr, Option-cases,
  Bool-cases,
}
use go_redis_smq.Prelude.Text.{Text}
use go_redis_smq.Consumer.{is_dead_letter, resolve_unack_action}
use go_redis_smq.Delivery.Entries
use go_redis_smq.Delivery.Entries.{
  Entry, removed, remove, lpush, rpush, zadd, last_of, drop_last, lowest, ltrim,
}
use go_redis_smq.Delivery.Data.{Db, refusal, status_acknowledged}
use go_redis_smq.Delivery.Unacknowledge.{
  Audit, Retention, UnackEntry, keep, settle, unacknowledge_one, unacknowledge_each,
  unacknowledge_message, unacknowledge_batch,
}
use go_redis_smq.Delivery.Acknowledge.{
  acknowledge_one, acknowledge_each, push_all, keep_all, acknowledge_message,
}
use go_redis_smq.Delivery.Kept.{
  IsKept, InDead, removed-remove, removed-ltrim, rpush-InDead, dead_last, dead_added, move-IsKept,
}

-- The list of dead-lettered messages is kept, without a limit.
abbrev pub Unlimited : Audit → Type 0
Unlimited a = (a.dead_lettered_messages.enabled ≡ true) × (a.dead_lettered_messages.queue_size ≡ 0)

unacknowledge_one-IsKept :
    (now : ℕ) (a : Audit) (consumer : Text) (e : UnackEntry) (d : Db)
    → Unlimited a
    → IsKept d.entries d.message
    → let d' = unacknowledge_one now a consumer e d in IsKept d'.entries d'.message
unfolding unacknowledge_one keep settle
unacknowledge_one-IsKept now a consumer e d (on, unlimited) h =
    let rest = remove Entries.processing consumer e.id d.entries in
    let left = λ (j : ℕ) (f : InDead j d.entries).
      removed-remove Entries.dead_lettered Entries.processing [] consumer j e.id d.entries refl
      ∙ f in
    elim (Bool-cases (is_dead_letter (resolve_unack_action now e.envelope e.cause))) [
      | inl dead ↦
          rw (dead, on, unlimited)
            (move-IsKept e.id (settle now a e true) d.entries
              (rpush Entries.dead_lettered [] e.id rest) d.message h
              (λ j f. dead_added j e.id rest (left j f)) (λ m s. dead_last e.id rest))
      | inr again ↦ rw again (
          move-IsKept e.id (settle now a e false) d.entries (rpush Entries.requeued [] e.id rest)
            d.message h (λ j f. rpush-InDead Entries.requeued [] j e.id 0 rest refl (left j f))
            (λ m s. cc))
    ]

unacknowledge_each-IsKept :
    (now : ℕ) (a : Audit) (consumer : Text) (es : List UnackEntry) (d : Db)
    → Unlimited a
    → IsKept d.entries d.message
    → let (d', _, _) = unacknowledge_each now a consumer es d in IsKept d'.entries d'.message
unfolding unacknowledge_each
unacknowledge_each-IsKept now a consumer [] d u h = h
unacknowledge_each-IsKept now a consumer (e ∷ es) d u h =
    elim (Bool-cases (removed Entries.processing consumer e.id d.entries)) [
      | inl found ↦ rw found (
          unacknowledge_each-IsKept now a consumer es (unacknowledge_one now a consumer e d) u
            (unacknowledge_one-IsKept now a consumer e d u h))
      | inr missing ↦ rw missing (unacknowledge_each-IsKept now a consumer es d u h)
    ]

unacknowledge_message-IsKept :
    (now : ℕ) (a : Audit) (consumer : Text) (es : List UnackEntry) (d : Db)
    → Unlimited a
    → IsKept d.entries d.message
    → let (d', _) = unacknowledge_message now a consumer es d in IsKept d'.entries d'.message
unfolding unacknowledge_message
unacknowledge_message-IsKept now a consumer es d u h = elim (Option-cases d.queue_type) [
  | inl n ↦ rw (n, unacknowledge_message) h
  | inr (t, n) ↦ elim (Option-cases (refusal d)) [
    | inl open' ↦
        rw (n, unacknowledge_message, open') (unacknowledge_each-IsKept now a consumer es d u h)
    | inr (reason, shut) ↦ rw (n, unacknowledge_message, shut) h
  ]
]

pub unacknowledge_batch-IsKept :
    (now : ℕ) (a : Audit) (consumer : Text) (es : List UnackEntry) (d : Db)
    → Unlimited a
    → IsKept d.entries d.message
    → let d' = unacknowledge_batch now a consumer es d in IsKept d'.entries d'.message
unfolding unacknowledge_batch
unacknowledge_batch-IsKept now a consumer [] d u h = h
unacknowledge_batch-IsKept now a consumer (e ∷ es) d u h =
    unacknowledge_message-IsKept now a consumer (e ∷ es) d u h

acknowledge_one-IsKept :
    (now : ℕ) (consumer : Text) (id : ℕ) (d : Db)
    → IsKept d.entries d.message
    → let d' = acknowledge_one now consumer id d in IsKept d'.entries d'.message
unfolding acknowledge_one
acknowledge_one-IsKept now consumer id d h =
    move-IsKept id (λ m. record m { status = some status_acknowledged; acknowledged_at = some now })
      d.entries (remove Entries.processing consumer id d.entries) d.message h
      (λ j f.
        removed-remove Entries.dead_lettered Entries.processing [] consumer j id d.entries refl ∙ f)
      (λ m s. ground (arith, s))

acknowledge_each-IsKept :
    (now : ℕ) (consumer : Text) (ids : List ℕ) (d : Db)
    → IsKept d.entries d.message
    → let (d', _, _) = acknowledge_each now consumer ids d in IsKept d'.entries d'.message
unfolding acknowledge_each
acknowledge_each-IsKept now consumer [] d h = h
acknowledge_each-IsKept now consumer (id ∷ ids) d h =
    elim (Bool-cases (removed Entries.processing consumer id d.entries)) [
      | inl found ↦ rw found (
          acknowledge_each-IsKept now consumer ids (acknowledge_one now consumer id d)
            (acknowledge_one-IsKept now consumer id d h))
      | inr missing ↦ rw missing (acknowledge_each-IsKept now consumer ids d h)
    ]

push_all-InDead :
    (id : ℕ) (ids : List ℕ) (es : List Entry)
    → InDead id es
    → InDead id (push_all Entries.acknowledged ids es)
unfolding push_all
push_all-InDead id [] es f = f
push_all-InDead id (j ∷ ids) es f =
    push_all-InDead id ids _ (rpush-InDead Entries.acknowledged [] id j 0 es refl f)

keep_all-InDead :
    (r : Retention) (id : ℕ) (ids : List ℕ) (es : List Entry)
    → InDead id es
    → InDead id (keep_all r Entries.acknowledged ids es)
unfolding keep_all
keep_all-InDead r id ids es f = elim (Bool-cases r.enabled) [
  | inr off ↦ rw off f
  | inl on ↦ elim (Bool-cases (ltb 0 r.queue_size)) [
    | inr unlimited ↦ rw (on, unlimited) (push_all-InDead id ids es f)
    | inl limited ↦
        rw (on, limited)
          (removed-ltrim Entries.dead_lettered Entries.acknowledged r.queue_size [] [] id
              (push_all Entries.acknowledged ids es) refl
            ∙ push_all-InDead id ids es f)
  ]
]

pub acknowledge_message-IsKept :
    (now : ℕ) (a : Audit) (consumer : Text) (ids : List ℕ) (d : Db)
    → IsKept d.entries d.message
    → let (d', _) = acknowledge_message now a consumer ids d in IsKept d'.entries d'.message
unfolding acknowledge_message IsKept
acknowledge_message-IsKept now a consumer ids d h = elim (Option-cases d.queue_type) [
  | inl n ↦ rw (n, acknowledge_message) h
  | inr (t, n) ↦ elim (Option-cases (refusal d)) [
    | inr (reason, shut) ↦ rw (n, acknowledge_message, shut) h
    | inl open' ↦
        let loop = acknowledge_each now consumer ids d in
        let kept = acknowledge_each-IsKept now consumer ids d h in
        elim (Bool-cases (ltb 0 (length loop.1))) [
          | inl some' ↦
              rw (n, acknowledge_message, open', some')
                (λ id dead.
                  keep_all-InDead a.acknowledged_messages id loop.1 loop.0.entries (kept id dead))
          | inr none' ↦ rw (n, acknowledge_message, open', none') kept
        ]
  ]
]
