-- ===== src/ConsumerGroups/Stranded.antt =====
-- What becomes of the messages of a consumer group that is deleted.
use go_redis_smq.Prelude.{
  ℕ, ◌+◌, ◌≡◌, refl, ap, ◌∙◌, Bool, true, false, any, length, ◌==◌, Option, none, some, List, [],
  ◌∷◌, if◌then◌else◌, ok, inl, inr, Bool-cases, arith,
}
use go_redis_smq.Prelude.Text.{Text, text_eq, text_eq_comm}
use go_redis_smq.Prelude.Decimal.{itoa}
use go_redis_smq.Delivery.Entries
use go_redis_smq.Delivery.Entries.{Entry, of_key, entries_of}
use go_redis_smq.Delivery.Data.{type_priority, has_status}
use go_redis_smq.Producer.Resolver.{delivery_pub_sub}
use go_redis_smq.RateLimits.Store.{refused, locked_name}
use go_redis_smq.RateLimits.Unguarded.{refused-eq-none}
use go_redis_smq.ConsumerGroups.{
  Groups, state_text, guarded, objection, del_key, drop_group, delete_unless, delete_from,
  delete_consumer_group, read_deleted, delete_group,
}

label_apart :
    (label : Text) (c : ℕ) (cs : Text) → text_eq label [] ≡ true → text_eq label (c ∷ cs) ≡ false
unfolding text_eq
label_apart [] c cs h = refl
label_apart (x ∷ xs) c cs h = ground (arith, h)

of_key_apart :
    (kind other c : ℕ) (cs : Text) (e : Entry)
    → of_key kind [] e ≡ true
    → of_key other (c ∷ cs) e ≡ false
unfolding of_key
of_key_apart kind other c cs e h = let apart = label_apart e.label c cs in ground (arith, h, apart)

entries_of-del_key :
    (kind other c : ℕ) (cs : Text) (es : List Entry)
    → entries_of other (c ∷ cs) (del_key kind [] es) ≡ entries_of other (c ∷ cs) es
unfolding entries_of del_key
entries_of-del_key kind other c cs [] = refl
entries_of-del_key kind other c cs (e ∷ es) =
    let rest = entries_of-del_key kind other c cs es in
    elim (Bool-cases (of_key kind [] e)) [
      | inl h ↦ rw (h, of_key_apart kind other c cs e h) (omega (arith, rest))
      | inr h ↦ rw h (ap (λ n. (if of_key other (c ∷ cs) e then 1 else 0) + n) rest)
    ]

any-drop_group : (g : Text) (hs : List Text) → any (text_eq g) (drop_group g hs) ≡ false
unfolding drop_group
any-drop_group g [] = refl
any-drop_group g (h ∷ hs) =
    let rest = any-drop_group g hs in
    elim (Bool-cases (text_eq h g)) [
      | inl e ↦ rw e rest
      | inr e ↦ rw (e, text_eq_comm g h ∙ e) rest
    ]

unguarded :
    (state : Option ℕ) (lock : Text)
    → refused locked_name []
        (record { operational_state = state_text state; lock_id = some lock; rate_limit = none })
      ≡ none
unfolding refused
unguarded none lock = refl
unguarded (some s) lock =
    refused-eq-none s
      (record { operational_state = some (itoa s); lock_id = some lock; rate_limit = none }) refl

objection-eq-none :
    (r : Option Text) (pub_sub : Bool) (consumers count : ℕ)
    → r ≡ none
    → pub_sub ≡ true
    → consumers ≡ 0
    → count ≡ 0
    → objection r pub_sub consumers count ≡ none
unfolding objection
objection-eq-none r p consumers count e f g h = rw (e, f, g, h) refl

-- Delete of a consumer group that has no consumers returns nil whatever messages wait in the group's
-- own lists, and leaves them there, with the group unknown to the queue: if the queue exists, is of
-- the publish and subscribe model, and nothing is in the lists of the queue that are no group's. The
-- group's id is not empty. A locked queue is no exception.
pub delete_group_strands :
    (c : ℕ) (cs : Text) (queue_type : ℕ) (w : Groups)
    → w.db.queue_type ≡ some queue_type
    → has_status delivery_pub_sub w.delivery_model ≡ true
    → length (w.members (c ∷ cs)) ≡ 0
    → entries_of Entries.priority [] w.db.entries ≡ 0
    → entries_of Entries.pending [] w.db.entries ≡ 0
    → let (w', result) = delete_group (c ∷ cs) w in
      (result ≡ ok tt)
      × (any (text_eq (c ∷ cs)) w'.db.groups ≡ false)
      × ((kind : ℕ)
          → entries_of kind (c ∷ cs) w'.db.entries ≡ entries_of kind (c ∷ cs) w.db.entries)
unfolding delete_group delete_consumer_group delete_from delete_unless read_deleted text_eq
delete_group_strands c cs queue_type w exists model consumers priority pending =
    let g : Text = c ∷ cs in
    let count : ℕ =
      if queue_type == type_priority
      then entries_of Entries.priority [] w.db.entries
      else entries_of Entries.pending [] w.db.entries in
    let none_wait : count ≡ 0 = ground (arith, priority, pending) in
    let no_objection =
      objection-eq-none (refused locked_name [] (guarded w.db))
        (has_status delivery_pub_sub w.delivery_model) (length (w.members g)) count
        (unguarded w.db.operational_state w.db.lock_id) model consumers none_wait in
    let done =
      ap (delete_from g [] [] locked_name [] w) exists
      ∙ ap (delete_unless g [] [] w) no_objection in
    (
      ap (λ r. read_deleted r.1) done,
      ap (λ r. any (text_eq g) r.0.db.groups) done ∙ any-drop_group g w.db.groups,
      λ kind.
          ap (λ r. entries_of kind g r.0.db.entries) done
          ∙ entries_of-del_key Entries.priority kind c cs (del_key Entries.pending [] w.db.entries)
          ∙ entries_of-del_key Entries.pending kind c cs w.db.entries,
    )
