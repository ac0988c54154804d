-- ===== src/Tests/Grouping.antt =====
-- Consumer groups on a concrete queue.
use go_redis_smq.Prelude.{ℕ, ◌≡◌, refl, false, any, some, [], ◌∷◌, ok, err}
use go_redis_smq.Prelude.Text.{Text, codes, text_eq}
use go_redis_smq.Prelude.Decimal.{itoa}
use go_redis_smq.Keys.{is_letter, is_valid_key_char}
use go_redis_smq.Delivery.Entries
use go_redis_smq.Delivery.Entries.{entries_of}
use go_redis_smq.Delivery.Data.{Db}
use go_redis_smq.Delivery.Publish.{objection}
use go_redis_smq.Delivery.Calls.{dispatches, run}
use go_redis_smq.ConsumerGroups
use go_redis_smq.ConsumerGroups.{
  Groups, Error, invalid_group_id, not_supported, has_active_consumers, save_group, delete_group,
  list_groups, del_key, drop_group,
}
use go_redis_smq.ConsumerGroups.Stranded.{delete_group_strands}
use go_redis_smq.Producer.Resolver.{delivery_pub_sub}
use go_redis_smq.Tests.Deliveries.{next_tick, empty_queue, audit, parcel}

abbrev group : Text
group = codes "g"

abbrev no_groups : Groups
no_groups = record { db = empty_queue; delivery_model = some delivery_pub_sub; members = λ _. [] }

saved : list_groups (save_group (λ c. c) group no_groups).0 ≡ group ∷ []
unfolding save_group text_eq is_letter is_valid_key_char
saved = refl

not_saved : (save_group (λ c. c) (codes "g:") no_groups).1 ≡ err invalid_group_id
unfolding save_group text_eq is_letter is_valid_key_char
not_saved = refl

-- A message waits for the group.
abbrev waiting : Db
waiting =
    run next_tick audit ((10, dispatches (record (parcel 7) { group = group })) ∷ [])
      (record empty_queue { groups = group ∷ [] })

abbrev one_waits : Groups
one_waits = record { db = waiting; delivery_model = some delivery_pub_sub; members = λ _. [] }

waits : entries_of Entries.pending group one_waits.db.entries ≡ 1
unfolding run objection entries_of text_eq
waits = refl

in_use :
    (delete_group group (record one_waits { members = λ _. codes "c" ∷ [] })).1
    ≡ err has_active_consumers
unfolding delete_group run objection text_eq ConsumerGroups.objection itoa
in_use = refl

delete_group_strands_example :
    let (w', result) = delete_group group one_waits in
    (result ≡ ok tt)
    × (any (text_eq group) w'.db.groups ≡ false)
    × ((kind : ℕ)
        → entries_of kind group w'.db.entries ≡ entries_of kind group one_waits.db.entries)
unfolding run objection entries_of text_eq
delete_group_strands_example = delete_group_strands 103 [] 1 one_waits refl refl refl refl refl
