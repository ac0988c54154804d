-- ===== src/Exchange/Store/Checks.antt =====
-- internal/exchange/{store,validate}.go: what the checks before a binding and before a read say of
-- the stored type.
use go_redis_smq.Prelude.{ℕ, ◌≡◌, refl, arith, ok, err, some, Option, Result, >>=-eq-ok, ◌>>=◌}
use go_redis_smq.Prelude.Text.{Text}
use go_redis_smq.Prelude.Decimal.{itoa, atoi-itoa}
use go_redis_smq.Keys
use go_redis_smq.Keys.{Queue}
use go_redis_smq.Redis.HashSets.{HashSets}
use go_redis_smq.Exchange.Params.{Params, Props, Error, not_found, type_field, policy_field}
use go_redis_smq.Exchange.Store.{
  load, load_queue_type, validate_queue_binding, check_binding, int_field,
}

int_field-itoa : (t : ℕ) → int_field (some (itoa t)) ≡ ok t
unfolding int_field
int_field-itoa t = rw (atoi-itoa t, int_field)

module _ (R : HashSets) where
  open R use {Db, hget, exists_of_hget}

  load_typed :
      (e : Params) (d : Db) (t : ℕ)
      → hget (Keys.exchange_properties e.at) type_field d ≡ some (itoa t)
      → load R e d ≡ (
          int_field (hget (Keys.exchange_properties e.at) policy_field d) >>= λ p.
          ok (record { typ = t; policy = p }))
  unfolding load
  load_typed e d t h = rw (exists_of_hget _ _ _ d h, h, int_field-itoa t)

  check_typed :
      (e : Params) (queue_type t : ℕ) (o : Option Props) (policy : Result Error ℕ)
      → (policy ≡ err not_found → ⊥)
      → check_binding e queue_type (policy >>= λ p. ok (record { typ = t; policy = p })) ≡ ok o
      → t ≡ e.typ
  unfolding check_binding
  check_typed e queue_type t o (ok p) never h = ground arith
  check_typed e queue_type t o (err not_found) never h = absurd (never refl)
  check_typed e queue_type t o (err x) never h = cc

  int_field-ne-not_found : (o : Option Text) → int_field o ≡ err not_found → ⊥
  unfolding int_field
  int_field-ne-not_found o h = ground arith

  -- A binding that passes its checks is to an exchange of the type that is stored, if any is.
  pub validated_type :
      (q : Queue) (e : Params) (d : Db) (t : ℕ) (o : Option Props)
      → validate_queue_binding R e q d ≡ ok o
      → hget (Keys.exchange_properties e.at) type_field d ≡ some (itoa t)
      → t ≡ e.typ
  unfolding validate_queue_binding
  validated_type q e d t o h g =
      let (queue_type, _, checked) = >>=-eq-ok (load_queue_type R q d) _ h in
      check_typed e queue_type t o _ (int_field-ne-not_found _) (rw (load_typed e d t g) at checked)
