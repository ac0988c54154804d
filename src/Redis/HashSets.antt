-- ===== src/Redis/HashSets.antt =====
-- Hashes and sets, with the documented effect of each command on each reply. A command names its
-- key first, as the client does. Each key is used with one type only, and a hash or a set that
-- has no member does not exist.
use go_redis_smq.Prelude.{
  ℕ, ◌≡◌, Bool, true, false, ◌&&◌, Option, none, some, List, if◌then◌else◌, any, length,
}
use go_redis_smq.Prelude.Text.{Text, text_eq}

pub record HashSets : Type 1 where
  pub Db : Type 0
  pub hget : Text → Text → Db → Option Text
  pub exists : Text → Db → Bool
  pub sismember : Text → Text → Db → Bool
  pub smembers : Text → Db → List Text
  pub scard : Text → Db → ℕ
  pub hset : Text → Text → Text → Db → Db
  pub sadd : Text → Text → Db → Db
  pub srem : Text → Text → Db → Db
  pub del : Text → Db → Db
  pub hget-hset :
      (j g k f v : Text) (d : Db)
      → hget j g (hset k f v d) ≡ (if text_eq k j && text_eq f g then some v else hget j g d)
  pub hget-sadd : (j g k m : Text) (d : Db) → hget j g (sadd k m d) ≡ hget j g d
  pub hget-srem : (j g k m : Text) (d : Db) → hget j g (srem k m d) ≡ hget j g d
  pub hget-del :
      (j g k : Text) (d : Db) → hget j g (del k d) ≡ (if text_eq k j then none else hget j g d)
  pub exists_of_hget : (k f v : Text) (d : Db) → hget k f d ≡ some v → exists k d ≡ true
  pub sismember-hset : (j n k f v : Text) (d : Db) → sismember j n (hset k f v d) ≡ sismember j n d
  pub sismember-sadd :
      (j n k m : Text) (d : Db)
      → sismember j n (sadd k m d) ≡ (if text_eq k j && text_eq m n then true else sismember j n d)
  pub sismember-srem :
      (j n k m : Text) (d : Db)
      → sismember j n (srem k m d) ≡ (if text_eq k j && text_eq m n then false else sismember j n d)
  pub sismember-del :
      (j n k : Text) (d : Db)
      → sismember j n (del k d) ≡ (if text_eq k j then false else sismember j n d)
  -- SMEMBERS lists the members, each once, and SCARD counts them.
  pub any-smembers : (k m : Text) (d : Db) → any (text_eq m) (smembers k d) ≡ sismember k m d
  pub scard-smembers : (k : Text) (d : Db) → scard k d ≡ length (smembers k d)
