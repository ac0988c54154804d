-- ===== src/Exchange/Routed/Watched.antt =====
-- internal/exchange/{direct,topic}.go: keys that are as they were for all that is read of them. Redis
-- lets EXEC run only if the watched keys are so.
use go_redis_smq.Prelude.{◌≡◌, refl, List, [], ◌∷◌, All}
use go_redis_smq.Prelude.Text.{Text}
use go_redis_smq.Redis.HashSets.{HashSets}

module _ (R : HashSets) where
  open R use {Db, hget, sismember}

  pub record SameKey (seen met : Db) (k : Text) : Type 0 where
    pub fields : (f : Text) → hget k f met ≡ hget k f seen
    pub members : (m : Text) → sismember k m met ≡ sismember k m seen

  abbrev pub Unchanged : List Text → Db → Db → Type 0
  Unchanged ks seen met = All (SameKey seen met) ks

  pub Unchanged-refl : (ks : List Text) (c : Db) → Unchanged ks c c
  Unchanged-refl [] c = tt
  Unchanged-refl (k ∷ ks) c =
      (record { fields = λ f. refl; members = λ m. refl }, Unchanged-refl ks c)
