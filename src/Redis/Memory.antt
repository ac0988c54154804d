-- ===== src/Redis/Memory.antt =====
-- A store in memory that obeys the laws of the interface: lists of entries, searched in order.
use go_redis_smq.Prelude.{
  ap, ◌≡◌, refl, Bool, true, false, ◌&&◌, ◌||◌, Option, none, some, List, [], ◌∷◌, if◌then◌else◌,
  any, length, arith,
}
use go_redis_smq.Prelude.Text.{Text, text_eq, text_eq_iff}
use go_redis_smq.Redis.HashSets.{HashSets}

pub record Entry : Type 0 where
  pub key : Text
  pub field : Text
  pub value : Text

pub record Store : Type 0 where
  pub hashes : List Entry
  pub sets : List (Text × Text)

unfoldable pub find_field : Text → Text → List Entry → Option Text
unfolding text_eq
find_field k f [] = none
find_field k f (e ∷ es) =
    if text_eq e.key k && text_eq e.field f then some e.value else find_field k f es

unfoldable pub has_key : Text → List Entry → Bool
unfolding text_eq
has_key k [] = false
has_key k (e ∷ es) = text_eq e.key k || has_key k es

unfoldable pub drop_key : Text → List Entry → List Entry
unfolding text_eq
drop_key k [] = []
drop_key k (e ∷ es) = let rest = drop_key k es in if text_eq k e.key then rest else e ∷ rest

unfoldable pub member : Text → Text → List (Text × Text) → Bool
unfolding text_eq
member k m [] = false
member k m ((j, n) ∷ ps) = text_eq j k && text_eq n m || member k m ps

unfoldable pub members : Text → List (Text × Text) → List Text
unfolding text_eq
members k [] = []
members k ((j, n) ∷ ps) = let rest = members k ps in if text_eq j k then n ∷ rest else rest

unfoldable pub drop_member : Text → Text → List (Text × Text) → List (Text × Text)
unfolding text_eq
drop_member k m [] = []
drop_member k m ((j, n) ∷ ps) =
    let rest = drop_member k m ps in if text_eq k j && text_eq m n then rest else (j, n) ∷ rest

unfoldable pub drop_set : Text → List (Text × Text) → List (Text × Text)
unfolding text_eq
drop_set k [] = []
drop_set k ((j, n) ∷ ps) = let rest = drop_set k ps in if text_eq k j then rest else (j, n) ∷ rest

pub find_field-drop_key :
    (j g k : Text) (es : List Entry)
    → find_field j g (drop_key k es) ≡ (if text_eq k j then none else find_field j g es)
unfolding find_field drop_key
find_field-drop_key j g k [] = ground arith
find_field-drop_key j g k (e ∷ es) =
    ground (
      arith,
      find_field-drop_key j g k es,
      text_eq_iff k e.key,
      text_eq_iff k j,
      text_eq_iff e.key j,
    )

pub has_key_of_find_field :
    (k f v : Text) (es : List Entry) → find_field k f es ≡ some v → has_key k es ≡ true
unfolding find_field has_key
has_key_of_find_field k f v [] h = cc
has_key_of_find_field k f v (e ∷ es) h = ground (arith, has_key_of_find_field k f v es)

pub member-drop_member :
    (j n k m : Text) (ps : List (Text × Text))
    → member j n (drop_member k m ps)
      ≡ (if text_eq k j && text_eq m n then false else member j n ps)
unfolding member drop_member
member-drop_member j n k m [] = ground arith
member-drop_member j n k m ((i, o) ∷ ps) = ground (
  arith,
  member-drop_member j n k m ps,
  text_eq_iff k i,
  text_eq_iff k j,
  text_eq_iff i j,
  text_eq_iff m o,
  text_eq_iff m n,
  text_eq_iff o n,
)

pub member-drop_set :
    (j n k : Text) (ps : List (Text × Text))
    → member j n (drop_set k ps) ≡ (if text_eq k j then false else member j n ps)
unfolding member drop_set
member-drop_set j n k [] = ground arith
member-drop_set j n k ((i, o) ∷ ps) =
    ground (arith, member-drop_set j n k ps, text_eq_iff k i, text_eq_iff k j, text_eq_iff i j)

text_eq_comm : (s t : Text) → text_eq s t ≡ text_eq t s
text_eq_comm s t = ground (arith, text_eq_iff s t, text_eq_iff t s)

pub any-members :
    (k m : Text) (ps : List (Text × Text)) → any (text_eq m) (members k ps) ≡ member k m ps
unfolding members member
any-members k m [] = refl
any-members k m ((j, n) ∷ ps) = ground (arith, any-members k m ps, text_eq_comm m n)

-- SADD leaves a member that is there in its place.
unfoldable pub add_member : Text → Text → Store → Store
unfolding member
add_member k m d = if member k m d.sets then d else record d { sets = (k, m) ∷ d.sets }

pub member-add_member :
    (j n k m : Text) (d : Store)
    → member j n (add_member k m d).sets
      ≡ (if text_eq k j && text_eq m n then true else member j n d.sets)
unfolding add_member member
member-add_member j n k m d = ground (arith, text_eq_iff k j, text_eq_iff m n)

pub hashes-add_member : (k m : Text) (d : Store) → (add_member k m d).hashes ≡ d.hashes
unfolding add_member
hashes-add_member k m d = ground arith

pub find_field-cons :
    (j g k f v : Text) (es : List Entry)
    → find_field j g (record { key = k; field = f; value = v } ∷ es)
      ≡ (if text_eq k j && text_eq f g then some v else find_field j g es)
unfolding find_field
find_field-cons j g k f v es = refl

abbrev pub memory : HashSets
memory = record {
  Db = Store;
  hget = λ k f d. find_field k f d.hashes;
  exists = λ k d. has_key k d.hashes;
  sismember = λ k m d. member k m d.sets;
  smembers = λ k d. members k d.sets;
  scard = λ k d. length (members k d.sets);
  hset = λ k f v d. record d { hashes = record { key = k; field = f; value = v } ∷ d.hashes };
  sadd = add_member;
  srem = λ k m d. record d { sets = drop_member k m d.sets };
  del = λ k d. record { hashes = drop_key k d.hashes; sets = drop_set k d.sets };
  hget-hset = λ j g k f v d. find_field-cons j g k f v d.hashes;
  hget-sadd = λ j g k m d. ap (find_field j g) (hashes-add_member k m d);
  hget-srem = λ j g k m d. refl;
  hget-del = λ j g k d. find_field-drop_key j g k d.hashes;
  exists_of_hget = λ k f v d. has_key_of_find_field k f v d.hashes;
  sismember-hset = λ j n k f v d. refl;
  sismember-sadd = member-add_member;
  sismember-srem = λ j n k m d. member-drop_member j n k m d.sets;
  sismember-del = λ j n k d. member-drop_set j n k d.sets;
  any-smembers = λ k m d. any-members k m d.sets;
  scard-smembers = λ k d. refl;
}
