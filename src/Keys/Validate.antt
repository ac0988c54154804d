-- ===== src/Keys/Validate.antt =====
-- pkg/redis/validate_key.go: the names that queues, exchanges and namespaces may have.
-- A text is its code points. A code point from 128 on is two or more bytes, all from 128 on, so the
-- byte loop of the source refuses it as `is_valid_key_char` does.
use go_redis_smq.Prelude.{
  ℕ, ◌+◌, ◌≡◌, refl, Bool, true, ◌&&◌, ◌||◌, Option, none, some, [], ◌∷◌, map, arith, leb, ltb,
  ◌==◌, if◌then◌else◌, all, All, ◌↔◌, ◌⊎◌, ◌≤◌, sym, subst, not,
}
use go_redis_smq.Prelude.Text.{Text}
use go_redis_smq.Keys.Build.{sep}
use go_redis_smq.Keys.Split.{Lacks}

unfoldable pub is_letter : ℕ → Bool
is_letter c = leb b'a' c && leb c b'z'

unfoldable pub is_digit : ℕ → Bool
is_digit c = leb b'0' c && leb c b'9'

unfoldable pub is_valid_key_char : ℕ → Bool
unfolding is_letter is_digit
is_valid_key_char c = is_letter c || is_digit c || c == b'-' || c == b'_' || c == b'.'

-- The name after `strings.ToLower`, `ErrInvalidKey` as `none`.
unfoldable pub check_key : Text → Option Text
unfolding is_letter is_valid_key_char
check_key [] = none
check_key (c ∷ cs) =
    if is_letter c then (if all is_valid_key_char cs then some (c ∷ cs) else none) else none

-- The names the validation is to let through.
abbrev pub IsKey : Text → Type 0
IsKey [] = ⊥
IsKey (c ∷ cs) = (is_letter c ≡ true) × (all is_valid_key_char cs ≡ true)

-- `unicode_lower` stands for `unicode.ToLower` on the code points that are not ASCII.
module _ (unicode_lower : ℕ → ℕ) where
  -- `strings.ToLower` on one code point.
  unfoldable pub lower : ℕ → ℕ
  lower c = if ltb c 128 then (if leb b'A' c && leb c b'Z' then c + 32 else c) else unicode_lower c

  unfoldable pub validate_key : Text → Option Text
  unfolding lower check_key
  validate_key [] = none
  validate_key (c ∷ cs) = check_key (map lower (c ∷ cs))

check_key-eq-some : (s k : Text) → (check_key s ≡ some k) ↔ ((k ≡ s) × IsKey s)
unfolding check_key
check_key-eq-some [] k = ground arith
check_key-eq-some (c ∷ cs) k = ground arith

-- A letter or a valid character is ASCII and in lower case already.
lower_valid :
    (unicode_lower : ℕ → ℕ) (c : ℕ) → is_valid_key_char c ≡ true → lower unicode_lower c ≡ c
unfolding is_valid_key_char lower
lower_valid unicode_lower c h = ground arith

map-lower_valid :
    (unicode_lower : ℕ → ℕ) (cs : Text)
    → all is_valid_key_char cs ≡ true
    → map (lower unicode_lower) cs ≡ cs
map-lower_valid unicode_lower [] h = refl
map-lower_valid unicode_lower (c ∷ cs) h =
    ground (arith, lower_valid unicode_lower c, map-lower_valid unicode_lower cs)

letter-valid : (c : ℕ) → is_letter c ≡ true → is_valid_key_char c ≡ true
unfolding is_valid_key_char
letter-valid c h = ground arith

IsKey-lower : (unicode_lower : ℕ → ℕ) (k : Text) → IsKey k → map (lower unicode_lower) k ≡ k
IsKey-lower unicode_lower [] h = absurd h
IsKey-lower unicode_lower (c ∷ cs) h =
    map-lower_valid unicode_lower (c ∷ cs) (ground (arith, letter-valid c))

-- The names as `ValidateKey` documents them: a letter, then letters, digits, hyphens, underscores and
-- dots, by their code points.
abbrev pub IsLowerCase : ℕ → Type 0
IsLowerCase c = (97 ≤ c) × (c ≤ 122)

abbrev pub IsNameChar : ℕ → Type 0
IsNameChar c = IsLowerCase c ⊎ ((48 ≤ c) × (c ≤ 57)) ⊎ (c ≡ 45) ⊎ (c ≡ 95) ⊎ (c ≡ 46)

abbrev pub IsName : Text → Type 0
IsName [] = ⊥
IsName (c ∷ cs) = IsLowerCase c × All IsNameChar cs

is_letter_iff : (c : ℕ) → (is_letter c ≡ true) ↔ IsLowerCase c
unfolding is_letter
is_letter_iff c = ground arith

is_valid_key_char_iff : (c : ℕ) → (is_valid_key_char c ≡ true) ↔ IsNameChar c
unfolding is_valid_key_char is_letter is_digit
is_valid_key_char_iff c = ground arith

all-valid_iff : (cs : Text) → (all is_valid_key_char cs ≡ true) ↔ All IsNameChar cs
all-valid_iff [] = (λ h. tt, λ h. refl)
all-valid_iff (c ∷ cs) =
    let here = is_valid_key_char_iff c in
    let rest = all-valid_iff cs in
    (
      λ h. (here.0 (ground (arith, h)), rest.0 (ground (arith, h))),
      λ (h, hs). let a = here.1 h in let b = rest.1 hs in ground (arith, a, b),
    )

IsKey-iff : (k : Text) → IsKey k ↔ IsName k
IsKey-iff [] = (λ h. h, λ h. h)
IsKey-iff (c ∷ cs) =
    let first = is_letter_iff c in
    let rest = all-valid_iff cs in
    (λ (h, hs). (first.0 h, rest.0 hs), λ (h, hs). (first.1 h, rest.1 hs))

validate_key-IsKey_iff :
    (unicode_lower : ℕ → ℕ) (s k : Text)
    → (validate_key unicode_lower s ≡ some k) ↔ ((k ≡ map (lower unicode_lower) s) × IsKey k)
unfolding validate_key
validate_key-IsKey_iff unicode_lower [] k = (λ h. cc, λ (e, good). absurd (subst IsKey e good))
validate_key-IsKey_iff unicode_lower (c ∷ cs) k =
    let lowered = map (lower unicode_lower) (c ∷ cs) in
    let checked = check_key-eq-some lowered k in
    (
      λ h. ((checked.0 h).0, subst IsKey (sym (checked.0 h).0) (checked.0 h).1),
      λ (e, good). checked.1 (e, subst IsKey e good),
    )

-- The validation accepts a text exactly when its lower-case form is a letter and then letters,
-- digits, hyphens, underscores and dots, all of ASCII, and returns that form.
pub validate_key-eq-some :
    (unicode_lower : ℕ → ℕ) (s k : Text)
    → (validate_key unicode_lower s ≡ some k) ↔ ((k ≡ map (lower unicode_lower) s) × IsName k)
validate_key-eq-some unicode_lower s k =
    let both = validate_key-IsKey_iff unicode_lower s k in
    let names = IsKey-iff k in
    (λ h. ((both.0 h).0, names.0 (both.0 h).1), λ (e, good). both.1 (e, names.1 good))

-- A validated name is a key name, and validating it again returns it unchanged.
pub validate_key-IsKey :
    (unicode_lower : ℕ → ℕ) (s k : Text)
    → validate_key unicode_lower s ≡ some k
    → IsKey k × (validate_key unicode_lower k ≡ some k)
validate_key-IsKey unicode_lower s k h =
    let good = ((validate_key-IsKey_iff unicode_lower s k).0 h).1 in
    (
      good,
      (validate_key-IsKey_iff unicode_lower k k).1 (sym (IsKey-lower unicode_lower k good), good),
    )

valid-ne-sep : (c : ℕ) → is_valid_key_char c ≡ true → not (c == sep) ≡ true
unfolding is_valid_key_char
valid-ne-sep c h = ground arith

all-valid-Lacks : (cs : Text) → all is_valid_key_char cs ≡ true → Lacks sep cs
all-valid-Lacks [] h = refl
all-valid-Lacks (c ∷ cs) h = ground (arith, valid-ne-sep c, all-valid-Lacks cs)

-- A key name holds no separator.
pub IsKey-Lacks : (k : Text) → IsKey k → Lacks sep k
IsKey-Lacks [] h = absurd h
IsKey-Lacks (c ∷ cs) h = all-valid-Lacks (c ∷ cs) (ground (arith, letter-valid c))
