-- ===== src/Exchange/Token.antt =====
-- internal/exchange/topic.go: the tokens of a binding pattern, `literalTokenRE` and
-- `validateTopicPattern`.
use go_redis_smq.Prelude.{
  ℕ, ◌≡◌, refl, ◌↔◌, ◌⊎◌, inl, inr, Bool, true, false, ◌&&◌, ◌||◌, List, [], ◌∷◌, arith, leb, ◌==◌,
  if◌then◌else◌, all, All, Bool-cases,
}
use go_redis_smq.Prelude.Text.{Text, codes, text_eq, text_eq_iff}
use go_redis_smq.Keys.{split}

-- The character classes of the expression: [A-Za-z], [A-Za-z0-9] and [-_].
unfoldable pub is_alpha : ℕ → Bool
is_alpha c = (leb b'A' c && leb c b'Z') || (leb b'a' c && leb c b'z')

unfoldable pub is_alnum : ℕ → Bool
unfolding is_alpha
is_alnum c = is_alpha c || (leb b'0' c && leb c b'9')

unfoldable pub is_joiner : ℕ → Bool
is_joiner c = c == b'-' || c == b'_'

-- What the expression `^[A-Za-z][A-Za-z0-9]*(?:[-_][A-Za-z0-9]+)*$` says, piece by piece.
-- `Tail` is what may follow an alphanumeric character of a token.
pub data Tail : Text → Type 0 where
  stop : Tail []
  alnum : {c : ℕ} {s : Text} → is_alnum c ≡ true → Tail s → Tail (c ∷ s)
  group : {c d : ℕ} {s : Text} → is_joiner c ≡ true → is_alnum d ≡ true → Tail s → Tail (c ∷ d ∷ s)

pub data LiteralToken : Text → Type 0 where
  token : {c : ℕ} {s : Text} → is_alpha c ≡ true → Tail s → LiteralToken (c ∷ s)

-- The automaton that runs the expression. `after_joiner` stands right behind a joiner.
unfoldable mutual
  unfolding is_alnum

  pub tail_ok : Text → Bool
  tail_ok [] = true
  tail_ok (c ∷ s) = is_alnum c && tail_ok s || is_joiner c && after_joiner s

  pub after_joiner : Text → Bool
  after_joiner [] = false
  after_joiner (c ∷ s) = is_alnum c && tail_ok s

-- `literalTokenRE.MatchString`
unfoldable pub is_literal_token : Text → Bool
unfolding is_alpha
is_literal_token [] = false
is_literal_token (c ∷ s) = is_alpha c && tail_ok s

abbrev pub star : Text
star = codes "*"

abbrev pub hash : Text
hash = codes "#"

-- The body of the loop of `validateTopicPattern`.
unfoldable pub token_ok : Text → Bool
unfolding text_eq is_literal_token tail_ok after_joiner
token_ok [] = false
token_ok (c ∷ s) =
    if text_eq (c ∷ s) star || text_eq (c ∷ s) hash then true else is_literal_token (c ∷ s)

unfoldable pub validate_topic_pattern : Text → Bool
unfolding token_ok split
validate_topic_pattern [] = false
validate_topic_pattern (c ∷ s) = all token_ok (split b'.' (c ∷ s))

mutual
  unfolding tail_ok after_joiner is_joiner

  tail_ok_sound : (s : Text) → tail_ok s ≡ true → Tail s
  tail_ok_sound [] h = stop
  tail_ok_sound (c ∷ s) h = elim (Bool-cases (is_alnum c && tail_ok s)) [
    | inl e ↦ alnum (ground arith) (tail_ok_sound s (ground arith))
    | inr e ↦ after_joiner_sound s c (ground arith) (ground arith)
  ]

  after_joiner_sound :
      (s : Text) (c : ℕ) → is_joiner c ≡ true → after_joiner s ≡ true → Tail (c ∷ s)
  after_joiner_sound [] c j h = ground arith
  after_joiner_sound (d ∷ s) c j h = group j (ground arith) (tail_ok_sound s (ground arith))

tail_ok_complete : {s : Text} → Tail s → tail_ok s ≡ true
unfolding tail_ok after_joiner
tail_ok_complete stop = refl
tail_ok_complete (alnum a r) = ground (arith, tail_ok_complete r)
tail_ok_complete (group j a r) = ground (arith, tail_ok_complete r)

-- The automaton accepts exactly the texts that the regular expression describes.
pub is_literal_token_iff : (s : Text) → (is_literal_token s ≡ true) ↔ LiteralToken s
unfolding is_literal_token
is_literal_token_iff [] = (λ h. cc, λ m. elim m [ ])
is_literal_token_iff (c ∷ s) =
    (λ h. token (ground arith) (tail_ok_sound s (ground arith)), literal_complete)
  where
    literal_complete : LiteralToken (c ∷ s) → (is_alpha c && tail_ok s) ≡ true
    literal_complete (token a r) = ground (arith, tail_ok_complete r)

-- A token of a valid pattern: a wildcard or a literal.
pub data PatternToken : Text → Type 0 where
  wildcard : {t : Text} → (t ≡ star) ⊎ (t ≡ hash) → PatternToken t
  plain : {t : Text} → LiteralToken t → PatternToken t

token_ok_sound : (t : Text) → token_ok t ≡ true → PatternToken t
unfolding token_ok
token_ok_sound [] h = cc
token_ok_sound (c ∷ s) h = elim (Bool-cases (text_eq (c ∷ s) star || text_eq (c ∷ s) hash)) [
  | inl e ↦ wildcard (ground (arith, text_eq_iff (c ∷ s) star, text_eq_iff (c ∷ s) hash))
  | inr e ↦ plain ((is_literal_token_iff (c ∷ s)).0 (ground arith))
]

token_ok_complete : (t : Text) → PatternToken t → token_ok t ≡ true
unfolding token_ok
token_ok_complete [] (wildcard e) = ground arith
token_ok_complete [] (plain m) = elim m [ ]
token_ok_complete (c ∷ s) (wildcard (inl e)) = rw ((text_eq_iff (c ∷ s) star).1 e)
token_ok_complete (c ∷ s) (wildcard (inr e)) = ground (arith, (text_eq_iff (c ∷ s) hash).1 e)
token_ok_complete (c ∷ s) (plain m) = ground (arith, (is_literal_token_iff (c ∷ s)).1 m)

all_tokens_iff : (ts : List Text) → (all token_ok ts ≡ true) ↔ All PatternToken ts
all_tokens_iff [] = (λ _. tt, λ _. refl)
all_tokens_iff (t ∷ ts) = (
  λ h. (token_ok_sound t (ground arith), (all_tokens_iff ts).0 (ground arith)),
  λ (m, ms). ground (arith, token_ok_complete t m, (all_tokens_iff ts).1 ms),
)

-- A pattern is valid exactly when it is a sequence of tokens joined by dots, each a wildcard or a
-- word that the regular expression describes.
pub validate_topic_pattern_iff :
    (s : Text) → (validate_topic_pattern s ≡ true) ↔ All PatternToken (split b'.' s)
unfolding validate_topic_pattern
validate_topic_pattern_iff [] = (λ h. cc, λ (m, _). absurd (empty_token m))
  where
    empty_token : PatternToken [] → ⊥
    empty_token (wildcard e) = ground arith
    empty_token (plain m) = elim m [ ]
validate_topic_pattern_iff (c ∷ s) = all_tokens_iff (split b'.' (c ∷ s))
