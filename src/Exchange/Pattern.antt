-- ===== src/Exchange/Pattern.antt =====
-- internal/exchange/topic.go: `matchTopicPattern`, against the meaning of the wildcards.
use go_redis_smq.Prelude.{
  ◌≡◌, ◌≢◌, refl, ◌↔◌, inl, inr, Bool, true, false, List, [], ◌∷◌, arith, if◌then◌else◌, Bool-cases,
}
use go_redis_smq.Prelude.Text.{Text, text_eq, text_eq_iff}
use go_redis_smq.Keys.{split}
use go_redis_smq.Exchange.Token.{star, hash}

-- The loop `for i := 0; i <= len(r); i++` over what is left of the key after `i` tokens.
unfoldable pub any_suffix : (List Text → Bool) → List Text → Bool
any_suffix f [] = f []
any_suffix f (t ∷ r) = if f (t ∷ r) then true else any_suffix f r

-- The key is exhausted: only `#` may be left of the pattern.
unfoldable pub all_hash : List Text → Bool
all_hash [] = true
all_hash (t ∷ p) = if text_eq t hash then all_hash p else false

unfoldable pub match_topic_tokens : List Text → List Text → Bool
unfolding any_suffix all_hash
match_topic_tokens [] [] = true
match_topic_tokens (t ∷ r) [] = false
match_topic_tokens [] (q ∷ p) = all_hash (q ∷ p)
match_topic_tokens (t ∷ r) (q ∷ p) =
    let rest = match_topic_tokens r p in
    let tries = any_suffix (λ s. match_topic_tokens s p) (t ∷ r) in
    if text_eq q hash
    then tries
    else (if text_eq q star then rest else (if text_eq t q then rest else false))

unfoldable pub match_topic_pattern : Text → Text → Bool
unfolding match_topic_tokens split
match_topic_pattern routing_key pattern_text =
    match_topic_tokens (split b'.' routing_key) (split b'.' pattern_text)

-- The meaning of a pattern: `*` stands for one token, `#` for any number of them, and any other
-- token for itself.
pub data Matches : List Text → List Text → Type 0 where
  done : Matches [] []
  one : {t q : Text} {r p : List Text} → q ≡ star → Matches r p → Matches (t ∷ r) (q ∷ p)
  none_of : {q : Text} {r p : List Text} → q ≡ hash → Matches r p → Matches r (q ∷ p)
  more : {t q : Text} {r p : List Text} → q ≡ hash → Matches r (q ∷ p) → Matches (t ∷ r) (q ∷ p)
  literal :
      {t q : Text} {r p : List Text}
      → q ≢ star
      → q ≢ hash
      → t ≡ q
      → Matches r p
      → Matches (t ∷ r) (q ∷ p)

any_suffix_sound :
    (f : List Text → Bool) (q : Text) (p r : List Text)
    → q ≡ hash
    → ((s : List Text) → f s ≡ true → Matches s p)
    → any_suffix f r ≡ true
    → Matches r (q ∷ p)
unfolding any_suffix
any_suffix_sound f q p [] e ih h = none_of e (ih [] h)
any_suffix_sound f q p (t ∷ r) e ih h = elim (Bool-cases (f (t ∷ r))) [
  | inl here ↦ none_of e (ih (t ∷ r) here)
  | inr there ↦ more e (any_suffix_sound f q p r e ih (ground arith))
]

any_suffix_here : (f : List Text → Bool) (r : List Text) → f r ≡ true → any_suffix f r ≡ true
unfolding any_suffix
any_suffix_here f [] h = h
any_suffix_here f (t ∷ r) h = rw h

any_suffix_complete :
    (f : List Text → Bool) {q : Text} {p r : List Text}
    → q ≡ hash
    → ((s : List Text) → Matches s p → f s ≡ true)
    → Matches r (q ∷ p)
    → any_suffix f r ≡ true
unfolding any_suffix
any_suffix_complete f e ih (one star_q m) = ground arith
any_suffix_complete f {r = r} e ih (none_of _ m) = any_suffix_here f r (ih r m)
any_suffix_complete f {r = t ∷ r} e ih (more _ m) = ground (arith, any_suffix_complete f e ih m)
any_suffix_complete f e ih (literal _ not_hash _ m) = absurd (not_hash e)

all_hash_sound : (p : List Text) → all_hash p ≡ true → Matches [] p
unfolding all_hash
all_hash_sound [] h = done
all_hash_sound (q ∷ p) h =
    none_of (ground (arith, text_eq_iff q hash)) (all_hash_sound p (ground arith))

all_hash_complete : (p : List Text) → Matches [] p → all_hash p ≡ true
unfolding all_hash
all_hash_complete [] m = refl
all_hash_complete (q ∷ p) (none_of e m) = ground (arith, text_eq_iff q hash, all_hash_complete p m)

match_sound : (r p : List Text) → match_topic_tokens r p ≡ true → Matches r p
unfolding match_topic_tokens
match_sound [] [] h = done
match_sound (t ∷ r) [] h = ground arith
match_sound [] (q ∷ p) h = all_hash_sound (q ∷ p) h
match_sound (t ∷ r) (q ∷ p) h = elim (Bool-cases (text_eq q hash)) [
  | inl e ↦
      any_suffix_sound (λ s. match_topic_tokens s p) q p (t ∷ r) ((text_eq_iff q hash).0 e)
        (λ s. match_sound s p) (ground arith)
  | inr e ↦ elim (Bool-cases (text_eq q star)) [
    | inl s ↦ one ((text_eq_iff q star).0 s) (match_sound r p (ground arith))
    | inr s ↦
        literal (ground (arith, text_eq_iff q star)) (ground (arith, text_eq_iff q hash))
          (ground (arith, text_eq_iff t q)) (match_sound r p (ground arith))
  ]
]

star-ne-hash : (q : Text) → q ≡ star → text_eq q hash ≡ false
unfolding text_eq
star-ne-hash q e = rw e

match_complete : (r p : List Text) → Matches r p → match_topic_tokens r p ≡ true
unfolding match_topic_tokens
match_complete [] [] m = refl
match_complete (t ∷ r) [] m = elim m [ ]
match_complete [] (q ∷ p) m = all_hash_complete (q ∷ p) m
match_complete (t ∷ r) (q ∷ p) (one e m) =
    rw (star-ne-hash q e, (text_eq_iff q star).1 e) (match_complete r p m)
match_complete (t ∷ r) (q ∷ p) (none_of e m) = rw ((text_eq_iff q hash).1 e) (
    any_suffix_complete (λ s. match_topic_tokens s p) e (λ s. match_complete s p)
      (none_of {r = t ∷ r} e m))
match_complete (t ∷ r) (q ∷ p) (more e m) = rw ((text_eq_iff q hash).1 e) (
    any_suffix_complete (λ s. match_topic_tokens s p) e (λ s. match_complete s p)
      (more {t = t} e m))
match_complete (t ∷ r) (q ∷ p) (literal not_star not_hash e m) =
    ground (arith, text_eq_iff q star, text_eq_iff q hash, text_eq_iff t q, match_complete r p m)

-- The matcher decides the meaning of the wildcards: a routing key is accepted exactly when its
-- tokens can be read off the pattern's tokens, `*` standing for one token and `#` for any number.
pub match_topic_pattern_iff :
    (routing_key pattern_text : Text)
    → (match_topic_pattern routing_key pattern_text ≡ true)
      ↔ Matches (split b'.' routing_key) (split b'.' pattern_text)
unfolding match_topic_pattern
match_topic_pattern_iff routing_key pattern_text = (match_sound _ _, match_complete _ _)
