-- ===== src/Keys/Split.antt =====
-- `strings.Split` at one separator, and the texts that hold no separator.
use go_redis_smq.Prelude.{
  ℕ, ◌≡◌, refl, true, not, List, [], ◌∷◌, ◌++◌, arith, ◌==◌, if◌then◌else◌, all,
}
use go_redis_smq.Prelude.Text.{Text}

-- The text has no code point `c`.
abbrev pub Lacks : ℕ → Text → Type 0
Lacks c s = all (λ x. not (x == c)) s ≡ true

abbrev pub cons_head : ℕ → List Text → List Text
cons_head x [] = (x ∷ []) ∷ []
cons_head x (t ∷ ts) = (x ∷ t) ∷ ts

unfoldable pub split : ℕ → Text → List Text
split c [] = [] ∷ []
split c (x ∷ xs) = let rest = split c xs in if x == c then [] ∷ rest else cons_head x rest

pub split-append : (c : ℕ) (s t : Text) → Lacks c s → split c (s ++ c ∷ t) ≡ s ∷ split c t
unfolding split
split-append c [] t h = ground arith
split-append c (x ∷ s) t h = ground (arith, split-append c s t)

pub split_unbroken : (c : ℕ) (s : Text) → Lacks c s → split c s ≡ s ∷ []
unfolding split
split_unbroken c [] h = refl
split_unbroken c (x ∷ s) h = ground (arith, split_unbroken c s)

-- A first part that lacks the separator can be read off.
pub peel :
    (c : ℕ) (s t : Text) {u v : Text}
    → Lacks c s
    → Lacks c t
    → s ++ c ∷ u ≡ t ++ c ∷ v
    → (s ≡ t) × (u ≡ v)
peel c [] [] hs ht e = ground arith
peel c [] (y ∷ t) hs ht e = ground arith
peel c (x ∷ s) [] hs ht e = ground arith
peel c (x ∷ s) (y ∷ t) {u} {v} hs ht e = ground (arith, peel c s t {u = u} {v = v})

-- The separators of a text are where it is joined: each part lacks them.
pub split-Lacks : (c : ℕ) (s : Text) → all (λ p. all (λ x. not (x == c)) p) (split c s) ≡ true
unfolding split
split-Lacks c [] = refl
split-Lacks c (x ∷ s) = go (split c s) (split-Lacks c s)
  where
    go :
        (ps : List Text)
        → all (λ p. all (λ y. not (y == c)) p) ps ≡ true
        → all (λ p. all (λ y. not (y == c)) p) (if x == c then [] ∷ ps else cons_head x ps) ≡ true
    go [] h = ground arith
    go (p ∷ ps) h = ground arith
