-- ===== src/Prelude/Text.antt =====
-- Texts as lists of code points, with their equality test.
use go_redis_smq.Prelude.Tests.{Bool-ext, &&-true, ◌==◌, Bool-cases}
use go_redis_smq.Prelude.Lists.{any, length}
use Prim.Native.Nat.{ℕ}
use Prim.Native.Char.{code}
use Prim.Native.String.{String}
use mathlib.Core.Path.{subst, ◌≡◌, refl}
use mathlib.Core.Logic.{◌↔◌, ◌≢◌, inl, inr}
use mathlib.Core.Bool.{Bool, true, false, ◌&&◌}
use mathlib.Core.List.{List, [], ◌∷◌}
use native.Mathlib.Omega.{arith}

abbrev pub Text : Type 0
Text = List ℕ

-- The code points of a literal.
abbrev pub codes : String → Text
codes String.[] = []
codes (String.◌∷◌ c s) = code c ∷ codes s

unfoldable pub text_eq : Text → Text → Bool
text_eq [] [] = true
text_eq (a ∷ s) (b ∷ t) = a == b && text_eq s t
text_eq _ _ = false

pub text_eq_refl : (s : Text) → text_eq s s ≡ true
unfolding text_eq
text_eq_refl [] = refl
text_eq_refl (a ∷ s) = ground (arith, text_eq_refl s)

pub eq_of_text_eq : (s t : Text) → text_eq s t ≡ true → s ≡ t
unfolding text_eq
eq_of_text_eq [] [] h = refl
eq_of_text_eq [] (b ∷ t) h = ground arith
eq_of_text_eq (a ∷ s) [] h = ground arith
eq_of_text_eq (a ∷ s) (b ∷ t) h = ground (arith, eq_of_text_eq s t)

pub text_eq_iff : (s t : Text) → (text_eq s t ≡ true) ↔ (s ≡ t)
text_eq_iff s t = (eq_of_text_eq s t, λ e. rw e (text_eq_refl t))

pub text_eq_ne : (s t : Text) → s ≢ t → text_eq s t ≡ false
text_eq_ne s t n = ground (arith, text_eq_iff s t)

-- A test of one equation that stands for two.
pub text_eq_both :
    (j k a b c d : Text)
    → (j ≡ k → (a ≡ b) × (c ≡ d))
    → (a ≡ b → c ≡ d → j ≡ k)
    → text_eq j k ≡ (text_eq a b && text_eq c d)
text_eq_both j k a b c d f g =
    Bool-ext (text_eq j k) (text_eq a b && text_eq c d)
      (λ t.
        let (p, q) = f (eq_of_text_eq j k t) in
        rw ((text_eq_iff a b).1 p, (text_eq_iff c d).1 q) refl)
      (λ t.
        let (p, q) = &&-true t in
        (text_eq_iff j k).1 (g (eq_of_text_eq a b p) (eq_of_text_eq c d q)))

-- The same for three.
pub text_eq_three :
    (j k a b c d x y : Text)
    → (j ≡ k → (a ≡ b) × (c ≡ d) × (x ≡ y))
    → (a ≡ b → c ≡ d → x ≡ y → j ≡ k)
    → text_eq j k ≡ ((text_eq a b && text_eq c d) && text_eq x y)
text_eq_three j k a b c d x y f g =
    Bool-ext (text_eq j k) ((text_eq a b && text_eq c d) && text_eq x y)
      (λ t.
        let (p, q, r) = f (eq_of_text_eq j k t) in
        rw ((text_eq_iff a b).1 p, (text_eq_iff c d).1 q, (text_eq_iff x y).1 r) refl)
      (λ t.
        let (pq, r) = &&-true t in
        let (p, q) = &&-true pq in
        (text_eq_iff j k).1 (g (eq_of_text_eq a b p) (eq_of_text_eq c d q) (eq_of_text_eq x y r)))

pub text_eq_comm : (s t : Text) → text_eq s t ≡ text_eq t s
text_eq_comm s t = ground (arith, text_eq_iff s t, text_eq_iff t s)

-- A member that passes a test shows that some member does.
pub any_of_member :
    (f : Text → Bool) (m : Text) (xs : List Text)
    → any (text_eq m) xs ≡ true
    → f m ≡ true
    → any f xs ≡ true
any_of_member f m [] h p = h
any_of_member f m (x ∷ xs) h p = elim (Bool-cases (text_eq m x)) [
  | inl e ↦ rw (subst (λ y. f y ≡ true) (eq_of_text_eq m x e) p) refl
  | inr e ↦ ground (arith, any_of_member f m xs)
]

-- A list of one holds one text.
pub member_unique :
    (a b : Text) (xs : List Text)
    → length xs ≡ 1
    → any (text_eq a) xs ≡ true
    → any (text_eq b) xs ≡ true
    → a ≡ b
member_unique a b [] h p q = cc
member_unique a b (x ∷ []) h p q = ground (arith, text_eq_iff a x, text_eq_iff b x)
member_unique a b (x ∷ y ∷ xs) h p q = absurd (omega arith)
