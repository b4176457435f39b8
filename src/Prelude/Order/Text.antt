-- ===== src/Prelude/Order/Text.antt =====
-- The order of texts, character by character, is transitive.
use Prim.Native.Nat.{ℕ, Ordering, compare as compare_ℕ}
use Prim.Native.Char.{code}
use Prim.Native.String.{String, [], ◌∷◌, then, compare}
use Prim.Native.String.compare
use mathlib.Core.Path.{◌≡◌, ◌∙◌, sym}
use native.Mathlib.Omega.{arith}

lt_not_eq : ¬ (Ordering.lt ≡ Ordering.eq)
lt_not_eq h = ground arith

lt_not_gt : ¬ (Ordering.lt ≡ Ordering.gt)
lt_not_gt h = ground arith

then-gt :
    (m n : ℕ) (p q : Ordering)
    → then (compare_ℕ m n) p ≡ Ordering.gt
    → (p ≡ Ordering.gt → q ≡ Ordering.lt)
    → then (compare_ℕ n m) q ≡ Ordering.lt
unfolding then
then-gt m n p q h step = ground arith

-- What is after a text is a text that it is before.
pub string-gt : (s t : String) → compare s t ≡ Ordering.gt → compare t s ≡ Ordering.lt
string-gt [] [] h = absurd (ground (arith, sym h ∙ compare.nil-nil))
string-gt [] (d ∷ t) h = absurd (lt_not_gt (sym (compare.nil-cons d t) ∙ h))
string-gt (c ∷ s) [] h = compare.nil-cons c s
string-gt (c ∷ s) (d ∷ t) h =
    compare.cons-cons d c t s
    ∙ then-gt (code c) (code d) (compare s t) (compare t s) (sym (compare.cons-cons c d s t) ∙ h)
        (string-gt s t)

then-lt_trans :
    (m n k : ℕ) (p q r : Ordering)
    → then (compare_ℕ m n) p ≡ Ordering.lt
    → then (compare_ℕ n k) q ≡ Ordering.lt
    → (p ≡ Ordering.lt → q ≡ Ordering.lt → r ≡ Ordering.lt)
    → then (compare_ℕ m k) r ≡ Ordering.lt
unfolding then
then-lt_trans m n k p q r h g step = ground arith

pub string-lt_trans :
    (s t u : String)
    → compare s t ≡ Ordering.lt
    → compare t u ≡ Ordering.lt
    → compare s u ≡ Ordering.lt
string-lt_trans [] [] u h g = absurd (lt_not_eq (sym h ∙ compare.nil-nil))
string-lt_trans (c ∷ s) [] u h g = absurd (lt_not_gt (sym h ∙ compare.cons-nil c s))
string-lt_trans [] (d ∷ t) [] h g = absurd (lt_not_gt (sym g ∙ compare.cons-nil d t))
string-lt_trans [] (d ∷ t) (e ∷ u) h g = compare.nil-cons e u
string-lt_trans (c ∷ s) (d ∷ t) [] h g = absurd (lt_not_gt (sym g ∙ compare.cons-nil d t))
string-lt_trans (c ∷ s) (d ∷ t) (e ∷ u) h g =
    compare.cons-cons c e s u
    ∙ then-lt_trans (code c) (code d) (code e) (compare s t) (compare t u) (compare s u)
        (sym (compare.cons-cons c d s t) ∙ h) (sym (compare.cons-cons d e t u) ∙ g)
        (string-lt_trans s t u)
