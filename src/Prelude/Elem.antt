-- ===== src/Prelude/Elem.antt =====
-- Membership as a family by recursion on the list, which proofs take apart.
use mathlib.Core.Path.{◌≡◌, sym, subst}
use mathlib.Core.Logic.{◌⊎◌, inl, inr}
use mathlib.Core.Bool.{Bool, true}
use mathlib.Core.List.{List, [], ◌∷◌, ◌++◌}
use native.Mathlib.Omega.{arith}
use specgate.Prelude.Lists.{select}
use Prim.Native.Nat.{Ordering}
use specgate.Prelude.Order.{insert_sorted, sort_by}

abbrev pub Elem : {A : Type 0} → A → List A → Type 0
Elem x [] = ⊥
Elem x (y ∷ ys) = (x ≡ y) ⊎ Elem x ys

-- `P` holds of every element.
abbrev pub All {ℓ κ} : {A : Type ℓ} → (A → Type κ) → List A → Type κ
All P [] = Unit
All P (x ∷ xs) = P x × All P xs

module _ {A : Type 0} where
  pub All-Elem {κ} : (P : A → Type κ) (x : A) (xs : List A) → All P xs → Elem x xs → P x
  All-Elem P x [] h e = absurd e
  All-Elem P x (y ∷ ys) h (inl p) = subst P (sym p) h.0
  All-Elem P x (y ∷ ys) h (inr e) = All-Elem P x ys h.1 e

  pub Elem-select :
      (p : A → Bool) (x : A) (xs : List A) → Elem x (select p xs) → Elem x xs × (p x ≡ true)
  Elem-select p x [] e = absurd e
  Elem-select p x (y ∷ ys) e = ground (arith, Elem-select p x ys)

  pub Elem-append : (x : A) (xs ys : List A) → Elem x (xs ++ ys) → Elem x xs ⊎ Elem x ys
  Elem-append x [] ys e = inr e
  Elem-append x (y ∷ xs) ys e = ground (arith, Elem-append x xs ys)

  module _ (cmp : A → A → Ordering) where
    Elem-insert_sorted : (x y : A) (ys : List A) → Elem x (insert_sorted cmp y ys) → Elem x (y ∷ ys)
    Elem-insert_sorted x y [] e = e
    Elem-insert_sorted x y (z ∷ zs) e = ground (arith, Elem-insert_sorted x y zs)

    pub Elem-sort_by : (x : A) (xs : List A) → Elem x (sort_by cmp xs) → Elem x xs
    Elem-sort_by x [] e = absurd e
    Elem-sort_by x (y ∷ ys) e =
        ground (arith, Elem-insert_sorted x y (sort_by cmp ys) e, Elem-sort_by x ys)

pub Elem-left : {A : Type 0} (x : A) (xs ys : List A) → Elem x xs → Elem x (xs ++ ys)
Elem-left x [] ys e = absurd e
Elem-left x (y ∷ xs) ys (inl same) = inl same
Elem-left x (y ∷ xs) ys (inr later) = inr (Elem-left x xs ys later)

pub Elem-right : {A : Type 0} (x : A) (xs ys : List A) → Elem x ys → Elem x (xs ++ ys)
Elem-right x [] ys e = e
Elem-right x (y ∷ xs) ys e = inr (Elem-right x xs ys e)
