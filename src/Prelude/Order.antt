-- ===== src/Prelude/Order.antt =====
-- Ordered keys, and the ordered maps and sets of the source as lists in key order.
pub mod Laws
pub mod Text
pub mod Sets
use Prim.Native.Nat.{Ordering}
use Prim.Native.String.{String}
use Prim.Native.String
use mathlib.Core.Path.{◌≡◌}
use mathlib.Core.Logic.{◌↔◌}
use mathlib.Core.Bool.{Bool, true, false}
use mathlib.Core.Option.{Option, none, some}
use mathlib.Core.List.{List, [], ◌∷◌}
use text.Mathlib.TextEquality.{path_by_compare}
use text.Mathlib.TextPositions.{compare_refl}

-- `Ord`, of which `PartialEq` is the answer `eq`.
pub record Order {ℓ} (K : Type ℓ) : Type ℓ where
  pub cmp : K → K → Ordering
  pub cmp_iff : (a b : K) → (cmp a b ≡ Ordering.eq) ↔ (a ≡ b)

abbrev pub is_eq : Ordering → Bool
is_eq Ordering.eq = true
is_eq _ = false

-- `Ordering::then`
abbrev pub then_cmp : Ordering → Ordering → Ordering
then_cmp Ordering.eq o = o
then_cmp r o = r

pub compare-eq : (a b : String) → a ≡ b → String.compare a b ≡ Ordering.eq
compare-eq a b h = rw h (compare_refl b)

instance abbrev pub string_order : Order String
string_order = record {
  cmp = String.compare;
  cmp_iff = λ a b. (path_by_compare a b, compare-eq a b);
}

-- `BTreeMap`: entries in the order of the keys.
abbrev pub Dict {ℓ κ} : Type ℓ → Type κ → Type (ℓ ⊔ κ)
Dict K V = List (K × V)

module _ {ℓ κ} {K : Type ℓ} {V : Type κ} ⦃o : Order K⦄ where
  abbrev pub get : Dict K V → K → Option V
  get [] k = none
  get ((j, v) ∷ m) k = let rest = get m k in elim (o.cmp k j) [ Ordering.eq ↦ some v | _ ↦ rest ]

  abbrev pub insert : K → V → Dict K V → Dict K V
  insert k v [] = (k, v) ∷ []
  insert k v ((j, w) ∷ m) =
      let rest = insert k v m in
      elim (o.cmp k j) [
        | Ordering.lt ↦ (k, v) ∷ (j, w) ∷ m
        | Ordering.eq ↦ (j, v) ∷ m
        | Ordering.gt ↦ (j, w) ∷ rest
      ]

  abbrev pub contains_key : Dict K V → K → Bool
  contains_key m k = elim (get m k) [ none ↦ false | some v ↦ true ]

  abbrev pub keys : Dict K V → List K
  keys [] = []
  keys ((k, v) ∷ m) = k ∷ keys m

-- `BTreeSet`: elements in order.
module _ {ℓ} {K : Type ℓ} ⦃o : Order K⦄ where
  abbrev pub insert_key : K → List K → List K
  insert_key k [] = k ∷ []
  insert_key k (j ∷ s) =
      let rest = insert_key k s in
      elim (o.cmp k j) [ Ordering.lt ↦ k ∷ j ∷ s | Ordering.eq ↦ j ∷ s | Ordering.gt ↦ j ∷ rest ]

  -- `collect::<BTreeSet<_>>()`
  abbrev pub key_set : List K → List K
  key_set [] = []
  key_set (k ∷ ks) = insert_key k (key_set ks)

  abbrev pub has_key : K → List K → Bool
  has_key k [] = false
  has_key k (j ∷ s) = let rest = has_key k s in elim (o.cmp k j) [ Ordering.eq ↦ true | _ ↦ rest ]

-- `sort_by`, which is stable.
module _ {ℓ} {A : Type ℓ} (cmp : A → A → Ordering) where
  abbrev pub insert_sorted : A → List A → List A
  insert_sorted x [] = x ∷ []
  insert_sorted x (y ∷ ys) =
      let rest = insert_sorted x ys in elim (cmp x y) [ Ordering.gt ↦ y ∷ rest | _ ↦ x ∷ y ∷ ys ]

  abbrev pub sort_by : List A → List A
  sort_by [] = []
  sort_by (x ∷ xs) = insert_sorted x (sort_by xs)
