-- ===== src/Prelude/Order/Laws.antt =====
-- Lookup after insertion in ordered maps and sets.
use Prim.Native.Nat.{Ordering}
use mathlib.Core.Path.{◌≡◌, refl}
use mathlib.Core.Logic.{◌⊎◌, inl, inr}
use mathlib.Core.Bool.{Bool, true, ◌||◌}
use mathlib.Core.Option.{some}
use mathlib.Core.List.{List, [], ◌∷◌}
use native.Mathlib.Omega.{arith}
use specgate.Prelude.Tests.{if◌then◌else◌}
use specgate.Prelude.Order.{Order, Dict, is_eq, get, insert, insert_key, has_key}

pub Ordering-cases : (r : Ordering) → (r ≡ Ordering.lt) ⊎ (r ≡ Ordering.eq) ⊎ (r ≡ Ordering.gt)
Ordering-cases Ordering.lt = inl refl
Ordering-cases Ordering.eq = inr (inl refl)
Ordering-cases Ordering.gt = inr (inr refl)

module _ {ℓ} {K : Type ℓ} ⦃o : Order K⦄ where
  -- The Boolean test for the answer `eq`.
  abbrev pub same_key : K → K → Bool
  same_key k j = is_eq (o.cmp k j)

  pub same_key-eq : (k j : K) → same_key k j ≡ true → k ≡ j
  same_key-eq k j h = ground (arith, o.cmp_iff k j)

  pub same_key_refl : (k : K) → same_key k k ≡ true
  same_key_refl k = rw ((o.cmp_iff k k).1 refl)

module _ {ℓ κ} {K : Type ℓ} {V : Type κ} ⦃o : Order K⦄ where
  pub get-insert :
      (k j : K) (v : V) (m : Dict K V)
      → get (insert k v m) j ≡ (if same_key j k then some v else get m j)
  get-insert k j v [] = ground arith
  get-insert k j v ((i, w) ∷ m) =
      ground (arith, get-insert k j v m, o.cmp_iff k i, o.cmp_iff j i, o.cmp_iff j k, o.cmp_iff j j)

module _ {ℓ} {K : Type ℓ} ⦃o : Order K⦄ where
  pub has_key-insert_key :
      (k j : K) (s : List K) → has_key j (insert_key k s) ≡ (same_key j k || has_key j s)
  has_key-insert_key k j [] = ground arith
  has_key-insert_key k j (i ∷ s) =
      ground (
        arith,
        has_key-insert_key k j s,
        o.cmp_iff k i,
        o.cmp_iff j i,
        o.cmp_iff j k,
        o.cmp_iff j j,
      )
