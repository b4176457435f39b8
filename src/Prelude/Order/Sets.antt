-- ===== src/Prelude/Order/Sets.antt =====
-- The size of a set of texts: below that of the list exactly when the list repeats a text.
use Prim.Native.Nat.{suc, Ordering}
use Prim.Native.String.{String}
use mathlib.Core.Path.{◌≡◌, refl, ap}
use mathlib.Core.Logic.{inl, inr}
use mathlib.Core.Bool.{true, false}
use mathlib.Core.List.{List, [], ◌∷◌}
use native.Mathlib.Omega.{arith}
use specgate.Prelude.Lists.{length}
use specgate.Prelude.Elem.{All}
use specgate.Prelude.Order.{string_order, insert_key, key_set, has_key}
use specgate.Prelude.Order.Laws.{Ordering-cases}
use specgate.Prelude.Order.Text.{string-lt_trans, string-gt}

abbrev pub IsBefore : String → String → Type 0
IsBefore k j = string_order.cmp k j ≡ Ordering.lt

abbrev pub Ascending : List String → Type 0
Ascending [] = Unit
Ascending (k ∷ ks) = All (IsBefore k) ks × Ascending ks

All-IsBefore :
    (k j : String) (s : List String) → IsBefore k j → All (IsBefore j) s → All (IsBefore k) s
All-IsBefore k j [] h a = tt
All-IsBefore k j (i ∷ s) h a = (string-lt_trans k j i h a.0, All-IsBefore k j s h a.1)

All-insert_key :
    (j k : String) (s : List String)
    → IsBefore j k
    → All (IsBefore j) s
    → All (IsBefore j) (insert_key k s)
All-insert_key j k [] h a = (h, tt)
All-insert_key j k (i ∷ s) h a = ground (arith, All-insert_key j k s h a.1)

insert_key-Ascending : (k : String) (s : List String) → Ascending s → Ascending (insert_key k s)
insert_key-Ascending k [] a = (tt, tt)
insert_key-Ascending k (j ∷ s) a = elim (Ordering-cases (string_order.cmp k j)) [
  | inl before ↦ rw (before, insert_key) ((before, All-IsBefore k j s before a.0), a)
  | inr (inl same) ↦ rw (same, insert_key) a
  | inr (inr after) ↦
      rw (after, insert_key)
        (All-insert_key j k s (string-gt k j after) a.0, insert_key-Ascending k s a.1)
]

pub key_set-Ascending : (ks : List String) → Ascending (key_set ks)
key_set-Ascending [] = tt
key_set-Ascending (k ∷ ks) = insert_key-Ascending k (key_set ks) (key_set-Ascending ks)

has_key-IsBefore : (k : String) (s : List String) → All (IsBefore k) s → has_key k s ≡ false
has_key-IsBefore k [] a = refl
has_key-IsBefore k (j ∷ s) a = ground (arith, has_key-IsBefore k s a.1)

-- A text that is in the set adds nothing.
pub insert_key-present :
    (k : String) (s : List String)
    → Ascending s
    → has_key k s ≡ true
    → length (insert_key k s) ≡ length s
insert_key-present k [] a h = absurd (ground arith)
insert_key-present k (j ∷ s) a h = elim (Ordering-cases (string_order.cmp k j)) [
  | inl before ↦
      let later = has_key-IsBefore k s (All-IsBefore k j s before a.0) in absurd (ground arith)
  | inr (inl same) ↦ rw (same, insert_key) refl
  | inr (inr after) ↦
      let rest : has_key k s ≡ true = ground arith in
      rw (after, insert_key) (ap suc (insert_key-present k s a.1 rest))
]

pub length-insert_key :
    (k : String) (s : List String) → has_key k s ≡ false → length (insert_key k s) ≡ suc (length s)
length-insert_key k [] h = refl
length-insert_key k (j ∷ s) h = ground (arith, length-insert_key k s)
