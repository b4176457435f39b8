-- ===== src/Model/Ordering/Laws.antt =====
-- The derived orders answer `eq` exactly on equal values.
use Prim.Native.String
use text.Mathlib.TextEquality.{path_by_compare}
use text.Mathlib.TextPositions.{compare_refl}
use specgate.Prelude.{ℕ, Bool, List, [], ◌∷◌, Ordering, ◌≡◌, refl, arith}
use specgate.Prelude.Int.{ℤ, pos, compare_int}
use specgate.Prelude.Order.{Order, then_cmp}
use specgate.Model.{
  F64Value, finite, CanonicalValue, unit, string, bool, integer, float, bytes, list, tuple, map_of,
  ordered_map, record_of, variant, CanonicalList, list_end, item, CanonicalPairs, pairs_end, pair,
  CanonicalFields, fields_end, field,
}
use specgate.Model.Ordering.{
  compare_float, compare_bool, compare_bytes, compare_canonical, compare_list, compare_pairs,
  compare_fields,
}

then-eq : (a b : Ordering) → then_cmp a b ≡ Ordering.eq → (a ≡ Ordering.eq) × (b ≡ Ordering.eq)
then-eq a b h = ground arith

compare_float-eq : (x y : F64Value) → compare_float x y ≡ Ordering.eq → x ≡ y
unfolding compare_float
compare_float-eq (finite a) y h = ground arith
compare_float-eq x y h = ground arith

compare_int-eq : (x y : ℤ) → compare_int x y ≡ Ordering.eq → x ≡ y
unfolding compare_int
compare_int-eq (pos a) y h = ground arith
compare_int-eq x y h = ground arith

compare_bool-eq : (x y : Bool) → compare_bool x y ≡ Ordering.eq → x ≡ y
unfolding compare_bool
compare_bool-eq x y h = ground arith

compare_bytes-eq : (x y : List ℕ) → compare_bytes x y ≡ Ordering.eq → x ≡ y
unfolding compare_bytes
compare_bytes-eq [] [] h = refl
compare_bytes-eq (x ∷ xs) (y ∷ ys) h = ground (arith, compare_bytes-eq xs ys)
compare_bytes-eq _ _ h = cc

mutual
  unfolding compare_canonical

  compare_canonical-eq : (v w : CanonicalValue) → compare_canonical v w ≡ Ordering.eq → v ≡ w
  compare_canonical-eq unit unit h = refl
  compare_canonical-eq (string s) (string t) h = cc (path_by_compare s t h)
  compare_canonical-eq (bool b) (bool c) h = cc (compare_bool-eq b c h)
  compare_canonical-eq (integer m) (integer n) h = cc (compare_int-eq m n h)
  compare_canonical-eq (float x) (float y) h = cc (compare_float-eq x y h)
  compare_canonical-eq (bytes b) (bytes c) h = cc (compare_bytes-eq b c h)
  compare_canonical-eq (list k) (list l) h = cc (compare_list-eq k l h)
  compare_canonical-eq (tuple k) (tuple l) h = cc (compare_list-eq k l h)
  compare_canonical-eq (map_of m) (map_of n) h = cc (compare_pairs-eq m n h)
  compare_canonical-eq (ordered_map m) (ordered_map n) h = cc (compare_pairs-eq m n h)
  compare_canonical-eq (record_of r) (record_of s) h = cc (compare_fields-eq r s h)
  compare_canonical-eq (variant m v) (variant n w) h =
      let p = then-eq (String.compare m n) (compare_canonical v w) h in
      cc (path_by_compare m n p.0, compare_canonical-eq v w p.1)
  compare_canonical-eq _ _ h = cc

  compare_list-eq : (v w : CanonicalList) → compare_list v w ≡ Ordering.eq → v ≡ w
  compare_list-eq list_end list_end h = refl
  compare_list-eq (item v k) (item w l) h =
      let p = then-eq (compare_canonical v w) (compare_list k l) h in
      cc (compare_canonical-eq v w p.0, compare_list-eq k l p.1)
  compare_list-eq _ _ h = cc

  compare_pairs-eq : (v w : CanonicalPairs) → compare_pairs v w ≡ Ordering.eq → v ≡ w
  compare_pairs-eq pairs_end pairs_end h = refl
  compare_pairs-eq (pair j v m) (pair k w n) h =
      let p =
        then-eq (compare_canonical j k) (then_cmp (compare_canonical v w) (compare_pairs m n)) h in
      let q = then-eq (compare_canonical v w) (compare_pairs m n) p.1 in
      cc (compare_canonical-eq j k p.0, compare_canonical-eq v w q.0, compare_pairs-eq m n q.1)
  compare_pairs-eq _ _ h = cc

  compare_fields-eq : (v w : CanonicalFields) → compare_fields v w ≡ Ordering.eq → v ≡ w
  compare_fields-eq fields_end fields_end h = refl
  compare_fields-eq (field j v m) (field k w n) h =
      let p =
        then-eq (String.compare j k) (then_cmp (compare_canonical v w) (compare_fields m n)) h in
      let q = then-eq (compare_canonical v w) (compare_fields m n) p.1 in
      cc (path_by_compare j k p.0, compare_canonical-eq v w q.0, compare_fields-eq m n q.1)
  compare_fields-eq _ _ h = cc

compare_float_refl : (x : F64Value) → compare_float x x ≡ Ordering.eq
unfolding compare_float
compare_float_refl (finite a) = ground arith
compare_float_refl x = refl

compare_int_refl : (x : ℤ) → compare_int x x ≡ Ordering.eq
unfolding compare_int
compare_int_refl x = ground arith

compare_bool_refl : (x : Bool) → compare_bool x x ≡ Ordering.eq
unfolding compare_bool
compare_bool_refl x = ground arith

compare_bytes_refl : (x : List ℕ) → compare_bytes x x ≡ Ordering.eq
unfolding compare_bytes
compare_bytes_refl [] = refl
compare_bytes_refl (x ∷ xs) = ground (arith, compare_bytes_refl xs)

mutual
  unfolding compare_canonical

  compare_canonical_refl : (v : CanonicalValue) → compare_canonical v v ≡ Ordering.eq
  compare_canonical_refl unit = refl
  compare_canonical_refl (string s) = compare_refl s
  compare_canonical_refl (bool b) = compare_bool_refl b
  compare_canonical_refl (integer m) = compare_int_refl m
  compare_canonical_refl (float x) = compare_float_refl x
  compare_canonical_refl (bytes b) = compare_bytes_refl b
  compare_canonical_refl (list k) = compare_list_refl k
  compare_canonical_refl (tuple k) = compare_list_refl k
  compare_canonical_refl (map_of m) = compare_pairs_refl m
  compare_canonical_refl (ordered_map m) = compare_pairs_refl m
  compare_canonical_refl (record_of r) = compare_fields_refl r
  compare_canonical_refl (variant m v) = rw (compare_refl m) (compare_canonical_refl v)

  compare_list_refl : (v : CanonicalList) → compare_list v v ≡ Ordering.eq
  compare_list_refl list_end = refl
  compare_list_refl (item v k) = rw (compare_canonical_refl v) (compare_list_refl k)

  compare_pairs_refl : (v : CanonicalPairs) → compare_pairs v v ≡ Ordering.eq
  compare_pairs_refl pairs_end = refl
  compare_pairs_refl (pair j v m) =
      rw (compare_canonical_refl j) (rw (compare_canonical_refl v) (compare_pairs_refl m))

  compare_fields_refl : (v : CanonicalFields) → compare_fields v v ≡ Ordering.eq
  compare_fields_refl fields_end = refl
  compare_fields_refl (field j v m) =
      rw (compare_refl j) (rw (compare_canonical_refl v) (compare_fields_refl m))

pub canonical_eq : (v w : CanonicalValue) → v ≡ w → compare_canonical v w ≡ Ordering.eq
canonical_eq v w h = rw h (compare_canonical_refl w)

pub canonical_path : (v w : CanonicalValue) → compare_canonical v w ≡ Ordering.eq → v ≡ w
canonical_path v w h = compare_canonical-eq v w h

instance abbrev pub canonical_order : Order CanonicalValue
canonical_order = record {
  cmp = compare_canonical;
  cmp_iff = λ v w. (canonical_path v w, canonical_eq v w);
}
