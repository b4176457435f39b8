-- ===== src/Model/Ordering.antt =====
-- trace_model.rs: the derived `Ord` of `F64Value` and `CanonicalValue`, by constructor in
-- declaration order and then by the fields from left to right.
pub mod Laws
use Prim.Native.String
use specgate.Prelude.{ℕ, Bool, true, false, List, [], ◌∷◌, compare, Ordering}
use specgate.Prelude.Int.{compare_int}
use specgate.Prelude.Order.{then_cmp}
use specgate.Model.AnyValues.{F64Value, finite, nan, infinity, negative_infinity}
use specgate.Model.CanonicalValues.{
  CanonicalValue, unit, string, bool, integer, float, bytes, list, tuple, map_of, ordered_map,
  record_of, variant, CanonicalList, list_end, item, CanonicalPairs, pairs_end, pair,
  CanonicalFields, fields_end, field,
}

pub compare_float : F64Value → F64Value → Ordering
compare_float (finite a) (finite b) = compare a b
compare_float nan nan = Ordering.eq
compare_float infinity infinity = Ordering.eq
compare_float negative_infinity negative_infinity = Ordering.eq
compare_float (finite a) y = Ordering.lt
compare_float x (finite b) = Ordering.gt
compare_float nan y = Ordering.lt
compare_float x nan = Ordering.gt
compare_float infinity y = Ordering.lt
compare_float negative_infinity y = Ordering.gt

pub compare_bool : Bool → Bool → Ordering
compare_bool false true = Ordering.lt
compare_bool true false = Ordering.gt
compare_bool true true = Ordering.eq
compare_bool false false = Ordering.eq

pub compare_bytes : List ℕ → List ℕ → Ordering
compare_bytes [] [] = Ordering.eq
compare_bytes [] (y ∷ ys) = Ordering.lt
compare_bytes (x ∷ xs) [] = Ordering.gt
compare_bytes (x ∷ xs) (y ∷ ys) = then_cmp (compare x y) (compare_bytes xs ys)

-- The position of the constructor.
abbrev pub rank : CanonicalValue → ℕ
rank unit = 0
rank (string s) = 1
rank (bool b) = 2
rank (integer n) = 3
rank (float x) = 4
rank (bytes b) = 5
rank (list l) = 6
rank (tuple l) = 7
rank (map_of m) = 8
rank (ordered_map m) = 9
rank (record_of r) = 10
rank (variant n v) = 11

unfoldable mutual
  unfolding compare_float compare_bool compare_bytes compare_int

  pub compare_canonical : CanonicalValue → CanonicalValue → Ordering
  compare_canonical unit unit = Ordering.eq
  compare_canonical (string s) (string t) = String.compare s t
  compare_canonical (bool b) (bool c) = compare_bool b c
  compare_canonical (integer m) (integer n) = compare_int m n
  compare_canonical (float x) (float y) = compare_float x y
  compare_canonical (bytes b) (bytes c) = compare_bytes b c
  compare_canonical (list k) (list l) = compare_list k l
  compare_canonical (tuple k) (tuple l) = compare_list k l
  compare_canonical (map_of m) (map_of n) = compare_pairs m n
  compare_canonical (ordered_map m) (ordered_map n) = compare_pairs m n
  compare_canonical (record_of r) (record_of s) = compare_fields r s
  compare_canonical (variant m v) (variant n w) =
      then_cmp (String.compare m n) (compare_canonical v w)
  compare_canonical v w = compare (rank v) (rank w)

  pub compare_list : CanonicalList → CanonicalList → Ordering
  compare_list list_end list_end = Ordering.eq
  compare_list list_end (item w l) = Ordering.lt
  compare_list (item v k) list_end = Ordering.gt
  compare_list (item v k) (item w l) = then_cmp (compare_canonical v w) (compare_list k l)

  pub compare_pairs : CanonicalPairs → CanonicalPairs → Ordering
  compare_pairs pairs_end pairs_end = Ordering.eq
  compare_pairs pairs_end (pair k w n) = Ordering.lt
  compare_pairs (pair j v m) pairs_end = Ordering.gt
  compare_pairs (pair j v m) (pair k w n) =
      then_cmp (compare_canonical j k) (then_cmp (compare_canonical v w) (compare_pairs m n))

  pub compare_fields : CanonicalFields → CanonicalFields → Ordering
  compare_fields fields_end fields_end = Ordering.eq
  compare_fields fields_end (field k w s) = Ordering.lt
  compare_fields (field j v r) fields_end = Ordering.gt
  compare_fields (field j v r) (field k w s) =
      then_cmp (String.compare j k) (then_cmp (compare_canonical v w) (compare_fields r s))
