-- ===== src/Linked/Primitive.antt =====
-- linked.rs: `validate_primitive` and `canonical_primitive`.
pub mod Range
use Prim.Native.Nat.{◌*◌, ◌-◌, ◌/◌}
use specgate.Prelude.{
  ℕ, ◌+◌, ◌^◌, ◌%◌, String, Bool, true, false, not, ◌&&◌, ◌||◌, Option, none, some, List, [], ◌∷◌,
  if◌then◌else◌, ltb, leb, ◌==◌, all,
}
use specgate.Prelude.Int.{ℤ, pos, negsuc}
use specgate.Prelude.Text.{str_eq, format, codes, is_digit}
use specgate.Model.{finite, AnyValue, Entries, entries_end, entry, CanonicalValue}
use specgate.Render.{Issues, issue}

-- The wire discriminator that a primitive type calls for.
abbrev pub expected_wire : String → Option String
expected_wire name =
    if str_eq name "unit"
    then some "kvlistValue"
    else if str_eq name "string" || str_eq name "u64"
    then some "stringValue"
    else if str_eq name "bool"
    then some "boolValue"
    else if str_eq name "i32" || (str_eq name "i64" || str_eq name "u32")
    then some "intValue"
    else if str_eq name "f32" || str_eq name "f64"
    then some "doubleValue"
    else if str_eq name "bytes"
    then some "bytesValue"
    else none

-- The discriminator under which a value is written.
abbrev pub wire_kind : AnyValue → String
wire_kind (AnyValue.string s) = "stringValue"
wire_kind (AnyValue.bool b) = "boolValue"
wire_kind (AnyValue.int n) = "intValue"
wire_kind (AnyValue.double x) = "doubleValue"
wire_kind (AnyValue.bytes b) = "bytesValue"
wire_kind (AnyValue.array vs) = "arrayValue"
wire_kind (AnyValue.kv_list es) = "kvlistValue"

abbrev pub no_entries : Entries → Bool
no_entries entries_end = true
no_entries (entry k v es) = false

-- `i32::try_from(value).is_ok()`, `u32::try_from(value).is_ok()`
abbrev pub fits_i32 : ℤ → Bool
fits_i32 (pos n) = ltb n (2 ^ 31)
fits_i32 (negsuc n) = ltb n (2 ^ 31)

abbrev pub fits_u32 : ℤ → Bool
fits_u32 (pos n) = ltb n (2 ^ 32)
fits_u32 (negsuc n) = false

-- The value of a run of decimal digits after `acc`; none at another character.
pub decimal : ℕ → List ℕ → Option ℕ
decimal acc [] = some acc
decimal acc (c ∷ cs) =
    let rest = decimal (acc * 10 + (c - b'0')) cs in if is_digit c then rest else none

abbrev below_u64 : Option ℕ → Option ℕ
below_u64 none = none
below_u64 (some n) = if ltb n (2 ^ 64) then some n else none

digits_u64 : List ℕ → Option ℕ
unfolding decimal
digits_u64 [] = none
digits_u64 (c ∷ cs) = below_u64 (decimal 0 (c ∷ cs))

-- `str::parse::<u64>`: one leading plus sign is allowed.
parse_codes : List ℕ → Option ℕ
unfolding digits_u64
parse_codes [] = none
parse_codes (c ∷ cs) = if c == b'+' then digits_u64 cs else digits_u64 (c ∷ cs)

unfoldable pub parse_u64 : String → Option ℕ
unfolding parse_codes
parse_u64 s = parse_codes (codes s)

starts_with_zero : List ℕ → Bool
starts_with_zero [] = false
starts_with_zero (c ∷ cs) = c == b'0'

unfoldable pub canonical_decimal : String → Bool
unfolding starts_with_zero
canonical_decimal s = str_eq s "0" || (not (starts_with_zero (codes s)) && all is_digit (codes s))

-- Whether narrowing a finite binary64, given by its bits, to binary32 and widening it again
-- returns the same bits. With the biased exponent e and the mantissa m: zero does; a binary64
-- subnormal does not; a binary32 normal (897 ≤ e ≤ 1150) does if the 29 lowest bits of m are 0;
-- a binary32 subnormal (874 ≤ e < 897) if the significand is a multiple of its unit.
unfoldable pub f32_exact : ℕ → Bool
f32_exact bits =
    let e = bits / 2 ^ 52 % 2 ^ 11 in
    let m = bits % 2 ^ 52 in
    if e == 0
    then m == 0
    else if leb 897 e && leb e 1150
    then m % 2 ^ 29 == 0
    else if leb 874 e && ltb e 897
    then (2 ^ 52 + m) % 2 ^ (926 - e) == 0
    else false

-- The checks that follow the wire match.
unfoldable pub primitive_range : AnyValue → String → String → Issues
unfolding parse_u64 canonical_decimal f32_exact
primitive_range (AnyValue.kv_list es) name location =
    if str_eq name "unit" && not (no_entries es)
    then issue location "unit must be an empty kvlistValue"
    else []
primitive_range (AnyValue.int n) name location =
    if str_eq name "i32" && not (fits_i32 n)
    then issue location "value is outside i32 range"
    else if str_eq name "u32" && not (fits_u32 n)
    then issue location "value is outside u32 range"
    else []
primitive_range (AnyValue.string s) name location =
    if str_eq name "u64"
    then (if not (canonical_decimal s)
        then issue location "u64 must be a canonical decimal string"
        else elim (parse_u64 s) [
          | none ↦ issue location "value is outside u64 range"
          | some n ↦ []
        ])
    else []
primitive_range (AnyValue.double (finite bits)) name location =
    if str_eq name "f32" && not (f32_exact bits)
    then issue location "value is not exactly representable as f32"
    else []
primitive_range v name location = []

unfoldable pub validate_primitive : AnyValue → String → String → Issues
unfolding primitive_range
validate_primitive v name location = elim (expected_wire name) [
  | none ↦ issue location (format ("unsupported primitive '" ∷ name ∷ "'" ∷ []))
  | some expected ↦
      if str_eq expected (wire_kind v)
      then primitive_range v name location
      else issue location (format (name ∷ " must use " ∷ expected ∷ []))
]

abbrev pub canonical_u64 : Option ℕ → Option CanonicalValue
canonical_u64 none = none
canonical_u64 (some n) = some (CanonicalValue.integer (pos n))

unfoldable pub canonical_primitive : AnyValue → String → Option CanonicalValue
unfolding parse_u64
canonical_primitive (AnyValue.kv_list es) name =
    if str_eq name "unit" && no_entries es then some CanonicalValue.unit else none
canonical_primitive (AnyValue.string s) name =
    if str_eq name "string"
    then some (CanonicalValue.string s)
    else if str_eq name "u64"
    then canonical_u64 (parse_u64 s)
    else none
canonical_primitive (AnyValue.bool b) name =
    if str_eq name "bool" then some (CanonicalValue.bool b) else none
canonical_primitive (AnyValue.int n) name =
    if str_eq name "i32" || (str_eq name "i64" || str_eq name "u32")
    then some (CanonicalValue.integer n)
    else none
canonical_primitive (AnyValue.double x) name =
    if str_eq name "f32" || str_eq name "f64" then some (CanonicalValue.float x) else none
canonical_primitive (AnyValue.bytes b) name =
    if str_eq name "bytes" then some (CanonicalValue.bytes b) else none
canonical_primitive (AnyValue.array vs) name = none
