-- ===== src/Linked/Primitive/Range.antt =====
-- The machine ranges of canonical integers.
use specgate.Prelude.{
  ℕ, ◌<◌, ◌^◌, String, true, false, List, [], ◌∷◌, Option, none, some, ◌≡◌, arith, inl, inr,
  Bool-cases, Option-cases, ltb, ltb→lt, ◌==◌,
}
use specgate.Prelude.Int.{ℤ, pos, negsuc, fits_i64}
use specgate.Prelude.Text.{codes, str_eq}
use text.Mathlib.TextEquality.{eq_iff}
use specgate.Model.{AnyValue, CanonicalValue}
use specgate.Linked.Primitive.{
  fits_i32, fits_u32, below_u64, digits_u64, parse_codes, parse_u64, primitive_range,
  validate_primitive, canonical_u64, canonical_primitive, decimal,
}

-- What the name of an integer type asks of a number.
abbrev pub InRange : String → ℤ → Type 0
InRange name (pos n) =
    (str_eq name "i32" ≡ true → n < 2 ^ 31)
    × (str_eq name "i64" ≡ true → n < 2 ^ 63)
    × (str_eq name "u32" ≡ true → n < 2 ^ 32)
    × (str_eq name "u64" ≡ true → n < 2 ^ 64)
InRange name (negsuc n) =
    (str_eq name "i32" ≡ true → n < 2 ^ 31)
    × (str_eq name "i64" ≡ true → n < 2 ^ 63)
    × (str_eq name "u32" ≡ false)
    × (str_eq name "u64" ≡ false)

-- The integer of a trace value is an i64 in the source.
abbrev pub IsWire : AnyValue → Type 0
IsWire (AnyValue.int z) = fits_i64 z ≡ true
IsWire _ = Unit

fits_i64-pos : (n : ℕ) → fits_i64 (pos n) ≡ true → n < 2 ^ 63
unfolding fits_i64
fits_i64-pos n h = ground arith

fits_i64-negsuc : (n : ℕ) → fits_i64 (negsuc n) ≡ true → n < 2 ^ 63
unfolding fits_i64
fits_i64-negsuc n h = ground arith

below_u64-lt : (o : Option ℕ) (n : ℕ) → below_u64 o ≡ some n → n < 2 ^ 64
below_u64-lt none n h = absurd (ground arith)
below_u64-lt (some m) n h = elim (Bool-cases (ltb m (2 ^ 64))) [
  | inl less ↦
      let small = ltb→lt m (2 ^ 64) less in
      let checked : some m ≡ some n = rw less at h in ground arith
  | inr more ↦ absurd (ground (arith, rw more at h))
]

digits_u64-lt : (cs : List ℕ) (n : ℕ) → digits_u64 cs ≡ some n → n < 2 ^ 64
unfolding digits_u64
digits_u64-lt [] n h = absurd (ground arith)
digits_u64-lt (c ∷ cs) n h = below_u64-lt (decimal 0 (c ∷ cs)) n h

parse_codes-lt : (cs : List ℕ) (n : ℕ) → parse_codes cs ≡ some n → n < 2 ^ 64
unfolding parse_codes
parse_codes-lt [] n h = absurd (ground arith)
parse_codes-lt (c ∷ cs) n h = elim (Bool-cases (c == b'+')) [
  | inl signed ↦ digits_u64-lt cs n (rw (signed, parse_codes) at h)
  | inr unsigned ↦ digits_u64-lt (c ∷ cs) n (rw (unsigned, parse_codes) at h)
]

pub parse_u64-lt : (s : String) (n : ℕ) → parse_u64 s ≡ some n → n < 2 ^ 64
unfolding parse_u64
parse_u64-lt s n h = parse_codes-lt (codes s) n h

i32-fits :
    (z : ℤ) (location : String)
    → validate_primitive (AnyValue.int z) "i32" location ≡ []
    → fits_i32 z ≡ true
unfolding validate_primitive primitive_range
i32-fits z location h = ground arith

u32-fits :
    (z : ℤ) (location : String)
    → validate_primitive (AnyValue.int z) "u32" location ≡ []
    → fits_u32 z ≡ true
unfolding validate_primitive primitive_range
u32-fits z location h = ground arith

no_u64 : (z : ℤ) (location : String) → validate_primitive (AnyValue.int z) "u64" location ≡ [] → ⊥
unfolding validate_primitive
no_u64 z location h = ground arith

-- An integer is valid under "i32", "i64" and "u32" only.
int-fits :
    (z : ℤ) (name location : String)
    → validate_primitive (AnyValue.int z) name location ≡ []
    → (str_eq name "i32" ≡ true → fits_i32 z ≡ true)
      × (str_eq name "u32" ≡ true → fits_u32 z ≡ true)
      × (str_eq name "u64" ≡ false)
unfolding validate_primitive primitive_range
int-fits z name location h = (
  λ o. i32-fits z location (rw ((eq_iff name "i32").0 o) at h),
  λ o. u32-fits z location (rw ((eq_iff name "u32").0 o) at h),
  elim (Bool-cases (str_eq name "u64")) [
    | inl o ↦ absurd (no_u64 z location (rw ((eq_iff name "u64").0 o) at h))
    | inr other ↦ other
  ],
)

int-InRange :
    (z : ℤ) (name location : String)
    → fits_i64 z ≡ true
    → validate_primitive (AnyValue.int z) name location ≡ []
    → InRange name z
int-InRange (pos n) name location wire h =
    let (i, u, w) = int-fits (pos n) name location h in
    (
      λ o. ltb→lt n (2 ^ 31) (i o),
      λ o. fits_i64-pos n wire,
      λ o. ltb→lt n (2 ^ 32) (u o),
      λ o. absurd (ground arith),
    )
int-InRange (negsuc n) name location wire h =
    let (i, u, w) = int-fits (negsuc n) name location h in
    (
      λ o. ltb→lt n (2 ^ 31) (i o),
      λ o. fits_i64-negsuc n wire,
      elim (Bool-cases (str_eq name "u32")) [
        | inl o ↦ absurd (ground (arith, u o))
        | inr other ↦ other
      ],
      w,
    )

u64-InRange :
    (s : String) (z : ℤ)
    → canonical_u64 (parse_u64 s) ≡ some (CanonicalValue.integer z)
    → InRange "u64" z
u64-InRange s z h = elim (Option-cases (parse_u64 s)) [
  | inl absent ↦ absurd (ground (arith, rw absent at h))
  | inr (n, parsed) ↦
      let same : pos n ≡ z = ground (arith, rw parsed at h) in
      rw (← same) (
        λ o. absurd (ground arith),
        λ o. absurd (ground arith),
        λ o. absurd (ground arith),
        λ o. parse_u64-lt s n parsed,
      )
]

text-InRange :
    (s name : String) (z : ℤ)
    → canonical_primitive (AnyValue.string s) name ≡ some (CanonicalValue.integer z)
    → InRange name z
unfolding canonical_primitive
text-InRange s name z h = elim (Bool-cases (str_eq name "string")) [
  | inl text ↦ absurd (ground (arith, rw (text, canonical_primitive) at h))
  | inr other ↦ elim (Bool-cases (str_eq name "u64")) [
    | inl u ↦
        rw ((eq_iff name "u64").0 u) (u64-InRange s z (rw (other, u, canonical_primitive) at h))
    | inr neither ↦ absurd (ground (arith, rw (other, neither, canonical_primitive) at h))
  ]
]

-- A value that `validate_primitive` accepts, and whose canonical form is an integer, is in the
-- range that the name of its type promises: -2^31 to 2^31 - 1 for "i32", -2^63 to 2^63 - 1 for
-- "i64", 0 to 2^32 - 1 for "u32" and 0 to 2^64 - 1 for "u64". An integer on the wire is taken to be
-- an i64.
pub validate_primitive-InRange :
    (v : AnyValue) (name location : String) (z : ℤ)
    → IsWire v
    → validate_primitive v name location ≡ []
    → canonical_primitive v name ≡ some (CanonicalValue.integer z)
    → InRange name z
unfolding canonical_primitive
validate_primitive-InRange (AnyValue.string s) name location z wire h c = text-InRange s name z c
validate_primitive-InRange (AnyValue.int w) name location z wire h c =
    let same : w ≡ z = ground arith in rw (← same) (int-InRange w name location wire h)
validate_primitive-InRange (AnyValue.bool b) name location z wire h c = absurd (ground arith)
validate_primitive-InRange (AnyValue.double x) name location z wire h c = absurd (ground arith)
validate_primitive-InRange (AnyValue.bytes b) name location z wire h c = absurd (ground arith)
validate_primitive-InRange (AnyValue.array vs) name location z wire h c = absurd (ground arith)
validate_primitive-InRange (AnyValue.kv_list es) name location z wire h c = absurd (ground arith)
