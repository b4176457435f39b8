-- ===== src/Linked/Value/Parts.antt =====
-- The arms of `validate_value` and of `canonical_value`, one by one: where the checks of an arm
-- find nothing, its canonical form exists if those of the parts do.
use specgate.Prelude.{
  ℕ, String, Bool, true, false, ◌||◌, Option, none, some, List, [], ◌⊎◌, inl, inr, ◌≡◌, refl, arith,
  append-eq-nil, Bool-cases,
}
use specgate.Prelude.Order.{string_order}
use specgate.Prelude.Int.{ℤ}
use specgate.Prelude.Text.{str_eq}
use specgate.Model.{
  F64Value, AnyValue, Values, Entries, entries_end, entry, CanonicalValue, count_values, TypeRef,
  Types, ResolvedComponent, RegistrySet,
}
use specgate.Linked.Primitive.{
  validate_primitive, canonical_primitive, primitive_range, no_entries, parse_u64, canonical_u64,
}
use specgate.Linked.Resolve.{ResolveError, Scoped, resolve, find_definition}
use specgate.Linked.Canonical.{canonical_array, canonical_scalar}
use specgate.Linked.Arms.{wrong_kind, validate_array, validate_scalar}
use specgate.Render.{Format, Issues}

abbrev pub is_some {ℓ} : {A : Type ℓ} → Option A → Bool
is_some none = false
is_some (some a) = true

-- A named type is replaced by its definition.
abbrev pub Direct : ResolveError ⊎ Scoped → Type 0
Direct (inl e) = Unit
Direct (inr (c, TypeRef.named n i r)) = ⊥
Direct (inr (c, t)) = Unit

pub resolve-Direct :
    (registry : RegistrySet) (t : TypeRef) (c : ResolvedComponent) → Direct (resolve registry t c)
unfolding resolve find_definition
resolve-Direct registry t c = ground arith

-- A text is checked for "string" and "u64" only.
text-range :
    (s name location : String)
    → validate_primitive (AnyValue.string s) name location ≡ []
    → (str_eq name "string" || str_eq name "u64" ≡ true)
      × (primitive_range (AnyValue.string s) name location ≡ [])
unfolding validate_primitive
text-range s name location p = ground arith

range-u64 :
    (s name location : String)
    → primitive_range (AnyValue.string s) name location ≡ []
    → str_eq name "u64" ≡ true
    → is_some (parse_u64 s) ≡ true
unfolding primitive_range
range-u64 s name location p u = ground arith

u64-is_some : (o : Option ℕ) → is_some o ≡ true → is_some (canonical_u64 o) ≡ true
u64-is_some (some n) h = refl
u64-is_some none h = h

text-is_some :
    (s name location : String)
    → (str_eq name "string" || str_eq name "u64" ≡ true)
    → primitive_range (AnyValue.string s) name location ≡ []
    → is_some (canonical_primitive (AnyValue.string s) name) ≡ true
unfolding canonical_primitive
text-is_some s name location n p = elim (Bool-cases (str_eq name "string")) [
  | inl t ↦ rw t refl
  | inr t ↦
      let u : str_eq name "u64" ≡ true = rw t at n in
      rw (t, u) (u64-is_some (parse_u64 s) (range-u64 s name location p u))
]

int-name :
    (n : ℤ) (name location : String)
    → validate_primitive (AnyValue.int n) name location ≡ []
    → str_eq name "i32" || (str_eq name "i64" || str_eq name "u32") ≡ true
unfolding validate_primitive
int-name n name location p = ground arith

double-name :
    (x : F64Value) (name location : String)
    → validate_primitive (AnyValue.double x) name location ≡ []
    → str_eq name "f32" || str_eq name "f64" ≡ true
unfolding validate_primitive
double-name x name location p = ground arith

bool-name :
    (b : Bool) (name location : String)
    → validate_primitive (AnyValue.bool b) name location ≡ []
    → str_eq name "bool" ≡ true
unfolding validate_primitive
bool-name b name location p = ground arith

bytes-name :
    (b : List ℕ) (name location : String)
    → validate_primitive (AnyValue.bytes b) name location ≡ []
    → str_eq name "bytes" ≡ true
unfolding validate_primitive
bytes-name b name location p = ground arith

unit-name :
    (es : Entries) (name location : String)
    → validate_primitive (AnyValue.kv_list es) name location ≡ []
    → (str_eq name "unit" ≡ true) × (primitive_range (AnyValue.kv_list es) name location ≡ [])
unfolding validate_primitive
unit-name es name location p = ground arith

no_array :
    (vs : Values) (name location : String)
    → validate_primitive (AnyValue.array vs) name location ≡ []
    → true ≡ false
unfolding validate_primitive
no_array vs name location p = ground arith

unit-no_entries :
    (es : Entries) (name location : String)
    → str_eq name "unit" ≡ true
    → primitive_range (AnyValue.kv_list es) name location ≡ []
    → no_entries es ≡ true
unfolding primitive_range
unit-no_entries entries_end name location n p = refl
unit-no_entries (entry k v es) name location n p = absurd (ground arith)

pub validate_primitive-is_some :
    (v : AnyValue) (name location : String)
    → validate_primitive v name location ≡ []
    → is_some (canonical_primitive v name) ≡ true
unfolding canonical_primitive
validate_primitive-is_some (AnyValue.string s) name location p =
    let (named, range) = text-range s name location p in text-is_some s name location named range
validate_primitive-is_some (AnyValue.bool b) name location p = rw (bool-name b name location p) refl
validate_primitive-is_some (AnyValue.int n) name location p = rw (int-name n name location p) refl
validate_primitive-is_some (AnyValue.double x) name location p =
    rw (double-name x name location p) refl
validate_primitive-is_some (AnyValue.bytes b) name location p =
    rw (bytes-name b name location p) refl
validate_primitive-is_some (AnyValue.array vs) name location p =
    absurd (ground (arith, no_array vs name location p))
validate_primitive-is_some (AnyValue.kv_list es) name location p =
    let (named, range) = unit-name es name location p in
    rw (named, unit-no_entries es name location named range) refl

-- What the recursive calls give for an array.
pub record ArrayParts (vs : Values) (each : TypeRef → ResolvedComponent → Issues)
    (entries : TypeRef → TypeRef → ResolvedComponent → Issues)
    (zipped : Types → ResolvedComponent → Issues)
    (each' : TypeRef → ResolvedComponent → Option (List CanonicalValue))
    (entries' : TypeRef
      → TypeRef
      → ResolvedComponent
      → Option (List (CanonicalValue × CanonicalValue)))
    (zipped' : Types → ResolvedComponent → Option (List CanonicalValue)) : Type 0 where
  pub each_some : (t : TypeRef) (c : ResolvedComponent) → each t c ≡ [] → is_some (each' t c) ≡ true
  pub entries_some :
      (k t : TypeRef) (c : ResolvedComponent) → entries k t c ≡ [] → is_some (entries' k t c) ≡ true
  pub zipped_some :
      (ts : Types) (c : ResolvedComponent) → zipped ts c ≡ [] → is_some (zipped' ts c) ≡ true

pub validate_array-is_some :
    (fmt : Format) (r : ResolveError ⊎ Scoped) (vs : Values) (location : String)
    {each : TypeRef → ResolvedComponent → Issues}
    (canonical : TypeRef → ResolvedComponent → List CanonicalValue)
    {entries : TypeRef → TypeRef → ResolvedComponent → Issues}
    {zipped : Types → ResolvedComponent → Issues}
    {each' : TypeRef → ResolvedComponent → Option (List CanonicalValue)}
    {entries' : TypeRef
      → TypeRef
      → ResolvedComponent
      → Option (List (CanonicalValue × CanonicalValue))}
    {zipped' : Types → ResolvedComponent → Option (List CanonicalValue)}
    → Direct r
    → ArrayParts vs each entries zipped each' entries' zipped'
    → validate_array fmt r vs location each canonical entries zipped ≡ []
    → is_some (canonical_array r (count_values vs) each' entries' zipped') ≡ true
unfolding validate_array canonical_array wrong_kind
validate_array-is_some fmt (inl e) vs location canonical d parts p = ground arith
validate_array-is_some fmt (inr (c, TypeRef.primitive name)) vs location canonical d parts p =
    ground (arith, validate_primitive-is_some (AnyValue.array vs) name location p)
validate_array-is_some fmt (inr (c, TypeRef.named n i r)) vs location canonical d parts p = absurd d
validate_array-is_some fmt (inr (c, TypeRef.collection items ordered unique)) vs location canonical
      d parts p =
    ground (arith, parts.each_some items c (append-eq-nil _ _ p).0)
validate_array-is_some fmt (inr (c, TypeRef.map_of keys values ordered)) vs location canonical d
      parts p =
    ground (arith, parts.entries_some keys values c)
validate_array-is_some fmt (inr (c, TypeRef.tuple items)) vs location canonical d parts p =
    ground (arith, parts.zipped_some items c)
validate_array-is_some fmt (inr (c, TypeRef.record_of fields)) vs location canonical d parts p =
    ground arith
validate_array-is_some fmt (inr (c, TypeRef.optional t)) vs location canonical d parts p =
    ground arith
validate_array-is_some fmt (inr (c, TypeRef.tagged_union t)) vs location canonical d parts p =
    ground arith

pub validate_scalar-is_some :
    (fmt : Format) (v : AnyValue) (r : ResolveError ⊎ Scoped) (location : String)
    → Direct r
    → validate_scalar fmt v r location ≡ []
    → is_some (canonical_scalar v r) ≡ true
unfolding validate_scalar canonical_scalar wrong_kind
validate_scalar-is_some fmt v (inl e) location d p = ground arith
validate_scalar-is_some fmt v (inr (c, TypeRef.primitive name)) location d p =
    validate_primitive-is_some v name location p
validate_scalar-is_some fmt v (inr (c, t)) location d p = ground arith
