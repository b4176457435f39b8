-- ===== src/Linked/Canonical.antt =====
-- linked.rs: `canonical_value`. The source recurs on the type and, at a named type, on the
-- definition with the same value; the model resolves the type first and recurs on the value.
use mathlib.Core.Option
use specgate.Prelude.{
  ℕ, String, Bool, true, false, not, ◌&&◌, Option, none, some, List, [], ◌∷◌, ◌⊎◌, inr, ◌==◌,
  if◌then◌else◌,
}
use specgate.Prelude.Order.{Dict, insert, sort_by}
use specgate.Prelude.Order.{string_order}
use specgate.Prelude.Text.{str_eq}
use specgate.Model.{
  AnyValue, Values, values_end, value, Entries, entries_end, entry, count_values, CanonicalValue,
  CanonicalList, list_end, item, CanonicalPairs, pairs_end, pair, CanonicalFields, TypeRef, Types,
  types_end, type_item, Fields, Variants, ResolvedComponent, RegistrySet,
}
use specgate.Model.Ordering.{compare_canonical}
use specgate.Model.Ordering.Laws.{canonical_order}
use specgate.Linked.Primitive.{canonical_primitive}
use specgate.Linked.Resolve.{ResolveError, Scoped, resolve}

abbrev pub count_types : Types → ℕ
count_types types_end = 0
count_types (type_item t ts) = ℕ.suc (count_types ts)

-- `matches!(keys, TypeRef::Primitive { name } if name == PRIMITIVE_STRING)`
abbrev pub is_string_type : TypeRef → Bool
is_string_type (TypeRef.primitive name) = str_eq name "string"
is_string_type t = false

-- The payload type of a variant; none is a variant without one.
abbrev pub find_variant : Variants → String → Option (Option TypeRef)
find_variant Variants.variants_end name = none
find_variant (Variants.variant k t vs) name =
    let rest = find_variant vs name in if str_eq k name then some (some t) else rest
find_variant (Variants.unit_variant k vs) name =
    let rest = find_variant vs name in if str_eq k name then some none else rest

-- `first_key_value`
abbrev pub first_entry : Entries → Option (String × AnyValue)
first_entry entries_end = none
first_entry (entry k v es) = some (k, v)

abbrev pub cons_option {ℓ} : {A : Type ℓ} → Option A → Option (List A) → Option (List A)
cons_option (some x) (some xs) = some (x ∷ xs)
cons_option _ _ = none

abbrev pub pair_option {ℓ} : {A : Type ℓ} → Option A → Option A → Option (A × A)
pair_option (some x) (some y) = some (x, y)
pair_option _ _ = none

abbrev pub to_list : List CanonicalValue → CanonicalList
to_list [] = list_end
to_list (v ∷ vs) = item v (to_list vs)

abbrev pub to_pairs : List (CanonicalValue × CanonicalValue) → CanonicalPairs
to_pairs [] = pairs_end
to_pairs ((k, v) ∷ m) = pair k v (to_pairs m)

abbrev pub to_fields : Dict String CanonicalValue → CanonicalFields
to_fields [] = CanonicalFields.fields_end
to_fields ((k, v) ∷ m) = CanonicalFields.field k v (to_fields m)

-- `into_iter().collect::<BTreeMap<_, _>>()`: a later entry replaces an earlier one.
abbrev insert_all :
    Dict CanonicalValue CanonicalValue
    → List (CanonicalValue × CanonicalValue)
    → Dict CanonicalValue CanonicalValue
insert_all m [] = m
insert_all m ((k, v) ∷ es) = insert_all (insert k v m) es

unfoldable pub collect_map : List (CanonicalValue × CanonicalValue) → CanonicalValue
collect_map es = CanonicalValue.map_of (to_pairs (insert_all [] es))

-- The fields of a record, each through `entries.get(name)`.
unfoldable pub collect_fields :
    (String → TypeRef → Option CanonicalValue)
    → Fields
    → Dict String CanonicalValue
    → Option (Dict String CanonicalValue)
collect_fields at Fields.fields_end m = some m
collect_fields at (Fields.field name t fs) m = elim (at name t) [
  | none ↦ none
  | some v ↦ collect_fields at fs (insert name v m)
]

unfoldable pub sorted_unless : Bool → List CanonicalValue → List CanonicalValue
sorted_unless true vs = vs
sorted_unless false vs = sort_by compare_canonical vs

-- The arms of the source for an array: what they make of its elements is given.
unfoldable pub canonical_array :
    ResolveError ⊎ Scoped
    → ℕ
    → (TypeRef → ResolvedComponent → Option (List CanonicalValue))
    → (TypeRef → TypeRef → ResolvedComponent → Option (List (CanonicalValue × CanonicalValue)))
    → (Types → ResolvedComponent → Option (List CanonicalValue))
    → Option CanonicalValue
unfolding collect_map sorted_unless
canonical_array (inr (c, TypeRef.collection items ordered unique)) n each entries zipped =
    Option.map (λ vs. CanonicalValue.list (to_list (sorted_unless ordered vs))) (each items c)
canonical_array (inr (c, TypeRef.map_of keys values ordered)) n each entries zipped =
    if not ordered && is_string_type keys
    then none
    else Option.map
        (λ es. if ordered then CanonicalValue.ordered_map (to_pairs es) else collect_map es)
        (entries keys values c)
canonical_array (inr (c, TypeRef.tuple items)) n each entries zipped =
    if n == count_types items
    then Option.map (λ vs. CanonicalValue.tuple (to_list vs)) (zipped items c)
    else none
canonical_array _ n each entries zipped = none

unfoldable pub canonical_variant :
    String
    → AnyValue
    → Option (Option TypeRef)
    → (TypeRef → Option CanonicalValue)
    → Option CanonicalValue
canonical_variant name payload none first = none
canonical_variant name payload (some none) first =
    Option.map (CanonicalValue.variant name) (canonical_primitive payload "unit")
canonical_variant name payload (some (some t)) first =
    Option.map (CanonicalValue.variant name) (first t)

-- The variants of an optional.
abbrev pub optional_variant : TypeRef → String → Option (Option TypeRef)
optional_variant inner name =
    if str_eq name "None" then some none else if str_eq name "Some" then some (some inner) else none

unfoldable pub canonical_first :
    (String → Option (Option TypeRef))
    → Option (String × AnyValue)
    → (TypeRef → Option CanonicalValue)
    → Option CanonicalValue
unfolding canonical_variant
canonical_first variant_of none first = none
canonical_first variant_of (some (name, payload)) first =
    canonical_variant name payload (variant_of name) first

-- The arms of the source for a key-value list.
unfoldable pub canonical_entries :
    ResolveError ⊎ Scoped
    → Entries
    → (TypeRef → ResolvedComponent → Option (List (CanonicalValue × CanonicalValue)))
    → (String → TypeRef → ResolvedComponent → Option CanonicalValue)
    → (TypeRef → ResolvedComponent → Option CanonicalValue)
    → Option CanonicalValue
unfolding collect_map collect_fields canonical_first
canonical_entries (inr (c, TypeRef.primitive name)) es each at first =
    canonical_primitive (AnyValue.kv_list es) name
canonical_entries (inr (c, TypeRef.map_of keys values ordered)) es each at first =
    if not ordered && is_string_type keys then Option.map collect_map (each values c) else none
canonical_entries (inr (c, TypeRef.record_of fields)) es each at first =
    Option.map (λ m. CanonicalValue.record_of (to_fields m))
      (collect_fields (λ name t. at name t c) fields [])
canonical_entries (inr (c, TypeRef.optional inner)) es each at first =
    canonical_first (optional_variant inner) (first_entry es) (λ t. first t c)
canonical_entries (inr (c, TypeRef.tagged_union variants)) es each at first =
    canonical_first (find_variant variants) (first_entry es) (λ t. first t c)
canonical_entries _ es each at first = none

unfoldable pub canonical_scalar : AnyValue → ResolveError ⊎ Scoped → Option CanonicalValue
canonical_scalar v (inr (c, TypeRef.primitive name)) = canonical_primitive v name
canonical_scalar v _ = none

module _ (registry : RegistrySet) where
  unfoldable mutual
    unfolding canonical_array canonical_entries canonical_scalar

    pub canonical_value : AnyValue → TypeRef → ResolvedComponent → Option CanonicalValue
    canonical_value (AnyValue.array vs) t c =
        canonical_array (resolve registry t c) (count_values vs) (canonical_items vs)
          (canonical_map vs) (canonical_zip vs)
    canonical_value (AnyValue.kv_list es) t c =
        canonical_entries (resolve registry t c) es (canonical_each es) (canonical_at es)
          (canonical_payload es)
    canonical_value (AnyValue.string s) t c =
        canonical_scalar (AnyValue.string s) (resolve registry t c)
    canonical_value (AnyValue.bool b) t c =
        canonical_scalar (AnyValue.bool b) (resolve registry t c)
    canonical_value (AnyValue.int n) t c = canonical_scalar (AnyValue.int n) (resolve registry t c)
    canonical_value (AnyValue.double x) t c =
        canonical_scalar (AnyValue.double x) (resolve registry t c)
    canonical_value (AnyValue.bytes b) t c =
        canonical_scalar (AnyValue.bytes b) (resolve registry t c)

    pub canonical_items : Values → TypeRef → ResolvedComponent → Option (List CanonicalValue)
    canonical_items values_end t c = some []
    canonical_items (value v vs) t c = cons_option (canonical_value v t c) (canonical_items vs t c)

    pub canonical_zip : Values → Types → ResolvedComponent → Option (List CanonicalValue)
    canonical_zip (value v vs) (type_item t ts) c =
        cons_option (canonical_value v t c) (canonical_zip vs ts c)
    canonical_zip values_end ts c = some []
    canonical_zip (value v vs) types_end c = some []

    pub canonical_map :
        Values
        → TypeRef
        → TypeRef
        → ResolvedComponent
        → Option (List (CanonicalValue × CanonicalValue))
    canonical_map values_end k t c = some []
    canonical_map (value (AnyValue.kv_list es) vs) k t c =
        cons_option (pair_option (canonical_at es "key" k c) (canonical_at es "value" t c))
          (canonical_map vs k t c)
    canonical_map (value v vs) k t c = none

    pub canonical_at : Entries → String → TypeRef → ResolvedComponent → Option CanonicalValue
    canonical_at entries_end name t c = none
    canonical_at (entry k v es) name t c =
        if str_eq k name then canonical_value v t c else canonical_at es name t c

    pub canonical_each :
        Entries → TypeRef → ResolvedComponent → Option (List (CanonicalValue × CanonicalValue))
    canonical_each entries_end t c = some []
    canonical_each (entry k v es) t c =
        cons_option (pair_option (some (CanonicalValue.string k)) (canonical_value v t c))
          (canonical_each es t c)

    pub canonical_payload : Entries → TypeRef → ResolvedComponent → Option CanonicalValue
    canonical_payload entries_end t c = none
    canonical_payload (entry k v es) t c = canonical_value v t c

  -- `filter_map(|value| canonical_value(value, items, …))`
  unfoldable pub canonical_some : Values → TypeRef → ResolvedComponent → List CanonicalValue
  canonical_some values_end t c = []
  canonical_some (value v vs) t c = elim (canonical_value v t c) [
    | none ↦ canonical_some vs t c
    | some w ↦ w ∷ canonical_some vs t c
  ]
