-- ===== src/Linked/Value.antt =====
-- linked.rs: `validate_value`, by recursion on the value as `canonical_value` is.
pub mod Parts
pub mod Records
pub mod Sound
use specgate.Prelude.{
  ℕ, ◌+◌, String, Bool, true, false, ◌&&◌, Option, none, some, List, [], ◌++◌, ◌==◌, if◌then◌else◌,
}
use specgate.Prelude.Order.{has_key, insert_key, string_order}
use specgate.Prelude.Text.{str_eq}
use specgate.Model.{
  AnyValue, Values, values_end, value, Entries, entries_end, entry, count_entries, CanonicalValue,
  TypeRef, Types, types_end, type_item, ResolvedComponent, RegistrySet,
}
use specgate.Model.Ordering.Laws.{canonical_order}
use specgate.Linked.Resolve.{resolve}
use specgate.Linked.Canonical.{canonical_at, canonical_some}
use specgate.Linked.Arms.{at_index, at_name, validate_array, validate_entries, validate_scalar}
use specgate.Render.{Format, Issues, issue}

abbrev pub has_entry : Entries → String → Bool
has_entry entries_end name = false
has_entry (entry k v es) name = let rest = has_entry es name in if str_eq k name then true else rest

-- A map entry has the keys "key" and "value", and no other.
abbrev pub is_map_entry : Entries → Bool
is_map_entry es = (count_entries es == 2) && (has_entry es "key" && has_entry es "value")

-- `!seen.insert(key)`, and what was seen after it
abbrev duplicate_key : Option CanonicalValue → List CanonicalValue → String → Issues
duplicate_key none seen location = []
duplicate_key (some k) seen location =
    if has_key k seen then issue location "map contains duplicate keys" else []

abbrev seen_with : Option CanonicalValue → List CanonicalValue → List CanonicalValue
seen_with none seen = seen
seen_with (some k) seen = insert_key k seen

module _ (fmt : Format) (registry : RegistrySet) where
  -- The canonical key of a well-formed map entry.
  entry_key : AnyValue → TypeRef → ResolvedComponent → Option CanonicalValue
  entry_key (AnyValue.kv_list es) keys c =
      if is_map_entry es then canonical_at registry es "key" keys c else none
  entry_key v keys c = none

  unfoldable mutual
    unfolding validate_array validate_entries validate_scalar entry_key

    pub validate_value : AnyValue → TypeRef → ResolvedComponent → String → Issues
    validate_value (AnyValue.array vs) t c location =
        validate_array fmt (resolve registry t c) vs location
          (λ items s. validate_items vs items s location 0)
          (λ items s. canonical_some registry vs items s)
          (λ keys values s. validate_map vs keys values s location 0 [])
          (λ items s. validate_zip vs items s location 0)
    validate_value (AnyValue.kv_list es) t c location =
        validate_entries fmt (resolve registry t c) es location
          (λ values s. validate_each es values s location)
          (λ name u s place. validate_at es name u s place)
          (λ u s place. validate_payload es u s place)
    validate_value (AnyValue.string x) t c location =
        validate_scalar fmt (AnyValue.string x) (resolve registry t c) location
    validate_value (AnyValue.bool x) t c location =
        validate_scalar fmt (AnyValue.bool x) (resolve registry t c) location
    validate_value (AnyValue.int x) t c location =
        validate_scalar fmt (AnyValue.int x) (resolve registry t c) location
    validate_value (AnyValue.double x) t c location =
        validate_scalar fmt (AnyValue.double x) (resolve registry t c) location
    validate_value (AnyValue.bytes x) t c location =
        validate_scalar fmt (AnyValue.bytes x) (resolve registry t c) location

    pub validate_items : Values → TypeRef → ResolvedComponent → String → ℕ → Issues
    validate_items values_end t c location index = []
    validate_items (value v vs) t c location index =
        validate_value v t c (at_index location index) ++ validate_items vs t c location (index + 1)

    pub validate_zip : Values → Types → ResolvedComponent → String → ℕ → Issues
    validate_zip (value v vs) (type_item t ts) c location index =
        validate_value v t c (at_index location index) ++ validate_zip vs ts c location (index + 1)
    validate_zip values_end ts c location index = []
    validate_zip (value v vs) types_end c location index = []

    pub validate_map :
        Values → TypeRef → TypeRef → ResolvedComponent → String → ℕ → List CanonicalValue → Issues
    validate_map values_end keys values c location index seen = []
    validate_map (value v vs) keys values c location index seen =
        validate_entry v keys values c (at_index location index)
        ++ (duplicate_key (entry_key v keys c) seen location
            ++ validate_map vs keys values c location (index + 1)
                (seen_with (entry_key v keys c) seen))

    pub validate_entry : AnyValue → TypeRef → TypeRef → ResolvedComponent → String → Issues
    validate_entry (AnyValue.kv_list es) keys values c location =
        if is_map_entry es
        then validate_at es "key" keys c (at_name location "key")
          ++ validate_at es "value" values c (at_name location "value")
        else issue location "map entry must contain key and value"
    validate_entry v keys values c location = issue location "map entry must contain key and value"

    -- the value under a name that the caller has found among the keys
    pub validate_at : Entries → String → TypeRef → ResolvedComponent → String → Issues
    validate_at entries_end name t c location = []
    validate_at (entry k v es) name t c location =
        if str_eq k name then validate_value v t c location else validate_at es name t c location

    pub validate_each : Entries → TypeRef → ResolvedComponent → String → Issues
    validate_each entries_end t c location = []
    validate_each (entry k v es) t c location =
        validate_value v t c (at_name location k) ++ validate_each es t c location

    pub validate_payload : Entries → TypeRef → ResolvedComponent → String → Issues
    validate_payload entries_end t c location = []
    validate_payload (entry k v es) t c location = validate_value v t c location
