-- ===== src/Linked/Arms.antt =====
-- linked.rs: the arms of `validate_value`, one for each kind of type, given what the recursive
-- calls make of the parts of the value.
use specgate.Prelude.{
  ℕ, String, Bool, true, false, not, ◌&&◌, Option, none, some, List, [], ◌∷◌, ◌++◌, ◌⊎◌, inl, inr,
  ◌==◌, if◌then◌else◌, length, is_empty,
}
use specgate.Prelude.Order.{key_set, string_order}
use specgate.Prelude.Text.{str_eq, format, show_nat}
use specgate.Model.{
  AnyValue, Values, Entries, entries_end, entry, count_values, entry_keys, CanonicalValue, TypeRef,
  Types, Fields, field_names, ResolvedComponent,
}
use specgate.Model.Ordering.Laws.{canonical_order}
use specgate.Linked.Primitive.{validate_primitive}
use specgate.Linked.Resolve.{ResolveError, resolve_message, Scoped}
use specgate.Linked.Canonical.{count_types, is_string_type, find_variant, optional_variant}
use specgate.Render.{Format, Issues, issue}

abbrev pub same_texts : List String → List String → Bool
same_texts [] [] = true
same_texts (s ∷ ss) (t ∷ ts) = str_eq s t && same_texts ss ts
same_texts _ _ = false

-- `{location}[{index}]`, `{location}.{name}`
abbrev pub at_index : String → ℕ → String
at_index location index = format (location ∷ "[" ∷ show_nat index ∷ "]" ∷ [])

abbrev pub at_name : String → String → String
at_name location name = format (location ∷ "." ∷ name ∷ [])

-- The uniqueness of a collection is checked once its elements are valid.
unfoldable pub check_unique : Bool → List CanonicalValue → String → Issues
check_unique unique canonical location =
    if unique && not (length (key_set canonical) == length canonical)
    then issue location "unique collection contains duplicate elements"
    else []

-- The message for a value that is not a key-value list or not an array.
unfoldable pub wrong_kind : AnyValue → TypeRef → String → Issues
unfolding validate_primitive
wrong_kind v (TypeRef.primitive name) location = validate_primitive v name location
wrong_kind v (TypeRef.named n c r) location = []
wrong_kind v (TypeRef.collection items ordered unique) location =
    issue location "collection must use arrayValue"
wrong_kind v (TypeRef.map_of keys values ordered) location =
    if not ordered && is_string_type keys
    then issue location "string-keyed map must use kvlistValue"
    else issue location "ordered or non-string-keyed map must use arrayValue"
wrong_kind v (TypeRef.tuple items) location = issue location "tuple must use arrayValue"
wrong_kind v (TypeRef.record_of fields) location = issue location "record must use kvlistValue"
wrong_kind v (TypeRef.optional inner) location = issue location "optional must use kvlistValue"
wrong_kind v (TypeRef.tagged_union vs) location = issue location "tagged union must use kvlistValue"

-- The arms of the source for an array: what they make of its elements is given.
unfoldable pub validate_array :
    Format
    → ResolveError ⊎ Scoped
    → Values
    → String
    → (TypeRef → ResolvedComponent → Issues)
    → (TypeRef → ResolvedComponent → List CanonicalValue)
    → (TypeRef → TypeRef → ResolvedComponent → Issues)
    → (Types → ResolvedComponent → Issues)
    → Issues
unfolding wrong_kind check_unique
validate_array fmt (inl e) vs location each canonical entries zipped =
    issue location (resolve_message fmt e)
validate_array fmt (inr (c, TypeRef.collection items ordered unique)) vs location each canonical
      entries zipped =
    let found = each items c in
    found ++ (if is_empty found then check_unique unique (canonical items c) location else [])
validate_array fmt (inr (c, TypeRef.map_of keys values ordered)) vs location each canonical entries
      zipped =
    if not ordered && is_string_type keys
    then wrong_kind (AnyValue.array vs) (TypeRef.map_of keys values ordered) location
    else entries keys values c
validate_array fmt (inr (c, TypeRef.tuple items)) vs location each canonical entries zipped =
    if count_values vs == count_types items
    then zipped items c
    else issue location "tuple arity does not match registry type"
validate_array fmt (inr (c, t)) vs location each canonical entries zipped =
    wrong_kind (AnyValue.array vs) t location

-- The fields of a record, each with the entry of its name.
unfoldable pub check_fields : (String → TypeRef → Issues) → Fields → Issues
check_fields at Fields.fields_end = []
check_fields at (Fields.field name t fs) = at name t ++ check_fields at fs

-- One variant of an optional or a tagged union: its payload is a value of the variant's type,
-- or a unit.
unfoldable pub validate_variant :
    String
    → String
    → String
    → AnyValue
    → Option (Option TypeRef)
    → (TypeRef → String → Issues)
    → Issues
unfolding validate_primitive
validate_variant location what name payload none first =
    issue location (format ("unknown " ∷ what ∷ " variant '" ∷ name ∷ "'" ∷ []))
validate_variant location what name payload (some none) first =
    validate_primitive payload "unit" (at_name location name)
validate_variant location what name payload (some (some t)) first = first t (at_name location name)

unfoldable pub validate_first :
    String
    → String
    → String
    → (String → Option (Option TypeRef))
    → Entries
    → (TypeRef → String → Issues)
    → Issues
unfolding validate_variant
validate_first location noun adjective variant_of (entry name payload entries_end) first =
    validate_variant location adjective name payload (variant_of name) first
validate_first location noun adjective variant_of _ first =
    issue location (format (noun ∷ " must contain exactly one variant" ∷ []))

-- The arms of the source for a key-value list.
unfoldable pub validate_entries :
    Format
    → ResolveError ⊎ Scoped
    → Entries
    → String
    → (TypeRef → ResolvedComponent → Issues)
    → (String → TypeRef → ResolvedComponent → String → Issues)
    → (TypeRef → ResolvedComponent → String → Issues)
    → Issues
unfolding wrong_kind check_fields validate_first
validate_entries fmt (inl e) es location each at first = issue location (resolve_message fmt e)
validate_entries fmt (inr (c, TypeRef.map_of keys values ordered)) es location each at first =
    if not ordered && is_string_type keys
    then each values c
    else wrong_kind (AnyValue.kv_list es) (TypeRef.map_of keys values ordered) location
validate_entries fmt (inr (c, TypeRef.record_of fields)) es location each at first =
    if same_texts (key_set (entry_keys es)) (key_set (field_names fields))
    then check_fields (λ name t. at name t c (at_name location name)) fields
    else issue location "record fields do not match registry type"
validate_entries fmt (inr (c, TypeRef.optional inner)) es location each at first =
    validate_first location "optional" "optional" (optional_variant inner) es (λ t. first t c)
validate_entries fmt (inr (c, TypeRef.tagged_union variants)) es location each at first =
    validate_first location "tagged union" "tagged-union" (find_variant variants) es
      (λ t. first t c)
validate_entries fmt (inr (c, t)) es location each at first =
    wrong_kind (AnyValue.kv_list es) t location

unfoldable pub validate_scalar : Format → AnyValue → ResolveError ⊎ Scoped → String → Issues
unfolding wrong_kind
validate_scalar fmt v (inl e) location = issue location (resolve_message fmt e)
validate_scalar fmt v (inr (c, t)) location = wrong_kind v t location
