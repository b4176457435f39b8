-- ===== src/Linked/Value/Records.antt =====
-- The arms for key-value lists: records, maps with text keys, optionals and tagged unions.
use mathlib.Core.Option
use specgate.Prelude.{
  String, true, false, Option, none, some, List, [], ◌∷◌, ◌⊎◌, inl, inr, ◌≡◌, refl, arith,
  append-eq-nil, Bool-cases, Option-cases,
}
use specgate.Prelude.Order.{Dict, key_set, has_key, string_order, insert}
use specgate.Prelude.Order.Laws.{has_key-insert_key, same_key_refl}
use text.Mathlib.TextEquality.{eq_iff}
use specgate.Model.{
  AnyValue, Entries, entries_end, entry, CanonicalValue, entry_keys, TypeRef, Fields, field_names,
  ResolvedComponent,
}
use specgate.Linked.Primitive.{no_entries}
use specgate.Linked.Resolve.{ResolveError, Scoped}
use specgate.Linked.Canonical.{
  canonical_entries, canonical_first, canonical_variant, collect_fields, first_entry,
  optional_variant, find_variant,
}
use specgate.Linked.Arms.{
  same_texts, wrong_kind, check_fields, validate_variant, validate_first, validate_entries, at_name,
}
use specgate.Linked.Value.{has_entry}
use specgate.Linked.Value.Parts.{is_some, Direct, validate_primitive-is_some}
use specgate.Render.{Format, Issues}

same_texts-eq : (xs ys : List String) → same_texts xs ys ≡ true → xs ≡ ys
same_texts-eq [] [] h = refl
same_texts-eq (x ∷ xs) (y ∷ ys) h = ground (arith, eq_iff x y, same_texts-eq xs ys)
same_texts-eq [] (y ∷ ys) h = ground arith
same_texts-eq (x ∷ xs) [] h = ground arith

has_key-entries :
    (name : String) (es : Entries) → has_key name (key_set (entry_keys es)) ≡ has_entry es name
has_key-entries name entries_end = refl
has_key-entries name (entry k v es) = ground (
  arith,
  has_key-insert_key k name (key_set (entry_keys es)),
  has_key-entries name es,
  same_key_refl name,
  string_order.cmp_iff name k,
  eq_iff k name,
)

-- `at` finds the entry of each field.
module _ (es : Entries) (at : String → TypeRef → Issues)
    (at' : String → TypeRef → Option CanonicalValue)
    (at_some : (name : String) (t : TypeRef)
      → has_entry es name ≡ true
      → at name t ≡ []
      → is_some (at' name t) ≡ true) where
  collect_fields-is_some :
      (fields : Fields) (m : Dict String CanonicalValue)
      → ((name : String)
          → has_key name (key_set (field_names fields)) ≡ true
          → has_entry es name ≡ true)
      → check_fields at fields ≡ []
      → is_some (collect_fields at' fields m) ≡ true
  unfolding collect_fields check_fields
  collect_fields-is_some Fields.fields_end m h p = refl
  collect_fields-is_some (Fields.field name t fs) m h p =
      let names = key_set (field_names fs) in
      let (first, rest) = append-eq-nil (at name t) _ p in
      let own : has_entry es name ≡ true =
        h name (ground (arith, has_key-insert_key name name names, same_key_refl name)) in
      elim (Option-cases (at' name t)) [
        | inl absent ↦ absurd (ground (arith, at_some name t own first))
        | inr (v, found) ↦
            rw (found, collect_fields)
              (collect_fields-is_some fs (insert name v m)
                (λ other q. h other (ground (arith, has_key-insert_key name other names))) rest)
      ]

-- What the recursive calls give for a key-value list.
pub record EntryParts (es : Entries) (each : TypeRef → ResolvedComponent → Issues)
    (at : String → TypeRef → ResolvedComponent → String → Issues)
    (first : TypeRef → ResolvedComponent → String → Issues)
    (each' : TypeRef → ResolvedComponent → Option (List (CanonicalValue × CanonicalValue)))
    (at' : String → TypeRef → ResolvedComponent → Option CanonicalValue)
    (first' : TypeRef → ResolvedComponent → Option CanonicalValue) : Type 0 where
  pub each_some : (t : TypeRef) (c : ResolvedComponent) → each t c ≡ [] → is_some (each' t c) ≡ true
  pub at_some :
      (name : String) (t : TypeRef) (c : ResolvedComponent) (place : String)
      → has_entry es name ≡ true
      → at name t c place ≡ []
      → is_some (at' name t c) ≡ true
  pub first_some :
      (t : TypeRef) (c : ResolvedComponent) (place : String)
      → no_entries es ≡ false
      → first t c place ≡ []
      → is_some (first' t c) ≡ true

map-is_some :
    {A B : Type 0} (f : A → B) (o : Option A) → is_some o ≡ true → is_some (Option.map f o) ≡ true
map-is_some f none h = h
map-is_some f (some a) h = refl

validate_first-is_some :
    (location noun adjective : String) (variant_of : String → Option (Option TypeRef))
    (es : Entries) (first : TypeRef → String → Issues) (first' : TypeRef → Option CanonicalValue)
    → ((t : TypeRef) (place : String)
        → no_entries es ≡ false
        → first t place ≡ []
        → is_some (first' t) ≡ true)
    → validate_first location noun adjective variant_of es first ≡ []
    → is_some (canonical_first variant_of (first_entry es) first') ≡ true
unfolding validate_first canonical_first validate_variant canonical_variant
validate_first-is_some location noun adjective variant_of entries_end first first' h p =
    ground arith
validate_first-is_some location noun adjective variant_of (entry k v (entry j w es)) first first' h
      p =
    ground arith
validate_first-is_some location noun adjective variant_of (entry k v entries_end) first first' h p =
    elim (Option-cases (variant_of k)) [
      | inl unknown ↦ absurd (ground arith)
      | inr (none, unit) ↦
          rw unit (map-is_some _ _ (validate_primitive-is_some v "unit" _ (rw unit at p)))
      | inr (some t, payload) ↦ rw payload (map-is_some _ _ (h t _ refl (rw payload at p)))
    ]

pub validate_entries-is_some :
    (fmt : Format) (r : ResolveError ⊎ Scoped) (es : Entries) (location : String)
    {each : TypeRef → ResolvedComponent → Issues}
    {at : String → TypeRef → ResolvedComponent → String → Issues}
    {first : TypeRef → ResolvedComponent → String → Issues}
    {each' : TypeRef → ResolvedComponent → Option (List (CanonicalValue × CanonicalValue))}
    {at' : String → TypeRef → ResolvedComponent → Option CanonicalValue}
    {first' : TypeRef → ResolvedComponent → Option CanonicalValue}
    → Direct r
    → EntryParts es each at first each' at' first'
    → validate_entries fmt r es location each at first ≡ []
    → is_some (canonical_entries r es each' at' first') ≡ true
unfolding validate_entries canonical_entries wrong_kind
validate_entries-is_some fmt (inl e) es location d parts p = ground arith
validate_entries-is_some fmt (inr (c, TypeRef.primitive name)) es location d parts p =
    validate_primitive-is_some (AnyValue.kv_list es) name location p
validate_entries-is_some fmt (inr (c, TypeRef.named n i r)) es location d parts p = absurd d
validate_entries-is_some fmt (inr (c, TypeRef.collection items ordered unique)) es location d parts
      p =
    ground arith
validate_entries-is_some fmt (inr (c, TypeRef.map_of keys values ordered)) es location d parts p =
    ground (arith, parts.each_some values c)
validate_entries-is_some fmt (inr (c, TypeRef.tuple items)) es location d parts p = ground arith
validate_entries-is_some fmt (inr (c, TypeRef.record_of fields)) es location {at = at} {at' = at'} d
      parts p =
    elim (Bool-cases (same_texts (key_set (entry_keys es)) (key_set (field_names fields)))) [
      | inl same ↦ map-is_some _ _ (
          collect_fields-is_some es (λ name t. at name t c (at_name location name))
            (λ name t. at' name t c) (λ name t. parts.at_some name t c (at_name location name))
            fields []
            (λ name h. ground (
              arith,
              has_key-entries name es,
              same_texts-eq (key_set (entry_keys es)) (key_set (field_names fields)) same,
            ))
            (rw same at p))
      | inr differ ↦ absurd (ground arith)
    ]
validate_entries-is_some fmt (inr (c, TypeRef.optional inner)) es location d parts p =
    validate_first-is_some location "optional" "optional" (optional_variant inner) es _ _
      (λ t place. parts.first_some t c place) p
validate_entries-is_some fmt (inr (c, TypeRef.tagged_union variants)) es location d parts p =
    validate_first-is_some location "tagged union" "tagged-union" (find_variant variants) es _ _
      (λ t place. parts.first_some t c place) p
