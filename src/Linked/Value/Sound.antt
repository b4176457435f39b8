-- ===== src/Linked/Value/Sound.antt =====
-- `validate_value` and `canonical_value` agree: a value without an issue has a canonical form.
use specgate.Prelude.{
  ℕ, ◌+◌, String, true, false, Option, none, some, List, [], ◌≡◌, refl, arith, append-eq-nil,
  Bool-cases, inl, inr,
}
use specgate.Prelude.Text.{str_eq}
use specgate.Model.{
  AnyValue, Values, values_end, value, Entries, entries_end, entry, CanonicalValue, TypeRef, Types,
  types_end, type_item, ResolvedComponent, RegistrySet,
}
use specgate.Linked.Primitive.{no_entries}
use specgate.Linked.Resolve.{resolve}
use specgate.Linked.Canonical.{
  canonical_value, canonical_items, canonical_zip, canonical_map, canonical_at, canonical_each,
  canonical_payload, canonical_some, cons_option, pair_option,
}
use specgate.Linked.Arms.{at_index, at_name}
use specgate.Linked.Value.{
  has_entry, is_map_entry, entry_key, duplicate_key, validate_value, validate_items, validate_zip,
  validate_map, validate_entry, validate_at, validate_each, validate_payload,
}
use specgate.Linked.Value.Parts.{
  is_some, resolve-Direct, validate_array-is_some, validate_scalar-is_some,
}
use specgate.Linked.Value.Records.{validate_entries-is_some}
use specgate.Render.{Format}

cons-is_some :
    {A : Type 0} (x : Option A) (xs : Option (List A))
    → is_some x ≡ true
    → is_some xs ≡ true
    → is_some (cons_option x xs) ≡ true
cons-is_some (some x) (some xs) h k = refl
cons-is_some none xs h k = h
cons-is_some (some x) none h k = k

pair-is_some :
    {A : Type 0} (x y : Option A)
    → is_some x ≡ true
    → is_some y ≡ true
    → is_some (pair_option x y) ≡ true
pair-is_some (some x) (some y) h k = refl
pair-is_some none y h k = h
pair-is_some (some x) none h k = k

module _ (fmt : Format) (registry : RegistrySet) where
  -- An entry that is well formed, when the calls for its two parts are.
  entry-is_some :
      (es : Entries) (k t : TypeRef) (c : ResolvedComponent) (location : String)
      → ((name : String) (u : TypeRef) (place : String)
          → has_entry es name ≡ true
          → validate_at fmt registry es name u c place ≡ []
          → is_some (canonical_at registry es name u c) ≡ true)
      → validate_entry fmt registry (AnyValue.kv_list es) k t c location ≡ []
      → is_some
          (pair_option (canonical_at registry es "key" k c) (canonical_at registry es "value" t c))
        ≡ true
  unfolding validate_value
  entry-is_some es k t c location at p = elim (Bool-cases (is_map_entry es)) [
    | inl well ↦
        let (first, rest) =
          append-eq-nil (validate_at fmt registry es "key" k c _) _ (rw well at p) in
        pair-is_some _ _ (at "key" k (at_name location "key") (ground arith) first)
          (at "value" t (at_name location "value") (ground arith) rest)
    | inr ill ↦ absurd (ground arith)
  ]

  mutual
    unfolding validate_value canonical_value

    value-is_some :
        (v : AnyValue) (t : TypeRef) (c : ResolvedComponent) (location : String)
        → validate_value fmt registry v t c location ≡ []
        → is_some (canonical_value registry v t c) ≡ true
    value-is_some (AnyValue.array vs) t c location p =
        validate_array-is_some fmt (resolve registry t c) vs location
          (λ items s. canonical_some registry vs items s) (resolve-Direct registry t c)
          (record {
            each_some = λ u s. items-is_some vs u s location 0;
            entries_some = λ k u s. map-is_some vs k u s location 0 [];
            zipped_some = λ us s. zip-is_some vs us s location 0;
          })
          p
    value-is_some (AnyValue.kv_list es) t c location p =
        validate_entries-is_some fmt (resolve registry t c) es location
          (resolve-Direct registry t c)
          (record {
            each_some = λ u s. each-is_some es u s location;
            at_some = λ name u s place. at-is_some es name u s place;
            first_some = λ u s place. payload-is_some es u s place;
          })
          p
    value-is_some (AnyValue.string x) t c location p =
        validate_scalar-is_some fmt (AnyValue.string x) (resolve registry t c) location
          (resolve-Direct registry t c) p
    value-is_some (AnyValue.bool x) t c location p =
        validate_scalar-is_some fmt (AnyValue.bool x) (resolve registry t c) location
          (resolve-Direct registry t c) p
    value-is_some (AnyValue.int x) t c location p =
        validate_scalar-is_some fmt (AnyValue.int x) (resolve registry t c) location
          (resolve-Direct registry t c) p
    value-is_some (AnyValue.double x) t c location p =
        validate_scalar-is_some fmt (AnyValue.double x) (resolve registry t c) location
          (resolve-Direct registry t c) p
    value-is_some (AnyValue.bytes x) t c location p =
        validate_scalar-is_some fmt (AnyValue.bytes x) (resolve registry t c) location
          (resolve-Direct registry t c) p

    items-is_some :
        (vs : Values) (t : TypeRef) (c : ResolvedComponent) (location : String) (i : ℕ)
        → validate_items fmt registry vs t c location i ≡ []
        → is_some (canonical_items registry vs t c) ≡ true
    items-is_some values_end t c location i p = refl
    items-is_some (value v vs) t c location i p =
        let (first, rest) = append-eq-nil (validate_value fmt registry v t c _) _ p in
        cons-is_some _ _ (value-is_some v t c (at_index location i) first)
          (items-is_some vs t c location (i + 1) rest)

    zip-is_some :
        (vs : Values) (ts : Types) (c : ResolvedComponent) (location : String) (i : ℕ)
        → validate_zip fmt registry vs ts c location i ≡ []
        → is_some (canonical_zip registry vs ts c) ≡ true
    zip-is_some values_end ts c location i p = refl
    zip-is_some (value v vs) types_end c location i p = refl
    zip-is_some (value v vs) (type_item t ts) c location i p =
        let (first, rest) = append-eq-nil (validate_value fmt registry v t c _) _ p in
        cons-is_some _ _ (value-is_some v t c (at_index location i) first)
          (zip-is_some vs ts c location (i + 1) rest)

    map-is_some :
        (vs : Values) (k t : TypeRef) (c : ResolvedComponent) (location : String) (i : ℕ)
        (seen : List CanonicalValue)
        → validate_map fmt registry vs k t c location i seen ≡ []
        → is_some (canonical_map registry vs k t c) ≡ true
    map-is_some values_end k t c location i seen p = refl
    map-is_some (value (AnyValue.kv_list es) vs) k t c location i seen p =
        let (first, rest) =
          append-eq-nil (validate_entry fmt registry (AnyValue.kv_list es) k t c _) _ p in
        cons-is_some _ _
          (entry-is_some es k t c (at_index location i)
            (λ name u place. at-is_some es name u c place) first)
          (map-is_some vs k t c location (i + 1) _
            (append-eq-nil
              (duplicate_key (entry_key fmt registry (AnyValue.kv_list es) k c) seen location) _
              rest).1)
    map-is_some (value v vs) k t c location i seen p = absurd (ground arith)

    at-is_some :
        (es : Entries) (name : String) (t : TypeRef) (c : ResolvedComponent) (location : String)
        → has_entry es name ≡ true
        → validate_at fmt registry es name t c location ≡ []
        → is_some (canonical_at registry es name t c) ≡ true
    at-is_some entries_end name t c location h p = h
    at-is_some (entry k v es) name t c location h p = elim (Bool-cases (str_eq k name)) [
      | inl own ↦ rw own (value-is_some v t c location (rw own at p))
      | inr other ↦ rw other (at-is_some es name t c location (rw other at h) (rw other at p))
    ]

    each-is_some :
        (es : Entries) (t : TypeRef) (c : ResolvedComponent) (location : String)
        → validate_each fmt registry es t c location ≡ []
        → is_some (canonical_each registry es t c) ≡ true
    each-is_some entries_end t c location p = refl
    each-is_some (entry k v es) t c location p =
        let (first, rest) = append-eq-nil (validate_value fmt registry v t c _) _ p in
        cons-is_some _ _
          (pair-is_some (some (CanonicalValue.string k)) _ refl
            (value-is_some v t c (at_name location k) first))
          (each-is_some es t c location rest)

    payload-is_some :
        (es : Entries) (t : TypeRef) (c : ResolvedComponent) (location : String)
        → no_entries es ≡ false
        → validate_payload fmt registry es t c location ≡ []
        → is_some (canonical_payload registry es t c) ≡ true
    payload-is_some entries_end t c location h p = absurd (ground arith)
    payload-is_some (entry k v es) t c location h p = value-is_some v t c location p

  -- A value in which `validate_value` finds no issue has a canonical form, whatever the type,
  -- the component and the location, so the comparison of validated values never reads a missing
  -- one.
  pub validate_value-is_some :
      (v : AnyValue) (t : TypeRef) (c : ResolvedComponent) (location : String)
      → validate_value fmt registry v t c location ≡ []
      → is_some (canonical_value registry v t c) ≡ true
  validate_value-is_some = value-is_some
