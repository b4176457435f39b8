-- ===== src/Registry/Shape/Types/Typed.antt =====
-- The type references that `validate_type` accepts.
use specgate.Prelude.{
  ℕ, ◌+◌, String, true, not, Option, none, some, List, [], ◌∷◌, ◌≡◌, ◌≢◌, arith, any, if◌then◌else◌,
  append-eq-nil,
}
use specgate.Prelude.Elem.{Elem}
use specgate.Prelude.Text.{str_eq}
use text.Mathlib.TextEquality.{eq_iff}
use specgate.Model.{
  TypeRef, Types, types_end, type_item, Fields, fields_end, field, field_names, Variants,
  variants_end, variant, unit_variant,
}
use specgate.Render.{issue, require}
use specgate.Registry.Checks.{located, is_empty_text, is_empty_option, unique}
use specgate.Registry.Checks.Distinct.{Distinct, unique_iff}
use specgate.Registry.Shape.Types.{
  primitives, at_index, under, variant_names, has_variants, lacks_component, validate_named_ref,
  validate_type, validate_items, validate_fields, validate_each_variant, validate_values,
  validate_variants,
}

-- A reference to a type of another component: no name is empty, and a registry comes with a
-- component.
abbrev pub IsPresent : Option String → Type 0
IsPresent none = Unit
IsPresent (some s) = s ≢ ""

abbrev pub IsComplete : Option String → Option String → Type 0
IsComplete none (some registry_id) = ⊥
IsComplete _ _ = Unit

unfoldable mutual
  pub IsWellFormed : TypeRef → Type 0
  IsWellFormed (TypeRef.primitive name) = Elem name primitives
  IsWellFormed (TypeRef.named name component_id registry_id) =
      (name ≢ "")
      × IsPresent component_id
      × IsPresent registry_id
      × IsComplete component_id registry_id
  IsWellFormed (TypeRef.collection items ordered is_unique) = IsWellFormed items
  IsWellFormed (TypeRef.map_of keys values ordered) = IsWellFormed keys × IsWellFormed values
  IsWellFormed (TypeRef.tuple items) = AllItemsFit items
  IsWellFormed (TypeRef.record_of fields) = Distinct (field_names fields) × AllFieldsFit fields
  IsWellFormed (TypeRef.optional value) = IsWellFormed value
  IsWellFormed (TypeRef.tagged_union variants) =
      (variants ≢ variants_end) × Distinct (variant_names variants) × AllVariantsFit variants

  pub AllItemsFit : Types → Type 0
  AllItemsFit types_end = Unit
  AllItemsFit (type_item t ts) = IsWellFormed t × AllItemsFit ts

  pub AllFieldsFit : Fields → Type 0
  AllFieldsFit fields_end = Unit
  AllFieldsFit (field name t fs) = (name ≢ "") × IsWellFormed t × AllFieldsFit fs

  pub AllVariantsFit : Variants → Type 0
  AllVariantsFit variants_end = Unit
  AllVariantsFit (variant name payload vs) = (name ≢ "") × IsWellFormed payload × AllVariantsFit vs
  AllVariantsFit (unit_variant name vs) = (name ≢ "") × AllVariantsFit vs

pub require-nonempty :
    (s location message : String) → require (not (is_empty_text s)) location message ≡ [] → s ≢ ""
require-nonempty s location message h e = ground (arith, eq_iff s "")

any-Elem : (s : String) (xs : List String) → any (str_eq s) xs ≡ true → Elem s xs
any-Elem s [] h = absurd (ground arith)
any-Elem s (x ∷ xs) h = ground (arith, any-Elem s xs, eq_iff s x)

require-Elem :
    (s : String) (xs : List String) (location message : String)
    → require (any (str_eq s) xs) location message ≡ []
    → Elem s xs
require-Elem s xs location message h = any-Elem s xs (ground arith)

pub option-IsPresent :
    (o : Option String) (location message : String)
    → (if is_empty_option o then issue location message else []) ≡ []
    → IsPresent o
option-IsPresent none location message h = tt
option-IsPresent (some s) location message h = λ e. ground (arith, eq_iff s "")

lacks_component-IsComplete :
    (path : String) (c r : Option String) (location message : String)
    → (if lacks_component path c r then issue location message else []) ≡ []
    → IsComplete c r
lacks_component-IsComplete path none none location message h = tt
lacks_component-IsComplete path none (some r) location message h = absurd (ground arith)
lacks_component-IsComplete path (some c) none location message h = tt
lacks_component-IsComplete path (some c) (some r) location message h = tt

pub has_variants-ne : (vs : Variants) → has_variants vs ≡ true → vs ≢ variants_end
has_variants-ne vs h e = ground arith

module _ (path : String) where
  validate_named_ref-lem :
      (name : String) (c r : Option String) (location : String)
      → validate_named_ref path name c r location ≡ []
      → (name ≢ "") × IsPresent c × IsPresent r × IsComplete c r
  unfolding validate_named_ref
  validate_named_ref-lem name c r location h =
      let (named, h1) = append-eq-nil _ _ h in
      let (component, h2) = append-eq-nil _ _ h1 in
      let (registry, complete) = append-eq-nil _ _ h2 in
      (
        require-nonempty name _ _ named,
        option-IsPresent c _ _ component,
        option-IsPresent r _ _ registry,
        lacks_component-IsComplete path c r _ _ complete,
      )

  mutual
    unfolding validate_type IsWellFormed validate_named_ref

    validate_type-lem :
        (t : TypeRef) (location : String) → validate_type path t location ≡ [] → IsWellFormed t
    validate_type-lem (TypeRef.primitive name) location h = require-Elem name primitives _ _ h
    validate_type-lem (TypeRef.named name c r) location h =
        validate_named_ref-lem name c r location h
    validate_type-lem (TypeRef.collection items ordered is_unique) location h =
        validate_type-lem items (under location ".items") h
    validate_type-lem (TypeRef.map_of keys values ordered) location h =
        let (k, v) = append-eq-nil (validate_type path keys (under location ".keys")) _ h in
        (
          validate_type-lem keys (under location ".keys") k,
          validate_type-lem values (under location ".values") v,
        )
    validate_type-lem (TypeRef.tuple items) location h =
        validate_items-lem items 0 (under location ".items") h
    validate_type-lem (TypeRef.record_of fields) location h =
        let inner = under location ".fields" in
        let (once, all) =
          append-eq-nil (unique (field_names fields) (located path inner) "name") _ h in
        (
          (unique_iff (field_names fields) (located path inner) "name").0 once,
          validate_fields-lem fields 0 inner all,
        )
    validate_type-lem (TypeRef.optional value) location h =
        validate_type-lem value (under location ".value") h
    validate_type-lem (TypeRef.tagged_union variants) location h =
        let inner = under location ".variants" in
        let (nonempty, h1) =
          append-eq-nil
            (require (has_variants variants) (located path inner)
              "tagged union must contain at least one variant")
            _ h in
        let (once, all) =
          append-eq-nil (unique (variant_names variants) (located path inner) "name") _ h1 in
        (
          has_variants-ne variants (ground arith),
          (unique_iff (variant_names variants) (located path inner) "name").0 once,
          validate_each_variant-lem variants 0 inner all,
        )

    validate_items-lem :
        (ts : Types) (index : ℕ) (location : String)
        → validate_items path ts index location ≡ []
        → AllItemsFit ts
    validate_items-lem types_end index location h = tt
    validate_items-lem (type_item t ts) index location h =
        let (a, b) = append-eq-nil (validate_type path t (at_index location index)) _ h in
        (
          validate_type-lem t (at_index location index) a,
          validate_items-lem ts (index + 1) location b,
        )

    validate_fields-lem :
        (fs : Fields) (index : ℕ) (location : String)
        → validate_fields path fs index location ≡ []
        → AllFieldsFit fs
    validate_fields-lem fields_end index location h = tt
    validate_fields-lem (field name t fs) index location h =
        let (named, h1) = append-eq-nil _ _ h in
        let place = under (at_index location index) ".type" in
        let (typed, rest) = append-eq-nil (validate_type path t place) _ h1 in
        (
          require-nonempty name _ _ named,
          validate_type-lem t place typed,
          validate_fields-lem fs (index + 1) location rest,
        )

    validate_each_variant-lem :
        (vs : Variants) (index : ℕ) (location : String)
        → validate_each_variant path vs index location ≡ []
        → AllVariantsFit vs
    validate_each_variant-lem variants_end index location h = tt
    validate_each_variant-lem (variant name t vs) index location h =
        let (named, h1) = append-eq-nil _ _ h in
        let place = under (at_index location index) ".payload" in
        let (typed, rest) = append-eq-nil (validate_type path t place) _ h1 in
        (
          require-nonempty name _ _ named,
          validate_type-lem t place typed,
          validate_each_variant-lem vs (index + 1) location rest,
        )
    validate_each_variant-lem (unit_variant name vs) index location h =
        let (named, rest) = append-eq-nil _ _ h in
        (require-nonempty name _ _ named, validate_each_variant-lem vs (index + 1) location rest)

  pub validate_type-IsWellFormed :
      (t : TypeRef) (location : String) → validate_type path t location ≡ [] → IsWellFormed t
  validate_type-IsWellFormed t location h = validate_type-lem t location h

  pub validate_values-fit :
      (fs : Fields) (location : String)
      → validate_values path fs location ≡ []
      → Distinct (field_names fs) × AllFieldsFit fs
  unfolding validate_values
  validate_values-fit fs location h =
      let (once, all) =
        append-eq-nil (unique (field_names fs) (located path location) "name") _ h in
      (
        (unique_iff (field_names fs) (located path location) "name").0 once,
        validate_fields-lem fs 0 location all,
      )

  pub validate_variants-fit :
      (vs : Variants) (location : String)
      → validate_variants path vs location ≡ []
      → Distinct (variant_names vs) × AllVariantsFit vs
  unfolding validate_variants
  validate_variants-fit vs location h =
      let (once, all) =
        append-eq-nil (unique (variant_names vs) (located path location) "name") _ h in
      (
        (unique_iff (variant_names vs) (located path location) "name").0 once,
        validate_each_variant-lem vs 0 location all,
      )
