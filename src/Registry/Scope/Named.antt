-- ===== src/Registry/Scope/Named.antt =====
-- What `resolve_type` accepts: every named reference within the type leads to a declared type.
use specgate.Prelude.{
  ℕ, ◌+◌, String, true, Option, some, [], ◌≡◌, inl, inr, arith, any, append-eq-nil, Option-cases,
}
use specgate.Prelude.Text.{str_eq}
use specgate.Model.{
  TypeRef, Types, types_end, type_item, Fields, fields_end, field, Variants, variants_end, variant,
  unit_variant, NamedType, type_name, RegistryComponent,
}
use specgate.Linked.Resolve.{component_or}
use specgate.Registry.Scope.{
  Scope, find_target, check_target, require_links, resolve_named, resolve_type, resolve_items,
  resolve_fields, resolve_variants,
}
use specgate.Registry.Shape.Types.{at_index, under}

-- `P` holds of every named reference within a type.
module _ (P : String → Option String → Option String → Type 0) where
  unfoldable mutual
    pub AllNamed : TypeRef → Type 0
    AllNamed (TypeRef.primitive name) = Unit
    AllNamed (TypeRef.named name component_id registry_id) = P name component_id registry_id
    AllNamed (TypeRef.collection items ordered is_unique) = AllNamed items
    AllNamed (TypeRef.map_of keys values ordered) = AllNamed keys × AllNamed values
    AllNamed (TypeRef.tuple items) = AllItems items
    AllNamed (TypeRef.record_of fields) = AllFields fields
    AllNamed (TypeRef.optional value) = AllNamed value
    AllNamed (TypeRef.tagged_union variants) = AllVariants variants

    pub AllItems : Types → Type 0
    AllItems types_end = Unit
    AllItems (type_item t ts) = AllNamed t × AllItems ts

    pub AllFields : Fields → Type 0
    AllFields fields_end = Unit
    AllFields (field name t fs) = AllNamed t × AllFields fs

    pub AllVariants : Variants → Type 0
    AllVariants variants_end = Unit
    AllVariants (variant name payload vs) = AllNamed payload × AllVariants vs
    AllVariants (unit_variant name vs) = AllVariants vs

-- The component that the reference means, which declares the type.
pub record IsFound (scope : Scope) (name : String) (component_id type_registry : Option String)
    : Type 0 where
  pub target : RegistryComponent
  pub found :
      find_target scope
        (component_or type_registry scope.registry_id)
        (component_or component_id scope.component.id)
      ≡ some target
  pub declared : any (λ (t : NamedType). str_eq (type_name t) name) target.types ≡ true

module _ (scope : Scope) where
  resolve_named-IsFound :
      (name : String) (component_id type_registry : Option String) (location : String)
      → resolve_named scope name component_id type_registry location ≡ []
      → IsFound scope name component_id type_registry
  unfolding resolve_named check_target
  resolve_named-IsFound name component_id type_registry location h =
      let registry = component_or type_registry scope.registry_id in
      let id = component_or component_id scope.component.id in
      let checked = (append-eq-nil (require_links scope registry id location) _ h).1 in
      elim (Option-cases (find_target scope registry id)) [
        | inl absent ↦ absurd (let wrong = rw absent at checked in ground arith)
        | inr (target, found) ↦ record { target = target; found = found; declared = ground arith }
      ]

  abbrev Found : TypeRef → Type 0
  Found = AllNamed (IsFound scope)

  mutual
    unfolding resolve_type AllNamed

    resolve_type-lem :
        (t : TypeRef) (location : String) → resolve_type scope t location ≡ [] → Found t
    resolve_type-lem (TypeRef.primitive name) location h = tt
    resolve_type-lem (TypeRef.named name component_id type_registry) location h =
        resolve_named-IsFound name component_id type_registry location h
    resolve_type-lem (TypeRef.collection items ordered is_unique) location h =
        resolve_type-lem items (under location ".items") h
    resolve_type-lem (TypeRef.map_of keys values ordered) location h =
        let (k, v) = append-eq-nil (resolve_type scope keys (under location ".keys")) _ h in
        (
          resolve_type-lem keys (under location ".keys") k,
          resolve_type-lem values (under location ".values") v,
        )
    resolve_type-lem (TypeRef.tuple items) location h =
        resolve_items-lem items 0 (under location ".items") h
    resolve_type-lem (TypeRef.record_of fields) location h =
        resolve_fields-lem fields 0 (under location ".fields") h
    resolve_type-lem (TypeRef.optional value) location h =
        resolve_type-lem value (under location ".value") h
    resolve_type-lem (TypeRef.tagged_union variants) location h =
        resolve_variants-lem variants 0 (under location ".variants") h

    resolve_items-lem :
        (ts : Types) (index : ℕ) (location : String)
        → resolve_items scope ts index location ≡ []
        → AllItems (IsFound scope) ts
    resolve_items-lem types_end index location h = tt
    resolve_items-lem (type_item t ts) index location h =
        let (a, b) = append-eq-nil (resolve_type scope t (at_index location index)) _ h in
        (
          resolve_type-lem t (at_index location index) a,
          resolve_items-lem ts (index + 1) location b,
        )

    pub resolve_fields-lem :
        (fs : Fields) (index : ℕ) (location : String)
        → resolve_fields scope fs index location ≡ []
        → AllFields (IsFound scope) fs
    resolve_fields-lem fields_end index location h = tt
    resolve_fields-lem (field name t fs) index location h =
        let (a, b) =
          append-eq-nil (resolve_type scope t (under (at_index location index) ".type")) _ h in
        (
          resolve_type-lem t (under (at_index location index) ".type") a,
          resolve_fields-lem fs (index + 1) location b,
        )

    resolve_variants-lem :
        (vs : Variants) (index : ℕ) (location : String)
        → resolve_variants scope vs index location ≡ []
        → AllVariants (IsFound scope) vs
    resolve_variants-lem variants_end index location h = tt
    resolve_variants-lem (variant name t vs) index location h =
        let (a, b) =
          append-eq-nil (resolve_type scope t (under (at_index location index) ".payload")) _ h in
        (
          resolve_type-lem t (under (at_index location index) ".payload") a,
          resolve_variants-lem vs (index + 1) location b,
        )
    resolve_variants-lem (unit_variant name vs) index location h =
        resolve_variants-lem vs (index + 1) location h

  pub resolve_type-AllNamed :
      (t : TypeRef) (location : String)
      → resolve_type scope t location ≡ []
      → AllNamed (IsFound scope) t
  resolve_type-AllNamed t location h = resolve_type-lem t location h

  pub resolve_fields-AllFields :
      (fs : Fields) (index : ℕ) (location : String)
      → resolve_fields scope fs index location ≡ []
      → AllFields (IsFound scope) fs
  resolve_fields-AllFields fs index location h = resolve_fields-lem fs index location h

-- A property that implies another does so on every named reference.
module _ (P Q : String → Option String → Option String → Type 0)
    (imp : (n : String) (c r : Option String) → P n c r → Q n c r) where
  mutual
    unfolding AllNamed

    AllNamed-lem : (t : TypeRef) → AllNamed P t → AllNamed Q t
    AllNamed-lem (TypeRef.primitive name) h = tt
    AllNamed-lem (TypeRef.named name c r) h = imp name c r h
    AllNamed-lem (TypeRef.collection items ordered is_unique) h = AllNamed-lem items h
    AllNamed-lem (TypeRef.map_of keys values ordered) h =
        (AllNamed-lem keys h.0, AllNamed-lem values h.1)
    AllNamed-lem (TypeRef.tuple items) h = AllItems-lem items h
    AllNamed-lem (TypeRef.record_of fields) h = AllFields-lem fields h
    AllNamed-lem (TypeRef.optional value) h = AllNamed-lem value h
    AllNamed-lem (TypeRef.tagged_union variants) h = AllVariants-lem variants h

    AllItems-lem : (ts : Types) → AllItems P ts → AllItems Q ts
    AllItems-lem types_end h = tt
    AllItems-lem (type_item t ts) h = (AllNamed-lem t h.0, AllItems-lem ts h.1)

    AllFields-lem : (fs : Fields) → AllFields P fs → AllFields Q fs
    AllFields-lem fields_end h = tt
    AllFields-lem (field name t fs) h = (AllNamed-lem t h.0, AllFields-lem fs h.1)

    AllVariants-lem : (vs : Variants) → AllVariants P vs → AllVariants Q vs
    AllVariants-lem variants_end h = tt
    AllVariants-lem (variant name t vs) h = (AllNamed-lem t h.0, AllVariants-lem vs h.1)
    AllVariants-lem (unit_variant name vs) h = AllVariants-lem vs h

  pub AllNamed-mono : (t : TypeRef) → AllNamed P t → AllNamed Q t
  AllNamed-mono t h = AllNamed-lem t h

  pub AllFields-mono : (fs : Fields) → AllFields P fs → AllFields Q fs
  AllFields-mono fs h = AllFields-lem fs h
