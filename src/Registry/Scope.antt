-- ===== src/Registry/Scope.antt =====
-- registry.rs: `resolve_type`, in the scope of a component of a selected document.
pub mod Named
use specgate.Prelude.{
  ℕ, ◌+◌, String, Bool, true, false, not, ◌&&◌, Option, none, some, List, [], ◌∷◌, ◌++◌,
  if◌then◌else◌, any, find,
}
use specgate.Prelude.Order.{Dict, string_order, get}
use specgate.Prelude.Text.{format, str_eq}
use specgate.Model.{
  TypeRef, Types, types_end, type_item, Fields, fields_end, field, Variants, variants_end, variant,
  unit_variant, NamedType, type_name, ComponentRef, RegistryComponent, RegistryImport,
}
use specgate.Linked.Resolve.{component_or}
use specgate.Render.{Issues, issue, require}
use specgate.Registry.Checks.{located}
use specgate.Registry.Cycles.{Member, Members}
use specgate.Registry.Shape.Types.{at_index, under}
use specgate.Registry.Uses.{is_text}

-- Where a type is resolved: the documents, the registry and the component that hold it, the
-- components of that registry by id, and the path of its file.
pub record Scope : Type 0 where
  pub documents : Members
  pub registry_id : String
  pub component : RegistryComponent
  pub local_components : Dict String RegistryComponent
  pub path : String

abbrev pub imports_registry : Option Member → String → Bool
imports_registry none target = false
imports_registry (some m) target =
    any (λ (i : RegistryImport). str_eq i.registry_id target) m.document.imports

abbrev pub is_none : Option String → Bool
is_none none = true
is_none (some s) = false

abbrev pub find_component : String → List RegistryComponent → Option RegistryComponent
find_component id = find (λ (c : RegistryComponent). str_eq c.id id)

abbrev pub component_in : Option Member → String → Option RegistryComponent
component_in none id = none
component_in (some m) id = find_component id m.document.components

abbrev pub or_else {ℓ} : {A : Type ℓ} → Option A → Option A → Option A
or_else none other = other
or_else (some a) other = some a

module _ (scope : Scope) where
  open scope use {documents, registry_id, component, local_components, path}

  -- What a reference to another registry or component needs beside its target.
  unfoldable pub require_links : String → String → String → Issues
  require_links target_registry target_component location =
      if not (str_eq target_registry registry_id)
      then require (imports_registry (get documents registry_id) target_registry)
          (located path location)
          (format ("unknown imported registry '" ∷ target_registry ∷ "'" ∷ []))
        ++ require
            (any
              (λ (d : ComponentRef).
                is_text d.registry_id target_registry && str_eq d.component_id target_component)
              component.dependencies)
            (located path location) "missing matching component dependency"
      else if not (str_eq target_component component.id)
      then require
          (any
            (λ (d : ComponentRef). is_none d.registry_id && str_eq d.component_id target_component)
            component.dependencies)
          (located path location) "missing matching local dependency"
      else []

  unfoldable pub find_target : String → String → Option RegistryComponent
  find_target target_registry target_component =
      or_else (component_in (get documents target_registry) target_component)
        (if str_eq target_registry registry_id then get local_components target_component else none)

  unfoldable pub check_target :
      Option RegistryComponent → String → String → String → String → Issues
  check_target none target_registry target_component name location = issue (located path location) (
      format
        ("unknown component '" ∷ target_component ∷ "' in registry '" ∷ target_registry ∷ "'" ∷ []))
  check_target (some target) target_registry target_component name location =
      require (any (λ (t : NamedType). str_eq (type_name t) name) target.types)
        (located path location) (format ("unknown named type '" ∷ name ∷ "'" ∷ []))

  unfoldable pub resolve_named : String → Option String → Option String → String → Issues
  unfolding require_links find_target check_target
  resolve_named name component_id type_registry location =
      let target_registry = component_or type_registry registry_id in
      let target_component = component_or component_id component.id in
      require_links target_registry target_component location
      ++ check_target (find_target target_registry target_component) target_registry
          target_component name location

  unfoldable mutual
    unfolding resolve_named

    pub resolve_type : TypeRef → String → Issues
    resolve_type (TypeRef.named name component_id type_registry) location =
        resolve_named name component_id type_registry location
    resolve_type (TypeRef.primitive name) location = []
    resolve_type (TypeRef.collection items ordered is_unique) location =
        resolve_type items (under location ".items")
    resolve_type (TypeRef.map_of keys values ordered) location =
        resolve_type keys (under location ".keys") ++ resolve_type values (under location ".values")
    resolve_type (TypeRef.tuple items) location = resolve_items items 0 (under location ".items")
    resolve_type (TypeRef.record_of fields) location =
        resolve_fields fields 0 (under location ".fields")
    resolve_type (TypeRef.optional value) location = resolve_type value (under location ".value")
    resolve_type (TypeRef.tagged_union variants) location =
        resolve_variants variants 0 (under location ".variants")

    pub resolve_items : Types → ℕ → String → Issues
    resolve_items types_end index location = []
    resolve_items (type_item t ts) index location =
        resolve_type t (at_index location index) ++ resolve_items ts (index + 1) location

    pub resolve_fields : Fields → ℕ → String → Issues
    resolve_fields fields_end index location = []
    resolve_fields (field name t fs) index location =
        resolve_type t (under (at_index location index) ".type")
        ++ resolve_fields fs (index + 1) location

    pub resolve_variants : Variants → ℕ → String → Issues
    resolve_variants variants_end index location = []
    resolve_variants (variant name payload vs) index location =
        resolve_type payload (under (at_index location index) ".payload")
        ++ resolve_variants vs (index + 1) location
    resolve_variants (unit_variant name vs) index location =
        resolve_variants vs (index + 1) location
