-- ===== src/Model/Registry.antt =====
-- model.rs: semantic types, operations, components, the registry document and the registry set.
-- Descriptions are left out, and of extensions the values: nothing modelled reads them.
use specgate.Prelude.{String, Bool, Option, none, some, List, if◌then◌else◌}
use specgate.Prelude.Order.{Dict}
use specgate.Prelude.Text.{str_eq}

-- `Vec<TypeRef>`, `Vec<NamedValue>` and `Vec<Variant>` are the lists of the block; a variant
-- with no payload is `unit_variant`.
mutual
  pub data TypeRef : Type 0 where
    primitive : String → TypeRef
    named : String → Option String → Option String → TypeRef
    collection : TypeRef → Bool → Bool → TypeRef
    map_of : TypeRef → TypeRef → Bool → TypeRef
    tuple : Types → TypeRef
    record_of : Fields → TypeRef
    optional : TypeRef → TypeRef
    tagged_union : Variants → TypeRef

  pub data Types : Type 0 where
    types_end : Types
    type_item : TypeRef → Types → Types

  pub data Fields : Type 0 where
    fields_end : Fields
    field : String → TypeRef → Fields → Fields

  pub data Variants : Type 0 where
    variants_end : Variants
    variant : String → TypeRef → Variants → Variants
    unit_variant : String → Variants → Variants

pub record ErrorOutcome : Type 0 where
  pub name : String
  pub value_type : Option TypeRef

pub record RegistryOutcomes : Type 0 where
  pub result : Option TypeRef
  pub empty : Bool
  pub errors : List ErrorOutcome

-- The keys of a `BTreeMap<String, Value>`.
abbrev pub Extensions : Type 0
Extensions = List String

pub record RegistryOperation : Type 0 where
  pub name : String
  pub inputs : Fields
  pub observations : Fields
  pub outcomes : RegistryOutcomes
  pub extensions : Extensions

pub data NamedType : Type 0 where
  record_type : String → Fields → Extensions → NamedType
  union_type : String → Variants → Extensions → NamedType

abbrev pub type_name : NamedType → String
type_name (record_type n fields extensions) = n
type_name (union_type n variants extensions) = n

-- `NamedType::as_type`
abbrev pub as_type : NamedType → TypeRef
as_type (record_type n fields extensions) = record_of fields
as_type (union_type n variants extensions) = tagged_union variants

pub record ComponentRef : Type 0 where
  pub component_id : String
  pub registry_id : Option String

pub record RegistryComponent : Type 0 where
  pub id : String
  pub dependencies : List ComponentRef
  pub operations : List RegistryOperation
  pub types : List NamedType
  pub extensions : Extensions

pub record RegistryImport : Type 0 where
  pub registry_id : String
  pub version : String
  pub digest : String
  pub uri : Option String

pub record RegistryDocument : Type 0 where
  pub format : String
  pub format_version : String
  pub registry_id : String
  pub version : String
  pub imports : List RegistryImport
  pub components : List RegistryComponent
  pub extensions : Extensions

pub record ResolvedComponent : Type 0 where
  pub registry_id : String
  pub component : RegistryComponent

pub record RegistrySet : Type 0 where
  pub root_id : String
  pub root_version : String
  pub root_digest : String
  pub components : Dict String ResolvedComponent

-- `iter().find(|value| value.name == name)` with the type of what is found
abbrev pub find_field : Fields → String → Option TypeRef
find_field fields_end name = none
find_field (field k t fs) name =
    let rest = find_field fs name in if str_eq k name then some t else rest

abbrev pub field_names : Fields → List String
field_names fields_end = List.[]
field_names (field k t fs) = List.◌∷◌ k (field_names fs)
