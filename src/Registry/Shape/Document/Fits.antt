-- ===== src/Registry/Shape/Document/Fits.antt =====
-- What a registry document is to satisfy, part by part.
use specgate.Prelude.{String, true, Option, none, some, List, [], ◌∷◌, ◌≡◌, ◌≢◌, map, Ordering}
use Prim.Native.String
use specgate.Prelude.Elem.{All}
use specgate.Model.{
  TypeRef, Fields, field_names, variants_end, ErrorOutcome, RegistryOperation, NamedType, type_name,
  ComponentRef, RegistryComponent, RegistryImport, RegistryDocument,
}
use specgate.Registry.Checks.{is_digest}
use specgate.Registry.Checks.Distinct.{Distinct}
use specgate.Registry.Shape.Types.{variant_names}
use specgate.Registry.Shape.Types.Typed.{IsPresent, IsWellFormed, AllFieldsFit, AllVariantsFit}
use specgate.Registry.Shape.Document.{registry_format, ctsc_version}

-- Named values: distinct names, none empty, and well-formed types.
abbrev pub FieldsFit : Fields → Type 0
FieldsFit fs = Distinct (field_names fs) × AllFieldsFit fs

abbrev pub NamedFits : NamedType → Type 0
NamedFits (NamedType.record_type name fields extensions) = (name ≢ "") × FieldsFit fields
NamedFits (NamedType.union_type name variants extensions) =
    (name ≢ "")
    × (variants ≢ variants_end)
    × Distinct (variant_names variants)
    × AllVariantsFit variants

abbrev pub OptionalFits : Option TypeRef → Type 0
OptionalFits none = Unit
OptionalFits (some t) = IsWellFormed t

abbrev pub ErrorFits : ErrorOutcome → Type 0
ErrorFits e = (e.name ≢ "") × OptionalFits e.value_type

pub record OperationFits (o : RegistryOperation) : Type 0 where
  pub named : o.name ≢ ""
  pub inputs : FieldsFit o.inputs
  pub observations : FieldsFit o.observations
  pub distinct_errors : Distinct (map (λ (e : ErrorOutcome). e.name) o.outcomes.errors)
  pub errors : All ErrorFits o.outcomes.errors
  pub empty_result : o.outcomes.empty ≡ true → o.outcomes.result ≢ none
  pub not_unit : o.outcomes.result ≢ some (TypeRef.primitive "unit")
  pub result : OptionalFits o.outcomes.result

abbrev pub DependencyFits : ComponentRef → Type 0
DependencyFits d = (d.component_id ≢ "") × IsPresent d.registry_id

pub record ComponentFits (c : RegistryComponent) : Type 0 where
  pub named : c.id ≢ ""
  pub distinct_dependencies : Distinct (map (λ (r : ComponentRef). r.component_id) c.dependencies)
  pub dependencies : All DependencyFits c.dependencies
  pub distinct_operations : Distinct (map (λ (o : RegistryOperation). o.name) c.operations)
  pub distinct_types : Distinct (map type_name c.types)
  pub operations : All OperationFits c.operations
  pub types : All NamedFits c.types

pub record ImportFits (i : RegistryImport) : Type 0 where
  pub named : i.registry_id ≢ ""
  pub versioned : i.version ≢ ""
  pub digest : is_digest i.digest ≡ true
  pub uri : IsPresent i.uri

-- No id comes after a greater one.
abbrev pub IsAscending : List String → Type 0
IsAscending [] = Unit
IsAscending (a ∷ []) = Unit
IsAscending (a ∷ b ∷ rest) = (String.compare a b ≢ Ordering.gt) × IsAscending (b ∷ rest)

pub record IsWellShaped (d : RegistryDocument) : Type 0 where
  pub format : d.format ≡ registry_format
  pub format_version : d.format_version ≡ ctsc_version
  pub named : d.registry_id ≢ ""
  pub versioned : d.version ≢ ""
  pub nonempty : d.components ≢ []
  pub distinct_imports : Distinct (map (λ (i : RegistryImport). i.registry_id) d.imports)
  pub imports : All ImportFits d.imports
  pub distinct_components : Distinct (map (λ (c : RegistryComponent). c.id) d.components)
  pub ascending : IsAscending (map (λ (c : RegistryComponent). c.id) d.components)
  pub components : All ComponentFits d.components
