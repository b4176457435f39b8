-- ===== src/Registry/Uses.antt =====
-- registry/shape.rs: `type_uses` and `document_uses`.
use specgate.Prelude.{String, Bool, false, ◌||◌, Option, none, some, any}
use specgate.Prelude.Text.{str_eq}
use specgate.Model.{
  TypeRef, Types, types_end, type_item, Fields, fields_end, field, Variants, variants_end, variant,
  unit_variant, ErrorOutcome, RegistryOperation, NamedType, as_type, ComponentRef,
  RegistryComponent, RegistryDocument,
}

-- `option.as_deref() == Some(text)`
abbrev pub is_text : Option String → String → Bool
is_text none s = false
is_text (some t) s = str_eq t s

module _ (registry_id : String) where
  unfoldable mutual
    pub type_uses : TypeRef → Bool
    type_uses (TypeRef.primitive name) = false
    type_uses (TypeRef.named name component_id referenced) = is_text referenced registry_id
    type_uses (TypeRef.collection items ordered is_unique) = type_uses items
    type_uses (TypeRef.map_of keys values ordered) = type_uses keys || type_uses values
    type_uses (TypeRef.tuple items) = items_use items
    type_uses (TypeRef.record_of fields) = fields_use fields
    type_uses (TypeRef.optional value) = type_uses value
    type_uses (TypeRef.tagged_union variants) = variants_use variants

    pub items_use : Types → Bool
    items_use types_end = false
    items_use (type_item t ts) = type_uses t || items_use ts

    pub fields_use : Fields → Bool
    fields_use fields_end = false
    fields_use (field name t fs) = type_uses t || fields_use fs

    pub variants_use : Variants → Bool
    variants_use variants_end = false
    variants_use (variant name payload vs) = type_uses payload || variants_use vs
    variants_use (unit_variant name vs) = variants_use vs

  abbrev pub option_uses : Option TypeRef → Bool
  option_uses none = false
  option_uses (some t) = type_uses t

  abbrev pub operation_uses : RegistryOperation → Bool
  operation_uses operation =
      (fields_use operation.inputs || fields_use operation.observations)
      || (option_uses operation.outcomes.result
          || any (λ (e : ErrorOutcome). option_uses e.value_type) operation.outcomes.errors)

  abbrev pub component_uses : RegistryComponent → Bool
  component_uses component =
      any (λ (d : ComponentRef). is_text d.registry_id registry_id) component.dependencies
      || (any operation_uses component.operations
          || any (λ (t : NamedType). type_uses (as_type t)) component.types)

  unfoldable pub document_uses : RegistryDocument → Bool
  unfolding type_uses
  document_uses document = any component_uses document.components
