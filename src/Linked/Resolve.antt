-- ===== src/Linked/Resolve.antt =====
-- linked.rs: `find_operation`, and the lookup of a named type that `validate_value` and
-- `canonical_value` both make.
use specgate.Prelude.{
  String, Bool, false, not, Option, none, some, [], ◌∷◌, ◌⊎◌, inl, inr, find, if◌then◌else◌,
}
use specgate.Prelude.Order.{string_order, get}
use specgate.Prelude.Text.{format, str_eq}
use specgate.Model.{TypeRef, RegistryOperation, ResolvedComponent, RegistrySet, type_name, as_type}
use specgate.Render.{Format, debug_raw}

-- The reasons for which a named type is not found.
pub data ResolveError : Type 0 where
  unknown_component : String → ResolveError
  wrong_registry : String → Option String → ResolveError
  unknown_type : String → ResolveError

abbrev pub resolve_message : Format → ResolveError → String
resolve_message fmt (unknown_component id) = format ("unknown component '" ∷ id ∷ "'" ∷ [])
resolve_message fmt (wrong_registry id registry_id) =
    format ("component '" ∷ id ∷ "' does not belong to registry " ∷ debug_raw fmt registry_id ∷ [])
resolve_message fmt (unknown_type name) = format ("unknown named type '" ∷ name ∷ "'" ∷ [])

-- A type in the scope of a component.
abbrev pub Scoped : Type 0
Scoped = ResolvedComponent × TypeRef

-- `registry_id.is_some_and(|registry_id| registry_id != &target.registry_id)`
abbrev pub registry_differs : Option String → String → Bool
registry_differs none actual = false
registry_differs (some expected) actual = not (str_eq expected actual)

-- `component_id.unwrap_or(&component.component.id)`
abbrev pub component_or : Option String → String → String
component_or none own = own
component_or (some id) own = id

module _ (registry : RegistrySet) where
  unfoldable pub find_definition :
      String → String → Option String → ResolvedComponent → ResolveError ⊎ Scoped
  find_definition name id registry_id target =
      if registry_differs registry_id target.registry_id
      then inl (wrong_registry id registry_id)
      else elim (find (λ t. str_eq (type_name t) name) target.component.types) [
        | none ↦ inl (unknown_type name)
        | some definition ↦ inr (target, as_type definition)
      ]

  -- A named type is replaced by its definition in the component that owns it. A definition is
  -- never itself a named type.
  unfoldable pub resolve : TypeRef → ResolvedComponent → ResolveError ⊎ Scoped
  unfolding find_definition
  resolve (TypeRef.named name component_id registry_id) component =
      let id = component_or component_id component.component.id in
      elim (get registry.components id) [
        | none ↦ inl (unknown_component id)
        | some target ↦ find_definition name id registry_id target
      ]
  resolve t component = inr (component, t)

  unfoldable pub find_operation : String → String → Option (ResolvedComponent × RegistryOperation)
  find_operation component_id operation_name = elim (get registry.components component_id) [
    | none ↦ none
    | some component ↦
        elim (find (λ o. str_eq o.name operation_name) component.component.operations) [
          | none ↦ none
          | some operation ↦ some (component, operation)
        ]
  ]
