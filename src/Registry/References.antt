-- ===== src/Registry/References.antt =====
-- registry.rs: `validate_semantics`, on the documents that were selected.
use specgate.Prelude.{
  String, Bool, false, not, Option, none, some, List, [], ◌∷◌, ◌++◌, if◌then◌else◌, any,
}
use specgate.Prelude.Order.{Dict, string_order, get, insert}
use specgate.Prelude.Text.{format, str_eq}
use specgate.Model.{
  TypeRef, ErrorOutcome, RegistryOperation, NamedType, as_type, ComponentRef, RegistryComponent,
}
use specgate.Linked.Resolve.{component_or}
use specgate.Render.{Issues, issue, require}
use specgate.Registry.Checks.{located}
use specgate.Registry.Cycles.{Member, Members}
use specgate.Registry.Scope.{Scope, imports_registry, resolve_type, resolve_fields}
use specgate.Registry.Shape.Types.{under}
use specgate.Registry.Shape.Document.{each_at}

-- The owners of component ids: a component that two registries hold is reported.
report_owner : Option String → String → String → String → Issues
report_owner none component_id registry_id path = []
report_owner (some existing) component_id registry_id path =
    if str_eq existing registry_id
    then []
    else issue (located path "$.components") (
        format (
          "component ID '" ∷ component_id ∷ "' exists in both '" ∷ existing ∷ "' and '"
          ∷ registry_id ∷ "'" ∷ []))

own_components :
    String → String → List RegistryComponent → Dict String String → Dict String String × Issues
unfolding report_owner
own_components registry_id path [] owners = (owners, [])
own_components registry_id path (c ∷ cs) owners =
    let (owners', issues) = own_components registry_id path cs (insert c.id registry_id owners) in
    (owners', report_owner (get owners c.id) c.id registry_id path ++ issues)

unfoldable pub own_documents : Members → Dict String String → Issues
unfolding own_components
own_documents [] owners = []
own_documents ((registry_id, m) ∷ rest) owners =
    let (owners', issues) = own_components registry_id m.path m.document.components owners in
    issues ++ own_documents rest owners'

-- `collect::<BTreeMap<_, _>>()` of the components by id, where a later one replaces an earlier
abbrev pub by_component_id :
    List RegistryComponent → Dict String RegistryComponent → Dict String RegistryComponent
by_component_id [] acc = acc
by_component_id (c ∷ cs) acc = by_component_id cs (insert c.id c acc)

abbrev pub has_component : Option Member → String → Bool
has_component none id = false
has_component (some m) id = any (λ (c : RegistryComponent). str_eq c.id id) m.document.components

module _ (scope : Scope) where
  open scope use {documents, registry_id, path}

  unfoldable pub resolve_dependency : Member → ComponentRef → String → Issues
  resolve_dependency m dependency location =
      let target_registry = component_or dependency.registry_id registry_id in
      (if not (str_eq target_registry registry_id)
        then require (imports_registry (some m) target_registry) (located path location)
            (format ("unknown imported registry '" ∷ target_registry ∷ "'" ∷ []))
        else [])
      ++ require (has_component (get documents target_registry) dependency.component_id)
          (located path location)
          (format (
            "unknown dependency component '" ∷ dependency.component_id ∷ "' in registry '"
            ∷ target_registry ∷ "'" ∷ []))

  abbrev pub resolve_optional : Option TypeRef → String → Issues
  resolve_optional none location = []
  resolve_optional (some t) location = resolve_type scope t location

  abbrev pub resolve_error : ErrorOutcome → String → Issues
  resolve_error error location = resolve_optional error.value_type (under location ".type")

  abbrev pub resolve_operation : RegistryOperation → String → Issues
  resolve_operation operation location =
      resolve_fields scope operation.inputs 0 (under location ".inputs")
      ++ (resolve_fields scope operation.observations 0 (under location ".observations")
          ++ (resolve_optional operation.outcomes.result (under location ".outcomes.result")
              ++ each_at resolve_error operation.outcomes.errors 0
                  (under location ".outcomes.errors")))

  abbrev pub resolve_definition : NamedType → String → Issues
  resolve_definition named location = resolve_type scope (as_type named) location

  unfoldable pub resolve_component : Member → String → Issues
  unfolding resolve_dependency resolve_type
  resolve_component m location =
      each_at (resolve_dependency m) scope.component.dependencies 0 (under location ".dependencies")
      ++ (each_at resolve_operation scope.component.operations 0 (under location ".operations")
          ++ each_at resolve_definition scope.component.types 0 (under location ".types"))

abbrev pub scope_of : Members → String → Member → RegistryComponent → Scope
scope_of documents registry_id m component = record {
  documents = documents;
  registry_id = registry_id;
  component = component;
  local_components = by_component_id m.document.components [];
  path = m.path;
}

unfoldable pub resolve_documents : Members → Members → Issues
unfolding resolve_component
resolve_documents documents [] = []
resolve_documents documents ((registry_id, m) ∷ rest) =
    each_at (λ c location. resolve_component (scope_of documents registry_id m c) m location)
      m.document.components 0 "$.components"
    ++ resolve_documents documents rest

unfoldable pub validate_references : Members → Issues
unfolding own_documents resolve_documents
validate_references documents = own_documents documents [] ++ resolve_documents documents documents
