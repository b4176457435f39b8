-- ===== src/Registry/Shape/Document/Accepted.antt =====
-- The registry documents that `validate_shape` accepts.
use specgate.Prelude.{
  String, Bool, true, false, not, Option, none, some, List, [], ◌∷◌, ◌≡◌, ◌≢◌, refl, arith, map,
  is_empty, if◌then◌else◌, append-eq-nil,
}
use specgate.Prelude.Text.{str_eq}
use text.Mathlib.TextEquality.{eq_iff}
use specgate.Model.{
  TypeRef, ErrorOutcome, RegistryOperation, NamedType, ComponentRef, RegistryComponent,
  RegistryImport, RegistryDocument,
}
use specgate.Render.{issue, require}
use specgate.Registry.Checks.{located, is_digest, unique}
use specgate.Registry.Checks.Distinct.{Distinct, unique_iff}
use specgate.Registry.Shape.Types.{under, has_variants, validate_values}
use specgate.Registry.Shape.Types.Typed.{
  require-nonempty, option-IsPresent, has_variants-ne, validate_type-IsWellFormed,
  validate_values-fit, validate_variants-fit,
}
use specgate.Registry.Shape.Document.{
  registry_format, ctsc_version, each_at, each_at-All, out_of_order, is_unit, validate_named,
  validate_optional, validate_result, validate_error_outcome, lacks_result, validate_outcomes,
  validate_operation_shape, validate_dependency, validate_component, validate_import, report_order,
  validate_header, validate_shape,
}
use specgate.Registry.Shape.Document.Fits.{
  NamedFits, OptionalFits, ErrorFits, OperationFits, DependencyFits, ComponentFits, ImportFits,
  IsAscending, IsWellShaped,
}

out_of_order-IsAscending : (ids : List String) → out_of_order ids ≡ none → IsAscending ids
unfolding out_of_order
out_of_order-IsAscending [] h = tt
out_of_order-IsAscending (a ∷ []) h = tt
out_of_order-IsAscending (a ∷ b ∷ rest) h =
    ((λ p. ground arith), out_of_order-IsAscending (b ∷ rest) (ground arith))

module _ (path : String) where
  validate_named-fits :
      (t : NamedType) (location : String) → validate_named path t location ≡ [] → NamedFits t
  unfolding validate_named
  validate_named-fits (NamedType.record_type name fields extensions) location h =
      let (named, h1) = append-eq-nil _ _ h in
      let (keys, values) = append-eq-nil _ _ h1 in
      (
        require-nonempty name _ _ named,
        validate_values-fit path fields (under location ".fields") values,
      )
  validate_named-fits (NamedType.union_type name variants extensions) location h =
      let (named, h1) = append-eq-nil _ _ h in
      let (keys, h2) = append-eq-nil _ _ h1 in
      let (nonempty, values) =
        append-eq-nil
          (require (has_variants variants) (located path (under location ".variants"))
            "tagged union must contain at least one variant")
          _ h2 in
      let fit = validate_variants-fit path variants (under location ".variants") values in
      (require-nonempty name _ _ named, has_variants-ne variants (ground arith), fit.0, fit.1)

  validate_optional-fits :
      (o : Option TypeRef) (location : String)
      → validate_optional path o location ≡ []
      → OptionalFits o
  validate_optional-fits none location h = tt
  validate_optional-fits (some t) location h = validate_type-IsWellFormed path t location h

  validate_error-fits :
      (e : ErrorOutcome) (location : String)
      → validate_error_outcome path e location ≡ []
      → ErrorFits e
  unfolding validate_error_outcome
  validate_error-fits e location h =
      let (named, typed) = append-eq-nil _ _ h in
      (
        require-nonempty e.name _ _ named,
        validate_optional-fits e.value_type (under location ".type") typed,
      )

  validate_result-fits :
      (o : Option TypeRef) (location : String)
      → validate_result path o location ≡ []
      → (o ≢ some (TypeRef.primitive "unit")) × OptionalFits o
  unfolding validate_result
  validate_result-fits none location h = ((λ e. ground arith), tt)
  validate_result-fits (some t) location h =
      let (unit, typed) =
        append-eq-nil
          (if is_unit path t
            then issue (located path location) "result type must not be primitive unit"
            else [])
          _ h in
      (
        λ e.
            let same : t ≡ TypeRef.primitive "unit" = ground arith in
            let wrong = rw same at unit in ground arith,
        validate_type-IsWellFormed path t location typed,
      )

  distinct :
      (values : List String) (location field : String)
      → unique values location field ≡ []
      → Distinct values
  distinct values location field h = (unique_iff values location field).0 h

  lacks_result-ne :
      (empty : Bool) (result : Option TypeRef) (location message : String)
      → (if lacks_result path empty result then issue location message else []) ≡ []
      → empty ≡ true
      → result ≢ none
  lacks_result-ne true none location message h e = absurd (ground arith)
  lacks_result-ne true (some t) location message h e = λ p. ground arith
  lacks_result-ne false result location message h e = absurd (ground arith)

  validate_operation-fits :
      (o : RegistryOperation) (location : String)
      → validate_operation_shape path o location ≡ []
      → OperationFits o
  unfolding validate_operation_shape validate_outcomes
  validate_operation-fits o location h =
      let place = under location ".outcomes" in
      let (named, h1) = append-eq-nil _ _ h in
      let (keys, h2) = append-eq-nil _ _ h1 in
      let (inputs, h3) =
        append-eq-nil (validate_values path o.inputs (under location ".inputs")) _ h2 in
      let (observations, h4) =
        append-eq-nil (validate_values path o.observations (under location ".observations")) _ h3 in
      let (once, h5) = append-eq-nil _ _ h4 in
      let (empty, h6) = append-eq-nil _ _ h5 in
      let (result, errors) =
        append-eq-nil (validate_result path o.outcomes.result (under place ".result")) _ h6 in
      let fit = validate_result-fits o.outcomes.result (under place ".result") result in
      record {
        named = require-nonempty o.name _ _ named;
        inputs = validate_values-fit path o.inputs (under location ".inputs") inputs;
        observations =
            validate_values-fit path o.observations (under location ".observations") observations;
        distinct_errors = distinct _ _ _ once;
        errors =
            each_at-All (validate_error_outcome path) ErrorFits o.outcomes.errors 0
              (under place ".errors") validate_error-fits errors;
        empty_result = lacks_result-ne o.outcomes.empty o.outcomes.result _ _ empty;
        not_unit = fit.0;
        result = fit.1;
      }

  validate_dependency-fits :
      (d : ComponentRef) (location : String)
      → validate_dependency path d location ≡ []
      → DependencyFits d
  unfolding validate_dependency
  validate_dependency-fits d location h =
      let (named, registry) = append-eq-nil _ _ h in
      (require-nonempty d.component_id _ _ named, option-IsPresent d.registry_id _ _ registry)

  validate_component-fits :
      (c : RegistryComponent) (location : String)
      → validate_component path c location ≡ []
      → ComponentFits c
  unfolding validate_component
  validate_component-fits c location h =
      let (named, h1) = append-eq-nil _ _ h in
      let (once_dependencies, h2) = append-eq-nil _ _ h1 in
      let (dependencies, h3) =
        append-eq-nil
          (each_at (validate_dependency path) c.dependencies 0 (under location ".dependencies")) _
          h2 in
      let (keys, h4) = append-eq-nil _ _ h3 in
      let (once_operations, h5) = append-eq-nil _ _ h4 in
      let (once_types, h6) = append-eq-nil _ _ h5 in
      let (operations, types) =
        append-eq-nil
          (each_at (validate_operation_shape path) c.operations 0 (under location ".operations")) _
          h6 in
      record {
        named = require-nonempty c.id _ _ named;
        distinct_dependencies = distinct _ _ _ once_dependencies;
        dependencies =
            each_at-All (validate_dependency path) DependencyFits c.dependencies 0
              (under location ".dependencies") validate_dependency-fits dependencies;
        distinct_operations = distinct _ _ _ once_operations;
        distinct_types = distinct _ _ _ once_types;
        operations =
            each_at-All (validate_operation_shape path) OperationFits c.operations 0
              (under location ".operations") validate_operation-fits operations;
        types =
            each_at-All (validate_named path) NamedFits c.types 0 (under location ".types")
              validate_named-fits types;
      }

  validate_import-fits :
      (i : RegistryImport) (location : String) → validate_import path i location ≡ [] → ImportFits i
  unfolding validate_import
  validate_import-fits i location h =
      let (named, h1) = append-eq-nil _ _ h in
      let (versioned, h2) = append-eq-nil _ _ h1 in
      let (digest, uri) =
        append-eq-nil
          (require (is_digest i.digest) (located path (under location ".digest"))
            "digest must be 'sha256:' followed by 64 lowercase hexadecimal characters")
          _ h2 in
      record {
        named = require-nonempty i.registry_id _ _ named;
        versioned = require-nonempty i.version _ _ versioned;
        digest = ground arith;
        uri = option-IsPresent i.uri _ _ uri;
      }

  report_order-none : (o : Option String) → report_order path o ≡ [] → o ≡ none
  report_order-none none h = refl
  report_order-none (some id) h = absurd (ground arith)

  require-eq : (s t location message : String) → require (str_eq s t) location message ≡ [] → s ≡ t
  require-eq s t location message h = ground (arith, eq_iff s t)

  require-ne-nil :
      (cs : List RegistryComponent) (location message : String)
      → require (not (is_empty cs)) location message ≡ []
      → cs ≢ []
  require-ne-nil [] location message h = absurd (ground arith)
  require-ne-nil (c ∷ cs) location message h = λ e. ground arith

  -- A registry document in which `validate_shape` finds nothing has the right format and version;
  -- its ids, names and versions are not empty; imports, components, dependencies, operations, types,
  -- errors, fields and variants have distinct names; components stand in ascending order; digests
  -- have their form; every type reference is well formed; and an operation with an empty outcome has
  -- a result, which is not unit.
  pub validate_shape-IsWellShaped :
      (d : RegistryDocument) → validate_shape path d ≡ [] → IsWellShaped d
  unfolding validate_shape validate_header
  validate_shape-IsWellShaped d h =
      let ids = map (λ (c : RegistryComponent). c.id) d.components in
      let (header, h1) = append-eq-nil (validate_header path d) _ h in
      let (once_imports, h2) = append-eq-nil _ _ h1 in
      let (imports, h3) =
        append-eq-nil (each_at (validate_import path) d.imports 0 "$.imports") _ h2 in
      let (once_components, h4) = append-eq-nil _ _ h3 in
      let (ordered, components) = append-eq-nil (report_order path (out_of_order ids)) _ h4 in
      let (format, g1) = append-eq-nil _ _ header in
      let (version, g2) = append-eq-nil _ _ g1 in
      let (named, g3) = append-eq-nil _ _ g2 in
      let (versioned, g4) = append-eq-nil _ _ g3 in
      let (nonempty, keys) = append-eq-nil _ _ g4 in
      record {
        format = require-eq d.format registry_format _ _ format;
        format_version = require-eq d.format_version ctsc_version _ _ version;
        named = require-nonempty d.registry_id _ _ named;
        versioned = require-nonempty d.version _ _ versioned;
        nonempty = require-ne-nil d.components _ _ nonempty;
        distinct_imports = distinct _ _ _ once_imports;
        imports =
            each_at-All (validate_import path) ImportFits d.imports 0 "$.imports"
              validate_import-fits imports;
        distinct_components = distinct _ _ _ once_components;
        ascending = out_of_order-IsAscending ids (report_order-none (out_of_order ids) ordered);
        components =
            each_at-All (validate_component path) ComponentFits d.components 0 "$.components"
              validate_component-fits components;
      }
