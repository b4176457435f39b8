-- ===== src/Linked/Operation.antt =====
-- linked.rs: `check_linked`, `validate_linkage` and `validate_operation`.
pub mod Outcomes
pub mod Declared
use specgate.Prelude.{
  ℕ, suc, ◌+◌, String, Bool, true, ◌&&◌, ◌||◌, Option, none, some, List, [], ◌∷◌, ◌++◌, ◌==◌,
  if◌then◌else◌, any, find,
}
use specgate.Prelude.Order.{Dict, get, contains_key, string_order}
use specgate.Prelude.Text.{str_eq, format}
use specgate.Model.{
  AnyValue, as_string, count_entries, Fields, find_field, ErrorOutcome, RegistryOperation,
  ResolvedComponent, RegistrySet, TraceEvent, TraceSpan, TraceDocument,
}
use specgate.Names.{
  op_span, component_attr, op_name_attr, op_inputs_attr, registry_attr, registry_version_attr,
  registry_digest_attr, obs_event, obs_name_attr, obs_value_attr, result_event, result_attr,
  empty_event, error_event, error_name_attr, error_value_attr, fault_event, abandoned_event,
}
use specgate.Linked.Resolve.{find_operation}
use specgate.Linked.Arms.{at_index, at_name, check_fields}
use specgate.Linked.Value.{has_entry, validate_value, validate_at}
use specgate.Render.{Format, Issues, issue, debug_option}

-- `attributes.get(key).and_then(AnyValue::as_string)`
abbrev pub text_attr : Dict String AnyValue → String → Option String
text_attr attributes key = elim (get attributes key) [ none ↦ none | some v ↦ as_string v ]

abbrev pub count_fields : Fields → ℕ
count_fields Fields.fields_end = 0
count_fields (Fields.field name t fs) = suc (count_fields fs)

abbrev pub all_fields : (String → Bool) → Fields → Bool
all_fields p Fields.fields_end = true
all_fields p (Fields.field name t fs) = p name && all_fields p fs

-- One key of the linkage, and the issue if the resource does not carry the expected text.
unfoldable pub validate_key : TraceSpan → String → String → Issues
validate_key span key expected = elim (text_attr span.resource_attributes key) [
  | none ↦ issue span.location (format ("missing string attribute '" ∷ key ∷ "'" ∷ []))
  | some actual ↦
      if str_eq actual expected
      then []
      else issue span.location (format ("trace " ∷ key ∷ " does not match root registry" ∷ []))
]

unfoldable pub validate_linkage : TraceSpan → RegistrySet → Issues
unfolding validate_key
validate_linkage span registry =
    validate_key span registry_attr registry.root_id
    ++ (validate_key span registry_version_attr registry.root_version
        ++ validate_key span registry_digest_attr registry.root_digest)

-- `event.name` is a result, an empty completion, an error or an abandonment.
abbrev pub is_terminal : TraceEvent → Bool
is_terminal event =
    str_eq event.name result_event
    || (str_eq event.name empty_event
        || (str_eq event.name error_event || str_eq event.name abandoned_event))

abbrev pub is_fault_event : TraceEvent → Bool
is_fault_event event = str_eq event.name fault_event

module _ (fmt : Format) (registry : RegistrySet) (component : ResolvedComponent)
    (operation : RegistryOperation) where
  pub validate_inputs : TraceSpan → Issues
  validate_inputs span = elim (get span.attributes op_inputs_attr) [
    | some (AnyValue.kv_list inputs) ↦
        if (count_entries inputs == count_fields operation.inputs)
          && all_fields (has_entry inputs) operation.inputs
        then check_fields
            (λ name t.
              validate_at fmt registry inputs name t component
                (format (span.location ∷ ".inputs." ∷ name ∷ [])))
            operation.inputs
        else issue (format (span.location ∷ ".inputs" ∷ []))
            "input names do not match registry operation"
    | _ ↦ []
  ]

  pub validate_observation : TraceEvent → String → Issues
  validate_observation event location = elim (text_attr event.attributes obs_name_attr) [
    | none ↦ []
    | some name ↦ elim (find_field operation.observations name) [
      | none ↦ issue location (format ("observation '" ∷ name ∷ "' is not declared" ∷ []))
      | some t ↦ elim (get event.attributes obs_value_attr) [
        | none ↦ []
        | some v ↦ validate_value fmt registry v t component (format (location ∷ ".value" ∷ []))
      ]
    ]
  ]

  pub validate_observations : List TraceEvent → String → ℕ → Issues
  unfolding validate_observation
  validate_observations [] location index = []
  validate_observations (event ∷ events) location index =
      (if str_eq event.name obs_event
        then validate_observation event (at_index (format (location ∷ ".events" ∷ [])) index)
        else [])
      ++ validate_observations events location (index + 1)

  unfoldable pub validate_result : TraceEvent → String → Issues
  validate_result event location = elim operation.outcomes.result [
    | none ↦ issue location "result outcome not declared"
    | some t ↦ elim (get event.attributes result_attr) [
      | none ↦ []
      | some v ↦ validate_value fmt registry v t component (at_name location "result")
    ]
  ]

  -- The value of a declared error, against the declaration.
  unfoldable pub validate_error_value : ErrorOutcome → Option AnyValue → String → Issues
  validate_error_value declaration v location = elim declaration.value_type [
    | none ↦ elim v [
      | none ↦ []
      | some w ↦
          issue location
            (format ("error outcome '" ∷ declaration.name ∷ "' does not declare a value" ∷ []))
    ]
    | some t ↦ elim v [
      | none ↦
          issue location (format ("error outcome '" ∷ declaration.name ∷ "' requires a value" ∷ []))
      | some w ↦ validate_value fmt registry w t component (at_name location "error")
    ]
  ]

  abbrev pub find_error : Option String → Option ErrorOutcome
  find_error none = none
  find_error (some name) = find (λ e. str_eq e.name name) operation.outcomes.errors

  unfoldable pub validate_error : TraceEvent → String → Issues
  unfolding validate_error_value
  validate_error event location =
      let name = text_attr event.attributes error_name_attr in
      elim (find_error name) [
        | none ↦
            issue location
              (format ("error outcome " ∷ debug_option fmt name ∷ " not declared" ∷ []))
        | some declaration ↦
            validate_error_value declaration (get event.attributes error_value_attr) location
      ]

  -- What the first terminal event, or none, owes the declared outcomes.
  unfoldable pub validate_terminal : Option TraceEvent → String → Issues
  unfolding validate_result validate_error
  validate_terminal none location = elim operation.outcomes.result [
    | some t ↦ issue location "unit completion not permitted by registry outcomes"
    | none ↦
        if operation.outcomes.empty
        then issue location "unit completion not permitted by registry outcomes"
        else []
  ]
  validate_terminal (some event) location =
      if str_eq event.name result_event
      then validate_result event location
      else if str_eq event.name empty_event
      then if operation.outcomes.empty then [] else issue location "empty outcome not declared"
      else if str_eq event.name error_event
      then validate_error event location
      else []

  unfoldable pub validate_operation : TraceSpan → Issues
  unfolding validate_inputs validate_observations validate_terminal
  validate_operation span =
      validate_inputs span
      ++ (validate_observations span.events span.location 0
          ++ (if any is_fault_event span.events
              then []
              else validate_terminal (find is_terminal span.events) span.location))

module _ (fmt : Format) (registry : RegistrySet) where
  -- The identity of an operation span, looked up in the registry.
  unfoldable pub check_identity : TraceSpan → String → String → Issues
  check_identity span component_id operation_name =
      elim (find_operation registry component_id operation_name) [
        | some (component, operation) ↦ validate_operation fmt registry component operation span
        | none ↦
            if contains_key registry.components component_id
            then issue span.location (
                format
                  ("unknown operation '" ∷ operation_name ∷ "' in '" ∷ component_id ∷ "'" ∷ []))
            else issue span.location (format ("unknown component '" ∷ component_id ∷ "'" ∷ []))
      ]

  unfoldable pub check_span : TraceSpan → Issues
  unfolding check_identity
  check_span span =
      validate_linkage span registry
      ++ (if str_eq span.name op_span
          then elim (text_attr span.attributes component_attr) [
            | none ↦ []
            | some component_id ↦ elim (text_attr span.attributes op_name_attr) [
              | none ↦ []
              | some operation_name ↦ check_identity span component_id operation_name
            ]
          ]
          else [])

  unfoldable pub check_spans : List TraceSpan → Issues
  unfolding check_span
  check_spans [] = []
  check_spans (span ∷ spans) = check_span span ++ check_spans spans

  unfoldable pub check_linked : TraceDocument → Issues
  unfolding check_spans
  check_linked document = check_spans document.spans
