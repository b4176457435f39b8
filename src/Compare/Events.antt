-- ===== src/Compare/Events.antt =====
-- engine.rs: `compare_events`, position by position.
pub mod Agree
use specgate.Prelude.{ℕ, ◌+◌, String, List, [], ◌∷◌, Option, none, some, find, if◌then◌else◌}
use specgate.Prelude.Order.{Dict, get, string_order}
use specgate.Prelude.Text.{format, str_eq}
use specgate.Model.{AnyValue, TypeRef, find_field, ErrorOutcome, RegistrySet, TraceEvent}
use specgate.Names.{
  obs_event, obs_name_attr, obs_value_attr, result_event, result_attr, error_event, error_name_attr,
  error_value_attr, fault_event, fault_type_attr, fault_message_attr,
}
use specgate.Linked.Arms.{at_index, at_name}
use specgate.Linked.Operation.{text_attr}
use specgate.Render.{Format}
use specgate.Compare.Report.{Sink, quiet, mismatch, push_both}
use specgate.Compare.Values.{missing, Declaration, linkage, compare_value}

-- `attribute_string`, `event_string`
abbrev pub text_or_missing : Dict String AnyValue → String → String
text_or_missing attributes key = elim (text_attr attributes key) [ none ↦ missing | some s ↦ s ]

abbrev pub observation_type : Option Declaration → String → Option TypeRef
observation_type none name = none
observation_type (some (component, operation)) name = find_field operation.observations name

abbrev pub result_type : Option Declaration → Option TypeRef
result_type none = none
result_type (some (component, operation)) = operation.outcomes.result

abbrev error_value_type : Option ErrorOutcome → Option TypeRef
error_value_type none = none
error_value_type (some e) = e.value_type

abbrev pub error_type : Option Declaration → String → Option TypeRef
error_type none name = none
error_type (some (component, operation)) name =
    error_value_type (find (λ e. str_eq e.name name) operation.outcomes.errors)

-- `(a == b).then(..).flatten()`
abbrev pub when_same : String → String → Option TypeRef → Option TypeRef
when_same a b t = if str_eq a b then t else none

module _ (fmt : Format) (registry : Option RegistrySet) (declaration : Option Declaration) where
  -- An event that carries a name and a value: an observation or an error.
  unfoldable pub compare_named :
      String → String → String → (String → Option TypeRef) → TraceEvent → TraceEvent → String → Sink
  unfolding compare_value
  compare_named label name_attr value_attr type_of reference candidate path =
      let r = text_or_missing reference.attributes name_attr in
      let c = text_or_missing candidate.attributes name_attr in
      push_both (if str_eq r c then quiet else mismatch (at_name path label) r c) (
        compare_value fmt (get reference.attributes value_attr)
          (get candidate.attributes value_attr)
          (linkage (when_same r c (type_of r)) declaration registry) (at_name path "value"))

  unfoldable pub compare_fault : TraceEvent → TraceEvent → String → String → Sink
  unfolding compare_value
  compare_fault reference candidate path key =
      compare_value fmt (get reference.attributes key) (get candidate.attributes key) none
        (at_name path key)

  -- Two events of one name.
  unfoldable pub compare_same_event : TraceEvent → TraceEvent → String → Sink
  unfolding compare_named compare_fault
  compare_same_event reference candidate path =
      if str_eq reference.name obs_event
      then compare_named "observation" obs_name_attr obs_value_attr (observation_type declaration)
          reference candidate path
      else if str_eq reference.name result_event
      then compare_value fmt (get reference.attributes result_attr)
          (get candidate.attributes result_attr)
          (linkage (result_type declaration) declaration registry) (at_name path "result")
      else if str_eq reference.name error_event
      then compare_named "error" error_name_attr error_value_attr (error_type declaration) reference
          candidate path
      else if str_eq reference.name fault_event
      then push_both (compare_fault reference candidate path fault_type_attr)
          (compare_fault reference candidate path fault_message_attr)
      else quiet

  unfoldable pub compare_event : TraceEvent → TraceEvent → String → Sink
  unfolding compare_same_event
  compare_event reference candidate path =
      if str_eq reference.name candidate.name
      then compare_same_event reference candidate path
      else mismatch (at_name path "name") reference.name candidate.name

  event_path : String → ℕ → String
  event_path path position = at_index (format (path ∷ ".events" ∷ [])) position

  unfoldable pub compare_events_from : ℕ → List TraceEvent → List TraceEvent → String → Sink
  unfolding compare_event event_path
  compare_events_from position [] [] path = quiet
  compare_events_from position (r ∷ rs) [] path =
      push_both (mismatch (event_path path position) r.name missing)
        (compare_events_from (position + 1) rs [] path)
  compare_events_from position [] (c ∷ cs) path =
      push_both (mismatch (event_path path position) missing c.name)
        (compare_events_from (position + 1) [] cs path)
  compare_events_from position (r ∷ rs) (c ∷ cs) path =
      push_both (compare_event r c (event_path path position))
        (compare_events_from (position + 1) rs cs path)

  unfoldable pub compare_events : List TraceEvent → List TraceEvent → String → Sink
  unfolding compare_events_from
  compare_events reference candidate path = compare_events_from 0 reference candidate path
