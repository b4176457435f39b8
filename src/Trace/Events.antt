-- ===== src/Trace/Events.antt =====
-- trace.rs: `validate_events`, the checks on the events of one span.
pub mod Terminal
use specgate.Prelude.{
  ℕ, zero, suc, ◌+◌, String, Bool, true, false, not, ◌&&◌, ◌||◌, List, [], ◌∷◌, ◌++◌, Option, none,
  some, ◌==◌, leb, if◌then◌else◌, any,
}
use specgate.Prelude.Order.{Dict, contains_key, string_order}
use specgate.Prelude.Text.{str_eq, format}
use specgate.Model.{SpanStatus, AnyValue, TraceEvent, TraceSpan}
use specgate.Names.{
  obs_name_attr, obs_value_attr, result_attr, error_name_attr, fault_event, fault_type_attr,
  fault_message_attr, fault_observer_attr,
}
use specgate.Linked.Arms.{at_index}
use specgate.Render.{Issues, issue, require}
use specgate.Trace.Fault.{is_fault}
use specgate.Trace.Fields.{AttributeType, reject_attrs, check_attr, require_str}
use specgate.Trace.Roles.{
  SpanRole, parse_span_role, is_operation_role, is_run_or_scenario, can_hold_fault, EventRole,
  parse_event_role, operation_only, FaultObserver, parse_observer, obs_attrs, result_attrs,
  error_attrs, fault_attrs, supervisor_faults,
}

-- The variables of the loop over the events.
pub record EventState : Type 0 where
  pub result_count : ℕ
  pub failure_count : ℕ
  pub terminated : Bool

abbrev pub initial : EventState
initial = record { result_count = 0; failure_count = 0; terminated = false }

-- How an event of each role changes the variables.
abbrev pub advance : SpanRole → EventRole → EventState → EventState
advance span EventRole.result s = record s { result_count = s.result_count + 1; terminated = true }
advance span EventRole.empty s = record s { failure_count = s.failure_count + 1; terminated = true }
advance span EventRole.error s = record s { failure_count = s.failure_count + 1; terminated = true }
advance span EventRole.abandoned s = record s {
  failure_count = s.failure_count + 1;
  terminated = true;
}
advance span EventRole.fault s =
    if is_operation_role span
    then record s { failure_count = s.failure_count + 1; terminated = true }
    else s
advance span EventRole.observation s = s
advance span EventRole.other s = s

-- `attributes.contains_key(key)`
abbrev require_key : Dict String AnyValue → String → String → Issues
require_key attributes key location =
    require (contains_key attributes key) location (format ("missing " ∷ key ∷ []))

abbrev is_text : Option String → String → Bool
is_text none expected = false
is_text (some s) expected = str_eq s expected

check_attrs : Dict String AnyValue → List String → AttributeType → String → Issues
check_attrs attributes [] expected location = []
check_attrs attributes (key ∷ keys) expected location =
    check_attr attributes key expected location ++ check_attrs attributes keys expected location

abbrev supervisor_type : Option String → String → Issues
supervisor_type none location = []
supervisor_type (some name) location =
    require (any (str_eq name) supervisor_faults || is_fault name) location
      "supervisor fault type must be a defined core type or a producer-qualified dotted namespace"

-- Where a fault may stand, by its observer.
check_observer : SpanRole → FaultObserver → Option String → String → Issues
check_observer span FaultObserver.target fault_type location =
    require (is_operation_role span) location "target fault must belong to an operation span"
check_observer span FaultObserver.supervisor fault_type location =
    require (is_run_or_scenario span) location
      "supervisor fault must belong to a run or scenario span"
    ++ supervisor_type fault_type location
check_observer span FaultObserver.other fault_type location = []

check_fault : SpanRole → TraceEvent → String → Issues
unfolding check_observer check_attrs
check_fault span event location =
    let (fault_type, type_issues) = require_str event.attributes fault_type_attr location in
    let (observer, observer_issues) = require_str event.attributes fault_observer_attr location in
    require (can_hold_fault span) location "fault must belong to a run, scenario, or operation span"
    ++ (type_issues
        ++ (observer_issues
            ++ (require (not (is_text fault_type "incomplete_capture") || is_text observer "target")
                  location "incomplete_capture fault must be observed by the target"
                ++ (check_observer span (parse_observer observer) fault_type location
                    ++ (check_attrs event.attributes
                          (fault_message_attr ∷ "conformance.fault.native_type"
                            ∷ "conformance.fault.phase" ∷ "conformance.fault.operation.name"
                            ∷ "conformance.fault.operation.component_id"
                            ∷ "conformance.fault.signal" ∷ [])
                          AttributeType.string location
                        ++ check_attrs event.attributes
                            ("conformance.fault.exit_code" ∷ "conformance.fault.timeout_ms" ∷ [])
                            AttributeType.int location)))))

-- The arm of the source for each role.
unfoldable pub check_role : SpanRole → EventRole → TraceEvent → String → Issues
unfolding check_fault
check_role span EventRole.observation event location =
    reject_attrs event.attributes obs_attrs location
    ++ ((require_str event.attributes obs_name_attr location).1
        ++ require_key event.attributes obs_value_attr location)
check_role span EventRole.result event location =
    reject_attrs event.attributes result_attrs location
    ++ require_key event.attributes result_attr location
check_role span EventRole.empty event location = reject_attrs event.attributes [] location
check_role span EventRole.error event location =
    reject_attrs event.attributes error_attrs location
    ++ (require_str event.attributes error_name_attr location).1
check_role span EventRole.fault event location =
    reject_attrs event.attributes fault_attrs location ++ check_fault span event location
check_role span EventRole.abandoned event location = reject_attrs event.attributes [] location
check_role span EventRole.other event location = []

abbrev is_known : EventRole → Bool
is_known EventRole.other = false
is_known _ = true

-- The checks on one event, with the variables before it. The closed list of event names is the
-- list of the names that have a role.
unfoldable pub check_event : SpanRole → EventState → TraceEvent → String → Issues
unfolding check_role
check_event span s event location =
    let role = parse_event_role event.name in
    (if is_operation_role span && s.terminated
      then issue location "operation events must not appear after the terminal event"
      else [])
    ++ (if is_known role
        then (if operation_only role
            then require (is_operation_role span) location
                (format (event.name ∷ " must belong to a conformance.operation span" ∷ []))
            else [])
          ++ check_role span role event location
        else issue location (format ("unsupported CTSC event name '" ∷ event.name ∷ "'" ∷ [])))

unfoldable pub check_events :
    SpanRole → String → ℕ → EventState → List TraceEvent → EventState × Issues
unfolding check_event
check_events span location index s [] = (s, [])
check_events span location index s (event ∷ events) =
    let role = parse_event_role event.name in
    let (s', rest) = check_events span location (index + 1) (advance span role s) events in
    (s', check_event span s event (at_index (format (location ∷ ".events" ∷ [])) index) ++ rest)

abbrev is_error_status : SpanStatus → Bool
is_error_status SpanStatus.error = true
is_error_status _ = false

abbrev is_unset_status : SpanStatus → Bool
is_unset_status SpanStatus.unset = true
is_unset_status _ = false

abbrev is_ok_status : SpanStatus → Bool
is_ok_status SpanStatus.ok = true
is_ok_status _ = false

abbrev pub is_failure : TraceEvent → Bool
is_failure event = elim (parse_event_role event.name) [
  | EventRole.error ↦ true
  | EventRole.fault ↦ true
  | _ ↦ false
]

abbrev pub is_abandonment : TraceEvent → Bool
is_abandonment event = elim (parse_event_role event.name) [ EventRole.abandoned ↦ true | _ ↦ false ]

-- The checks after the loop on an operation span.
unfoldable pub check_completion : TraceSpan → EventState → Issues
check_completion span s =
    require (leb s.failure_count 1) span.location
      "operation must not contain multiple non-result completion/failure events"
    ++ (require (s.result_count == 0 || s.failure_count == 0) span.location
          "result events cannot be combined with another completion/failure event"
        ++ (require (leb s.result_count 1) span.location
              "operation may contain at most one result event"
            ++ ((if any is_failure span.events
                  then require (is_error_status span.status) span.location
                      "declared error and fault operations must have ERROR status"
                  else [])
                ++ ((if any is_abandonment span.events
                      then require (is_unset_status span.status) span.location
                          "abandoned operations must have UNSET status"
                      else [])
                    ++ require (s.terminated || is_ok_status span.status) span.location
                        "operation without a completion or failure event must have OK status"))))

unfoldable pub validate_events : TraceSpan → Issues
unfolding check_events check_completion
validate_events span =
    let role = parse_span_role span.name in
    let (s, issues) = check_events role span.location 0 initial span.events in
    issues
    ++ ((if is_operation_role role then check_completion span s else [])
        ++ (if is_run_or_scenario role && any (λ e. str_eq e.name fault_event) span.events
            then require (is_error_status span.status) span.location
                "fault-bearing run or scenario must have ERROR status"
            else []))
