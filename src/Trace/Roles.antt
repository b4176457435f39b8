-- ===== src/Trace/Roles.antt =====
-- trace.rs: `SpanRole`, `EventRole` and `FaultObserver`, and the attributes of each role.
use specgate.Prelude.{String, Bool, true, false, List, [], ◌∷◌, Option, none, some, if◌then◌else◌}
use specgate.Prelude.Text.{str_eq}
use specgate.Names.{
  run_span, scenario_span, op_span, parallel_span, obs_event, result_event, empty_event,
  error_event, fault_event, abandoned_event,
}

pub data SpanRole : Type 0 where
  run scenario operation parallel other : SpanRole

unfoldable pub parse_span_role : String → SpanRole
parse_span_role name =
    if str_eq name run_span
    then SpanRole.run
    else if str_eq name scenario_span
    then SpanRole.scenario
    else if str_eq name op_span
    then SpanRole.operation
    else if str_eq name parallel_span
    then SpanRole.parallel
    else SpanRole.other

abbrev pub is_operation_role : SpanRole → Bool
is_operation_role SpanRole.operation = true
is_operation_role _ = false

abbrev pub is_parallel_role : SpanRole → Bool
is_parallel_role SpanRole.parallel = true
is_parallel_role _ = false

abbrev pub is_run_role : SpanRole → Bool
is_run_role SpanRole.run = true
is_run_role _ = false

-- `matches!(role, SpanRole::Run | SpanRole::Scenario)` and the like
abbrev pub is_run_or_scenario : SpanRole → Bool
is_run_or_scenario SpanRole.run = true
is_run_or_scenario SpanRole.scenario = true
is_run_or_scenario _ = false

abbrev pub is_scenario_or_operation : SpanRole → Bool
is_scenario_or_operation SpanRole.scenario = true
is_scenario_or_operation SpanRole.operation = true
is_scenario_or_operation _ = false

abbrev pub can_hold_operation : SpanRole → Bool
can_hold_operation SpanRole.scenario = true
can_hold_operation SpanRole.operation = true
can_hold_operation SpanRole.parallel = true
can_hold_operation _ = false

abbrev pub can_hold_fault : SpanRole → Bool
can_hold_fault SpanRole.run = true
can_hold_fault SpanRole.scenario = true
can_hold_fault SpanRole.operation = true
can_hold_fault _ = false

pub data EventRole : Type 0 where
  observation result empty error fault abandoned other : EventRole

unfoldable pub parse_event_role : String → EventRole
parse_event_role name =
    if str_eq name obs_event
    then EventRole.observation
    else if str_eq name result_event
    then EventRole.result
    else if str_eq name empty_event
    then EventRole.empty
    else if str_eq name error_event
    then EventRole.error
    else if str_eq name fault_event
    then EventRole.fault
    else if str_eq name abandoned_event
    then EventRole.abandoned
    else EventRole.other

abbrev pub operation_only : EventRole → Bool
operation_only EventRole.fault = false
operation_only EventRole.other = false
operation_only _ = true

pub data FaultObserver : Type 0 where
  target supervisor other : FaultObserver

unfoldable pub parse_observer : Option String → FaultObserver
parse_observer none = FaultObserver.other
parse_observer (some s) =
    if str_eq s "target"
    then FaultObserver.target
    else if str_eq s "supervisor"
    then FaultObserver.supervisor
    else FaultObserver.other

abbrev pub run_attrs : List String
run_attrs = "conformance.run.id" ∷ "conformance.run.name" ∷ []

abbrev pub scenario_attrs : List String
scenario_attrs = "conformance.scenario.name" ∷ "conformance.scenario.index" ∷ []

abbrev pub op_attrs : List String
op_attrs =
    "conformance.component.id" ∷ "conformance.operation.name" ∷ "conformance.operation.inputs" ∷ []

abbrev pub parallel_attrs : List String
parallel_attrs = "conformance.parallel.name" ∷ []

abbrev pub obs_attrs : List String
obs_attrs = "conformance.observation.name" ∷ "conformance.observation.value" ∷ []

abbrev pub result_attrs : List String
result_attrs = "conformance.result.value" ∷ []

abbrev pub error_attrs : List String
error_attrs = "conformance.error.name" ∷ "conformance.error.value" ∷ []

abbrev pub fault_attrs : List String
fault_attrs =
    "conformance.fault.type" ∷ "conformance.fault.message" ∷ "conformance.fault.native_type"
    ∷ "conformance.fault.observer" ∷ "conformance.fault.phase" ∷ "conformance.fault.operation.name"
    ∷ "conformance.fault.operation.component_id" ∷ "conformance.fault.exit_code"
    ∷ "conformance.fault.signal" ∷ "conformance.fault.timeout_ms" ∷ []

abbrev pub supervisor_faults : List String
supervisor_faults =
    "launch_failure" ∷ "process_exit" ∷ "signal" ∷ "timeout" ∷ "deadlock" ∷ "host_loss"
    ∷ "export_failure" ∷ []
