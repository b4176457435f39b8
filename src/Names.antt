-- ===== src/Names.antt =====
-- The names of CTSC Trace Core: the constants of validation/linked.rs, validation/trace.rs and
-- comparison/engine.rs under rust/crates/specgate-ctsc/src.
use specgate.Prelude.{String}

abbrev pub run_span : String
run_span = "conformance.run"

abbrev pub scenario_span : String
scenario_span = "conformance.scenario"

abbrev pub op_span : String
op_span = "conformance.operation"

abbrev pub parallel_span : String
parallel_span = "conformance.parallel"

abbrev pub scenario_attr : String
scenario_attr = "conformance.scenario.name"

abbrev pub component_attr : String
component_attr = "conformance.component.id"

abbrev pub op_name_attr : String
op_name_attr = "conformance.operation.name"

abbrev pub op_inputs_attr : String
op_inputs_attr = "conformance.operation.inputs"

abbrev pub registry_attr : String
registry_attr = "conformance.registry.id"

abbrev pub registry_version_attr : String
registry_version_attr = "conformance.registry.version"

abbrev pub registry_digest_attr : String
registry_digest_attr = "conformance.registry.digest"

abbrev pub obs_event : String
obs_event = "conformance.observation"

abbrev pub obs_name_attr : String
obs_name_attr = "conformance.observation.name"

abbrev pub obs_value_attr : String
obs_value_attr = "conformance.observation.value"

abbrev pub result_event : String
result_event = "conformance.result"

abbrev pub result_attr : String
result_attr = "conformance.result.value"

abbrev pub empty_event : String
empty_event = "conformance.empty"

abbrev pub error_event : String
error_event = "conformance.error"

abbrev pub error_name_attr : String
error_name_attr = "conformance.error.name"

abbrev pub error_value_attr : String
error_value_attr = "conformance.error.value"

abbrev pub fault_event : String
fault_event = "conformance.fault"

abbrev pub fault_type_attr : String
fault_type_attr = "conformance.fault.type"

abbrev pub fault_message_attr : String
fault_message_attr = "conformance.fault.message"

abbrev pub fault_observer_attr : String
fault_observer_attr = "conformance.fault.observer"

abbrev pub abandoned_event : String
abandoned_event = "conformance.abandoned"
