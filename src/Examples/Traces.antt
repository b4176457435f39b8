-- ===== src/Examples/Traces.antt =====
-- A trace with a run, a scenario and two operations, the second of which fails.
use specgate.Prelude.{ℕ, String, List, [], ◌∷◌, some, true}
use specgate.Prelude.Int.{pos}
use specgate.Prelude.Order.{Dict}
use specgate.Model.{
  AnyValue, Entries, entries_end, entry, SpanStatus, TraceEvent, TraceSpan, TraceDocument,
}
use specgate.Names.{
  run_span, scenario_span, op_span, scenario_attr, component_attr, op_name_attr, op_inputs_attr,
  obs_event, obs_name_attr, obs_value_attr, result_event, result_attr, error_event, error_name_attr,
}
use specgate.Render.{Format}

abbrev pub plain : Format
plain = record { debug = λ s. s; json = λ s. s; base64 = λ b. "bytes"; float = λ bits. "float" }

abbrev trace_id : String
trace_id = "0123456789abcdef0123456789abcdef"

abbrev span :
    String
    → String
    → String
    → ℕ
    → ℕ
    → Dict String AnyValue
    → List TraceEvent
    → SpanStatus
    → TraceSpan
span span_id parent_span_id name start stop attributes events status = record {
  trace_id = trace_id;
  span_id = span_id;
  parent_span_id = parent_span_id;
  name = name;
  start_time = some start;
  end_time = some stop;
  attributes = attributes;
  events = events;
  status = status;
  resource_attributes = [];
  location = "spans";
}

abbrev pub run : TraceSpan
run =
    span "00000000000000aa" "" run_span 0 100 (("conformance.run.id", AnyValue.string "run-1") ∷ [])
      [] SpanStatus.ok

abbrev pub scenario : TraceSpan
scenario =
    span "00000000000000ab" "00000000000000aa" scenario_span 5 95
      ((scenario_attr, AnyValue.string "checkout") ∷ []) [] SpanStatus.ok

abbrev operation_attributes : String → Entries → Dict String AnyValue
operation_attributes name inputs =
    (component_attr, AnyValue.string "shop")
    ∷ (op_inputs_attr, AnyValue.kv_list inputs)
    ∷ (op_name_attr, AnyValue.string name)
    ∷ []

abbrev pub add_item : TraceSpan
add_item =
    span "00000000000000ac" "00000000000000ab" op_span 10 20
      (operation_attributes "add_item" (entry "count" (AnyValue.int (pos 2)) entries_end))
      (record {
        name = obs_event;
        attributes =
            (obs_name_attr, AnyValue.string "stock") ∷ (obs_value_attr, AnyValue.int (pos 7)) ∷ [];
      }
        ∷ record { name = result_event; attributes = (result_attr, AnyValue.bool true) ∷ [] }
        ∷ [])
      SpanStatus.ok

abbrev pub pay : TraceSpan
pay =
    span "00000000000000ad" "00000000000000ab" op_span 30 40
      (operation_attributes "pay" entries_end)
      (record {
        name = error_event;
        attributes = (error_name_attr, AnyValue.string "declined") ∷ [];
      }
        ∷ [])
      SpanStatus.error

-- The operations stand before their scenario, the later one first.
abbrev pub document : TraceDocument
document = record { spans = pay ∷ add_item ∷ run ∷ scenario ∷ [] }
