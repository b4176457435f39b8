-- ===== src/Capture/Encoding.antt =====
-- capture/encoding.rs: identities, logical times and the spans of an encoded run.
pub mod Values
pub mod Hex
use specgate.Prelude.{
  ℕ, zero, suc, ◌+◌, ◌-◌, ◌/◌, ◌%◌, String, Bool, true, false, not, ◌&&◌, ◌||◌, Option, none, some,
  List, [], ◌∷◌, ◌++◌, ◌⊎◌, inl, inr, length, ◌==◌, ltb, leb, if◌then◌else◌, is_empty, compare,
}
use specgate.Prelude.Int.{ℤ, pos, negsuc, ◌+ℤ◌, ◌-ℤ◌, checked_add, checked_sub}
use specgate.Prelude.Order.{Dict, string_order, get, insert, sort_by}
use specgate.Prelude.Text.{codes, format, str_eq}
use specgate.Names.{
  run_span, scenario_span, op_span, scenario_attr, component_attr, op_name_attr, op_inputs_attr,
  registry_attr, registry_version_attr, registry_digest_attr, obs_event, obs_name_attr,
  obs_value_attr, result_event, result_attr, empty_event, error_event, error_name_attr,
  error_value_attr, fault_event, fault_type_attr, fault_message_attr, fault_observer_attr,
  abandoned_event,
}
use specgate.Capture.Evidence.{
  Value, ValueMap, Status, Observation, Completion, result, empty, failed, fault, abandoned,
  Operation, Capture, Metadata,
}
use specgate.Capture.Wire.{
  Encoded, ok, err, panic, ◌>>=◌, wire_trace_id, wire_span_id, unix_nanos, span_kind, wire_status,
  WireValue, KeyValue, SpanEvent, Span, Document,
}
use specgate.Capture.Encoding.Values.{any_value, wire_pairs}

-- `Identity`, with its two values.
pub record Identity : Type 0 where
  pub trace_id : String
  pub first_id : ℕ
  pub run_id : String

abbrev pub reference : Identity
reference = record {
  trace_id = "00000000000000000000000000000001";
  first_id = 1;
  run_id = "specgate.capture";
}

abbrev pub candidate : Identity
candidate = record {
  trace_id = "00000000000000000000000000000002";
  first_id = 0x8000000000000001;
  run_id = "specgate.replay";
}

-- `{:x}` of a digit
abbrev pub hex_code : ℕ → ℕ
hex_code d = if ltb d 10 then b'0' + d else b'a' + (d - 10)

-- `{:0width$x}` of a number that has at most `width` digits
unfoldable pub hex_text : ℕ → ℕ → List ℕ
hex_text zero n = []
hex_text (suc width) n = hex_text width (n / 16) ++ hex_code (n % 16) ∷ []

unfoldable pub span_id : ℕ → List ℕ
span_id value = hex_text 16 value

-- `checked_id`, in a wire span id
unfoldable pub checked_id : ℕ → Encoded (List ℕ)
checked_id value = if value == 0 then panic else wire_span_id (span_id value)

unfoldable pub next_of : ℕ → Encoded ℕ
next_of value =
    if ltb (value + 1) 18446744073709551616
    then ok (value + 1)
    else err "CTSC span ID sequence overflow"

abbrev pub or_err : String → Option ℤ → Encoded ℤ
or_err message none = err message
or_err message (some z) = ok z

unfoldable pub offset_time : ℤ → ℤ → Encoded ℤ
offset_time value offset = or_err "CTSC logical timestamp overflow" (checked_add value offset)

-- `UnixNanos::try_from(offset_time(..)?.to_string()..)`
unfoldable pub shifted : ℤ → ℤ → Encoded ℕ
unfolding offset_time unix_nanos
shifted value offset = do time ← offset_time value offset; unix_nanos time

abbrev pub text_pair : String → String → KeyValue
text_pair key value = (key, WireValue.string value)

abbrev pub event_at : ℕ → String → List KeyValue → ℕ → SpanEvent
event_at order name attributes time_ns = record {
  order = order;
  time_ns = time_ns;
  name = name;
  attributes = attributes;
}

-- An event at a shifted time.
abbrev pub wire_event : ℤ → ℕ → ℤ → String → List KeyValue → Encoded SpanEvent
wire_event offset order time_ns name attributes =
    shifted time_ns offset >>= λ t. ok (event_at order name attributes t)

unfoldable pub observation_event : ℤ → Observation → Encoded SpanEvent
unfolding shifted any_value
observation_event offset o =
    wire_event offset o.order o.time_ns obs_event
      (text_pair obs_name_attr o.name ∷ (obs_value_attr, any_value o.value) ∷ [])

abbrev pub error_value : Option Value → List KeyValue
error_value none = []
error_value (some v) = (error_value_attr, any_value v) ∷ []

unfoldable pub completion_event : ℤ → Completion → Encoded SpanEvent
unfolding shifted any_value
completion_event offset (result order time_ns value) =
    wire_event offset order time_ns result_event ((result_attr, any_value value) ∷ [])
completion_event offset (empty order time_ns) = wire_event offset order time_ns empty_event []
completion_event offset (failed order time_ns name value) =
    wire_event offset order time_ns error_event (text_pair error_name_attr name ∷ error_value value)
completion_event offset (fault order time_ns fault_type message observer) =
    wire_event offset order time_ns fault_event (
      text_pair fault_type_attr fault_type
      ∷ text_pair fault_message_attr message
      ∷ text_pair fault_observer_attr observer
      ∷ [])
completion_event offset (abandoned order time_ns) =
    wire_event offset order time_ns abandoned_event []

unfoldable pub observation_events : ℤ → List Observation → Encoded (List SpanEvent)
unfolding observation_event
observation_events offset [] = ok []
observation_events offset (o ∷ os) = do
  event ← observation_event offset o
  rest ← observation_events offset os
  ok (event ∷ rest)

unfoldable pub completion_events : ℤ → Option Completion → Encoded (List SpanEvent)
unfolding completion_event
completion_events offset none = ok []
completion_events offset (some c) = completion_event offset c >>= λ e. ok (e ∷ [])

-- `sort_by_key(|event| event.order)`
abbrev pub in_order : List SpanEvent → List SpanEvent
in_order = sort_by (λ (a b : SpanEvent). compare a.order b.order)

abbrev pub status_code : Status → ℕ
status_code Status.unset = 0
status_code Status.ok = 1
status_code Status.error = 2

pub record Placement : Type 0 where
  pub id : List ℕ
  pub parent_id : List ℕ
  pub offset : ℤ

unfoldable pub operation_span : List ℕ → Operation → Placement → Encoded Span
unfolding observation_events completion_events shifted wire_trace_id span_kind wire_status
operation_span trace_id operation placement = do
  observed ← observation_events placement.offset operation.observations
  completed ← completion_events placement.offset operation.completion
  wire_trace ← wire_trace_id trace_id
  kind ← span_kind 1
  start_ns ← shifted operation.start_ns placement.offset
  end_ns ← shifted operation.end_ns placement.offset
  status ← wire_status (status_code operation.status)
  ok (record {
    trace_id = wire_trace;
    name = op_span;
    id = placement.id;
    parent_id = some placement.parent_id;
    kind = kind;
    start_ns = start_ns;
    end_ns = end_ns;
    attributes =
        text_pair component_attr operation.component_id
        ∷ text_pair op_name_attr operation.operation_name
        ∷ (op_inputs_attr, WireValue.kvlist (wire_pairs operation.inputs))
        ∷ [];
    events = in_order (observed ++ completed);
    status = status;
  })
