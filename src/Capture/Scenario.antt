-- ===== src/Capture/Scenario.antt =====
-- capture/encoding.rs: `encode`, what it does with one capture.
use specgate.Prelude.{
  ℕ, ◌+◌, String, Bool, true, false, ◌||◌, Option, none, some, List, [], ◌∷◌, ltb, if◌then◌else◌,
}
use specgate.Prelude.Int.{ℤ, pos, checked_add, checked_sub}
use specgate.Prelude.Order.{Dict, string_order, get, insert}
use specgate.Prelude.Text.{format, str_eq}
use specgate.Names.{scenario_span, scenario_attr}
use specgate.Capture.Evidence.{Status, Operation, Capture}
use specgate.Capture.Wire.{
  Encoded, ok, err, panic, ◌>>=◌, wire_trace_id, unix_nanos, span_kind, wire_status, WireValue,
  Span,
}
use specgate.Capture.Encoding.{
  checked_id, next_of, or_err, offset_time, text_pair, status_code, operation_span,
}

-- The wire ids of the operations of a scenario, by their native ids.
abbrev pub Ids : Type 0
Ids = Dict String (List ℕ)

-- The loop that gives each operation a wire id; `scenario_name` stands in a message.
unfoldable pub assign_ids : String → List Operation → ℕ → Ids → Encoded (Ids × ℕ)
unfolding checked_id next_of
assign_ids scenario_name [] next_id ids = ok (ids, next_id)
assign_ids scenario_name (operation ∷ operations) next_id ids = do
  wire_id ← checked_id next_id
  following ← next_of next_id
  let rest = assign_ids scenario_name operations following (insert operation.span_id wire_id ids)
  elim (get ids operation.span_id) [
    | some old ↦ err (
        format (
          "native scenario '" ∷ scenario_name ∷ "' contains duplicate operation span ID '"
          ∷ operation.span_id ∷ "'" ∷ []))
    | none ↦ rest
  ]

abbrev pub id_or_panic : Option (List ℕ) → Encoded (List ℕ)
id_or_panic none = panic
id_or_panic (some id) = ok id

abbrev id_or_err : String → Option (List ℕ) → Encoded (List ℕ)
id_or_err message none = err message
id_or_err message (some id) = ok id

unfoldable pub parent_id : Capture → List ℕ → Ids → Operation → Encoded (List ℕ)
parent_id capture scenario_id ids operation =
    let by_operation : Encoded (List ℕ) =
      id_or_err
        (format (
          "native scenario '" ∷ capture.scenario_name ∷ "' operation '" ∷ operation.operation_name
          ∷ "' has unresolved parent span '" ∷ operation.parent_id ∷ "'" ∷ []))
        (get ids operation.parent_id) in
    if str_eq operation.parent_id capture.scenario.span.span_id
    then ok scenario_id
    else by_operation

abbrev pub count_one : ℕ → Encoded ℕ
count_one count =
    if ltb (count + 1) 18446744073709551616
    then ok (count + 1)
    else err "CTSC operation count overflow"

-- The spans of the operations, and the number of operations so far.
unfoldable pub operation_spans :
    List ℕ → Capture → List ℕ → Ids → ℤ → List Operation → ℕ → Encoded (List Span × ℕ)
unfolding parent_id operation_span
operation_spans trace_id capture scenario_id ids offset [] count = ok ([], count)
operation_spans trace_id capture scenario_id ids offset (operation ∷ operations) count = do
  id ← id_or_panic (get ids operation.span_id)
  parent ← parent_id capture scenario_id ids operation
  span ← operation_span trace_id operation (record { id = id; parent_id = parent; offset = offset })
  counted ← count_one count
  (rest, total) ← operation_spans trace_id capture scenario_id ids offset operations counted
  ok (span ∷ rest, total)

unfoldable pub wire_index : ℕ → Encoded ℕ
wire_index index =
    if ltb index 9223372036854775808 then ok index else err "CTSC scenario index exceeds i64"

unfoldable pub scenario_wire : List ℕ → Capture → ℕ → List ℕ → List ℕ → ℤ → ℤ → Encoded Span
unfolding wire_trace_id span_kind unix_nanos wire_status
scenario_wire trace_id capture index scenario_id run_span_id start_time end_time = do
  wire_trace ← wire_trace_id trace_id
  kind ← span_kind 1
  start_ns ← unix_nanos start_time
  end_ns ← unix_nanos end_time
  status ← wire_status (status_code capture.scenario.status)
  ok (record {
    trace_id = wire_trace;
    name = scenario_span;
    id = scenario_id;
    parent_id = some run_span_id;
    kind = kind;
    start_ns = start_ns;
    end_ns = end_ns;
    attributes =
        text_pair scenario_attr capture.scenario_name
        ∷ ("conformance.scenario.index", WireValue.int (pos index))
        ∷ [];
    events = [];
    status = status;
  })

-- What the loop over the captures carries.
pub record Progress : Type 0 where
  pub next_id : ℕ
  pub next_time : ℤ
  pub operation_count : ℕ
  pub has_error : Bool

abbrev pub is_error : Status → Bool
is_error Status.error = true
is_error _ = false

unfoldable pub encode_scenario :
    List ℕ → List ℕ → ℕ → Capture → Progress → Encoded (List Span × Progress)
unfolding checked_id next_of assign_ids offset_time wire_index scenario_wire operation_spans
encode_scenario trace_id run_span_id index capture p = do
  scenario_id ← checked_id p.next_id
  first_operation ← next_of p.next_id
  (ids, next_id) ← assign_ids capture.scenario_name capture.operations first_operation []
  offset ←
      or_err "CTSC scenario timestamp offset overflow"
        (checked_sub p.next_time capture.scenario.interval.start_ns)
  end_time ← offset_time capture.scenario.interval.end_ns offset
  wire ← wire_index index
  scenario ← scenario_wire trace_id capture wire scenario_id run_span_id p.next_time end_time
  (operations, count) ←
      operation_spans trace_id capture scenario_id ids offset capture.operations p.operation_count
  next_time ← or_err "CTSC logical timestamp overflow" (checked_add end_time (pos 1))
  ok (
    scenario ∷ operations,
    record {
      next_id = next_id;
      next_time = next_time;
      operation_count = count;
      has_error = p.has_error || is_error capture.scenario.status;
    },
  )
