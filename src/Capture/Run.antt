-- ===== src/Capture/Run.antt =====
-- capture/encoding.rs: `encode`, from captures to the document of a run.
pub mod Parts
pub mod Numbers
pub mod Single
pub mod Layout
pub mod Whole
pub mod Nesting
pub mod Times
pub mod Count
pub mod Panics
pub mod Sound
pub mod Room
pub mod Steps
pub mod Returns
use specgate.Prelude.{
  ℕ, zero, suc, ◌+◌, String, Bool, true, false, not, ◌||◌, Option, none, some, List, [], ◌∷◌, ◌++◌,
  ◌⊎◌, inl, inr, length, ltb, if◌then◌else◌, is_empty,
}
use specgate.Prelude.Int.{ℤ, pos, checked_add, checked_sub}
use specgate.Prelude.Order.{Dict, string_order, get, insert}
use specgate.Prelude.Text.{codes, format, str_eq}
use specgate.Names.{
  run_span, scenario_span, scenario_attr, registry_attr, registry_version_attr,
  registry_digest_attr,
}
use specgate.Registry.Shape.Document.{ctsc_version}
use specgate.Capture.Evidence.{Status, Operation, Capture, Metadata}
use specgate.Capture.Wire.{
  Encoded, ok, err, panic, ◌>>=◌, wire_trace_id, unix_nanos, span_kind, wire_status, WireValue,
  KeyValue, Span, Document,
}
use specgate.Capture.Encoding.{
  Identity, checked_id, next_of, or_err, offset_time, text_pair, status_code, operation_span,
}
use specgate.Capture.Scenario.{
  Ids, assign_ids, id_or_panic, parent_id, count_one, operation_spans, wire_index, scenario_wire,
  Progress, is_error, encode_scenario,
}

unfoldable pub encode_scenarios :
    List ℕ → List ℕ → ℕ → List Capture → Progress → Encoded (List Span × Progress)
unfolding encode_scenario
encode_scenarios trace_id run_span_id index [] p = ok ([], p)
encode_scenarios trace_id run_span_id index (capture ∷ captures) p = do
  (spans, q) ← encode_scenario trace_id run_span_id index capture p
  (rest, last) ← encode_scenarios trace_id run_span_id (index + 1) captures q
  ok (spans ++ rest, last)

unfoldable pub run_wire : List ℕ → String → List ℕ → ℤ → Bool → Encoded Span
unfolding wire_trace_id span_kind unix_nanos wire_status
run_wire trace_id run_id run_span_id end_time has_error = do
  wire_trace ← wire_trace_id trace_id
  kind ← span_kind 1
  start_ns ← unix_nanos (pos 1)
  end_ns ← unix_nanos end_time
  status ← wire_status (status_code (if has_error then Status.error else Status.ok))
  ok (record {
    trace_id = wire_trace;
    name = run_span;
    id = run_span_id;
    parent_id = none;
    kind = kind;
    start_ns = start_ns;
    end_ns = end_ns;
    attributes = text_pair "conformance.run.id" run_id ∷ [];
    events = [];
    status = status;
  })

abbrev resource_attributes : Metadata → List KeyValue
resource_attributes m =
    text_pair "conformance.version" ctsc_version
    ∷ text_pair "conformance.tool.name" "specgate"
    ∷ text_pair "conformance.tool.version" m.tool_version
    ∷ text_pair "conformance.target.name" m.target_name
    ∷ text_pair "conformance.target.language" m.target_language
    ∷ text_pair registry_attr m.registry.id
    ∷ text_pair registry_version_attr m.registry.version
    ∷ text_pair registry_digest_attr m.registry.digest
    ∷ []

abbrev pub document_of : Metadata → List Span → Document
document_of m spans = record {
  resource_attributes = resource_attributes m;
  scope_name = "specgate.ctsc";
  scope_version = m.tool_version;
  spans = spans;
  schema_url = format ("https://specgate.dev/ctsc/schema/" ∷ ctsc_version ∷ []);
}

pub record Encoding : Type 0 where
  pub span_count : ℕ
  pub otlp_json : String

abbrev pub json_or_err : String ⊎ String → Encoded String
json_or_err (inl error) = err error
json_or_err (inr json) = ok json

-- `operation_count + captures + 1`, which has to fit a usize and an i32
unfoldable pub count_spans : ℕ → ℕ → Encoded ℕ
count_spans operations captures =
    let total = operations + captures + 1 in
    if ltb total 18446744073709551616
    then if ltb total 2147483648 then ok total else err "native CTSC span count exceeds i32"
    else err "native CTSC span count exceeds usize"

-- The document before it is serialized, and the number of operations.
unfoldable pub encode_document : List Capture → Metadata → Identity → Encoded (Document × ℕ)
unfolding checked_id next_of encode_scenarios run_wire
encode_document captures metadata identity = do
  let trace_id = codes identity.trace_id
  run_span_id ← checked_id identity.first_id
  next_id ← next_of identity.first_id
  (scenario_spans, last) ←
      encode_scenarios trace_id run_span_id 0 captures
        (record { next_id = next_id; next_time = pos 2; operation_count = 0; has_error = false })
  run ← run_wire trace_id identity.run_id run_span_id last.next_time last.has_error
  ok (document_of metadata (run ∷ scenario_spans), last.operation_count)

-- `to_json` is `serde_json::to_string`.
unfoldable pub encode :
    (Document → String ⊎ String) → List Capture → Metadata → Identity → Encoded Encoding
unfolding encode_document count_spans
encode to_json captures metadata identity =
    let written : Encoded Encoding = encode_document captures metadata identity >>= λ d.
    json_or_err (to_json d.0) >>= λ json. count_spans d.1 (length captures) >>= λ count.
    ok (record { span_count = count; otlp_json = json }) in
    if is_empty captures then err "cannot encode a CTSC run without captured scenarios" else written
