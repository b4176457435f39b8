-- ===== src/Examples/Capturing.antt =====
-- Two captured scenarios, and the run that is encoded from them.
use specgate.Prelude.{
  ℕ, ◌<◌, ◌≤◌, String, false, Option, none, some, List, [], ◌∷◌, ◌≡◌, ◌⊎◌, inl, inr, ap, arith,
  refl, length, map, is_empty,
}
use specgate.Prelude.Elem.{All}
use specgate.Prelude.Int.{ℤ, pos, ◌≤ℤ◌, checked_add, checked_sub}
use specgate.Prelude.Text.{str_eq}
use specgate.Registry.Checks.Distinct.{Distinct}
use specgate.Capture.Evidence.{
  Value, map_end, pair, Status, Boundary, Completion, Operation, Capture, Metadata, build_capture,
}
use specgate.Capture.Built.{build_capture_accepts, build_capture-Distinct}
use specgate.Capture.Scenario.{Ids, assign_ids}
use specgate.Capture.Run.Room.{assign_ids-Assigned}
use specgate.Capture.Wire.{Encoded, ok, panic, wire_trace_id, wire_span_id, Span, Document}
use specgate.Capture.Encoding.{reference, checked_id, hex_text, span_id}
use specgate.Capture.Encoding.Hex.{hex_value, checked_id-hex_value}
use specgate.Capture.Run.{encode_document, Encoding, encode}
use specgate.Capture.Run.Numbers.{ids_from, Assigned}
use specgate.Capture.Run.Whole.{encode_document-ids, encode_document-Distinct}
use specgate.Capture.Run.Nesting.{Nested, encode_document-Nested}
use specgate.Capture.Run.Times.{Timeline, encode_document-Timeline}
use specgate.Capture.Run.Count.{encode-span_count}
use specgate.Capture.Run.Panics.{NoPanic}
use specgate.Capture.Run.Returns.{IsIdentity, encode-NoPanic}
use specgate.Capture.Run.Sound.{IsAfter, IsTimely}

abbrev boundary : String → Option String → ℤ → ℤ → Boundary
boundary id parent start end = record {
  span = record { span_id = id; parent_id = parent };
  interval = record { start_ns = start; end_ns = end };
  status = Status.ok;
}

abbrev operation : String → String → ℤ → ℤ → Operation
operation id parent start end = record {
  order = 0;
  span_id = id;
  parent_id = parent;
  component_id = "counter";
  operation_name = "add";
  start_ns = start;
  end_ns = end;
  status = Status.ok;
  inputs = pair "amount" (Value.unsigned 3) map_end;
  observations = record { order = 2; time_ns = end; name = "total"; value = Value.unsigned 3 } ∷ [];
  completion = some (Completion.empty 1 end);
}

abbrev capture : String → ℤ → ℤ → List Operation → Capture
capture name start end operations = record {
  trace_id = "t";
  scenario_name = name;
  run = boundary "run" none start end;
  scenario = boundary "scenario" (some "run") start end;
  operations = operations;
}

abbrev captures : List Capture
captures =
    capture "first" (pos 100) (pos 110)
      (operation "a" "scenario" (pos 102) (pos 105) ∷ operation "b" "a" (pos 103) (pos 104) ∷ [])
    ∷ capture "second" (pos 50) (pos 52) []
    ∷ []

abbrev metadata : Metadata
metadata = record {
  tool_version = "0.1.0";
  target_name = "counter";
  target_language = "rust";
  registry = record { id = "urn:counter"; version = "1.0.0"; digest = "sha256:0" };
}

abbrev ok_or : {A : Type 0} → A → Encoded A → A
ok_or fallback (ok a) = a
ok_or fallback _ = fallback

abbrev no_document : Document
no_document = record {
  resource_attributes = [];
  scope_name = "";
  scope_version = "";
  spans = [];
  schema_url = "";
}

abbrev encoded : Document × ℕ
encoded = ok_or (no_document, 0) (encode_document captures metadata reference)

encoded_ok : encode_document captures metadata reference ≡ ok encoded
unfolding encode_document wire_span_id span_id hex_text checked_sub checked_add
encoded_ok = refl

encoded_times :
    map {B = ℕ × ℕ} (λ (s : Span). (s.start_ns, s.end_ns)) encoded.0.spans
    ≡ (1, 16) ∷ (2, 12) ∷ (4, 7) ∷ (5, 6) ∷ (13, 15) ∷ []
unfolding encode_document wire_span_id span_id hex_text checked_sub checked_add
encoded_times = refl

encoded_ids : map (λ (s : Span). hex_value s.id) encoded.0.spans ≡ 1 ∷ 2 ∷ 3 ∷ 4 ∷ 5 ∷ []
unfolding encode_document wire_span_id span_id hex_text checked_sub checked_add
encoded_ids = refl

-- An operation that starts three nanoseconds before its scenario has a negative logical time.
abbrev early : Capture
early = capture "early" (pos 100) (pos 110) (operation "a" "scenario" (pos 97) (pos 105) ∷ [])

early_builds : build_capture early ≡ inr early
unfolding build_capture
early_builds = refl

early_panics : encode_document (early ∷ []) metadata reference ≡ panic
unfolding encode_document wire_span_id span_id hex_text checked_sub checked_add
early_panics = refl

-- The theorems on this run.

reference-IsIdentity : IsIdentity reference
unfolding wire_trace_id
reference-IsIdentity = record { trace_id = tt; first_id = (omega arith, omega arith) }

is_after :
    (id parent : String) (start end : ℕ)
    → 100 ≤ start
    → 100 ≤ end
    → IsAfter (pos 100) (operation id parent (pos start) (pos end))
is_after id parent start end h k = record {
  start_ns = omega arith;
  end_ns = omega arith;
  observations = (omega arith, tt);
  completion = omega arith;
}

timely : All IsTimely captures
timely = (
  record {
    scenario = omega arith;
    operations = (
      is_after "a" "scenario" 102 105 (omega arith) (omega arith),
      (is_after "b" "a" 103 104 (omega arith) (omega arith), tt),
    );
  },
  (record { scenario = omega arith; operations = tt }, tt),
)

encode_document-ids_example :
    map (λ (s : Span). s.id) encoded.0.spans ≡ ids_from 1 (length encoded.0.spans)
encode_document-ids_example = encode_document-ids captures metadata reference encoded encoded_ok

encode_document-Distinct_example : Distinct (map (λ (s : Span). s.id) encoded.0.spans)
encode_document-Distinct_example =
    encode_document-Distinct captures metadata reference encoded encoded_ok

encode_document-Nested_example :
    (run : Span) × (rest : List Span) × (encoded.0.spans ≡ run ∷ rest)
    × (run.parent_id ≡ none)
    × Nested run.id captures rest
encode_document-Nested_example =
    encode_document-Nested captures metadata reference encoded encoded_ok

encode_document-Timeline_example :
    (run : Span) × (rest : List Span) × (encoded.0.spans ≡ run ∷ rest)
    × (run.start_ns ≡ 1)
    × Timeline 2 captures rest run.end_ns
encode_document-Timeline_example =
    encode_document-Timeline captures metadata reference encoded encoded_ok

abbrev to_json : Document → String ⊎ String
to_json document = inr document.schema_url

abbrev encoding : Encoding
encoding = record { span_count = 5; otlp_json = "https://specgate.dev/ctsc/schema/0.4.0" }

encoding_ok : encode to_json captures metadata reference ≡ ok encoding
unfolding encode wire_span_id span_id hex_text checked_sub checked_add
encoding_ok = refl

encode-span_count_example :
    (document : Document) × (count : ℕ) × (encode_document captures metadata reference
      ≡ ok (document, count))
    × (to_json document ≡ inr encoding.otlp_json)
    × (encoding.span_count ≡ length document.spans)
    × (encoding.span_count < 2147483648)
    × (is_empty captures ≡ false)
encode-span_count_example =
    encode-span_count to_json captures metadata reference encoding encoding_ok

encode-NoPanic_example : NoPanic (encode to_json captures metadata reference)
encode-NoPanic_example =
    encode-NoPanic to_json captures metadata reference reference-IsIdentity timely

checked_id-hex_value_example :
    (id : List ℕ) × (checked_id 0x8000000000000001 ≡ ok id)
    × (length id ≡ 16)
    × (hex_value id ≡ 0x8000000000000001)
checked_id-hex_value_example = checked_id-hex_value 0x8000000000000001 (omega arith) (omega arith)

abbrev first : Capture
first =
    capture "first" (pos 100) (pos 110)
      (operation "a" "scenario" (pos 102) (pos 105) ∷ operation "b" "a" (pos 103) (pos 104) ∷ [])

first-Distinct : Distinct (map (λ (o : Operation). o.span_id) first.operations)
first-Distinct = (
  λ e. elim e [
    | inl same ↦ let equal = ap (λ (t : String). str_eq t "b") same in ground arith
    | inr other ↦ other
  ],
  ((λ e. e), tt),
)

build_capture_accepts_example : build_capture first ≡ inr first
build_capture_accepts_example =
    build_capture_accepts first (omega arith) (omega arith) first-Distinct

first_builds : build_capture first ≡ inr first
unfolding build_capture
first_builds = refl

build_capture-Distinct_example :
    (first ≡ first)
    × (pos 100 ≤ℤ pos 110)
    × (pos 100 ≤ℤ pos 110)
    × Distinct (map (λ (o : Operation). o.span_id) first.operations)
build_capture-Distinct_example = build_capture-Distinct first first first_builds

assign_ids-Assigned_example :
    (ids : Ids) × (assign_ids "first" first.operations 3 [] ≡ ok (ids, 5))
    × Assigned 3 first.operations ids
assign_ids-Assigned_example =
    assign_ids-Assigned "first" first.operations 3 first-Distinct (omega arith) (omega arith)
