-- ===== src/Trace/Semantics.antt =====
-- trace.rs: `validate_semantics`.
pub mod Totality
pub mod Nesting
pub mod Depth
pub mod Accepted
use specgate.Prelude.{
  ℕ, suc, String, Bool, true, false, ◌&&◌, List, [], ◌∷◌, ◌++◌, Option, none, some, ltb, leb,
  length, is_empty, not, if◌then◌else◌,
}
use specgate.Prelude.Order.{get, string_order}
use specgate.Prelude.Text.{str_eq}
use specgate.Model.{AnyValue, TraceSpan}
use specgate.Names.{op_inputs_attr}
use specgate.Index.{SpanKey, key_order, TraceIndex, or_empty, push_span, parent_key, own_key}
use specgate.Render.{Issues, issue, require}
use specgate.Compare.Children.{interval}
use specgate.Trace.Fields.{AttributeType, reject_attrs, check_attr, require_str, is_hex_id}
use specgate.Trace.Roles.{
  SpanRole, parse_span_role, is_run_role, is_parallel_role, is_scenario_or_operation,
  can_hold_operation, run_attrs, scenario_attrs, op_attrs, parallel_attrs,
}
use specgate.Trace.Events.{validate_events}
use specgate.Trace.Ancestry.{validate_ancestry}

-- The first loop: identifiers, and the spans under each identifier.
unfoldable pub index_spans : List TraceSpan → TraceIndex → TraceIndex × Issues
unfolding push_span
index_spans [] by_id = (by_id, [])
index_spans (span ∷ spans) by_id =
    let (by_id', rest) = index_spans spans (push_span (own_key span) span by_id) in
    (
      by_id',
      require (is_hex_id span.trace_id 32) span.location
            "traceId must be 32 lowercase hexadecimal characters and nonzero"
          ++ (require (is_hex_id span.span_id 16) span.location
                "spanId must be 16 lowercase hexadecimal characters and nonzero"
              ++ (require (is_empty (or_empty (get by_id (own_key span)))) span.location
                    "duplicate span ID within trace"
                  ++ rest)),
    )

-- `(candidates.len() == 1).then_some(candidates[0])`
abbrev pub single : List TraceSpan → Option TraceSpan
single (parent ∷ []) = some parent
single _ = none

abbrev pub parent_of : TraceIndex → TraceSpan → Option TraceSpan
parent_of by_id span = single (or_empty (get by_id (parent_key span)))

abbrev pub role_of : Option TraceSpan → SpanRole
role_of none = SpanRole.other
role_of (some parent) = parse_span_role parent.name

abbrev pub ordered : Option (ℕ × ℕ) → Bool
ordered none = false
ordered (some (start, stop)) = leb start stop

abbrev pub encloses : Option (ℕ × ℕ) → Option (ℕ × ℕ) → Bool
encloses (some (parent_start, parent_stop)) (some (start, stop)) =
    leb parent_start start && leb stop parent_stop
encloses _ _ = false

abbrev pub has_inputs : TraceSpan → Bool
has_inputs span = elim (get span.attributes op_inputs_attr) [
  | some (AnyValue.kv_list es) ↦ true
  | _ ↦ false
]

-- The arm of the source for each role of the span.
unfoldable pub check_span_role : TraceSpan → SpanRole → SpanRole → Issues
check_span_role span SpanRole.run parent_role =
    reject_attrs span.attributes run_attrs span.location
    ++ (require (str_eq span.parent_span_id "") span.location "run span must be a root span"
        ++ ((require_str span.attributes "conformance.run.id" span.location).1
            ++ check_attr span.attributes "conformance.run.name" AttributeType.string
                span.location))
check_span_role span SpanRole.scenario parent_role =
    reject_attrs span.attributes scenario_attrs span.location
    ++ (require (is_run_role parent_role) span.location
          "scenario parent must be a conformance.run span"
        ++ ((require_str span.attributes "conformance.scenario.name" span.location).1
            ++ check_attr span.attributes "conformance.scenario.index" AttributeType.int
                span.location))
check_span_role span SpanRole.operation parent_role =
    reject_attrs span.attributes op_attrs span.location
    ++ (require (can_hold_operation parent_role) span.location
          "operation parent must be scenario, operation, or parallel"
        ++ ((require_str span.attributes "conformance.component.id" span.location).1
            ++ ((require_str span.attributes "conformance.operation.name" span.location).1
                ++ require (has_inputs span) span.location
                    "operation inputs must use kvlistValue")))
check_span_role span SpanRole.parallel parent_role =
    reject_attrs span.attributes parallel_attrs span.location
    ++ (require (is_scenario_or_operation parent_role) span.location
          "parallel parent must be scenario or operation"
        ++ check_attr span.attributes "conformance.parallel.name" AttributeType.string
            span.location)
check_span_role span SpanRole.other parent_role = []

abbrev pub check_branch : TraceSpan → Option TraceSpan → Issues
check_branch span none = []
check_branch span (some parent) =
    if is_parallel_role (parse_span_role parent.name)
    then require (encloses (interval parent) (interval span)) span.location
        "conformance.parallel interval must enclose every direct branch"
    else []

-- The body of the second loop.
unfoldable pub check_semantics : TraceIndex → TraceSpan → Issues
unfolding check_span_role
check_semantics by_id span =
    let parent = parent_of by_id span in
    (if ltb 1 (length (or_empty (get by_id (parent_key span))))
      then issue span.location "parent span ID resolves to multiple CTSC spans"
      else [])
    ++ (require (ordered (interval span)) span.location
          "CTSC spans require start/end timestamps with end not before start"
        ++ (check_span_role span (parse_span_role span.name) (role_of parent)
            ++ (check_branch span parent ++ validate_events span)))

unfoldable pub check_all : TraceIndex → List TraceSpan → Issues
unfolding check_semantics
check_all by_id [] = []
check_all by_id (span ∷ spans) = check_semantics by_id span ++ check_all by_id spans

-- The fuel of the ancestry is one more than the number of spans.
unfoldable pub validate_semantics : List TraceSpan → Option Issues
unfolding index_spans check_all
validate_semantics spans =
    let (by_id, issues) = index_spans spans [] in
    elim (validate_ancestry (suc (length spans)) spans by_id) [
      | none ↦ none
      | some ancestry ↦ some (issues ++ (ancestry ++ check_all by_id spans))
    ]
