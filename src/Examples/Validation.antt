-- ===== src/Examples/Validation.antt =====
-- Validation at the sample trace and registry.
use specgate.Prelude.{true, [], some, ◌≡◌, refl, ◌↔◌}
use specgate.Prelude.Text.{codes}
use specgate.Model.{CanonicalValue, TraceDocument}
use specgate.Model.Ordering.{compare_canonical}
use specgate.Linked.Canonical.{canonical_value}
use specgate.Linked.Value.{validate_value}
use specgate.Linked.Value.Parts.{is_some}
use specgate.Linked.Value.Sound.{validate_value-is_some}
use specgate.Trace.Fault.{is_fault}
use specgate.Trace.Fault.Grammar.{IsFaultName, is_fault_iff}
use specgate.Trace.Roles.{SpanRole, parse_span_role}
use specgate.Trace.Events.{validate_events}
use specgate.Trace.Events.Terminal.{CompletesLast, StatusFits, validate_events-StatusFits}
use specgate.Trace.Semantics.{validate_semantics}
use specgate.Trace.Semantics.Totality.{validate_semantics-is_some}
use specgate.Trace.Semantics.Nesting.{validate_semantics-IsNested}
use specgate.Trace.Semantics.Accepted.{IsAccepted, validate_semantics-IsAccepted}
use specgate.Compare.Same.Document.{IsNested}
use specgate.Examples.Traces.{plain, document, add_item}
use specgate.Examples.Registry.{registry, shop, line_type, line_value}

pub document_valid : validate_semantics document.spans ≡ some []
unfolding validate_semantics specgate.Trace.Ancestry.validate_ancestry specgate.Index.compare_keys
    validate_events parse_span_role specgate.Trace.Roles.parse_event_role
    specgate.Trace.Fields.reject_attrs specgate.Trace.Fields.require_str
    specgate.Trace.Fields.check_attr specgate.Trace.Fields.is_hex_id
document_valid = refl

line_valid : validate_value plain registry line_value line_type shop "line" ≡ []
unfolding validate_value specgate.Linked.Resolve.resolve specgate.Linked.Canonical.canonical_some
    canonical_value specgate.Linked.Primitive.canonical_primitive
    specgate.Model.Ordering.compare_canonical
line_valid = refl

validate_value-is_some_example : is_some (canonical_value registry line_value line_type shop) ≡ true
validate_value-is_some_example =
    validate_value-is_some plain registry line_value line_type shop "line" line_valid

validate_semantics-IsNested_example : IsNested document
validate_semantics-IsNested_example =
    validate_semantics-IsNested document (refl, (refl, (refl, (refl, tt)))) document_valid

validate_semantics-is_some_example : is_some (validate_semantics document.spans) ≡ true
validate_semantics-is_some_example = validate_semantics-is_some document.spans

add_item_role : parse_span_role add_item.name ≡ SpanRole.operation
unfolding parse_span_role
add_item_role = refl

add_item_valid : validate_events add_item ≡ []
unfolding validate_events parse_span_role specgate.Trace.Roles.parse_event_role
    specgate.Trace.Fields.reject_attrs specgate.Trace.Fields.require_str
add_item_valid = refl

validate_events-StatusFits_example :
    CompletesLast add_item.events × StatusFits add_item.events add_item.status
validate_events-StatusFits_example =
    validate_events-StatusFits add_item add_item_role add_item_valid

is_fault_iff_example : (is_fault "acme.timeout" ≡ true) ↔ IsFaultName (codes "acme.timeout")
is_fault_iff_example = is_fault_iff "acme.timeout"

validate_semantics-IsAccepted_example : IsAccepted document
validate_semantics-IsAccepted_example =
    validate_semantics-IsAccepted document (refl, (refl, (refl, (refl, tt)))) document_valid
