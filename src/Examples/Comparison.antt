-- ===== src/Examples/Comparison.antt =====
-- The comparison at the sample trace.
use mathlib.Core.List.{Perm}
use specgate.Prelude.{
  true, false, String, List, [], ◌∷◌, none, some, ◌≡◌, refl, inl, ◌↔◌, select, find, not, is_empty,
}
use specgate.Prelude.Order.{get}
use specgate.Prelude.Order.Laws.{same_key}
use specgate.Model.{TraceSpan, TraceDocument}
use specgate.Index.{compare_keys, new_index, children}
use specgate.Index.Laws.{is_child, children-new_index}
use specgate.Linked.Value.Parts.{is_some}
use specgate.Compare.Outcome.{done}
use specgate.Compare.Report.{ComparisonReport, Sink, quiet}
use specgate.Compare.Same.Valid.{compare_documents-valid}
use specgate.Compare.Total.Children.{is_done}
use specgate.Compare.Total.Loaded.{compare_loaded-is_done}
use specgate.Examples.Registry.{registry}
use specgate.Examples.Validation.{document_valid}
use specgate.Compare.Children.{
  SpanIdentity, identity_order, IdentityMap, span_identity, order_spans, sequential_children,
  identity_map,
}
use specgate.Compare.Children.Sequence.{InSequence, sequential_children-InSequence}
use specgate.Compare.Children.Identities.{ambiguous_spans, identity_map-find}
use specgate.Render.{Loaded}
use specgate.Compare.Documents.{loading_failures, compare_loaded, compare_documents}
use specgate.Compare.Documents.Laws.{Valid, compare_loaded-equivalent}
use specgate.Compare.Documents.Reported.{prefixed, compare_loaded-reports}
use specgate.Prelude.Elem.{Elem}
use specgate.Examples.Traces.{plain, document, scenario, add_item, pay}

children-new_index_example :
    children (new_index document) scenario ≡ select (is_child scenario) document.spans
children-new_index_example = children-new_index document scenario

in_order :
    (sequential_children scenario (new_index document) "reference" "scenario").0
    ≡ some (add_item ∷ pay ∷ [])
unfolding sequential_children order_spans children new_index compare_keys
in_order = refl

sequential_children-InSequence_example :
    Perm (add_item ∷ pay ∷ []) (select (is_child scenario) document.spans)
    × InSequence (add_item ∷ pay ∷ [])
sequential_children-InSequence_example =
    sequential_children-InSequence document scenario "reference" "scenario" (add_item ∷ pay ∷ [])
      in_order

identity_map-find_example :
    (is_some (identity_map plain "reference" "scenario" (pay ∷ add_item ∷ [])).0
      ≡ not (ambiguous_spans (pay ∷ add_item ∷ [])))
    × ((m : IdentityMap)
        → (identity_map plain "reference" "scenario" (pay ∷ add_item ∷ [])).0 ≡ some m
        → (identity : SpanIdentity)
        → get m identity ≡ find (λ s. same_key identity (span_identity s)) (pay ∷ add_item ∷ []))
identity_map-find_example = identity_map-find plain "reference" "scenario" (pay ∷ add_item ∷ [])

abbrev loaded : Loaded TraceDocument
loaded = record { value = some document; issues = [] }

abbrev broken : Loaded TraceDocument
broken = record { value = none; issues = record { location = "$"; message = "no JSON" } ∷ [] }

abbrev equal_report : ComparisonReport
equal_report = record {
  policy = "ctsc.strict";
  policy_version = "0.2.0";
  reference = "a.json";
  candidate = "b.json";
  equivalent = true;
  validation_failures = [];
  errors = [];
  mismatches = [];
}

equal : compare_loaded plain "a.json" "b.json" loaded loaded none ≡ done equal_report
unfolding compare_loaded loading_failures compare_documents specgate.Compare.Documents.scenarios
    children new_index compare_keys specgate.Compare.Spans.compare_container
    specgate.Compare.Spans.compare_children specgate.Compare.Spans.compare_sequences
    sequential_children order_spans specgate.Compare.Spans.compare_positions
    specgate.Compare.Spans.compare_child specgate.Compare.Spans.compare_child_with
    specgate.Compare.Spans.compare_operation specgate.Compare.Values.compare_inputs
    specgate.Compare.Events.compare_events specgate.Model.AnyValue-discrete
    specgate.Prelude.Text.String-discrete native.Mathlib.Decide.ℕ_discrete
equal = refl

compare_loaded-equivalent_example : (equal_report.equivalent ≡ true) ↔ (
    Valid plain loaded loaded document document none
    × (compare_documents plain 5 document document none ≡ done quiet))
compare_loaded-equivalent_example =
    compare_loaded-equivalent plain "a.json" "b.json" document document [] [] none equal_report
      equal

abbrev broken_report : ComparisonReport
broken_report = record {
  policy = "ctsc.strict";
  policy_version = "0.2.0";
  reference = "a.json";
  candidate = "b.json";
  equivalent = false;
  validation_failures = record { location = "reference:$"; message = "no JSON" } ∷ [];
  errors = [];
  mismatches = [];
}

broken_is_reported : compare_loaded plain "a.json" "b.json" broken loaded none ≡ done broken_report
unfolding compare_loaded loading_failures
broken_is_reported = refl

compare_loaded-reports_example :
    Elem
      (prefixed "reference" (record { location = "$"; message = "no JSON" }))
      broken_report.validation_failures
    × (broken_report.equivalent ≡ false)
    × (broken_report.errors ≡ [])
    × (broken_report.mismatches ≡ [])
compare_loaded-reports_example =
    compare_loaded-reports plain "a.json" "b.json" broken loaded none broken_report "reference"
      (record { location = "$"; message = "no JSON" }) (inl (refl, inl refl)) broken_is_reported

compare_documents-valid_example :
    (sink : Sink) × ((compare_documents plain 5 document document (some registry) ≡ done sink)
      × (sink.mismatches ≡ []))
compare_documents-valid_example =
    compare_documents-valid plain (some registry) document (refl, (refl, (refl, (refl, tt))))
      document_valid

compare_loaded-is_done_example :
    is_done (
      compare_loaded plain "a.json" "b.json"
        (record { value = some document; issues = [] })
        (record { value = some document; issues = [] })
        none)
    ≡ true
compare_loaded-is_done_example =
    compare_loaded-is_done plain document document document_valid document_valid "a.json" "b.json"
      [] [] none
