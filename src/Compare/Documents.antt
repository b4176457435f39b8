-- ===== src/Compare/Documents.antt =====
-- engine.rs: `compare_documents`, `scenarios`, `prefix_issues` and `compare_loaded`.
pub mod Laws
pub mod Reported
use specgate.Prelude.{
  ℕ, suc, String, Bool, true, false, ◌&&◌, List, [], ◌∷◌, ◌++◌, Option, none, some, if◌then◌else◌,
  length, select, is_empty, ◌==◌, map,
}
use specgate.Prelude.Order.{Dict, get, insert, contains_key, keys, key_set, string_order}
use specgate.Prelude.Text.{format, str_eq, show_nat}
use specgate.Model.{RegistrySet, TraceSpan, TraceDocument, as_string}
use specgate.Names.{run_span, scenario_span, scenario_attr}
use specgate.Linked.Operation.{text_attr, check_linked}
use specgate.Render.{Format, ValidationIssue, Issues, Loaded}
use specgate.Compare.Outcome.{Outcome, done, ◌>>=◌}
use specgate.Compare.Report.{
  Sink, quiet, mismatch, comparison_error, push_both, in_turn, ValidationDiagnostic,
  ComparisonReport,
}
use specgate.Index.{TraceIndex, new_index, children}
use specgate.Compare.Values.{missing, present}
use specgate.Compare.Events.{compare_events}
use specgate.Compare.Spans.{compare_container, compare_branch, ChildCompare}

abbrev pub is_run : TraceSpan → Bool
is_run span = str_eq span.name run_span

abbrev pub is_scenario : TraceSpan → Bool
is_scenario span = str_eq span.name scenario_span

abbrev text_or_empty : Option String → String
text_or_empty none = ""
text_or_empty (some s) = s

-- `and_then(AnyValue::as_string).unwrap_or_default()`
abbrev pub scenario_name : TraceSpan → String
scenario_name span = text_or_empty (text_attr span.attributes scenario_attr)

abbrev pub ScenarioMap : Type 0
ScenarioMap = Dict String TraceSpan

module _ (fmt : Format) where
  scenario_path : String → String
  scenario_path name = format ("scenario[" ∷ fmt.debug name ∷ "]" ∷ [])

  unfoldable pub insert_scenarios : String → List TraceSpan → ScenarioMap → ScenarioMap × Sink
  unfolding scenario_path
  insert_scenarios side [] m = (m, quiet)
  insert_scenarios side (span ∷ spans) m =
      let name = scenario_name span in
      let (m', sink) = insert_scenarios side spans (insert name span m) in
      (
        m',
        push_both
            (if contains_key m name
              then comparison_error (format (side ∷ "." ∷ scenario_path name ∷ []))
                  "scenario names must be unique within a run"
              else quiet)
            sink,
      )

  unfoldable pub scenarios : TraceSpan → TraceIndex → String → ScenarioMap × Sink
  unfolding insert_scenarios
  scenarios run index side = insert_scenarios side (select is_scenario (children index run)) []

  unfoldable pub compare_scenarios :
      ChildCompare → ScenarioMap → ScenarioMap → List String → Outcome Sink
  unfolding scenario_path compare_branch
  compare_scenarios container reference candidate [] = done quiet
  compare_scenarios container reference candidate (name ∷ names) =
      in_turn
        (compare_branch fmt none [] [] container (get reference name) (get candidate name)
          (scenario_path name))
        (compare_scenarios container reference candidate names)

  -- The comparison of the two selected runs.
  unfoldable pub compare_runs :
      ℕ → TraceDocument → TraceDocument → Option RegistrySet → TraceSpan → TraceSpan → Outcome Sink
  unfolding compare_scenarios
  compare_runs fuel reference candidate registry r_run c_run =
      let r_index = new_index reference in
      let c_index = new_index candidate in
      let (r_scenarios, r_errors) = scenarios r_run r_index "reference" in
      let (c_scenarios, c_errors) = scenarios c_run c_index "candidate" in
      in_turn
        (done (
          push_both (compare_events fmt registry none r_run.events c_run.events "run")
            (push_both r_errors c_errors)))
        (compare_scenarios (compare_container fmt registry r_index c_index fuel) r_scenarios
          c_scenarios (key_set (keys r_scenarios ++ keys c_scenarios)))

  abbrev run_error : String → ℕ → Sink
  run_error path found =
      if found == 1
      then quiet
      else comparison_error path
          (format ("implicit run selection requires exactly one run, found " ∷ show_nat found ∷ []))

  -- Both sides must have exactly one run.
  unfoldable pub select_runs :
      ℕ
      → TraceDocument
      → TraceDocument
      → Option RegistrySet
      → List TraceSpan
      → List TraceSpan
      → Outcome Sink
  unfolding compare_runs
  select_runs fuel reference candidate registry (r ∷ []) (c ∷ []) =
      compare_runs fuel reference candidate registry r c
  select_runs fuel reference candidate registry rs cs =
      done
        (push_both (run_error "reference.run" (length rs)) (run_error "candidate.run" (length cs)))

  unfoldable pub compare_documents :
      ℕ → TraceDocument → TraceDocument → Option RegistrySet → Outcome Sink
  unfolding select_runs
  compare_documents fuel reference candidate registry =
      select_runs fuel reference candidate registry (select is_run reference.spans)
        (select is_run candidate.spans)

unfoldable pub prefix_issues : String → Issues → List ValidationDiagnostic
prefix_issues prefix [] = []
prefix_issues prefix (i ∷ is) =
    record { location = format (prefix ∷ ":" ∷ i.location ∷ []); message = i.message }
    ∷ prefix_issues prefix is

abbrev pub registry_issues : Option (Loaded RegistrySet) → List ValidationDiagnostic
unfolding prefix_issues
registry_issues none = []
registry_issues (some set) = prefix_issues "registry" set.issues

abbrev pub loaded_registry : Option (Loaded RegistrySet) → Option RegistrySet
loaded_registry none = none
loaded_registry (some set) = set.value

module _ (fmt : Format) where
  -- The linked checks, made when no artifact has an issue of its own.
  unfoldable pub linked_issues :
      Option TraceDocument → Option TraceDocument → Option RegistrySet → List ValidationDiagnostic
  unfolding prefix_issues
  linked_issues (some reference) (some candidate) (some registry) =
      prefix_issues "reference linked" (check_linked fmt registry reference)
      ++ prefix_issues "candidate linked" (check_linked fmt registry candidate)
  linked_issues _ _ _ = []

  unfoldable pub loading_failures :
      Loaded TraceDocument
      → Loaded TraceDocument
      → Option (Loaded RegistrySet)
      → List ValidationDiagnostic
  unfolding prefix_issues linked_issues
  loading_failures reference candidate registry_set =
      let own =
        prefix_issues "reference" reference.issues
        ++ (prefix_issues "candidate" candidate.issues ++ registry_issues registry_set) in
      if is_empty own
      then own ++ linked_issues reference.value candidate.value (loaded_registry registry_set)
      else own

  -- The documents are compared when nothing failed to validate.
  unfoldable pub compare_valid :
      Bool → Option TraceDocument → Option TraceDocument → Option RegistrySet → Outcome Sink
  compare_valid true (some reference) (some candidate) registry =
      compare_documents fmt (suc (length reference.spans)) reference candidate registry
  compare_valid _ _ _ registry = done quiet

  abbrev pub report_of : String → String → List ValidationDiagnostic → Sink → ComparisonReport
  report_of reference candidate failures sink = record {
    policy = "ctsc.strict";
    policy_version = "0.2.0";
    reference = reference;
    candidate = candidate;
    equivalent = is_empty failures && (is_empty sink.errors && is_empty sink.mismatches);
    validation_failures = failures;
    errors = sink.errors;
    mismatches = sink.mismatches;
  }

  unfoldable pub compare_loaded :
      String
      → String
      → Loaded TraceDocument
      → Loaded TraceDocument
      → Option (Loaded RegistrySet)
      → Outcome ComparisonReport
  unfolding compare_valid
  compare_loaded reference candidate reference_trace candidate_trace registry_set =
      let failures = loading_failures reference_trace candidate_trace registry_set in
      do
        sink ←
            compare_valid (is_empty failures) reference_trace.value candidate_trace.value
              (loaded_registry registry_set)
        done (report_of reference candidate failures sink)
