-- ===== src/Compare/Same/Document.antt =====
-- A document compared with itself gives no mismatch.
use specgate.Prelude.{
  ℕ, zero, suc, String, true, false, List, [], ◌∷◌, ◌++◌, Option, none, some, ◌≡◌, refl, ap, arith,
  Bool-cases, Option-cases, inl, inr, select,
}
use specgate.Prelude.Elem.{Elem}
use specgate.Prelude.Order.{get, key_set, keys, string_order}
use specgate.Prelude.Text.{str_eq, eq_excludes}
use specgate.Model.{RegistrySet, TraceSpan, TraceDocument}
use specgate.Names.{run_span, op_span, parallel_span}
use specgate.Index.{children, new_index}
use specgate.Index.Laws.{is_child}
use specgate.Render.{Format}
use specgate.Compare.Report.{Sink, quiet}
use specgate.Compare.Events.{compare_events}
use specgate.Compare.Spans.{ChildCompare, compare_branch, compare_child, compare_container}
use specgate.Compare.Documents.{
  is_run, is_scenario, ScenarioMap, insert_scenarios, scenarios, compare_scenarios, compare_runs,
  select_runs, compare_documents,
}
use specgate.Compare.Same.Scenarios.{
  insert_scenarios_side, insert_scenarios_quiet, children-Elem, scenarios-Elem,
}
use specgate.Compare.Same.Events.{compare_events_self}
use specgate.Compare.Same.Children.{NoMismatch, in_turn-NoMismatch, done-NoMismatch}
use specgate.Compare.Same.Spans.{is_branch, compare_child_with_self, compare_children_self}

-- Below a span that is no run stand operations and parallel spans only.
pub record IsNested (document : TraceDocument) : Type 0 where
  pub branch :
      (parent child : TraceSpan)
      → Elem parent document.spans
      → Elem child document.spans
      → is_child parent child ≡ true
      → is_run parent ≡ false
      → is_branch child ≡ true

branch-is_run : (s : TraceSpan) → is_branch s ≡ true → is_run s ≡ false
branch-is_run s h = elim (Bool-cases (str_eq s.name op_span)) [
  | inl operation ↦ eq_excludes s.name op_span run_span operation refl
  | inr other ↦ eq_excludes s.name parallel_span run_span (rw other at h) refl
]

module _ (fmt : Format) (registry : Option RegistrySet) (document : TraceDocument)
    (nested : IsNested document) where
  compare_child_self :
      (fuel : ℕ) (s : TraceSpan)
      → Elem s document.spans
      → is_branch s ≡ true
      → (path : String)
      → NoMismatch
          (compare_child fmt registry (new_index document) (new_index document) fuel s s path)
  unfolding compare_child
  compare_child_self zero s e b path = tt
  compare_child_self (suc fuel) s e b path =
      compare_child_with_self fmt registry (new_index document) _ s path b (λ t c p.
        compare_child_self fuel t (children-Elem document s t c).0
          (nested.branch s t e (children-Elem document s t c).0 (children-Elem document s t c).1
            (branch-is_run s b))
          p)

  compare_container_self :
      (fuel : ℕ) (s : TraceSpan)
      → Elem s document.spans
      → is_run s ≡ false
      → (path : String)
      → NoMismatch
          (compare_container fmt registry (new_index document) (new_index document) fuel s s path)
  unfolding compare_container
  compare_container_self fuel s e r path =
      let events = compare_events_self fmt registry none s.events path in
      done-NoMismatch (compare_events fmt registry none s.events s.events path) _ (rw events refl) (
        compare_children_self fmt registry (new_index document) _ s path (λ t c p.
          compare_child_self fuel t (children-Elem document s t c).0
            (nested.branch s t e (children-Elem document s t c).0 (children-Elem document s t c).1
              r)
            p))

  compare_scenarios_self :
      (container : ChildCompare) (m : ScenarioMap) (names : List String)
      → ((name : String) (t : TraceSpan)
          → get m name ≡ some t
          → (path : String) → NoMismatch (container t t path))
      → NoMismatch (compare_scenarios fmt container m m names)
  unfolding compare_scenarios compare_branch
  compare_scenarios_self container m [] h = refl
  compare_scenarios_self container m (name ∷ names) h = elim (Option-cases (get m name)) [
    | inl absent ↦
        rw absent (done-NoMismatch quiet _ refl (compare_scenarios_self container m names h))
    | inr (t, found) ↦ rw found (
        in_turn-NoMismatch (container t t _) _ (h name t found _)
          (compare_scenarios_self container m names h))
  ]

  compare_runs_self :
      (fuel : ℕ) (run : TraceSpan)
      → NoMismatch (compare_runs fmt fuel document document registry run run)
  unfolding compare_runs scenarios
  compare_runs_self fuel run =
      let index = new_index document in
      let spans = select is_scenario (children index run) in
      let m = (insert_scenarios fmt "reference" spans []).0 in
      let events = compare_events_self fmt registry none run.events "run" in
      done-NoMismatch _ _
        (ground (
          arith,
          ap (λ (s : Sink). s.mismatches) events,
          insert_scenarios_quiet fmt "reference" spans [],
          insert_scenarios_quiet fmt "candidate" spans [],
        ))
        (rw (insert_scenarios_side fmt "candidate" "reference" spans []) (
          compare_scenarios_self (compare_container fmt registry index index fuel) m
            (key_set (keys m ++ keys m))
            (λ name t found path.
              compare_container_self fuel t
                (scenarios-Elem fmt document run "reference" name t found).0
                (scenarios-Elem fmt document run "reference" name t found).1 path)))

  select_runs_self :
      (fuel : ℕ) (runs : List TraceSpan)
      → NoMismatch (select_runs fmt fuel document document registry runs runs)
  unfolding select_runs
  select_runs_self fuel [] = refl
  select_runs_self fuel (run ∷ []) = compare_runs_self fuel run
  select_runs_self fuel (run ∷ other ∷ runs) = ground arith

  -- A document in which operations and parallel spans alone stand below spans that are no runs
  -- has no mismatch with itself: whatever the registry and the fuel, if the comparison returns,
  -- its list of mismatches is empty.
  pub compare_documents_self :
      (fuel : ℕ) → NoMismatch (compare_documents fmt fuel document document registry)
  unfolding compare_documents
  compare_documents_self fuel = select_runs_self fuel (select is_run document.spans)
