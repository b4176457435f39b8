-- ===== src/Compare/Same/Scenarios.antt =====
-- The scenarios of a run: `insert_scenarios` holds spans of the list, whatever the side.
use specgate.Prelude.{
  String, true, false, List, [], ◌∷◌, some, ◌≡◌, refl, arith, ◌⊎◌, inl, inr, select,
}
use specgate.Prelude.Elem.{Elem, Elem-select}
use specgate.Prelude.Order.{get, insert, string_order}
use specgate.Prelude.Order.Laws.{get-insert}
use specgate.Prelude.Text.{eq_excludes}
use specgate.Model.{TraceSpan, TraceDocument}
use specgate.Names.{run_span, scenario_span}
use specgate.Index.{children, new_index}
use specgate.Index.Laws.{is_child, children-new_index}
use specgate.Render.{Format}
use specgate.Compare.Documents.{
  is_run, is_scenario, scenario_name, ScenarioMap, insert_scenarios, scenarios,
}

scenario-is_run : (s : TraceSpan) → is_scenario s ≡ true → is_run s ≡ false
scenario-is_run s h = eq_excludes s.name scenario_span run_span h refl

pub children-Elem :
    (document : TraceDocument) (p c : TraceSpan)
    → Elem c (children (new_index document) p)
    → Elem c document.spans × (is_child p c ≡ true)
children-Elem document p c e =
    Elem-select (is_child p) c document.spans (rw (children-new_index document p) at e)

module _ (fmt : Format) where
  pub insert_scenarios_side :
      (side side' : String) (spans : List TraceSpan) (m : ScenarioMap)
      → (insert_scenarios fmt side spans m).0 ≡ (insert_scenarios fmt side' spans m).0
  unfolding insert_scenarios
  insert_scenarios_side side side' [] m = refl
  insert_scenarios_side side side' (s ∷ spans) m =
      insert_scenarios_side side side' spans (insert (scenario_name s) s m)

  pub insert_scenarios_quiet :
      (side : String) (spans : List TraceSpan) (m : ScenarioMap)
      → (insert_scenarios fmt side spans m).1.mismatches ≡ []
  unfolding insert_scenarios
  insert_scenarios_quiet side [] m = refl
  insert_scenarios_quiet side (s ∷ spans) m =
      ground (arith, insert_scenarios_quiet side spans (insert (scenario_name s) s m))

  insert_scenarios-Elem :
      (side : String) (spans : List TraceSpan) (m : ScenarioMap) (name : String) (t : TraceSpan)
      → get (insert_scenarios fmt side spans m).0 name ≡ some t
      → Elem t spans ⊎ (get m name ≡ some t)
  unfolding insert_scenarios
  insert_scenarios-Elem side [] m name t h = inr h
  insert_scenarios-Elem side (s ∷ spans) m name t h = ground (
    arith,
    insert_scenarios-Elem side spans (insert (scenario_name s) s m) name t h,
    get-insert (scenario_name s) name s m,
  )

  -- A scenario of the run is a span of the document, names the run as its parent, and is no run.
  pub scenarios-Elem :
      (document : TraceDocument) (run : TraceSpan) (side name : String) (t : TraceSpan)
      → get (scenarios fmt run (new_index document) side).0 name ≡ some t
      → Elem t document.spans × (is_run t ≡ false) × (is_child run t ≡ true)
  unfolding scenarios
  scenarios-Elem document run side name t h =
      let spans = children (new_index document) run in
      elim (insert_scenarios-Elem side (select is_scenario spans) [] name t h) [
        | inl e ↦
            let s = Elem-select is_scenario t spans e in
            let c = children-Elem document run t s.0 in (c.0, scenario-is_run t s.1, c.1)
        | inr absent ↦ absurd (ground arith)
      ]
