-- ===== src/Compare/Total/Document.antt =====
-- Two valid documents: the comparison neither panics nor runs out of its fuel.
use specgate.Prelude.{
  ℕ, zero, suc, ◌+◌, ◌<◌, String, true, List, [], ◌∷◌, ◌++◌, Option, none, some, length, ◌≡◌, refl,
  arith, select, inl, append-eq-nil,
}
use specgate.Prelude.Elem.{Elem, Elem-select}
use specgate.Prelude.Order.{get, key_set, keys, string_order}
use specgate.Prelude.Text.{str_eq, eq_excludes}
use specgate.Model.{RegistrySet, TraceSpan, TraceDocument}
use specgate.Names.{op_span, run_span, scenario_span}
use specgate.Index.{new_index}
use specgate.Render.{Format, Issues, require}
use specgate.Trace.Fields.{require_str, reject_attrs}
use specgate.Trace.Roles.{SpanRole, parse_span_role, op_attrs, can_hold_operation}
use specgate.Trace.Semantics.{
  has_inputs, check_span_role, role_of, parent_of, index_spans, validate_semantics,
}
use specgate.Trace.Semantics.Nesting.{
  require-holds, semantics-parts, check_all-Elem, check_semantics-role,
}
use specgate.Trace.Semantics.Depth.{DepthIn, Depth-lt, run-Depth, child-Depth}
use specgate.Compare.Spans.{ChildCompare, compare_child, compare_container}
use specgate.Compare.Documents.{
  is_run, ScenarioMap, scenarios, compare_scenarios, compare_runs, select_runs, compare_documents,
}
use specgate.Compare.Same.Scenarios.{children-Elem, scenarios-Elem}
use specgate.Compare.Total.Children.{
  is_done, in_turn-is_done, compare_branch-is_done, compare_children-is_done,
  compare_child_with-is_done,
}

last-nil : (a b c d e : Issues) → a ++ (b ++ (c ++ (d ++ e))) ≡ [] → e ≡ []
last-nil a b c d e h =
    (append-eq-nil d e (append-eq-nil c _ (append-eq-nil b _ (append-eq-nil a _ h).1).1).1).1

-- An operation of a valid document has its inputs.
operation-has_inputs :
    (s : TraceSpan) (parent_role : SpanRole)
    → str_eq s.name op_span ≡ true
    → check_span_role s (parse_span_role s.name) parent_role ≡ []
    → has_inputs s ≡ true
unfolding parse_span_role check_span_role
operation-has_inputs s parent_role n h =
    let checks : check_span_role s SpanRole.operation parent_role ≡ [] =
      rw
        (
          eq_excludes s.name op_span run_span n refl,
          eq_excludes s.name op_span scenario_span n refl,
          n,
        )
        at h in
    require-holds (has_inputs s) s.location "operation inputs must use kvlistValue" (
      last-nil (reject_attrs s.attributes op_attrs s.location)
        (require (can_hold_operation parent_role) s.location
          "operation parent must be scenario, operation, or parallel")
        (require_str s.attributes "conformance.component.id" s.location).1
        (require_str s.attributes "conformance.operation.name" s.location).1 _ checks)

valid-has_inputs :
    (document : TraceDocument)
    → validate_semantics document.spans ≡ some []
    → (s : TraceSpan) → Elem s document.spans
    → str_eq s.name op_span ≡ true
    → has_inputs s ≡ true
valid-has_inputs document valid s e n =
    let by_id = (index_spans document.spans []).0 in
    operation-has_inputs s (role_of (parent_of by_id s)) n (
      check_semantics-role by_id s
        (check_all-Elem by_id document.spans s (semantics-parts document.spans valid).1 e))

module _ (fmt : Format) (registry : Option RegistrySet) (reference candidate : TraceDocument)
    (r_valid : validate_semantics reference.spans ≡ some [])
    (c_valid : validate_semantics candidate.spans ≡ some []) where
  compare_child-is_done :
      (fuel n : ℕ) (r c : TraceSpan)
      → Elem r reference.spans
      → Elem c candidate.spans
      → DepthIn reference n r
      → length reference.spans < n + fuel
      → (path : String)
      → is_done
          (compare_child fmt registry (new_index reference) (new_index candidate) fuel r c path)
        ≡ true
  unfolding compare_child
  compare_child-is_done zero n r c e f d l path =
      let deep = Depth-lt reference.spans n _ d in absurd (ground arith)
  compare_child-is_done (suc fuel) n r c e f d l path =
      compare_child_with-is_done fmt registry (new_index reference) (new_index candidate) _ r c path
        (valid-has_inputs reference r_valid r e) (valid-has_inputs candidate c_valid c f)
        (λ s t es et p.
          let (s_in, s_child) = children-Elem reference r s es in
          compare_child-is_done fuel (suc n) s t s_in (children-Elem candidate c t et).0
            (child-Depth reference r_valid n r s e s_in s_child d) (omega arith) p)

  compare_container-is_done :
      (fuel n : ℕ) (r c : TraceSpan)
      → Elem r reference.spans
      → Elem c candidate.spans
      → DepthIn reference n r
      → length reference.spans < fuel
      → (path : String)
      → is_done
          (compare_container fmt registry (new_index reference) (new_index candidate) fuel r c path)
        ≡ true
  unfolding compare_container
  compare_container-is_done fuel n r c e f d l path = ground (
    arith,
    compare_children-is_done fmt registry (new_index reference) (new_index candidate) _ r c path
        (λ s t es et p.
          let (s_in, s_child) = children-Elem reference r s es in
          compare_child-is_done fuel (suc n) s t s_in (children-Elem candidate c t et).0
            (child-Depth reference r_valid n r s e s_in s_child d) (omega arith) p),
  )

  compare_scenarios-is_done :
      (container : ChildCompare) (m n : ScenarioMap) (names : List String)
      → ((name : String) (r c : TraceSpan)
          → get m name ≡ some r
          → get n name ≡ some c
          → (path : String) → is_done (container r c path) ≡ true)
      → is_done (compare_scenarios fmt container m n names) ≡ true
  unfolding compare_scenarios
  compare_scenarios-is_done container m n [] h = refl
  compare_scenarios-is_done container m n (name ∷ names) h =
      in_turn-is_done _ _
        (compare_branch-is_done fmt none [] [] container (get m name) (get n name) _
          (λ r c e f. h name r c e f _))
        (compare_scenarios-is_done container m n names h)

  compare_runs-is_done :
      (fuel : ℕ) (r_run c_run : TraceSpan)
      → Elem r_run reference.spans
      → is_run r_run ≡ true
      → length reference.spans < fuel
      → is_done (compare_runs fmt fuel reference candidate registry r_run c_run) ≡ true
  unfolding compare_runs
  compare_runs-is_done fuel r_run c_run e r l = ground (
    arith,
    compare_scenarios-is_done
        (compare_container fmt registry (new_index reference) (new_index candidate) fuel)
        (scenarios fmt r_run (new_index reference) "reference").0
        (scenarios fmt c_run (new_index candidate) "candidate").0
        (key_set (
          keys (scenarios fmt r_run (new_index reference) "reference").0
          ++ keys (scenarios fmt c_run (new_index candidate) "candidate").0))
        (λ name s t g h path.
          let (s_in, s_below, s_child) = scenarios-Elem fmt reference r_run "reference" name s g in
          compare_container-is_done fuel 1 s t s_in
            (scenarios-Elem fmt candidate c_run "candidate" name t h).0
            (child-Depth reference r_valid 0 r_run s e s_in s_child
              (run-Depth reference r_valid r_run e r))
            l path),
  )

  select_runs-is_done :
      (fuel : ℕ) (rs cs : List TraceSpan)
      → ((r : TraceSpan) → Elem r rs → Elem r reference.spans × (is_run r ≡ true))
      → length reference.spans < fuel
      → is_done (select_runs fmt fuel reference candidate registry rs cs) ≡ true
  unfolding select_runs
  select_runs-is_done fuel [] cs h l = refl
  select_runs-is_done fuel (r ∷ []) [] h l = refl
  select_runs-is_done fuel (r ∷ []) (c ∷ []) h l =
      let (e, run) = h r (inl refl) in compare_runs-is_done fuel r c e run l
  select_runs-is_done fuel (r ∷ []) (c ∷ d ∷ cs) h l = refl
  select_runs-is_done fuel (r ∷ s ∷ rs) cs h l = refl

  pub compare_documents-is_done :
      (fuel : ℕ)
      → length reference.spans < fuel
      → is_done (compare_documents fmt fuel reference candidate registry) ≡ true
  unfolding compare_documents
  compare_documents-is_done fuel l =
      select_runs-is_done fuel (select is_run reference.spans) (select is_run candidate.spans)
        (λ r e. Elem-select is_run r reference.spans e) l
