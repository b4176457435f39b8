-- ===== src/Trace/Semantics/Accepted.antt =====
-- What `validate_semantics` establishes of the spans of a document.
use specgate.Prelude.{
  true, false, ◌||◌, List, [], ◌∷◌, some, ◌≡◌, refl, arith, sym, inl, inr, append-eq-nil,
  Bool-cases, ltb, length, if◌then◌else◌,
}
use mathlib.Core.Path.{subst}
use specgate.Trace.Events.{validate_events}
use specgate.Prelude.Elem.{Elem, All, All-Elem}
use specgate.Prelude.Order.{get}
use specgate.Prelude.Text.{str_eq, eq_excludes}
use text.Mathlib.TextEquality.{eq_iff}
use specgate.Model.{TraceSpan, TraceDocument}
use specgate.Names.{run_span, scenario_span, op_span, parallel_span}
use specgate.Index.{key_order, TraceIndex, or_empty, own_key, parent_key}
use specgate.Index.Laws.{is_child}
use specgate.Render.{issue, require}
use specgate.Compare.Children.{interval}
use specgate.Compare.Documents.{is_run}
use specgate.Trace.Fields.{reject_attrs}
use specgate.Trace.Roles.{
  SpanRole, parse_span_role, is_run_role, is_scenario_or_operation, can_hold_operation, op_attrs,
  parallel_attrs,
}
use specgate.Trace.Semantics.{
  single, parent_of, role_of, ordered, encloses, check_span_role, check_branch, check_semantics,
  validate_semantics,
}
use specgate.Trace.Semantics.Nesting.{
  is_ctsc, semantics-parts, check_all-Elem, check_semantics-role, scenario-parent, require-holds,
  child-parent_key,
}
use specgate.Trace.Semantics.Depth.{single-own, keyed-Elem, same_single, index_of}

-- Unique identifiers, intervals, parents, and branches inside their parallel span.
pub record IsAccepted (document : TraceDocument) : Type 0 where
  pub unique :
      (s t : TraceSpan)
      → Elem s document.spans
      → Elem t document.spans
      → own_key s ≡ own_key t
      → s ≡ t
  pub timed : (s : TraceSpan) → Elem s document.spans → ordered (interval s) ≡ true
  pub parented :
      (s : TraceSpan)
      → Elem s document.spans
      → is_run s ≡ false
      → (p : TraceSpan) × (Elem p document.spans × (is_child p s ≡ true))
  pub enclosed :
      (p s : TraceSpan)
      → Elem p document.spans
      → Elem s document.spans
      → is_child p s ≡ true
      → str_eq p.name parallel_span ≡ true
      → encloses (interval p) (interval s) ≡ true

check_semantics-ordered :
    (by_id : TraceIndex) (s : TraceSpan)
    → check_semantics by_id s ≡ []
    → ordered (interval s) ≡ true
unfolding check_semantics
check_semantics-ordered by_id s h =
    require-holds (ordered (interval s)) s.location
      "CTSC spans require start/end timestamps with end not before start"
      (append-eq-nil _ _ (append-eq-nil _ _ h).1).0

check_semantics-branch :
    (by_id : TraceIndex) (s : TraceSpan)
    → check_semantics by_id s ≡ []
    → check_branch s (parent_of by_id s) ≡ []
unfolding check_semantics
check_semantics-branch by_id s h =
    let parent_role = role_of (parent_of by_id s) in
    let after =
      append-eq-nil (check_span_role s (parse_span_role s.name) parent_role) _
        (append-eq-nil
          (require (ordered (interval s)) s.location
            "CTSC spans require start/end timestamps with end not before start")
          _
          (append-eq-nil
            (if ltb 1 (length (or_empty (get by_id (parent_key s))))
              then issue s.location "parent span ID resolves to multiple CTSC spans"
              else [])
            _ h).1).1 in
    (append-eq-nil (check_branch s (parent_of by_id s)) (validate_events s) after.1).0

holds-wider :
    (role : SpanRole) → is_scenario_or_operation role ≡ true → can_hold_operation role ≡ true
holds-wider role h = ground arith

-- The role of a parent that may hold an operation or a parallel span.
branch-parent :
    (s : TraceSpan) (parent_role : SpanRole)
    → (str_eq s.name op_span || str_eq s.name parallel_span) ≡ true
    → check_span_role s (parse_span_role s.name) parent_role ≡ []
    → can_hold_operation parent_role ≡ true
unfolding parse_span_role check_span_role
branch-parent s parent_role n h = elim (Bool-cases (str_eq s.name op_span)) [
  | inl operation ↦
      let checks : check_span_role s SpanRole.operation parent_role ≡ [] =
        rw
          (
            eq_excludes s.name op_span run_span operation refl,
            eq_excludes s.name op_span scenario_span operation refl,
            operation,
          )
          at h in
      require-holds (can_hold_operation parent_role) s.location
        "operation parent must be scenario, operation, or parallel"
        (append-eq-nil _ _
          (append-eq-nil (reject_attrs s.attributes op_attrs s.location) _ checks).1).0
  | inr other ↦
      let parallel : str_eq s.name parallel_span ≡ true = ground arith in
      let checks : check_span_role s SpanRole.parallel parent_role ≡ [] =
        rw
          (
            eq_excludes s.name parallel_span run_span parallel refl,
            eq_excludes s.name parallel_span scenario_span parallel refl,
            other,
            parallel,
          )
          at h in
      holds-wider parent_role (
        require-holds (is_scenario_or_operation parent_role) s.location
          "parallel parent must be scenario or operation"
          (append-eq-nil _ _
            (append-eq-nil (reject_attrs s.attributes parallel_attrs s.location) _ checks).1).0)
]

known-parent :
    (bucket : List TraceSpan)
    → (is_run_role (role_of (single bucket)) || can_hold_operation (role_of (single bucket))) ≡ true
    → (p : TraceSpan) × (bucket ≡ p ∷ [])
known-parent [] h = absurd (ground arith)
known-parent (p ∷ []) h = (p, refl)
known-parent (p ∷ q ∷ ps) h = absurd (ground arith)

any-parent :
    (s : TraceSpan) (parent_role : SpanRole)
    → is_ctsc s ≡ true
    → is_run s ≡ false
    → check_span_role s (parse_span_role s.name) parent_role ≡ []
    → (is_run_role parent_role || can_hold_operation parent_role) ≡ true
any-parent s parent_role kept below h = elim (Bool-cases (str_eq s.name scenario_span)) [
  | inl scenario ↦ ground (arith, scenario-parent s parent_role scenario h)
  | inr other ↦ ground (arith, branch-parent s parent_role (ground arith) h)
]

parallel-encloses :
    (p s : TraceSpan)
    → str_eq p.name parallel_span ≡ true
    → check_branch s (some p) ≡ []
    → encloses (interval p) (interval s) ≡ true
unfolding parse_span_role
parallel-encloses p s n h =
    require-holds (encloses (interval p) (interval s)) s.location
      "conformance.parallel interval must enclose every direct branch"
      (rw
        (
          eq_excludes p.name parallel_span run_span n refl,
          eq_excludes p.name parallel_span scenario_span n refl,
          eq_excludes p.name parallel_span op_span n refl,
          n,
        )
        at h)

key-is_child : (p s : TraceSpan) → own_key p ≡ parent_key s → is_child p s ≡ true
key-is_child p s h = ground (arith, eq_iff p.trace_id s.trace_id, eq_iff p.span_id s.parent_span_id)

module _ (document : TraceDocument) (ctsc : All (λ s. is_ctsc s ≡ true) document.spans)
    (valid : validate_semantics document.spans ≡ some []) where
  accepted-parent :
      (s : TraceSpan)
      → Elem s document.spans
      → is_run s ≡ false
      → (p : TraceSpan) × (Elem p document.spans × (is_child p s ≡ true))
  accepted-parent s e below =
      let by_id = index_of document.spans in
      let (p, found) = known-parent (or_empty (get by_id (parent_key s))) (
        any-parent s (role_of (parent_of by_id s))
          (All-Elem (λ t. is_ctsc t ≡ true) s document.spans ctsc e) below
          (check_semantics-role by_id s
            (check_all-Elem by_id document.spans s (semantics-parts document.spans valid).1 e))) in
      let (inside, own) = keyed-Elem document.spans (parent_key s) p found in
      (p, (inside, key-is_child p s own))

  accepted-checks :
      (s : TraceSpan) → Elem s document.spans → check_semantics (index_of document.spans) s ≡ []
  accepted-checks s e =
      check_all-Elem (index_of document.spans) document.spans s
        (semantics-parts document.spans valid).1 e

  accepted-branch :
      (p s : TraceSpan)
      → Elem p document.spans
      → Elem s document.spans
      → is_child p s ≡ true
      → check_branch s (some p) ≡ []
  accepted-branch p s ep es child =
      let by_id = index_of document.spans in
      let found : or_empty (get by_id (parent_key s)) ≡ p ∷ [] =
        subst (λ key. or_empty (get by_id key) ≡ p ∷ []) (child-parent_key p s child)
          (single-own document valid p ep) in
      subst (λ bucket. check_branch s (single bucket) ≡ []) found
        (check_semantics-branch by_id s (accepted-checks s es))

  -- In a document of CTSC spans in which semantic validation finds no issue, no two spans have
  -- the same trace and span id, every span has a start and an end not before it, every span that
  -- is no run names a span of the document as its parent, and a parallel span starts no later and
  -- ends no earlier than each span below it.
  pub validate_semantics-IsAccepted : IsAccepted document
  validate_semantics-IsAccepted = record {
    unique = λ s t es et k.
        same_single s t (or_empty (get (index_of document.spans) (own_key s)))
          (single-own document valid s es)
          (subst (λ key. or_empty (get (index_of document.spans) key) ≡ t ∷ []) (sym k)
            (single-own document valid t et));
    timed = λ s e. check_semantics-ordered (index_of document.spans) s (accepted-checks s e);
    parented = λ s e below. accepted-parent s e below;
    enclosed = λ p s ep es child n. parallel-encloses p s n (accepted-branch p s ep es child);
  }
