-- ===== src/Compare/Spans.antt =====
-- engine.rs: `compare_child`, `compare_operation`, `compare_children`, `compare_parallel` and
-- `compare_container`. The recursion of the source goes down the tree of spans; here it takes
-- fuel, and a call of `compare_child` is handed to the loops as `child`.
use specgate.Prelude.{
  ℕ, zero, suc, ◌+◌, String, ◌&&◌, ◌||◌, List, [], ◌∷◌, ◌++◌, Option, none, some, if◌then◌else◌,
}
use specgate.Prelude.Order.{get, keys, key_set}
use specgate.Prelude.Text.{format, str_eq}
use specgate.Model.{RegistrySet, TraceSpan}
use specgate.Names.{op_span, parallel_span, component_attr, op_name_attr}
use specgate.Linked.Arms.{at_index}
use specgate.Linked.Resolve.{find_operation}
use specgate.Render.{Format}
use specgate.Compare.Outcome.{Outcome, done, out_of_fuel}
use specgate.Compare.Report.{Sink, quiet, mismatch, push_both, in_turn}
use specgate.Index.{TraceIndex, children}
use specgate.Compare.Values.{missing, present, Declaration, compare_inputs}
use specgate.Compare.Events.{text_or_missing, compare_events}
use specgate.Compare.Children.{
  sequential_children, SpanIdentity, identity_order, span_identity, show_identity, IdentityMap,
  identity_map,
}

abbrev pub ChildCompare : Type 0
ChildCompare = TraceSpan → TraceSpan → String → Outcome Sink

-- The declaration is looked up when both sides name one operation.
abbrev pub declaration_of : Option RegistrySet → TraceSpan → TraceSpan → Option Declaration
declaration_of registry reference candidate =
    let component = text_or_missing reference.attributes component_attr in
    let name = text_or_missing reference.attributes op_name_attr in
    if str_eq component (text_or_missing candidate.attributes component_attr)
      && str_eq name (text_or_missing candidate.attributes op_name_attr)
    then elim registry [ none ↦ none | some set ↦ find_operation set component name ]
    else none

-- The attribute that identifies an operation, on both sides.
abbrev pub compare_attribute : TraceSpan → TraceSpan → String → String → Sink
compare_attribute reference candidate key path =
    let r = text_or_missing reference.attributes key in
    let c = text_or_missing candidate.attributes key in
    if str_eq r c then quiet else mismatch path r c

-- The mismatches of the two identifying attributes.
abbrev pub identity_mismatches : TraceSpan → TraceSpan → String → Sink
identity_mismatches reference candidate path =
    push_both
      (compare_attribute reference candidate component_attr (format (path ∷ ".component" ∷ [])))
      (compare_attribute reference candidate op_name_attr (format (path ∷ ".operation" ∷ [])))

module _ (fmt : Format) (registry : Option RegistrySet)
    (reference_index candidate_index : TraceIndex) where
  child_path : String → ℕ → String
  child_path path position = at_index (format (path ∷ ".children" ∷ [])) position

  unfoldable pub compare_positions :
      ChildCompare → ℕ → List TraceSpan → List TraceSpan → String → Outcome Sink
  unfolding child_path
  compare_positions child position [] [] path = done quiet
  compare_positions child position (r ∷ rs) [] path =
      in_turn
        (done (mismatch (child_path path position) (show_identity fmt (span_identity r)) missing))
        (compare_positions child (position + 1) rs [] path)
  compare_positions child position [] (c ∷ cs) path =
      in_turn
        (done (mismatch (child_path path position) missing (show_identity fmt (span_identity c))))
        (compare_positions child (position + 1) [] cs path)
  compare_positions child position (r ∷ rs) (c ∷ cs) path =
      in_turn (child r c (child_path path position))
        (compare_positions child (position + 1) rs cs path)

  -- One identity of either side.
  unfoldable pub compare_branch :
      ChildCompare → Option TraceSpan → Option TraceSpan → String → Outcome Sink
  compare_branch child (some r) (some c) path = child r c path
  compare_branch child (some r) none path = done (mismatch path present missing)
  compare_branch child none (some c) path = done (mismatch path missing present)
  compare_branch child none none path = done quiet

  unfoldable pub compare_branches :
      ChildCompare → IdentityMap → IdentityMap → List SpanIdentity → String → Outcome Sink
  unfolding compare_branch
  compare_branches child reference candidate [] path = done quiet
  compare_branches child reference candidate (identity ∷ identities) path =
      in_turn
        (compare_branch child (get reference identity) (get candidate identity)
          (format (path ∷ ".parallel[" ∷ show_identity fmt identity ∷ "]" ∷ [])))
        (compare_branches child reference candidate identities path)

  unfoldable pub compare_maps :
      ChildCompare → Option IdentityMap → Option IdentityMap → String → Outcome Sink
  compare_maps child (some reference) (some candidate) path =
      compare_branches child reference candidate (key_set (keys reference ++ keys candidate)) path
  compare_maps child _ _ path = done quiet

  unfoldable pub compare_parallel : ChildCompare → TraceSpan → TraceSpan → String → Outcome Sink
  compare_parallel child reference candidate path =
      let (r, r_errors) = identity_map fmt "reference" path (children reference_index reference) in
      let (c, c_errors) = identity_map fmt "candidate" path (children candidate_index candidate) in
      in_turn (done (push_both r_errors c_errors)) (compare_maps child r c path)

  unfoldable pub compare_sequences :
      ChildCompare
      → Option (List TraceSpan) × Sink
      → Option (List TraceSpan) × Sink
      → String
      → Outcome Sink
  compare_sequences child (none, r_errors) c path = done r_errors
  compare_sequences child (some rs, r_errors) (none, c_errors) path =
      done (push_both r_errors c_errors)
  compare_sequences child (some rs, r_errors) (some cs, c_errors) path =
      in_turn (done (push_both r_errors c_errors)) (compare_positions child 0 rs cs path)

  unfoldable pub compare_children : ChildCompare → TraceSpan → TraceSpan → String → Outcome Sink
  compare_children child reference candidate path =
      if str_eq reference.name parallel_span || str_eq candidate.name parallel_span
      then compare_parallel child reference candidate path
      else compare_sequences child (sequential_children reference reference_index "reference" path)
          (sequential_children candidate candidate_index "candidate" path) path

  unfoldable pub compare_operation : ChildCompare → TraceSpan → TraceSpan → String → Outcome Sink
  compare_operation child reference candidate path =
      let declaration = declaration_of registry reference candidate in
      in_turn (done (identity_mismatches reference candidate path)) (
        in_turn (compare_inputs fmt registry reference candidate declaration path) (
          in_turn
            (done (compare_events fmt registry declaration reference.events candidate.events path))
            (compare_children child reference candidate path)))

  operation_path : TraceSpan → String → String
  operation_path reference path = format (
      path
      ∷ ".operation["
      ∷ text_or_missing reference.attributes component_attr
      ∷ "::"
      ∷ text_or_missing reference.attributes op_name_attr
      ∷ "]"
      ∷ [])

  -- `compare_child`, given the calls one level down.
  unfoldable pub compare_child_with : ChildCompare → TraceSpan → TraceSpan → String → Outcome Sink
  unfolding operation_path
  compare_child_with child reference candidate path =
      let unlike = done (mismatch (format (path ∷ ".span" ∷ [])) reference.name candidate.name) in
      if str_eq reference.name candidate.name
      then if str_eq reference.name op_span
        then compare_operation child reference candidate (operation_path reference path)
        else if str_eq reference.name parallel_span
        then in_turn
            (done (compare_events fmt registry none reference.events candidate.events path))
            (compare_parallel child reference candidate path)
        else unlike
      else unlike

  unfoldable pub compare_child : ℕ → ChildCompare
  compare_child zero reference candidate path = out_of_fuel
  compare_child (suc fuel) reference candidate path =
      compare_child_with (compare_child fuel) reference candidate path

  unfoldable pub compare_container : ℕ → ChildCompare
  compare_container fuel reference candidate path =
      in_turn (done (compare_events fmt registry none reference.events candidate.events path))
        (compare_children (compare_child fuel) reference candidate path)
