-- ===== src/Trace/Ancestry.antt =====
-- ancestry.rs: `run_ancestor` and `validate_ancestry`. The loop of `run_ancestor` takes fuel;
-- the source's `path` and `seen` hold the same keys and are one list here.
pub mod Totality
use specgate.Prelude.{
  ℕ, zero, suc, String, Bool, true, false, List, [], ◌∷◌, ◌++◌, Option, none, some, length, ltb,
  if◌then◌else◌,
}
use specgate.Prelude.Order.{Dict, get, insert, insert_key, has_key, string_order}
use specgate.Prelude.Text.{str_eq}
use specgate.Model.{TraceSpan}
use specgate.Names.{run_span}
use specgate.Index.{SpanKey, key_order, TraceIndex, own_key}
use specgate.Render.{Issues, issue}

pub data Resolution : Type 0 where
  root : TraceSpan → Resolution
  self_parent cycle missing_run multiple_parents : Resolution

abbrev pub Cache : Type 0
Cache = Dict SpanKey Resolution

-- A resolution and the keys that the walk has passed.
abbrev pub Walk : Type 0
Walk = Option (Resolution × List SpanKey)

-- What the candidates for the parent decide, given the walk on from a single one.
abbrev pub from_parents : Option (List TraceSpan) → List SpanKey → (TraceSpan → Walk) → Walk
from_parents none path on = some (missing_run, path)
from_parents (some (parent ∷ [])) path on = on parent
from_parents (some _) path on = some (multiple_parents, path)

-- One round of the loop at a span that is neither cached nor seen.
abbrev pub round : TraceIndex → TraceSpan → List SpanKey → (TraceSpan → Walk) → Walk
round by_id current path on =
    if str_eq current.name run_span
    then some (if str_eq current.parent_span_id "" then root current else missing_run, path)
    else if str_eq current.parent_span_id current.span_id
    then some (self_parent, path)
    else if str_eq current.parent_span_id ""
    then some (missing_run, path)
    else from_parents (get by_id (current.trace_id, current.parent_span_id)) path on

-- The loop of `run_ancestor`; none is fuel that ran out.
unfoldable pub walk : ℕ → TraceIndex → Cache → List SpanKey → TraceSpan → Walk
walk zero by_id cache path current = none
walk (suc fuel) by_id cache path current = elim (get cache (own_key current)) [
  | some resolution ↦ some (resolution, path)
  | none ↦
      if has_key (own_key current) path
      then some (cycle, path)
      else round by_id current (own_key current ∷ path)
          (λ parent. walk fuel by_id cache (own_key current ∷ path) parent)
]

-- `for key in path { cache.insert(key, resolution) }`
unfoldable pub cache_all : Resolution → List SpanKey → Cache → Cache
cache_all resolution [] cache = cache
cache_all resolution (key ∷ path) cache = insert key resolution (cache_all resolution path cache)

unfoldable pub run_ancestor : ℕ → TraceIndex → Cache → TraceSpan → Option (Resolution × Cache)
unfolding walk cache_all
run_ancestor fuel by_id cache span = elim (walk fuel by_id cache [] span) [
  | none ↦ none
  | some (resolution, path) ↦ some (resolution, cache_all resolution path cache)
]

-- The roots found for each trace, and the spans that resolved.
pub record AncestryState : Type 0 where
  pub cache : Cache
  pub trace_roots : Dict String (List String)
  pub resolved : List TraceSpan

abbrev pub no_ancestry : AncestryState
no_ancestry = record { cache = []; trace_roots = []; resolved = [] }

abbrev pub roots_of : AncestryState → String → List String
roots_of s trace_id = elim (get s.trace_roots trace_id) [ none ↦ [] | some roots ↦ roots ]

abbrev resolution_issue : Resolution → String → Issues
resolution_issue (root run) location = []
resolution_issue self_parent location =
    issue location "CTSC ancestor chain contains a self-parent cycle"
resolution_issue cycle location = issue location "CTSC ancestor chain contains a cycle"
resolution_issue missing_run location =
    issue location "CTSC ancestor chain must terminate at a conformance.run span"
resolution_issue multiple_parents location =
    issue location
      "CTSC ancestor chain has invalid multiple ancestry because a parent span ID resolves to multiple CTSC spans"

abbrev pub add_resolution : TraceSpan → Resolution → Cache → AncestryState → AncestryState
add_resolution span (root run) cache s = record {
  cache = cache;
  trace_roots =
      insert span.trace_id (insert_key run.span_id (roots_of s span.trace_id)) s.trace_roots;
  resolved = s.resolved ++ span ∷ [];
}
add_resolution span _ cache s = record s { cache = cache }

-- What is reported for a span, before what is reported for those after it.
abbrev pub add_issues : Issues → Option (AncestryState × Issues) → Option (AncestryState × Issues)
add_issues issues none = none
add_issues issues (some (s, rest)) = some (s, issues ++ rest)

-- The loop over the spans that are no runs.
unfoldable pub resolve_spans :
    ℕ → TraceIndex → List TraceSpan → AncestryState → Option (AncestryState × Issues)
unfolding run_ancestor
resolve_spans fuel by_id [] s = some (s, [])
resolve_spans fuel by_id (span ∷ spans) s =
    if str_eq span.name run_span
    then resolve_spans fuel by_id spans s
    else elim (run_ancestor fuel by_id s.cache span) [
      | none ↦ none
      | some (resolution, cache) ↦
          add_issues (resolution_issue resolution span.location)
            (resolve_spans fuel by_id spans (add_resolution span resolution cache s))
    ]

-- The second loop: a trace has one root.
unfoldable pub check_roots : AncestryState → List TraceSpan → Issues
check_roots s [] = []
check_roots s (span ∷ spans) =
    (if ltb 1 (length (roots_of s span.trace_id))
      then issue span.location
          "CTSC spans sharing a traceId must terminate at the same conformance.run span"
      else [])
    ++ check_roots s spans

abbrev pub finish : Option (AncestryState × Issues) → Option Issues
finish none = none
finish (some (s, issues)) = some (issues ++ check_roots s s.resolved)

unfoldable pub validate_ancestry : ℕ → List TraceSpan → TraceIndex → Option Issues
unfolding resolve_spans check_roots
validate_ancestry fuel spans by_id = finish (resolve_spans fuel by_id spans no_ancestry)
