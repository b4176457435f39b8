-- ===== src/Trace/Ancestry/Totality.antt =====
-- The loop of `run_ancestor` ends: each round adds a key of the document to the path.
use specgate.Prelude.{
  ℕ, zero, suc, ◌+◌, ◌≤◌, ◌<◌, true, false, List, [], ◌∷◌, Option, none, some, length, ◌≡◌, refl,
  inl, inr, arith, if◌then◌else◌, Bool-cases, Option-cases,
}
use specgate.Prelude.Elem.{Elem}
use specgate.Prelude.Order.{get, has_key, string_order}
use specgate.Prelude.Text.{str_eq}
use specgate.Model.{TraceSpan}
use specgate.Names.{run_span}
use specgate.Index.{SpanKey, key_order, TraceIndex, or_empty, own_key}
use specgate.Linked.Value.Parts.{is_some}
use specgate.Render.{Issues}
use specgate.Trace.Ancestry.{
  Cache, Walk, from_parents, round, walk, run_ancestor, AncestryState, resolve_spans,
  validate_ancestry, add_issues, finish, no_ancestry, add_resolution,
}

-- The number of spans whose key the path has not.
abbrev pub fresh : List SpanKey → List TraceSpan → ℕ
fresh path [] = 0
fresh path (s ∷ ss) = (if has_key (own_key s) path then 0 else 1) + fresh path ss

fresh-le :
    (key : SpanKey) (path : List SpanKey) (spans : List TraceSpan)
    → fresh (key ∷ path) spans ≤ fresh path spans
fresh-le key path [] = omega arith
fresh-le key path (s ∷ ss) = ground (arith, fresh-le key path ss)

pub fresh-lt :
    (path : List SpanKey) (current : TraceSpan) (spans : List TraceSpan)
    → Elem current spans
    → has_key (own_key current) path ≡ false
    → fresh (own_key current ∷ path) spans < fresh path spans
fresh-lt path current [] e h = absurd e
fresh-lt path current (s ∷ ss) (inl p) h = rw (← p) (
    ground (
      arith,
      fresh-le (own_key current) path ss,
      key_order.cmp_iff (own_key current) (own_key current),
    ))
fresh-lt path current (s ∷ ss) (inr e) h =
    ground (arith, fresh-lt path current ss e h, fresh-le (own_key current) path (s ∷ []))

pub fresh-nil : (spans : List TraceSpan) → fresh [] spans ≡ length spans
fresh-nil [] = refl
fresh-nil (s ∷ ss) = omega (arith, fresh-nil ss)

add_issue-is_some :
    (issues : Issues) (o : Option (AncestryState × Issues))
    → is_some o ≡ true
    → is_some (add_issues issues o) ≡ true
add_issue-is_some issues none h = h
add_issue-is_some issues (some x) h = refl

finish-is_some :
    (o : Option (AncestryState × Issues)) → is_some o ≡ true → is_some (finish o) ≡ true
finish-is_some none h = h
finish-is_some (some x) h = refl

from_parents-is_some :
    (o : Option (List TraceSpan)) (path : List SpanKey) (on : TraceSpan → Walk)
    → ((parent : TraceSpan) → Elem parent (or_empty o) → is_some (on parent) ≡ true)
    → is_some (from_parents o path on) ≡ true
from_parents-is_some none path on h = refl
from_parents-is_some (some []) path on h = refl
from_parents-is_some (some (parent ∷ [])) path on h = h parent (inl refl)
from_parents-is_some (some (p ∷ q ∷ ps)) path on h = refl

module _ (spans : List TraceSpan) (by_id : TraceIndex)
    (indexed : (key : SpanKey) (span : TraceSpan)
      → Elem span (or_empty (get by_id key))
      → Elem span spans) where
  round-is_some :
      (current : TraceSpan) (path : List SpanKey) (on : TraceSpan → Walk)
      → ((parent : TraceSpan) → Elem parent spans → is_some (on parent) ≡ true)
      → is_some (round by_id current path on) ≡ true
  round-is_some current path on h = ground (
    arith,
    from_parents-is_some (get by_id (current.trace_id, current.parent_span_id)) path on
        (λ parent e. h parent (indexed (current.trace_id, current.parent_span_id) parent e)),
  )

  walk-is_some :
      (fuel : ℕ) (cache : Cache) (path : List SpanKey) (current : TraceSpan)
      → Elem current spans
      → fresh path spans < fuel
      → is_some (walk fuel by_id cache path current) ≡ true
  unfolding walk
  walk-is_some zero cache path current e h = ground arith
  walk-is_some (suc fuel) cache path current e h =
      elim (Option-cases (get cache (own_key current))) [
        | inr (resolution, cached) ↦ rw (cached, walk) refl
        | inl absent ↦ elim (Bool-cases (has_key (own_key current) path)) [
          | inl seen ↦ rw (absent, walk) (rw seen refl)
          | inr unseen ↦
              rw (absent, walk)
                (rw unseen (
                  round-is_some current (own_key current ∷ path)
                    (λ parent. walk fuel by_id cache (own_key current ∷ path) parent)
                    (λ parent e'.
                      walk-is_some fuel cache (own_key current ∷ path) parent e'
                        (ground (arith, fresh-lt path current spans e unseen)))))
        ]
      ]

  run_ancestor-is_some :
      (fuel : ℕ) (cache : Cache) (span : TraceSpan)
      → Elem span spans
      → length spans < fuel
      → is_some (run_ancestor fuel by_id cache span) ≡ true
  unfolding run_ancestor
  run_ancestor-is_some fuel cache span e l =
      let ends = walk-is_some fuel cache [] span e (ground (arith, fresh-nil spans)) in
      elim (Option-cases (walk fuel by_id cache [] span)) [
        | inl ran_out ↦ absurd (ground arith)
        | inr (pair, found) ↦ rw (found, run_ancestor) refl
      ]

  resolve_spans-is_some :
      (fuel : ℕ) (ss : List TraceSpan) (s : AncestryState)
      → ((span : TraceSpan) → Elem span ss → Elem span spans)
      → length spans < fuel
      → is_some (resolve_spans fuel by_id ss s) ≡ true
  unfolding resolve_spans
  resolve_spans-is_some fuel [] s h l = refl
  resolve_spans-is_some fuel (span ∷ ss) s h l =
      let tail : (t : TraceSpan) → Elem t ss → Elem t spans = λ t e. h t (inr e) in
      elim (Bool-cases (str_eq span.name run_span)) [
        | inl run ↦ rw run (resolve_spans-is_some fuel ss s tail l)
        | inr other ↦ rw other (elim (Option-cases (run_ancestor fuel by_id s.cache span)) [
          | inl ran_out ↦
              absurd (ground (arith, run_ancestor-is_some fuel s.cache span (h span (inl refl)) l))
          | inr ((resolution, cache), found) ↦ rw found (
              add_issue-is_some _ _
                (resolve_spans-is_some fuel ss (add_resolution span resolution cache s) tail l))
        ])
      ]

  pub validate_ancestry-is_some :
      is_some (validate_ancestry (suc (length spans)) spans by_id) ≡ true
  unfolding validate_ancestry
  validate_ancestry-is_some =
      finish-is_some _
        (resolve_spans-is_some (suc (length spans)) spans no_ancestry (λ span e. e) (omega arith))
