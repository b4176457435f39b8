-- ===== src/Trace/Semantics/Totality.antt =====
-- `validate_semantics` ends on every list of spans.
use specgate.Prelude.{
  suc, true, List, [], ◌∷◌, length, ◌≡◌, refl, ◌⊎◌, inl, inr, arith, Option-cases,
}
use specgate.Prelude.Elem.{Elem, Elem-append}
use specgate.Prelude.Order.{get}
use specgate.Model.{TraceSpan}
use specgate.Index.{SpanKey, key_order, TraceIndex, or_empty, own_key, push_span}
use specgate.Index.Laws.{get-push_span}
use specgate.Linked.Value.Parts.{is_some}
use specgate.Trace.Ancestry.{validate_ancestry}
use specgate.Trace.Ancestry.Totality.{validate_ancestry-is_some}
use specgate.Trace.Semantics.{index_spans, validate_semantics}

-- The spans under each identifier are spans of the document.
index_spans-Elem :
    (spans : List TraceSpan) (by_id : TraceIndex) (key : SpanKey) (x : TraceSpan)
    → Elem x (or_empty (get (index_spans spans by_id).0 key))
    → Elem x spans ⊎ Elem x (or_empty (get by_id key))
unfolding index_spans
index_spans-Elem [] by_id key x e = inr e
index_spans-Elem (s ∷ ss) by_id key x e =
    elim (index_spans-Elem ss (push_span (own_key s) s by_id) key x e) [
      | inl later ↦ inl (inr later)
      | inr pushed ↦
          elim (Elem-append x (or_empty (get by_id key)) _ (rw get-push_span at pushed)) [
            | inl before ↦ inr before
            | inr here ↦ inl (inl (ground arith))
          ]
    ]

-- The semantic validation of a trace returns on every list of spans, cyclic parents and
-- repeated identifiers included: the fuel of the walks to the run is one more than the number of
-- spans, and it never runs out.
pub validate_semantics-is_some :
    (spans : List TraceSpan) → is_some (validate_semantics spans) ≡ true
unfolding validate_semantics
validate_semantics-is_some spans =
    let by_id = (index_spans spans []).0 in
    let indexed : (key : SpanKey) (x : TraceSpan)
        → Elem x (or_empty (get by_id key))
        → Elem x spans =
      λ key x e. ground (arith, index_spans-Elem spans [] key x e) in
    elim (Option-cases (validate_ancestry (suc (length spans)) spans by_id)) [
      | inl ran_out ↦ absurd (ground (arith, validate_ancestry-is_some spans by_id indexed))
      | inr (issues, found) ↦ rw (found, validate_semantics) refl
    ]
