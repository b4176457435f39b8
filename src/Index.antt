-- ===== src/Index.antt =====
-- engine.rs: `TraceIndex`, the children of each span in document order.
pub mod Laws
use Prim.Native.String
use text.Mathlib.TextEquality.{path_by_compare}
use text.Mathlib.TextPositions.{compare_refl}
use specgate.Prelude.{
  String, Bool, true, ◌&&◌, List, [], ◌∷◌, ◌++◌, Option, none, some, ◌≡◌, ap, Ordering, arith,
}
use specgate.Prelude.Order.{Order, Dict, get, insert, then_cmp}
use specgate.Prelude.Text.{str_eq}
use specgate.Model.{TraceSpan, TraceDocument}

abbrev pub SpanKey : Type 0
SpanKey = String × String

-- The order of pairs of texts.
unfoldable pub compare_keys : SpanKey → SpanKey → Ordering
compare_keys (a, b) (c, d) = then_cmp (String.compare a c) (String.compare b d)

pub compare_keys-eq : (k j : SpanKey) → compare_keys k j ≡ Ordering.eq → k ≡ j
unfolding compare_keys
compare_keys-eq (a, b) (c, d) h = ground (arith, path_by_compare a c, path_by_compare b d)

pub compare_keys_refl : (k j : SpanKey) → k ≡ j → compare_keys k j ≡ Ordering.eq
unfolding compare_keys
compare_keys_refl (a, b) j h = rw (← h) (rw (compare_refl a) (compare_refl b))

instance abbrev pub key_order : Order SpanKey
key_order = record {
  cmp = compare_keys;
  cmp_iff = λ k j. (compare_keys-eq k j, compare_keys_refl k j);
}

abbrev pub TraceIndex : Type 0
TraceIndex = Dict SpanKey (List TraceSpan)

abbrev pub or_empty : Option (List TraceSpan) → List TraceSpan
or_empty none = []
or_empty (some spans) = spans

abbrev pub parent_key : TraceSpan → SpanKey
parent_key span = (span.trace_id, span.parent_span_id)

abbrev pub own_key : TraceSpan → SpanKey
own_key span = (span.trace_id, span.span_id)

-- `children.entry(key).or_default().push(span)`
unfoldable pub push_span : SpanKey → TraceSpan → TraceIndex → TraceIndex
push_span key span index = insert key (or_empty (get index key) ++ span ∷ []) index

-- The loop of `new` over the spans.
unfoldable pub add_spans : TraceIndex → List TraceSpan → TraceIndex
unfolding push_span
add_spans index [] = index
add_spans index (span ∷ spans) = add_spans (push_span (parent_key span) span index) spans

unfoldable pub new_index : TraceDocument → TraceIndex
unfolding add_spans
new_index document = add_spans [] document.spans

unfoldable pub children : TraceIndex → TraceSpan → List TraceSpan
children index span = or_empty (get index (own_key span))
