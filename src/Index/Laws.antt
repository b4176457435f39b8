-- ===== src/Index/Laws.antt =====
-- The index answers with the spans that name a span as their parent, in document order.
use specgate.Prelude.{
  Bool, List, [], ◌∷◌, ◌++◌, ◌≡◌, refl, ◌∙◌, ◌&&◌, arith, select, if◌then◌else◌, Bool-cases, inl,
  inr,
}
use mathlib.Core.List.{append-nil, append_assoc}
use specgate.Prelude.Order.{get}
use specgate.Prelude.Order.Laws.{get-insert, same_key, same_key-eq}
use specgate.Model.{TraceSpan, TraceDocument}
use specgate.Prelude.Text.{str_eq}
use specgate.Index.{
  SpanKey, key_order, compare_keys, TraceIndex, or_empty, parent_key, own_key, push_span, add_spans,
  new_index, children,
}

abbrev pub names_parent : SpanKey → TraceSpan → Bool
names_parent key span = same_key key (parent_key span)

pub get-push_span :
    (key k : SpanKey) (span : TraceSpan) (index : TraceIndex)
    → or_empty (get (push_span key span index) k)
      ≡ or_empty (get index k) ++ (if same_key k key then span ∷ [] else [])
unfolding push_span
get-push_span key k span index = elim (Bool-cases (same_key k key)) [
  | inl same ↦ rw (get-insert, same) (rw (← same_key-eq k key same) refl)
  | inr differ ↦ rw (get-insert, differ) (rw append-nil refl)
]

if-append :
    (b : Bool) (span : TraceSpan) (spans : List TraceSpan)
    → (if b then span ∷ [] else []) ++ spans ≡ (if b then span ∷ spans else spans)
if-append b span spans = ground arith

get-add_spans :
    (k : SpanKey) (spans : List TraceSpan) (index : TraceIndex)
    → or_empty (get (add_spans index spans) k)
      ≡ or_empty (get index k) ++ select (names_parent k) spans
unfolding add_spans
get-add_spans k [] index = rw append-nil refl
get-add_spans k (span ∷ spans) index =
    rw (get-add_spans k spans (push_span (parent_key span) span index), get-push_span, append_assoc)
      (rw if-append refl)

-- `span` carries the trace of `parent` and names it as its parent.
abbrev pub is_child : TraceSpan → TraceSpan → Bool
is_child parent span =
    str_eq parent.trace_id span.trace_id && str_eq parent.span_id span.parent_span_id

names_parent-own_key :
    (parent span : TraceSpan) → names_parent (own_key parent) span ≡ is_child parent span
unfolding compare_keys
names_parent-own_key parent span = ground arith

select-names_parent :
    (parent : TraceSpan) (spans : List TraceSpan)
    → select (names_parent (own_key parent)) spans ≡ select (is_child parent) spans
select-names_parent parent [] = refl
select-names_parent parent (span ∷ spans) =
    cc (names_parent-own_key parent span, select-names_parent parent spans)

-- The index that the engine builds in one pass over the document answers, for every span, with
-- the spans of the document that carry its trace id and name its span id as their parent, in
-- document order and with none lost or repeated.
pub children-new_index :
    (document : TraceDocument) (parent : TraceSpan)
    → children (new_index document) parent ≡ select (is_child parent) document.spans
unfolding children new_index
children-new_index document parent =
    get-add_spans (own_key parent) document.spans [] ∙ select-names_parent parent document.spans
