-- ===== src/Compare/Children.antt =====
-- engine.rs: the children of a span, in their order in time or by their identity.
pub mod Sequence
pub mod Identities
use Prim.Native.String
use text.Mathlib.TextEquality.{path_by_compare}
use text.Mathlib.TextPositions.{compare_refl}
use specgate.Prelude.{
  ℕ, String, Bool, true, false, not, ◌&&◌, List, [], ◌∷◌, ◌++◌, Option, none, some, ◌≡◌, ap, refl,
  Ordering, arith, if◌then◌else◌, ◌⊎◌, inl, inr, any, ltb, leb, compare,
}
use specgate.Prelude.Order.{Order, Dict, get, insert, contains_key, then_cmp, sort_by}
use specgate.Prelude.Text.{format, str_eq}
use specgate.Model.{TraceSpan}
use specgate.Names.{op_span, component_attr, op_name_attr}
use specgate.Render.{Format}
use specgate.Compare.Report.{ComparisonDiagnostic, Sink, quiet, comparison_error, push_both}
use specgate.Index.{TraceIndex, children}
use specgate.Compare.Events.{text_or_missing}

-- `start_time.zip(end_time)`
abbrev pub interval : TraceSpan → Option (ℕ × ℕ)
interval span = elim span.start_time [
  | none ↦ none
  | some start ↦ elim span.end_time [ none ↦ none | some end_ ↦ some (start, end_) ]
]

-- `is_none_or(|(start, end)| end < start)`
abbrev pub lacks_interval : TraceSpan → Bool
lacks_interval span = elim (interval span) [ none ↦ true | some (start, stop) ↦ ltb stop start ]

abbrev pub compare_time : Option ℕ → Option ℕ → Ordering
compare_time none none = Ordering.eq
compare_time none (some b) = Ordering.lt
compare_time (some a) none = Ordering.gt
compare_time (some a) (some b) = compare a b

-- The key of `sort_by_key`.
unfoldable pub compare_times : TraceSpan → TraceSpan → Ordering
compare_times a b =
    then_cmp (compare_time a.start_time b.start_time) (compare_time a.end_time b.end_time)

abbrev pub start_of : TraceSpan → ℕ
start_of span = elim span.start_time [ none ↦ 0 | some t ↦ t ]

abbrev pub end_of : TraceSpan → ℕ
end_of span = elim span.end_time [ none ↦ 0 | some t ↦ t ]

-- The two checks on adjacent intervals; both ends are there once `lacks_interval` is refuted.
abbrev pub adjacent_error : TraceSpan → TraceSpan → Option String
adjacent_error left right =
    if leb (end_of left) (start_of right) && leb (end_of right) (start_of left)
    then some "equal child intervals make strict sequential ordering ambiguous"
    else if ltb (start_of right) (end_of left)
    then some "overlapping child spans outside conformance.parallel are unsupported"
    else none

-- The first error among the windows of two.
unfoldable pub windows_error : List TraceSpan → Option String
windows_error [] = none
windows_error (a ∷ []) = none
windows_error (a ∷ b ∷ spans) =
    let rest = windows_error (b ∷ spans) in
    elim (adjacent_error a b) [ none ↦ rest | some message ↦ some message ]

abbrev pub children_error : String → String → String → Sink
children_error side path message =
    comparison_error (format (side ∷ "." ∷ path ∷ ".children" ∷ [])) message

abbrev pub without_error : List TraceSpan → Option String → String ⊎ List TraceSpan
without_error sorted none = inr sorted
without_error sorted (some message) = inl message

-- The spans in their order in time, or the reason for which they have none.
unfoldable pub order_spans : List TraceSpan → String ⊎ List TraceSpan
unfolding compare_times windows_error
order_spans spans =
    if any lacks_interval spans
    then inl "child spans require valid start/end intervals for strict ordering"
    else without_error (sort_by compare_times spans) (windows_error (sort_by compare_times spans))

abbrev pub report_order : String → String → String ⊎ List TraceSpan → Option (List TraceSpan) × Sink
report_order side path (inl message) = (none, children_error side path message)
report_order side path (inr sorted) = (some sorted, quiet)

unfoldable pub sequential_children :
    TraceSpan → TraceIndex → String → String → Option (List TraceSpan) × Sink
sequential_children parent index side path =
    report_order side path (order_spans (children index parent))

pub data SpanIdentity : Type 0 where
  operation : String → String → SpanIdentity
  span : String → SpanIdentity

-- The derived `Ord`.
unfoldable pub compare_identity : SpanIdentity → SpanIdentity → Ordering
compare_identity (operation a b) (operation c d) =
    then_cmp (String.compare a c) (String.compare b d)
compare_identity (operation a b) (span d) = Ordering.lt
compare_identity (span a) (operation c d) = Ordering.gt
compare_identity (span a) (span c) = String.compare a c

pub compare_identity-eq : (i j : SpanIdentity) → compare_identity i j ≡ Ordering.eq → i ≡ j
unfolding compare_identity
compare_identity-eq (operation a b) (operation c d) h =
    ground (arith, path_by_compare a c, path_by_compare b d)
compare_identity-eq (span a) (span c) h = ap span (path_by_compare a c h)
compare_identity-eq _ _ h = cc

compare_identity_self : (i : SpanIdentity) → compare_identity i i ≡ Ordering.eq
unfolding compare_identity
compare_identity_self (operation a b) = rw (compare_refl a) (rw (compare_refl b))
compare_identity_self (span a) = compare_refl a

pub compare_identity_refl : (i j : SpanIdentity) → i ≡ j → compare_identity i j ≡ Ordering.eq
compare_identity_refl i j h = rw h (compare_identity_self j)

instance abbrev pub identity_order : Order SpanIdentity
identity_order = record {
  cmp = compare_identity;
  cmp_iff = λ i j. (compare_identity-eq i j, compare_identity_refl i j);
}

unfoldable pub span_identity : TraceSpan → SpanIdentity
span_identity s =
    if str_eq s.name op_span
    then operation (text_or_missing s.attributes component_attr)
        (text_or_missing s.attributes op_name_attr)
    else span s.name

-- `Display` of an identity
unfoldable pub show_identity : Format → SpanIdentity → String
show_identity fmt (operation component name) =
    format ("operation[component=" ∷ fmt.debug component ∷ ",name=" ∷ fmt.debug name ∷ "]" ∷ [])
show_identity fmt (span name) = name

abbrev pub IdentityMap : Type 0
IdentityMap = Dict SpanIdentity TraceSpan

module _ (fmt : Format) (side path : String) where
  duplicate_branch : SpanIdentity → Sink
  unfolding show_identity
  duplicate_branch identity =
      comparison_error
        (format (side ∷ "." ∷ path ∷ ".parallel[" ∷ show_identity fmt identity ∷ "]" ∷ []))
        "duplicate parallel branch semantic identity is ambiguous"

  -- The loop: the map, whether an identity came twice, and the errors.
  unfoldable pub insert_identities : List TraceSpan → IdentityMap → Bool → IdentityMap × Bool × Sink
  unfolding duplicate_branch
  insert_identities [] m ambiguous = (m, ambiguous, quiet)
  insert_identities (child ∷ spans) m ambiguous =
      let identity = span_identity child in
      let known = contains_key m identity in
      let (m', a, sink) =
        insert_identities spans (insert identity child m) (if known then true else ambiguous) in
      (m', a, push_both (if known then duplicate_branch identity else quiet) sink)

  unfoldable pub identity_map : List TraceSpan → Option IdentityMap × Sink
  unfolding insert_identities
  identity_map spans =
      let (m, ambiguous, sink) = insert_identities spans [] false in
      (if ambiguous then none else some m, sink)
