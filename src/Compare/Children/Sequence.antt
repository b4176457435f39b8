-- ===== src/Compare/Children/Sequence.antt =====
-- The order in time that `sequential_children` gives to the children of a span.
use mathlib.Core.List.{Permᴰ, Perm}
use mathlib.Core.List.Permᴰ
use Prim.Native.Nat.{Ordering}
use specgate.Prelude.{
  ◌≤◌, ◌<◌, String, false, List, [], ◌∷◌, none, some, ◌≡◌, refl, ◌⊎◌, inl, inr, arith, any,
  Option-cases, select,
}
use specgate.Prelude.Elem.{Elem, All, Elem-sort_by}
use specgate.Prelude.Order.{insert_sorted, sort_by}
use specgate.Prelude.Order.Laws.{Ordering-cases}
use specgate.Model.{TraceSpan, TraceDocument}
use specgate.Index.{new_index, children}
use specgate.Index.Laws.{is_child, children-new_index}
use specgate.Compare.Children.{
  lacks_interval, compare_times, start_of, end_of, adjacent_error, windows_error, order_spans,
  report_order, sequential_children,
}

module _ {A : Type 0} (cmp : A → A → Ordering) where
  insert_sorted-Perm : (x : A) (ys : List A) → Permᴰ (insert_sorted cmp x ys) (x ∷ ys)
  insert_sorted-Perm x [] = Permᴰ.refl (x ∷ [])
  insert_sorted-Perm x (y ∷ ys) = elim (Ordering-cases (cmp x y)) [
    | inl less ↦ rw (less, insert_sorted) (Permᴰ.refl (x ∷ y ∷ ys))
    | inr (inl equal) ↦ rw (equal, insert_sorted) (Permᴰ.refl (x ∷ y ∷ ys))
    | inr (inr greater) ↦
        rw (greater, insert_sorted)
          (Permᴰ.trans (Permᴰ.cons refl (insert_sorted-Perm x ys)) (Permᴰ.swap refl refl))
  ]

  pub sort_by-Perm : (xs : List A) → Permᴰ (sort_by cmp xs) xs
  sort_by-Perm [] = Permᴰ.nil
  sort_by-Perm (x ∷ xs) =
      Permᴰ.trans (insert_sorted-Perm x (sort_by cmp xs)) (Permᴰ.cons refl (sort_by-Perm xs))

-- A span that ends where another starts or earlier, and that starts before the other ends.
abbrev pub Before : TraceSpan → TraceSpan → Type 0
Before a b = (end_of a ≤ start_of b) × (start_of a < end_of b)

-- Each span stands before every later one.
abbrev pub InSequence : List TraceSpan → Type 0
InSequence [] = Unit
InSequence (a ∷ spans) = All (Before a) spans × InSequence spans

abbrev IsInterval : TraceSpan → Type 0
IsInterval a = start_of a ≤ end_of a

has-IsInterval : (a : TraceSpan) → lacks_interval a ≡ false → IsInterval a
has-IsInterval a h = ground arith

any-IsInterval :
    (spans : List TraceSpan) (a : TraceSpan)
    → any lacks_interval spans ≡ false
    → Elem a spans
    → IsInterval a
any-IsInterval [] a h e = absurd e
any-IsInterval (s ∷ ss) a h (inl p) = rw p (has-IsInterval s (ground arith))
any-IsInterval (s ∷ ss) a h (inr e) = any-IsInterval ss a (ground arith) e

adjacent-Before : (a b : TraceSpan) → adjacent_error a b ≡ none → Before a b
adjacent-Before a b h = ground arith

All-Before :
    (a b : TraceSpan) (spans : List TraceSpan)
    → Before a b
    → IsInterval b
    → ((c : TraceSpan) → Elem c spans → IsInterval c)
    → All (Before b) spans
    → All (Before a) spans
All-Before a b [] h i v all = tt
All-Before a b (c ∷ spans) h i v all = (
  (ground (arith, v c (inl refl)), ground (arith, v c (inl refl))),
  All-Before a b spans h i (λ d e. v d (inr e)) all.1,
)

windows-InSequence :
    (spans : List TraceSpan)
    → ((c : TraceSpan) → Elem c spans → IsInterval c)
    → windows_error spans ≡ none
    → InSequence spans
unfolding windows_error
windows-InSequence [] v h = tt
windows-InSequence (a ∷ []) v h = (tt, tt)
windows-InSequence (a ∷ b ∷ spans) v h = elim (Option-cases (adjacent_error a b)) [
  | inl fine ↦
      let rest =
        windows-InSequence (b ∷ spans) (λ c e. v c (inr e)) (rw (fine, windows_error) at h) in
      let before = adjacent-Before a b fine in
      (
        (
          before,
          All-Before a b spans before (v b (inr (inl refl))) (λ c e. v c (inr (inr e))) rest.0,
        ),
        rest,
      )
  | inr (message, wrong) ↦ absurd (ground arith)
]

-- When the ordering of spans succeeds.
pub order_spans-InSequence :
    (spans sorted : List TraceSpan)
    → order_spans spans ≡ inr sorted
    → Perm sorted spans × InSequence sorted
unfolding order_spans
order_spans-InSequence spans sorted h =
    let by_time = sort_by compare_times spans in
    let valid : any lacks_interval spans ≡ false = ground arith in
    let fine : windows_error by_time ≡ none = ground arith in
    let same : by_time ≡ sorted = ground arith in
    rw (← same) (
      ∣ sort_by-Perm compare_times spans ∣₁,
      windows-InSequence by_time
          (λ c e. any-IsInterval spans c valid (Elem-sort_by compare_times c spans e)) fine,
    )

report_order-some :
    (side path : String) (r : String ⊎ List TraceSpan) (sorted : List TraceSpan)
    → (report_order side path r).0 ≡ some sorted
    → r ≡ inr sorted
report_order-some side path (inl message) sorted h = ground arith
report_order-some side path (inr spans) sorted h = ground arith

-- When the children of a span have an order in time, it holds the spans of the document that
-- name the span as their parent, each as often as the document does, and it puts every child
-- before all later ones: it ends no later than each of them starts, and starts before each of
-- them ends.
pub sequential_children-InSequence :
    (document : TraceDocument) (parent : TraceSpan) (side path : String) (sorted : List TraceSpan)
    → (sequential_children parent (new_index document) side path).0 ≡ some sorted
    → Perm sorted (select (is_child parent) document.spans) × InSequence sorted
unfolding sequential_children
sequential_children-InSequence document parent side path sorted h =
    rw (← children-new_index document parent) (
      order_spans-InSequence (children (new_index document) parent) sorted
        (report_order-some side path _ sorted h))
