-- ===== src/Compare/Same/Children.antt =====
-- The children of a span, ordered or identified on both sides alike, give no mismatch.
use specgate.Prelude.{
  ℕ, ◌+◌, String, Bool, true, false, List, [], ◌∷◌, Option, some, ◌≡◌, refl, arith, if◌then◌else◌,
  inl, inr, ◌⊎◌,
}
use specgate.Prelude.Elem.{Elem, Elem-sort_by}
use specgate.Prelude.Order.{get, insert, contains_key, string_order}
use specgate.Prelude.Order.Laws.{get-insert}
use specgate.Model.{RegistrySet, TraceSpan}
use specgate.Index.{TraceIndex, children}
use specgate.Render.{Format}
use specgate.Compare.Outcome.{Outcome, done, panic, out_of_fuel}
use specgate.Compare.Report.{Sink, quiet, push_both, in_turn}
use specgate.Compare.Children.{
  sequential_children, order_spans, report_order, compare_times, SpanIdentity, identity_order,
  span_identity, IdentityMap, insert_identities, identity_map,
}
use specgate.Compare.Spans.{ChildCompare, compare_positions, compare_sequences}

-- A comparison that returns has pushed no mismatch.
abbrev pub NoMismatch : Outcome Sink → Type 0
NoMismatch (done sink) = sink.mismatches ≡ []
NoMismatch panic = Unit
NoMismatch out_of_fuel = Unit

pub in_turn-NoMismatch :
    (m n : Outcome Sink) → NoMismatch m → NoMismatch n → NoMismatch (in_turn m n)
in_turn-NoMismatch (done a) (done b) h k = ground arith
in_turn-NoMismatch (done a) panic h k = tt
in_turn-NoMismatch (done a) out_of_fuel h k = tt
in_turn-NoMismatch panic n h k = tt
in_turn-NoMismatch out_of_fuel n h k = tt

pub done-NoMismatch :
    (a : Sink) (n : Outcome Sink)
    → a.mismatches ≡ []
    → NoMismatch n
    → NoMismatch (in_turn (done a) n)
done-NoMismatch a n h k = in_turn-NoMismatch (done a) n h k

-- `child` finds no mismatch between a span of the list and itself.
abbrev pub QuietOn : ChildCompare → List TraceSpan → Type 0
QuietOn child spans = (s : TraceSpan) → Elem s spans → (path : String) → NoMismatch (child s s path)

module _ (fmt : Format) (registry : Option RegistrySet) (index : TraceIndex) where
  compare_positions_self :
      (child : ChildCompare) (position : ℕ) (spans : List TraceSpan) (path : String)
      → QuietOn child spans
      → NoMismatch (compare_positions fmt registry index index child position spans spans path)
  unfolding compare_positions
  compare_positions_self child position [] path h = refl
  compare_positions_self child position (s ∷ spans) path h =
      in_turn-NoMismatch _ _ (h s (inl refl) _)
        (compare_positions_self child (position + 1) spans path (λ t e. h t (inr e)))

  pub order_spans-Elem :
      (t : TraceSpan) (spans sorted : List TraceSpan)
      → order_spans spans ≡ inr sorted
      → Elem t sorted
      → Elem t spans
  unfolding order_spans
  order_spans-Elem t spans sorted h e =
      let sort = Elem-sort_by compare_times t spans in ground (arith, sort)

  compare_sequences_self :
      (child : ChildCompare) (order : String ⊎ List TraceSpan) (path : String)
      → ((sorted : List TraceSpan) → order ≡ inr sorted → QuietOn child sorted)
      → NoMismatch (
          compare_sequences fmt registry index index child
            (report_order "reference" path order)
            (report_order "candidate" path order)
            path)
  unfolding compare_sequences
  compare_sequences_self child (inl message) path h = refl
  compare_sequences_self child (inr sorted) path h =
      done-NoMismatch (push_both quiet quiet) _ refl
        (compare_positions_self child 0 sorted path (h sorted refl))

  pub compare_sequential_self :
      (child : ChildCompare) (s : TraceSpan) (path : String)
      → QuietOn child (children index s)
      → NoMismatch (
          compare_sequences fmt registry index index child
            (sequential_children s index "reference" path)
            (sequential_children s index "candidate" path)
            path)
  unfolding sequential_children
  compare_sequential_self child s path h =
      compare_sequences_self child (order_spans (children index s)) path
        (λ sorted p t e. h t (order_spans-Elem t (children index s) sorted p e))

  -- The map of identities does not depend on the side, and holds the spans of the list.
  insert_identities_side :
      (side side' path : String) (spans : List TraceSpan) (m : IdentityMap) (a : Bool)
      → ((insert_identities fmt side path spans m a).0
          ≡ (insert_identities fmt side' path spans m a).0)
        × ((insert_identities fmt side path spans m a).1
            ≡ (insert_identities fmt side' path spans m a).1)
  unfolding insert_identities
  insert_identities_side side side' path [] m a = (refl, refl)
  insert_identities_side side side' path (s ∷ spans) m a =
      insert_identities_side side side' path spans (insert (span_identity s) s m)
        (if contains_key m (span_identity s) then true else a)

  insert_identities_quiet :
      (side path : String) (spans : List TraceSpan) (m : IdentityMap) (a : Bool)
      → (insert_identities fmt side path spans m a).2.mismatches ≡ []
  unfolding insert_identities
  insert_identities_quiet side path [] m a = refl
  insert_identities_quiet side path (s ∷ spans) m a = ground (
    arith,
    insert_identities_quiet side path spans (insert (span_identity s) s m)
        (if contains_key m (span_identity s) then true else a),
  )

  insert_identities-Elem :
      (side path : String) (spans : List TraceSpan) (m : IdentityMap) (a : Bool) (i : SpanIdentity)
      (t : TraceSpan)
      → get (insert_identities fmt side path spans m a).0 i ≡ some t
      → Elem t spans ⊎ (get m i ≡ some t)
  unfolding insert_identities
  insert_identities-Elem side path [] m a i t h = inr h
  insert_identities-Elem side path (s ∷ spans) m a i t h = ground (
    arith,
    insert_identities-Elem side path spans (insert (span_identity s) s m)
        (if contains_key m (span_identity s) then true else a) i t h,
    get-insert (span_identity s) i s m,
  )

  pub identity_side :
      (side side' path : String) (spans : List TraceSpan)
      → (identity_map fmt side path spans).0 ≡ (identity_map fmt side' path spans).0
  unfolding identity_map
  identity_side side side' path spans =
      ground (arith, insert_identities_side side side' path spans [] false)

  pub identity_quiet :
      (side path : String) (spans : List TraceSpan)
      → (identity_map fmt side path spans).1.mismatches ≡ []
  unfolding identity_map
  identity_quiet side path spans = insert_identities_quiet side path spans [] false

  pub identity_map-Elem :
      (side path : String) (spans : List TraceSpan) (m : IdentityMap) (i : SpanIdentity)
      (t : TraceSpan)
      → (identity_map fmt side path spans).0 ≡ some m
      → get m i ≡ some t
      → Elem t spans
  unfolding identity_map
  identity_map-Elem side path spans m i t h g =
      ground (arith, insert_identities-Elem side path spans [] false i t)
