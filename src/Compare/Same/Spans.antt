-- ===== src/Compare/Same/Spans.antt =====
-- Spans compared with themselves give no mismatch.
use specgate.Prelude.{
  String, Bool, true, ◌||◌, List, [], ◌∷◌, ◌++◌, Option, none, some, ◌≡◌, refl, arith, Bool-cases,
  Option-cases, inl, inr,
}
use specgate.Prelude.Order.{get, key_set, keys, string_order}
use specgate.Prelude.Text.{str_eq}
use text.Mathlib.TextPositions.{eq_refl}
use specgate.Model.{Entries, entry_keys, RegistrySet, TraceSpan}
use specgate.Names.{op_span, parallel_span}
use specgate.Index.{TraceIndex, children}
use specgate.Render.{Format}
use specgate.Compare.Outcome.{Outcome, done, panic, out_of_fuel, ◌>>=◌}
use specgate.Compare.Report.{quiet, push_both}
use specgate.Compare.Events.{compare_events}
use specgate.Compare.Values.{operation_inputs, compare_names, compare_inputs}
use specgate.Compare.Children.{SpanIdentity, identity_order, IdentityMap, identity_map}
use specgate.Compare.Spans.{
  ChildCompare, compare_branch, compare_branches, declaration_of, identity_mismatches, compare_maps,
  compare_parallel, compare_children, compare_operation, compare_child_with,
}
use specgate.Compare.Same.Children.{
  NoMismatch, in_turn-NoMismatch, done-NoMismatch, QuietOn, compare_sequential_self, identity_side,
  identity_quiet, identity_map-Elem,
}
use specgate.Compare.Same.Events.{compare_events_self, compare_names_self}

-- An operation or a parallel span.
abbrev pub is_branch : TraceSpan → Bool
is_branch s = str_eq s.name op_span || str_eq s.name parallel_span

module _ (fmt : Format) (registry : Option RegistrySet) (index : TraceIndex) where
  compare_branches_self :
      (child : ChildCompare) (m : IdentityMap) (ids : List SpanIdentity) (path : String)
      → ((i : SpanIdentity) (t : TraceSpan)
          → get m i ≡ some t
          → (p : String) → NoMismatch (child t t p))
      → NoMismatch (compare_branches fmt registry index index child m m ids path)
  unfolding compare_branches compare_branch
  compare_branches_self child m [] path h = refl
  compare_branches_self child m (i ∷ ids) path h = elim (Option-cases (get m i)) [
    | inl absent ↦
        rw absent (done-NoMismatch quiet _ refl (compare_branches_self child m ids path h))
    | inr (t, found) ↦ rw found (
        in_turn-NoMismatch (child t t _) _ (h i t found _)
          (compare_branches_self child m ids path h))
  ]

  compare_maps_self :
      (child : ChildCompare) (o : Option IdentityMap) (path : String)
      → ((m : IdentityMap)
          → o ≡ some m
          → (i : SpanIdentity) (t : TraceSpan) → get m i ≡ some t
          → (p : String) → NoMismatch (child t t p))
      → NoMismatch (compare_maps fmt registry index index child o o path)
  unfolding compare_maps
  compare_maps_self child none path h = refl
  compare_maps_self child (some m) path h =
      compare_branches_self child m (key_set (keys m ++ keys m)) path (h m refl)

  compare_parallel_self :
      (child : ChildCompare) (s : TraceSpan) (path : String)
      → QuietOn child (children index s)
      → NoMismatch (compare_parallel fmt registry index index child s s path)
  unfolding compare_parallel
  compare_parallel_self child s path h =
      let spans = children index s in
      done-NoMismatch
        (push_both (identity_map fmt "reference" path spans).1
          (identity_map fmt "candidate" path spans).1)
        _
        (ground (
          arith,
          identity_quiet fmt registry index "reference" path spans,
          identity_quiet fmt registry index "candidate" path spans,
        ))
        (rw (identity_side fmt registry index "candidate" "reference" path spans) (
          compare_maps_self child (identity_map fmt "reference" path spans).0 path (λ m p i t g.
            h t (identity_map-Elem fmt registry index "reference" path spans m i t p g))))

  pub compare_children_self :
      (child : ChildCompare) (s : TraceSpan) (path : String)
      → QuietOn child (children index s)
      → NoMismatch (compare_children fmt registry index index child s s path)
  unfolding compare_children
  compare_children_self child s path h =
      elim (Bool-cases (str_eq s.name parallel_span || str_eq s.name parallel_span)) [
        | inl parallel ↦ rw parallel (compare_parallel_self child s path h)
        | inr sequential ↦ rw sequential (compare_sequential_self fmt registry index child s path h)
      ]

  compare_inputs_self :
      (s : TraceSpan) (path : String)
      → NoMismatch (compare_inputs fmt registry s s (declaration_of registry s s) path)
  unfolding compare_inputs
  compare_inputs_self s path = go (operation_inputs s)
    where
      go :
          (o : Outcome Entries)
          → NoMismatch (do
            r ← o
            c ← o
            done (
                compare_names fmt registry r c
                  (declaration_of registry s s)
                  path
                  (key_set (entry_keys r ++ entry_keys c))))
      go (done r) = rw compare_names_self refl
      go panic = tt
      go out_of_fuel = tt

  compare_operation_self :
      (child : ChildCompare) (s : TraceSpan) (path : String)
      → QuietOn child (children index s)
      → NoMismatch (compare_operation fmt registry index index child s s path)
  unfolding compare_operation
  compare_operation_self child s path h =
      let declaration = declaration_of registry s s in
      let events = compare_events_self fmt registry declaration s.events path in
      done-NoMismatch (identity_mismatches s s path) _ (simp eq_refl) (
        in_turn-NoMismatch (compare_inputs fmt registry s s declaration path) _
          (compare_inputs_self s path)
          (done-NoMismatch (compare_events fmt registry declaration s.events s.events path) _
            (rw events refl) (compare_children_self child s path h)))

  pub compare_child_with_self :
      (child : ChildCompare) (s : TraceSpan) (path : String)
      → is_branch s ≡ true
      → QuietOn child (children index s)
      → NoMismatch (compare_child_with fmt registry index index child s s path)
  unfolding compare_child_with
  compare_child_with_self child s path b h =
      rw (eq_refl s.name) (elim (Bool-cases (str_eq s.name op_span)) [
        | inl operation ↦ rw operation (compare_operation_self child s _ h)
        | inr other ↦
            let parallel : str_eq s.name parallel_span ≡ true = ground arith in
            let events = compare_events_self fmt registry none s.events path in
            rw other (
              rw parallel (
                done-NoMismatch (compare_events fmt registry none s.events s.events path) _
                  (rw events refl) (compare_parallel_self child s path h)))
      ])
