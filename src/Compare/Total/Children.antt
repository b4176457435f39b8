-- ===== src/Compare/Total/Children.antt =====
-- The calls that compare two spans return when the calls one level down do.
use specgate.Prelude.{
  ℕ, ◌+◌, String, Bool, true, false, ◌||◌, List, [], ◌∷◌, ◌++◌, Option, none, some, ◌≡◌, refl,
  arith, ◌⊎◌, Bool-cases, inl, inr,
}
use specgate.Prelude.Elem.{Elem}
use specgate.Prelude.Order.{get, key_set, keys, string_order}
use specgate.Prelude.Text.{str_eq}
use text.Mathlib.TextEquality.{eq_iff}
use specgate.Model.{RegistrySet, TraceSpan}
use specgate.Names.{op_span, parallel_span}
use specgate.Index.{TraceIndex, children}
use specgate.Render.{Format}
use specgate.Trace.Semantics.{has_inputs}
use specgate.Compare.Outcome.{Outcome, done, panic, out_of_fuel}
use specgate.Compare.Report.{Sink, in_turn}
use specgate.Compare.Values.{Declaration, operation_inputs, compare_inputs}
use specgate.Compare.Children.{
  order_spans, report_order, sequential_children, SpanIdentity, identity_order, IdentityMap,
}
use specgate.Compare.Spans.{
  ChildCompare, compare_positions, compare_branch, compare_branches, compare_maps, compare_parallel,
  compare_sequences, compare_children, compare_operation, compare_child_with, declaration_of,
}
use specgate.Compare.Same.Children.{order_spans-Elem, identity_map-Elem}

-- The call returns.
abbrev pub is_done {ℓ} : {A : Type ℓ} → Outcome A → Bool
is_done (done a) = true
is_done panic = false
is_done out_of_fuel = false

pub in_turn-is_done :
    (m n : Outcome Sink) → is_done m ≡ true → is_done n ≡ true → is_done (in_turn m n) ≡ true
in_turn-is_done (done a) (done b) h k = refl
in_turn-is_done (done a) panic h k = k
in_turn-is_done (done a) out_of_fuel h k = k
in_turn-is_done panic n h k = h
in_turn-is_done out_of_fuel n h k = h

-- `child` returns on the spans of two lists.
abbrev pub ReturnsOn : ChildCompare → List TraceSpan → List TraceSpan → Type 0
ReturnsOn child rs cs =
    (r c : TraceSpan) → Elem r rs → Elem c cs → (path : String) → is_done (child r c path) ≡ true

module _ (fmt : Format) (registry : Option RegistrySet) (r_index c_index : TraceIndex) where
  compare_positions-is_done :
      (child : ChildCompare) (position : ℕ) (rs cs : List TraceSpan) (path : String)
      → ReturnsOn child rs cs
      → is_done (compare_positions fmt registry r_index c_index child position rs cs path) ≡ true
  unfolding compare_positions
  compare_positions-is_done child position [] [] path h = refl
  compare_positions-is_done child position (r ∷ rs) [] path h =
      ground
        (arith, compare_positions-is_done child (position + 1) rs [] path (λ r c e f. absurd f))
  compare_positions-is_done child position [] (c ∷ cs) path h =
      ground
        (arith, compare_positions-is_done child (position + 1) [] cs path (λ r c e f. absurd e))
  compare_positions-is_done child position (r ∷ rs) (c ∷ cs) path h =
      in_turn-is_done (child r c _) _ (h r c (inl refl) (inl refl) _) (
        compare_positions-is_done child (position + 1) rs cs path
          (λ s t e f. h s t (inr e) (inr f)))

  pub compare_branch-is_done :
      (child : ChildCompare) (r c : Option TraceSpan) (path : String)
      → ((s t : TraceSpan) → r ≡ some s → c ≡ some t → is_done (child s t path) ≡ true)
      → is_done (compare_branch fmt registry r_index c_index child r c path) ≡ true
  unfolding compare_branch
  compare_branch-is_done child (some r) (some c) path h = h r c refl refl
  compare_branch-is_done child (some r) none path h = refl
  compare_branch-is_done child none (some c) path h = refl
  compare_branch-is_done child none none path h = refl

  compare_branches-is_done :
      (child : ChildCompare) (m n : IdentityMap) (ids : List SpanIdentity) (path : String)
      → ((i : SpanIdentity) (r c : TraceSpan)
          → get m i ≡ some r
          → get n i ≡ some c
          → (p : String) → is_done (child r c p) ≡ true)
      → is_done (compare_branches fmt registry r_index c_index child m n ids path) ≡ true
  unfolding compare_branches
  compare_branches-is_done child m n [] path h = refl
  compare_branches-is_done child m n (i ∷ ids) path h =
      in_turn-is_done _ _
        (compare_branch-is_done child (get m i) (get n i) _ (λ r c e f. h i r c e f _))
        (compare_branches-is_done child m n ids path h)

  compare_maps-is_done :
      (child : ChildCompare) (m n : Option IdentityMap) (path : String)
      → ((m' n' : IdentityMap)
          → m ≡ some m'
          → n ≡ some n'
          → (i : SpanIdentity) (r c : TraceSpan) → get m' i ≡ some r
          → get n' i ≡ some c
          → (p : String) → is_done (child r c p) ≡ true)
      → is_done (compare_maps fmt registry r_index c_index child m n path) ≡ true
  unfolding compare_maps
  compare_maps-is_done child none n path h = refl
  compare_maps-is_done child (some m) none path h = refl
  compare_maps-is_done child (some m) (some n) path h =
      compare_branches-is_done child m n (key_set (keys m ++ keys n)) path (h m n refl refl)

  compare_parallel-is_done :
      (child : ChildCompare) (r c : TraceSpan) (path : String)
      → ReturnsOn child (children r_index r) (children c_index c)
      → is_done (compare_parallel fmt registry r_index c_index child r c path) ≡ true
  unfolding compare_parallel
  compare_parallel-is_done child r c path h = in_turn-is_done (done _) _ refl (
      compare_maps-is_done child _ _ path (λ m n p q i s t g k.
        h s t
          (identity_map-Elem fmt registry r_index "reference" path (children r_index r) m i s p g)
          (identity_map-Elem fmt registry c_index "candidate" path (children c_index c) n i t q k)))

  compare_sequences-is_done :
      (child : ChildCompare) (rs cs : String ⊎ List TraceSpan) (path : String)
      → ((r c : List TraceSpan) → rs ≡ inr r → cs ≡ inr c → ReturnsOn child r c)
      → is_done (
          compare_sequences fmt registry r_index c_index child
            (report_order "reference" path rs)
            (report_order "candidate" path cs)
            path)
        ≡ true
  unfolding compare_sequences
  compare_sequences-is_done child (inl message) cs path h = refl
  compare_sequences-is_done child (inr r) (inl message) path h = refl
  compare_sequences-is_done child (inr r) (inr c) path h =
      ground (arith, compare_positions-is_done child 0 r c path (h r c refl refl))

  pub compare_children-is_done :
      (child : ChildCompare) (r c : TraceSpan) (path : String)
      → ReturnsOn child (children r_index r) (children c_index c)
      → is_done (compare_children fmt registry r_index c_index child r c path) ≡ true
  unfolding compare_children sequential_children
  compare_children-is_done child r c path h =
      elim (Bool-cases (str_eq r.name parallel_span || str_eq c.name parallel_span)) [
        | inl parallel ↦ rw parallel (compare_parallel-is_done child r c path h)
        | inr sequential ↦ rw sequential (
            compare_sequences-is_done child (order_spans (children r_index r))
              (order_spans (children c_index c)) path
              (λ rs cs p q s t e f.
                h s t (order_spans-Elem fmt registry r_index s (children r_index r) rs p e)
                  (order_spans-Elem fmt registry c_index t (children c_index c) cs q f)))
      ]

  operation_inputs-is_done :
      (s : TraceSpan) → has_inputs s ≡ true → is_done (operation_inputs s) ≡ true
  unfolding operation_inputs
  operation_inputs-is_done s h = ground arith

  compare_inputs-is_done :
      (r c : TraceSpan) (declaration : Option Declaration) (path : String)
      → has_inputs r ≡ true
      → has_inputs c ≡ true
      → is_done (compare_inputs fmt registry r c declaration path) ≡ true
  unfolding compare_inputs
  compare_inputs-is_done r c declaration path h k =
      ground (arith, operation_inputs-is_done r h, operation_inputs-is_done c k)

  compare_operation-is_done :
      (child : ChildCompare) (r c : TraceSpan) (path : String)
      → has_inputs r ≡ true
      → has_inputs c ≡ true
      → ReturnsOn child (children r_index r) (children c_index c)
      → is_done (compare_operation fmt registry r_index c_index child r c path) ≡ true
  unfolding compare_operation
  compare_operation-is_done child r c path h k below = in_turn-is_done (done _) _ refl (
      in_turn-is_done _ _ (compare_inputs-is_done r c (declaration_of registry r c) path h k)
        (in_turn-is_done (done _) _ refl (compare_children-is_done child r c path below)))

  pub compare_child_with-is_done :
      (child : ChildCompare) (r c : TraceSpan) (path : String)
      → (str_eq r.name op_span ≡ true → has_inputs r ≡ true)
      → (str_eq c.name op_span ≡ true → has_inputs c ≡ true)
      → ReturnsOn child (children r_index r) (children c_index c)
      → is_done (compare_child_with fmt registry r_index c_index child r c path) ≡ true
  unfolding compare_child_with
  compare_child_with-is_done child r c path h k below = elim (Bool-cases (str_eq r.name c.name)) [
    | inr differ ↦ rw differ refl
    | inl same ↦ elim (Bool-cases (str_eq r.name op_span)) [
      | inl operation ↦
          rw (same, operation)
            (compare_operation-is_done child r c _ (h operation)
              (k (rw (← (eq_iff r.name c.name).0 same) operation)) below)
      | inr other ↦ elim (Bool-cases (str_eq r.name parallel_span)) [
        | inl parallel ↦
            rw (same, other, parallel)
              (ground (arith, compare_parallel-is_done child r c path below))
        | inr neither ↦ rw (same, other, neither) refl
      ]
    ]
  ]
