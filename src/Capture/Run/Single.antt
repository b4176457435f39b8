-- ===== src/Capture/Run/Single.antt =====
-- One scenario of an encoded run: its span, those of its operations, and what comes next.
use specgate.Prelude.{
  ℕ, ◌+◌, ◌<◌, String, Option, none, some, List, [], ◌∷◌, ◌≡◌, ◌∙◌, refl, ap, ◌⊎◌, inl, inr, arith,
  length, Option-cases, Bool-cases,
}
use mathlib.Core.Path.{subst}
use specgate.Prelude.Int.{
  ℤ, pos, ◌+ℤ◌, ◌-ℤ◌, checked_add, checked_sub, checked_add-some, checked_sub-some,
}
use specgate.Prelude.Elem.{Elem}
use specgate.Prelude.Order.{string_order, get}
use specgate.Prelude.Text.{str_eq}
use specgate.Names.{scenario_span}
use specgate.Capture.Evidence.{Operation, Capture}
use specgate.Capture.Wire.{Encoded, ok, >>=-eq-ok, Span}
use specgate.Capture.Encoding.{
  checked_id, span_id, next_of, or_err, offset_time, Placement, operation_span,
}
use specgate.Capture.Scenario.{
  Ids, assign_ids, id_or_panic, parent_id, count_one, operation_spans, wire_index, scenario_wire,
  Progress, encode_scenario,
}
use specgate.Capture.Run.Parts.{
  checked_id-ok, next_of-ok, or_err-ok, IsPlaced, operation_span-IsPlaced, IsBoundary,
  scenario_wire-IsBoundary,
}
use specgate.Capture.Run.Numbers.{
  ids_from, assign_ids-ok, assign_ids-only, assign_ids-bound, Assigned,
}

-- The parent is the scenario, or an operation that has an id.
abbrev pub ParentFound : List ℕ → Ids → List ℕ → Type 0
ParentFound scenario_id ids parent =
    (parent ≡ scenario_id) ⊎ ((k : String) × (get ids k ≡ some parent))

parent_id-ParentFound :
    (capture : Capture) (scenario_id : List ℕ) (ids : Ids) (o : Operation) (parent : List ℕ)
    → parent_id capture scenario_id ids o ≡ ok parent
    → ParentFound scenario_id ids parent
unfolding parent_id
parent_id-ParentFound capture scenario_id ids o parent h =
    elim (Bool-cases (str_eq o.parent_id capture.scenario.span.span_id)) [
      | inl own ↦
          let top : Encoded (List ℕ) = ok scenario_id in
          let same : top ≡ ok parent = rw own at h in inl (ground arith)
      | inr other ↦ elim (Option-cases (get ids o.parent_id)) [
        | inl absent ↦ absurd (let wrong = rw (other, absent) at h in ground arith)
        | inr (id, found) ↦
            let by_id : Encoded (List ℕ) = ok id in
            let same : by_id ≡ ok parent = rw (other, found) at h in
            inr (o.parent_id, found ∙ ap (λ x. some x) (ground arith))
      ]
    ]

count_one-ok : (n m : ℕ) → count_one n ≡ ok m → m ≡ n + 1
count_one-ok n m h = ground arith

id_or_panic-ok : (o : Option (List ℕ)) (id : List ℕ) → id_or_panic o ≡ ok id → o ≡ some id
id_or_panic-ok none id h = absurd (ground arith)
id_or_panic-ok (some x) id h = ground arith

module _ (scenario_id : List ℕ) (ids : Ids) (offset : ℤ) where
  -- The spans of the operations, one by one.
  pub record Holds (o : Operation) (s : Span) : Type 0 where
    pub place : Placement
    pub placed : IsPlaced o place s
    pub shift : place.offset ≡ offset
    pub parent : ParentFound scenario_id ids place.parent_id
    pub own : get ids o.span_id ≡ some place.id

  abbrev pub AllHold : List Operation → List Span → Type 0
  AllHold [] [] = Unit
  AllHold (o ∷ os) (s ∷ ss) = Holds o s × AllHold os ss
  AllHold [] (s ∷ ss) = ⊥
  AllHold (o ∷ os) [] = ⊥

  pub operation_spans-AllHold :
      (trace_id : List ℕ) (capture : Capture) (os : List Operation) (count : ℕ) (r : List Span × ℕ)
      → operation_spans trace_id capture scenario_id ids offset os count ≡ ok r
      → AllHold os r.0 × (r.1 ≡ count + length os)
  unfolding operation_spans
  operation_spans-AllHold trace_id capture [] count r h =
      let same : [] ≡ r.0 = ground arith in (rw (← same) tt, ground arith)
  operation_spans-AllHold trace_id capture (o ∷ os) count r h =
      let (id, found, h1) = >>=-eq-ok (id_or_panic (get ids o.span_id)) _ h in
      let (parent, above, h2) = >>=-eq-ok (parent_id capture scenario_id ids o) _ h1 in
      let place : Placement = record { id = id; parent_id = parent; offset = offset } in
      let (span, encoded, h3) = >>=-eq-ok (operation_span trace_id o place) _ h2 in
      let (counted, added, h4) = >>=-eq-ok (count_one count) _ h3 in
      let (q, rest, h5) =
        >>=-eq-ok (operation_spans trace_id capture scenario_id ids offset os counted) _ h4 in
      let (tail, total) = operation_spans-AllHold trace_id capture os counted q rest in
      let more = count_one-ok count counted added in
      let same : span ∷ q.0 ≡ r.0 = ground arith in
      (
        rw (← same) (
          record {
            place = place;
            placed = operation_span-IsPlaced trace_id o place span encoded;
            shift = refl;
            parent = parent_id-ParentFound capture scenario_id ids o parent above;
            own = id_or_panic-ok (get ids o.span_id) id found;
          },
          tail,
        ),
        ground arith,
      )

only_given :
    (name : String) (os : List Operation) (n m : ℕ) (r : Ids × ℕ)
    → assign_ids name os n [] ≡ ok r
    → n ≡ m
    → (k : String) (v : List ℕ) → get r.0 k ≡ some v
    → Elem v (ids_from m (length os))
only_given name os n m r h same k v found = elim (assign_ids-only name os n [] r k v h found) [
  | inl before ↦ absurd (ground arith)
  | inr given ↦ subst (λ (j : ℕ). Elem v (ids_from j (length os))) same given
]

-- What `encode_scenario` returns.
pub record IsScenario (run_id : List ℕ) (capture : Capture) (p q : Progress) (spans : List Span)
    : Type 0 where
  pub scenario : Span
  pub operations : List Span
  pub ids : Ids
  pub offset : ℤ
  pub end_time : ℤ
  pub both : spans ≡ scenario ∷ operations
  pub boundary :
      IsBoundary scenario_span (span_id p.next_id) (some run_id) p.next_time end_time scenario
  pub shift : offset ≡ p.next_time -ℤ capture.scenario.interval.start_ns
  pub ends : end_time ≡ capture.scenario.interval.end_ns +ℤ offset
  pub next_time : q.next_time ≡ end_time +ℤ pos 1
  pub next_id : q.next_id ≡ p.next_id + 1 + length capture.operations
  pub assigned : Assigned (p.next_id + 1) capture.operations ids
  pub only :
      (k : String) (v : List ℕ)
      → get ids k ≡ some v
      → Elem v (ids_from (p.next_id + 1) (length capture.operations))
  pub bound : q.next_id < 18446744073709551616
  pub hold : AllHold (span_id p.next_id) ids offset capture.operations operations
  pub counted : q.operation_count ≡ p.operation_count + length capture.operations

pub encode_scenario-IsScenario :
    (trace_id run_id : List ℕ) (index : ℕ) (capture : Capture) (p : Progress)
    (r : List Span × Progress)
    → encode_scenario trace_id run_id index capture p ≡ ok r
    → IsScenario run_id capture p r.1 r.0
unfolding encode_scenario offset_time
encode_scenario-IsScenario trace_id run_id index capture p r h =
    let (id, identified, h1) = >>=-eq-ok (checked_id p.next_id) _ h in
    let (first, counted, h2) = >>=-eq-ok (next_of p.next_id) _ h1 in
    let (a, assigned, h3) =
      >>=-eq-ok (assign_ids capture.scenario_name capture.operations first []) _ h2 in
    let (offset, shifted, h4) =
      >>=-eq-ok
        (or_err "CTSC scenario timestamp offset overflow"
          (checked_sub p.next_time capture.scenario.interval.start_ns))
        _ h3 in
    let (end_time, added, h5) =
      >>=-eq-ok (offset_time capture.scenario.interval.end_ns offset) _ h4 in
    let (wire, indexed, h6) = >>=-eq-ok (wire_index index) _ h5 in
    let (scenario, encoded, h7) =
      >>=-eq-ok (scenario_wire trace_id capture wire id run_id p.next_time end_time) _ h6 in
    let (o, operations, h8) =
      >>=-eq-ok
        (operation_spans trace_id capture id a.0 offset capture.operations p.operation_count) _
        h7 in
    let (next, later, h9) =
      >>=-eq-ok (or_err "CTSC logical timestamp overflow" (checked_add end_time (pos 1))) _ h8 in
    let (total, keeps, given) =
      assign_ids-ok capture.scenario_name capture.operations first [] a assigned in
    let (hold, count) =
      operation_spans-AllHold id a.0 offset trace_id capture capture.operations p.operation_count o
        operations in
    let named = checked_id-ok p.next_id id identified in
    let after = (next_of-ok p.next_id first counted).0 in
    let fits = next_of-ok p.next_id first counted in
    let bound =
      assign_ids-bound capture.scenario_name capture.operations first [] a assigned
        (ground arith) in
    let only =
      only_given capture.scenario_name capture.operations first (p.next_id + 1) a assigned after in
    record {
      scenario = scenario;
      operations = o.0;
      ids = a.0;
      offset = offset;
      end_time = end_time;
      both = ground arith;
      boundary =
          subst
            (λ (x : List ℕ). IsBoundary scenario_span x (some run_id) p.next_time end_time scenario)
            named
            (scenario_wire-IsBoundary trace_id capture wire id run_id p.next_time end_time scenario
              encoded);
      shift = checked_sub-some _ _ _ (or_err-ok _ _ offset shifted);
      ends = checked_add-some _ _ _ (or_err-ok _ _ end_time added);
      next_time = ground (arith, checked_add-some end_time (pos 1) next (or_err-ok _ _ next later));
      next_id = ground arith;
      assigned = subst (λ (k : ℕ). Assigned k capture.operations a.0) after given;
      only = λ k v found. only k v found;
      bound = ground (arith, bound);
      hold = subst (λ (x : List ℕ). AllHold x a.0 offset capture.operations o.0) named hold;
      counted = ground arith;
    }
