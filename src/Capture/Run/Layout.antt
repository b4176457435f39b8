-- ===== src/Capture/Run/Layout.antt =====
-- The spans of the captures, one scenario after the other, and their ids.
use specgate.Prelude.{
  ℕ, suc, ◌+◌, List, [], ◌∷◌, ◌++◌, ◌≡◌, ◌∙◌, refl, ap, arith, length, length-append,
}
use mathlib.Core.List.{map-append}
use specgate.Prelude.Int.{ℤ}
use specgate.Prelude.Order.{string_order}
use specgate.Capture.Evidence.{Operation, Capture}
use specgate.Capture.Wire.{ok, >>=-eq-ok, Span}
use specgate.Capture.Encoding.{span_id}
use specgate.Capture.Scenario.{Ids, Progress, encode_scenario}
use specgate.Capture.Run.{encode_scenarios}
use specgate.Capture.Run.Numbers.{ids_from, ids_from-append, span_ids, Assigned}
use specgate.Capture.Run.Single.{AllHold, IsScenario, encode_scenario-IsScenario}

abbrev pub Layout : List ℕ → List Capture → Progress → List Span → Progress → Type 0
Layout run_id [] p spans last = (spans ≡ []) × (last ≡ p)
Layout run_id (c ∷ cs) p spans last =
    (q : Progress) × (first : List Span) × (rest : List Span) × (spans ≡ first ++ rest)
    × IsScenario run_id c p q first
    × Layout run_id cs q rest last

pub encode_scenarios-Layout :
    (trace_id run_id : List ℕ) (index : ℕ) (captures : List Capture) (p : Progress)
    (r : List Span × Progress)
    → encode_scenarios trace_id run_id index captures p ≡ ok r
    → Layout run_id captures p r.0 r.1
unfolding encode_scenarios
encode_scenarios-Layout trace_id run_id index [] p r h = (ground arith, ground arith)
encode_scenarios-Layout trace_id run_id index (c ∷ cs) p r h =
    let (head, encoded, h1) = >>=-eq-ok (encode_scenario trace_id run_id index c p) _ h in
    let (tail, others, h2) =
      >>=-eq-ok (encode_scenarios trace_id run_id (index + 1) cs head.1) _ h1 in
    let below = encode_scenarios-Layout trace_id run_id (index + 1) cs head.1 tail others in
    let last : tail.1 ≡ r.1 = ground arith in
    (
      head.1,
      head.0,
      tail.0,
      ground arith,
      encode_scenario-IsScenario trace_id run_id index c p head encoded,
      rw (← last) below,
    )

-- Consecutive ids from `n`, up to `m`.
pub record IsNumbered (n : ℕ) (spans : List Span) (m : ℕ) : Type 0 where
  pub ids : span_ids spans ≡ ids_from n (length spans)
  pub total : m ≡ n + length spans

pub IsNumbered-append :
    (n k m : ℕ) (xs ys : List Span)
    → IsNumbered n xs k
    → IsNumbered k ys m
    → IsNumbered n (xs ++ ys) m
IsNumbered-append n k m xs ys a b = record {
  ids =
      map-append (λ (s : Span). s.id) xs ys
      ∙ rw (a.ids, b.ids, length-append xs ys, ids_from-append n (length xs) (length ys), a.total)
          refl;
  total = ground (arith, length-append xs ys, a.total, b.total);
}

pub own_ids :
    (scenario_id : List ℕ) (ids : Ids) (offset : ℤ) (os : List Operation) (spans : List Span)
    (n : ℕ)
    → AllHold scenario_id ids offset os spans
    → Assigned n os ids
    → (span_ids spans ≡ ids_from n (length spans)) × (length spans ≡ length os)
own_ids scenario_id ids offset [] [] n held assigned = (refl, refl)
own_ids scenario_id ids offset [] (s ∷ ss) n held assigned = absurd held
own_ids scenario_id ids offset (o ∷ os) [] n held assigned = absurd held
own_ids scenario_id ids offset (o ∷ os) (s ∷ ss) n held assigned =
    let (rest, same) = own_ids scenario_id ids offset os ss (n + 1) held.1 assigned.1 in
    let found = held.0.own in
    let given = assigned.0 in
    let placed = held.0.placed.id in
    let first : s.id ≡ span_id n = ground (arith, found, given, placed) in
    (rw (first, rest) refl, ap suc same)

pub IsScenario-IsNumbered :
    (run_id : List ℕ) (c : Capture) (p q : Progress) (spans : List Span)
    → IsScenario run_id c p q spans
    → IsNumbered p.next_id spans q.next_id
IsScenario-IsNumbered run_id c p q spans s =
    let (ids, same) =
      own_ids (span_id p.next_id) s.ids s.offset c.operations s.operations (p.next_id + 1) s.hold
        s.assigned in
    rw s.both
      (record { ids = rw (s.boundary.id, ids) refl; total = ground (arith, same, s.next_id) })

pub Layout-IsNumbered :
    (run_id : List ℕ) (captures : List Capture) (p last : Progress) (spans : List Span)
    → Layout run_id captures p spans last
    → IsNumbered p.next_id spans last.next_id
Layout-IsNumbered run_id [] p last spans l = record {
  ids = rw l.0 refl;
  total = rw (l.0, l.1) (ground arith);
}
Layout-IsNumbered run_id (c ∷ cs) p last spans (q, first, rest, both, head, tail) = rw both (
    IsNumbered-append p.next_id q.next_id last.next_id first rest
      (IsScenario-IsNumbered run_id c p q first head)
      (Layout-IsNumbered run_id cs q last rest tail))
