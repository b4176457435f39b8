-- ===== src/Capture/Run/Sound.antt =====
-- `encode` does not panic on captures whose events do not lie before their scenario.
use specgate.Prelude.{
  ℕ, ◌+◌, Option, none, some, List, [], ◌∷◌, ◌≡◌, inl, inr, arith, Option-cases, Bool-cases,
}
use specgate.Prelude.Elem.{All}
use specgate.Prelude.Int.{ℤ, pos, ◌-ℤ◌, ◌≤ℤ◌}
use specgate.Prelude.Order.{string_order, get}
use specgate.Prelude.Text.{str_eq}
use specgate.Capture.Evidence.{Observation, Completion, Operation, Capture}
use specgate.Capture.Wire.{wire_trace_id, wire_status}
use specgate.Capture.Encoding.{
  span_id, next_of, shifted, observation_event, observation_events, completion_events, status_code,
  operation_span,
}
use specgate.Capture.Scenario.{Ids, id_or_panic, parent_id, count_one, operation_spans}
use specgate.Capture.Run.Numbers.{Assigned}
use specgate.Capture.Run.Panics.{
  NoPanic, NoPanic-bind, wire_status-NoPanic, shifted-NoPanic, wire_event-NoPanic, completion_time,
  completion_event-NoPanic,
}

abbrev CompletedAfter : ℤ → Option Completion → Type 0
CompletedAfter from none = Unit
CompletedAfter from (some c) = from ≤ℤ completion_time c

-- No time of the operation lies before `from`.
pub record IsAfter (from : ℤ) (o : Operation) : Type 0 where
  pub start_ns : from ≤ℤ o.start_ns
  pub end_ns : from ≤ℤ o.end_ns
  pub observations : All (λ (x : Observation). from ≤ℤ x.time_ns) o.observations
  pub completion : CompletedAfter from o.completion

-- The scenario ends after its start, and no time of its operations lies before its start.
pub record IsTimely (c : Capture) : Type 0 where
  pub scenario : c.scenario.interval.start_ns ≤ℤ c.scenario.interval.end_ns
  pub operations : All (IsAfter c.scenario.interval.start_ns) c.operations

pub next_of-NoPanic : (n : ℕ) → NoPanic (next_of n)
unfolding next_of
next_of-NoPanic n = ground arith

module _ (from : ℤ) (to : ℕ) (offset : ℤ) (shift : offset ≡ pos to -ℤ from) where
  observation_events-NoPanic :
      (os : List Observation)
      → All (λ (x : Observation). from ≤ℤ x.time_ns) os
      → NoPanic (observation_events offset os)
  unfolding observation_events observation_event
  observation_events-NoPanic [] h = tt
  observation_events-NoPanic (o ∷ os) h =
      NoPanic-bind (observation_event offset o) _
        (wire_event-NoPanic from to offset shift o.order o.time_ns _ _ h.0)
        (λ e he.
          NoPanic-bind (observation_events offset os) _ (observation_events-NoPanic os h.1)
            (λ r hr. tt))

  completion_events-NoPanic :
      (c : Option Completion) → CompletedAfter from c → NoPanic (completion_events offset c)
  unfolding completion_events
  completion_events-NoPanic none h = tt
  completion_events-NoPanic (some c) h =
      NoPanic-bind _ _ (completion_event-NoPanic from to offset shift c h) (λ e he. tt)

  operation_span-NoPanic :
      (trace_id : List ℕ) (o : Operation) (id parent : List ℕ)
      → NoPanic (wire_trace_id trace_id)
      → IsAfter from o
      → NoPanic
          (operation_span trace_id o (record { id = id; parent_id = parent; offset = offset }))
  unfolding operation_span
  operation_span-NoPanic trace_id o id parent traced h =
      NoPanic-bind (observation_events offset o.observations) _
        (observation_events-NoPanic o.observations h.observations)
        (λ e he.
          NoPanic-bind (completion_events offset o.completion) _
            (completion_events-NoPanic o.completion h.completion)
            (λ c hc. NoPanic-bind (wire_trace_id trace_id) _ traced (λ t ht.
              NoPanic-bind (shifted o.start_ns offset) _
                (shifted-NoPanic from to offset shift o.start_ns h.start_ns)
                (λ s hs.
                  NoPanic-bind (shifted o.end_ns offset) _
                    (shifted-NoPanic from to offset shift o.end_ns h.end_ns)
                    (λ n hn.
                      NoPanic-bind (wire_status (status_code o.status)) _
                        (wire_status-NoPanic o.status) (λ k hk. tt))))))

  id_or_panic-NoPanic : (o : Option (List ℕ)) (id : List ℕ) → o ≡ some id → NoPanic (id_or_panic o)
  id_or_panic-NoPanic o id h = rw h tt

  parent_id-NoPanic :
      (capture : Capture) (scenario_id : List ℕ) (ids : Ids) (o : Operation)
      → NoPanic (parent_id capture scenario_id ids o)
  unfolding parent_id
  parent_id-NoPanic capture scenario_id ids o =
      elim (Bool-cases (str_eq o.parent_id capture.scenario.span.span_id)) [
        | inl own ↦ rw own tt
        | inr other ↦ elim (Option-cases (get ids o.parent_id)) [
          | inl absent ↦ rw (other, absent) tt
          | inr (id, found) ↦ rw (other, found) tt
        ]
      ]

  count_one-NoPanic : (n : ℕ) → NoPanic (count_one n)
  count_one-NoPanic n = ground arith

  pub operation_spans-NoPanic :
      (trace_id : List ℕ) (capture : Capture) (scenario_id : List ℕ) (ids : Ids)
      (os : List Operation) (first count : ℕ)
      → NoPanic (wire_trace_id trace_id)
      → All (IsAfter from) os
      → Assigned first os ids
      → NoPanic (operation_spans trace_id capture scenario_id ids offset os count)
  unfolding operation_spans
  operation_spans-NoPanic trace_id capture scenario_id ids [] first count traced h assigned = tt
  operation_spans-NoPanic trace_id capture scenario_id ids (o ∷ os) first count traced h assigned =
      NoPanic-bind (id_or_panic (get ids o.span_id)) _
        (id_or_panic-NoPanic (get ids o.span_id) (span_id first) assigned.0)
        (λ id hid.
          NoPanic-bind (parent_id capture scenario_id ids o) _
            (parent_id-NoPanic capture scenario_id ids o)
            (λ parent hparent.
              NoPanic-bind
                (operation_span trace_id o
                  (record { id = id; parent_id = parent; offset = offset }))
                _ (operation_span-NoPanic trace_id o id parent traced h.0)
                (λ span hspan.
                  NoPanic-bind (count_one count) _ (count_one-NoPanic count) (λ counted hcounted.
                    NoPanic-bind
                      (operation_spans trace_id capture scenario_id ids offset os counted) _
                      (operation_spans-NoPanic trace_id capture scenario_id ids os (first + 1)
                        counted traced h.1 assigned.1)
                      (λ r hr. tt)))))
