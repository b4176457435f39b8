-- ===== src/Trace/Events/Terminal.antt =====
-- What `validate_events` accepts on an operation span.
use specgate.Prelude.{
  ℕ, ◌+◌, String, true, false, List, [], ◌∷◌, ◌≡◌, refl, ◌⊎◌, inl, inr, arith, append-eq-nil, any,
}
use specgate.Model.{SpanStatus, TraceEvent, TraceSpan}
use specgate.Trace.Roles.{SpanRole, parse_span_role, EventRole, parse_event_role}
use specgate.Trace.Events.{
  EventState, initial, advance, check_event, check_events, check_completion, validate_events,
  is_known, is_failure, is_abandonment,
}

-- Observations, then at most one event of another role, which is the last.
abbrev pub CompletesLast : List TraceEvent → Type 0
CompletesLast [] = Unit
CompletesLast (e ∷ es) =
    ((parse_event_role e.name ≡ EventRole.observation) × CompletesLast es)
    ⊎ ((es ≡ []) × (is_known (parse_event_role e.name) ≡ true))

-- The status that the last event calls for; a result and an empty outcome call for none.
abbrev StatusFor : EventRole → SpanStatus → Type 0
StatusFor EventRole.error status = status ≡ SpanStatus.error
StatusFor EventRole.fault status = status ≡ SpanStatus.error
StatusFor EventRole.abandoned status = status ≡ SpanStatus.unset
StatusFor EventRole.observation status = status ≡ SpanStatus.ok
StatusFor _ status = Unit

abbrev pub StatusFits : List TraceEvent → SpanStatus → Type 0
StatusFits [] status = status ≡ SpanStatus.ok
StatusFits (e ∷ []) status = StatusFor (parse_event_role e.name) status
StatusFits (e ∷ f ∷ es) status = StatusFits (f ∷ es) status

-- An event is an observation, ends the operation, or has a name outside the list.
role_cases :
    (role : EventRole)
    → (role ≡ EventRole.observation)
      ⊎ ((s : EventState) → (advance SpanRole.operation role s).terminated ≡ true)
      ⊎ (is_known role ≡ false)
role_cases EventRole.observation = inl refl
role_cases EventRole.other = inr (inr refl)
role_cases EventRole.result = inr (inl (λ s. refl))
role_cases EventRole.empty = inr (inl (λ s. refl))
role_cases EventRole.error = inr (inl (λ s. refl))
role_cases EventRole.fault = inr (inl (λ s. refl))
role_cases EventRole.abandoned = inr (inl (λ s. refl))

check_event-nil :
    (s : EventState) (e : TraceEvent) (place : String)
    → check_event SpanRole.operation s e place ≡ []
    → (s.terminated ≡ false) × (is_known (parse_event_role e.name) ≡ true)
unfolding check_event
check_event-nil s e place p = ground arith

module _ (location : String) where
  check_events-cons :
      (i : ℕ) (s : EventState) (e : TraceEvent) (es : List TraceEvent)
      → (check_events SpanRole.operation location i s (e ∷ es)).1 ≡ []
      → (s.terminated ≡ false)
        × (is_known (parse_event_role e.name) ≡ true)
        × ((check_events SpanRole.operation location
              (i + 1)
              (advance SpanRole.operation (parse_event_role e.name) s)
              es).1
            ≡ [])
  unfolding check_events
  check_events-cons i s e es p =
      let (first, rest) = append-eq-nil (check_event SpanRole.operation s e _) _ p in
      let (running, known) = check_event-nil s e _ first in (running, known, rest)

  -- After the terminal event an event is rejected.
  terminated-nil :
      (i : ℕ) (s : EventState) (es : List TraceEvent)
      → s.terminated ≡ true
      → (check_events SpanRole.operation location i s es).1 ≡ []
      → es ≡ []
  terminated-nil i s [] h p = refl
  terminated-nil i s (e ∷ es) h p = ground (arith, check_events-cons i s e es p)

  check_events-CompletesLast :
      (i : ℕ) (s : EventState) (es : List TraceEvent)
      → (check_events SpanRole.operation location i s es).1 ≡ []
      → CompletesLast es
  check_events-CompletesLast i s [] p = tt
  check_events-CompletesLast i s (e ∷ es) p =
      let role = parse_event_role e.name in
      let (running, known, rest) = check_events-cons i s e es p in
      elim (role_cases role) [
        | inl observed ↦ inl (
          observed,
          check_events-CompletesLast (i + 1) (advance SpanRole.operation role s) es rest,
        )
        | inr (inl ends) ↦
            inr (terminated-nil (i + 1) (advance SpanRole.operation role s) es (ends s) rest, known)
        | inr (inr unknown) ↦ absurd (ground arith)
      ]

  StatusFits-lem :
      (i : ℕ) (s : EventState) (es : List TraceEvent) (status : SpanStatus)
      → CompletesLast es
      → s.terminated ≡ false
      → (any is_failure es ≡ true → status ≡ SpanStatus.error)
      → (any is_abandonment es ≡ true → status ≡ SpanStatus.unset)
      → ((check_events SpanRole.operation location i s es).0.terminated ≡ false
          → status ≡ SpanStatus.ok)
      → StatusFits es status
  unfolding check_events
  StatusFits-lem i s [] status c r failed left ended = ended r
  StatusFits-lem i s (e ∷ []) status c r failed left ended = ground arith
  StatusFits-lem i s (e ∷ f ∷ es) status (inl (o, c)) r failed left ended =
      StatusFits-lem (i + 1) (advance SpanRole.operation (parse_event_role e.name) s) (f ∷ es)
        status c (rw o r) (λ q. failed (ground arith)) (λ q. left (ground arith)) ended
  StatusFits-lem i s (e ∷ f ∷ es) status (inr last) r failed left ended = absurd (ground arith)

completion-facts :
    (span : TraceSpan) (s : EventState)
    → check_completion span s ≡ []
    → (any is_failure span.events ≡ true → span.status ≡ SpanStatus.error)
      × (any is_abandonment span.events ≡ true → span.status ≡ SpanStatus.unset)
      × (s.terminated ≡ false → span.status ≡ SpanStatus.ok)
unfolding check_completion
completion-facts span s p = ground arith

-- The events that validation accepts on an operation span are observations, then at most one
-- event of another known role, which is the last: nothing follows a terminal event. The status
-- of the span is an error after a declared error or a fault, unset after an abandonment, and ok
-- where no event or an observation is the last; after a result or an empty outcome it may be any.
pub validate_events-StatusFits :
    (span : TraceSpan)
    → parse_span_role span.name ≡ SpanRole.operation
    → validate_events span ≡ []
    → CompletesLast span.events × StatusFits span.events span.status
unfolding validate_events
validate_events-StatusFits span h p =
    let (events, rest) =
      append-eq-nil (check_events (parse_span_role span.name) span.location 0 initial span.events).1
        _ p in
    let events' : (check_events SpanRole.operation span.location 0 initial span.events).1 ≡ [] =
      rw h at events in
    let complete = check_events-CompletesLast span.location 0 initial span.events events' in
    let (failed, left, ended) =
      completion-facts span (check_events SpanRole.operation span.location 0 initial span.events).0
        (append-eq-nil _ _ (rw h at rest)).0 in
    (
      complete,
      StatusFits-lem span.location 0 initial span.events span.status complete refl failed left
          ended,
    )
