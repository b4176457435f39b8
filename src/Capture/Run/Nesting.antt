-- ===== src/Capture/Run/Nesting.antt =====
-- The nesting of the spans of a run: run, scenarios, operations.
use specgate.Prelude.{
  ℕ, ◌+◌, String, none, some, List, [], ◌∷◌, ◌++◌, ◌≡◌, ◌∙◌, sym, ap, inl, inr, length,
}
use mathlib.Core.Path.{subst}
use specgate.Prelude.Elem.{Elem, All}
use specgate.Prelude.Int.{ℤ}
use specgate.Prelude.Order.{string_order, get}
use specgate.Names.{scenario_span, op_span}
use specgate.Capture.Evidence.{Operation, Capture, Metadata}
use specgate.Capture.Wire.{ok, Span, Document}
use specgate.Capture.Encoding.{Identity, span_id}
use specgate.Capture.Scenario.{Ids, Progress}
use specgate.Capture.Run.{encode_document}
use specgate.Capture.Run.Numbers.{ids_from, span_ids}
use specgate.Capture.Run.Single.{AllHold}
use specgate.Capture.Run.Layout.{Layout, own_ids}
use specgate.Capture.Run.Whole.{started, encode_document-IsDocument}

-- An operation span whose parent is one of the given ids.
abbrev pub IsChild : List (List ℕ) → Span → Type 0
IsChild ids span =
    (span.name ≡ op_span) × ((parent : List ℕ) × (span.parent_id ≡ some parent) × Elem parent ids)

-- Each scenario is a child of the run; each of its operations is a child of it or of another
-- operation of the scenario.
abbrev pub Nested : List ℕ → List Capture → List Span → Type 0
Nested run_id [] spans = spans ≡ []
Nested run_id (c ∷ cs) spans =
    (scenario : Span) × (operations : List Span) × (rest : List Span) × (spans
      ≡ scenario ∷ operations ++ rest)
    × (length operations ≡ length c.operations)
    × (scenario.name ≡ scenario_span)
    × (scenario.parent_id ≡ some run_id)
    × All (IsChild (span_ids (scenario ∷ operations))) operations
    × Nested run_id cs rest

held-IsChild :
    (scenario_id : List ℕ) (ids : Ids) (offset : ℤ) (known : List (List ℕ)) (os : List Operation)
    (spans : List Span)
    → Elem scenario_id known
    → ((k : String) (v : List ℕ) → get ids k ≡ some v → Elem v known)
    → AllHold scenario_id ids offset os spans
    → All (IsChild known) spans
held-IsChild scenario_id ids offset known [] [] top given held = tt
held-IsChild scenario_id ids offset known [] (s ∷ ss) top given held = absurd held
held-IsChild scenario_id ids offset known (o ∷ os) [] top given held = absurd held
held-IsChild scenario_id ids offset known (o ∷ os) (s ∷ ss) top given held =
    let h = held.0 in
    let known_parent : Elem h.place.parent_id known = elim h.parent [
      | inl same ↦ subst (λ (x : List ℕ). Elem x known) (sym same) top
      | inr (k, found) ↦ given k h.place.parent_id found
    ] in
    (
      (h.placed.named, (h.place.parent_id, h.placed.parent, known_parent)),
      held-IsChild scenario_id ids offset known os ss top given held.1,
    )

Layout-Nested :
    (run_id : List ℕ) (captures : List Capture) (p last : Progress) (spans : List Span)
    → Layout run_id captures p spans last
    → Nested run_id captures spans
Layout-Nested run_id [] p last spans l = l.0
Layout-Nested run_id (c ∷ cs) p last spans (q, first, rest, both, head, tail) =
    let (own, same) =
      own_ids (span_id p.next_id) head.ids head.offset c.operations head.operations (p.next_id + 1)
        head.hold head.assigned in
    let known = span_ids (head.scenario ∷ head.operations) in
    let numbered : ids_from (p.next_id + 1) (length c.operations) ≡ span_ids head.operations =
      rw (← same) (sym own) in
    (
      head.scenario,
      head.operations,
      rest,
      both ∙ ap (λ (x : List Span). x ++ rest) head.both,
      same,
      head.boundary.named,
      head.boundary.parent,
      held-IsChild (span_id p.next_id) head.ids head.offset known c.operations head.operations
          (inl (sym head.boundary.id))
          (λ k v found.
            inr (subst (λ (x : List (List ℕ)). Elem v x) numbered (head.only k v found)))
          head.hold,
      Layout-Nested run_id cs q last rest tail,
    )

-- The first span of an encoded document has no parent; behind it stands each scenario in turn,
-- a child of the first span, followed by its operations, each a child of that scenario's span or
-- of the span of an operation of the same scenario.
pub encode_document-Nested :
    (captures : List Capture) (metadata : Metadata) (identity : Identity) (r : Document × ℕ)
    → encode_document captures metadata identity ≡ ok r
    → (run : Span) × (rest : List Span) × (r.0.spans ≡ run ∷ rest)
      × (run.parent_id ≡ none)
      × Nested run.id captures rest
encode_document-Nested captures metadata identity r h =
    let d = encode_document-IsDocument captures metadata identity r h in
    let first = identity.first_id in
    (
      d.run,
      d.rest,
      d.both,
      d.boundary.parent,
      subst (λ (x : List ℕ). Nested x captures d.rest) (sym d.boundary.id)
          (Layout-Nested (span_id first) captures (started first) d.last d.rest d.layout),
    )
