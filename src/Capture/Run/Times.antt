-- ===== src/Capture/Run/Times.antt =====
-- The logical times of an encoded run, and the count of its spans.
use specgate.Prelude.{ℕ, ◌+◌, List, [], ◌∷◌, ◌++◌, ◌≡◌, ◌∙◌, refl, sym, ap, arith}
use specgate.Prelude.Int.{ℤ, pos, ◌+ℤ◌, ◌-ℤ◌, shift_distance}
use specgate.Capture.Evidence.{Operation, Capture, Metadata}
use specgate.Capture.Wire.{ok, Span, Document}
use specgate.Capture.Encoding.{Identity, span_id}
use specgate.Capture.Scenario.{Ids, Progress}
use specgate.Capture.Run.{encode_document}
use specgate.Capture.Run.Single.{AllHold}
use specgate.Capture.Run.Layout.{Layout}
use specgate.Capture.Run.Whole.{started, encode_document-IsDocument}

-- Each operation is as far from the start of its scenario as it was in the capture.
abbrev pub KeepDistance : ℤ → ℕ → List Operation → List Span → Type 0
KeepDistance from to [] [] = Unit
KeepDistance from to (o ∷ os) (s ∷ ss) =
    (pos s.start_ns -ℤ pos to ≡ o.start_ns -ℤ from)
    × (pos s.end_ns -ℤ pos to ≡ o.end_ns -ℤ from)
    × KeepDistance from to os ss
KeepDistance from to [] (s ∷ ss) = ⊥
KeepDistance from to (o ∷ os) [] = ⊥

-- The scenarios one after the other, from `time` on, one nanosecond apart.
abbrev pub Timeline : ℕ → List Capture → List Span → ℕ → Type 0
Timeline time [] spans last = (spans ≡ []) × (last ≡ time)
Timeline time (c ∷ cs) spans last =
    (scenario : Span) × (operations : List Span) × (rest : List Span) × (spans
      ≡ scenario ∷ operations ++ rest)
    × (scenario.start_ns ≡ time)
    × (pos scenario.end_ns -ℤ pos time ≡ c.scenario.interval.end_ns -ℤ c.scenario.interval.start_ns)
    × KeepDistance c.scenario.interval.start_ns time c.operations operations
    × Timeline (scenario.end_ns + 1) cs rest last

held-KeepDistance :
    (scenario_id : List ℕ) (ids : Ids) (offset from : ℤ) (to : ℕ) (os : List Operation)
    (spans : List Span)
    → offset ≡ pos to -ℤ from
    → AllHold scenario_id ids offset os spans
    → KeepDistance from to os spans
held-KeepDistance scenario_id ids offset from to [] [] same held = tt
held-KeepDistance scenario_id ids offset from to [] (s ∷ ss) same held = held
held-KeepDistance scenario_id ids offset from to (o ∷ os) [] same held = held
held-KeepDistance scenario_id ids offset from to (o ∷ os) (s ∷ ss) same held =
    let h = held.0 in
    let shift = h.shift ∙ same in
    (
      shift_distance o.start_ns from (pos to) h.place.offset (pos s.start_ns) shift
          h.placed.start_ns,
      shift_distance o.end_ns from (pos to) h.place.offset (pos s.end_ns) shift h.placed.end_ns,
      held-KeepDistance scenario_id ids offset from to os ss same held.1,
    )

pub next_time : (z : ℤ) (n : ℕ) → z ≡ pos n → z +ℤ pos 1 ≡ pos (n + 1)
unfolding ◌+ℤ◌
next_time z n h = rw h (ground arith)

Layout-Timeline :
    (run_id : List ℕ) (captures : List Capture) (p last : Progress) (spans : List Span)
    (time end_time : ℕ)
    → Layout run_id captures p spans last
    → p.next_time ≡ pos time
    → last.next_time ≡ pos end_time
    → Timeline time captures spans end_time
Layout-Timeline run_id [] p last spans time end_time l now later =
    (l.0, ground (arith, ap (λ (x : Progress). x.next_time) l.1))
Layout-Timeline run_id (c ∷ cs) p last spans time end_time (q, first, rest, both, head, tail) now
      later =
    let b = head.boundary in
    let start : head.scenario.start_ns ≡ time = ground (arith, b.start_ns) in
    let shift : head.offset ≡ pos time -ℤ c.scenario.interval.start_ns =
      head.shift ∙ ap (λ (z : ℤ). z -ℤ c.scenario.interval.start_ns) now in
    (
      head.scenario,
      head.operations,
      rest,
      both ∙ ap (λ (x : List Span). x ++ rest) head.both,
      start,
      shift_distance c.scenario.interval.end_ns c.scenario.interval.start_ns (pos time) head.offset
          (pos head.scenario.end_ns) shift (sym head.ends ∙ b.end_ns),
      held-KeepDistance (span_id p.next_id) head.ids head.offset c.scenario.interval.start_ns time
          c.operations head.operations shift head.hold,
      Layout-Timeline run_id cs q last rest (head.scenario.end_ns + 1) end_time tail
          (head.next_time ∙ next_time head.end_time head.scenario.end_ns b.end_ns) later,
    )

-- The first span of an encoded document starts at 1. The scenarios follow from 2 on, each one
-- nanosecond after the end of the one before it and as long as in its capture, with each
-- operation as far from the scenario's start as in the capture. The first span ends one
-- nanosecond after the last scenario.
pub encode_document-Timeline :
    (captures : List Capture) (metadata : Metadata) (identity : Identity) (r : Document × ℕ)
    → encode_document captures metadata identity ≡ ok r
    → (run : Span) × (rest : List Span) × (r.0.spans ≡ run ∷ rest)
      × (run.start_ns ≡ 1)
      × Timeline 2 captures rest run.end_ns
encode_document-Timeline captures metadata identity r h =
    let d = encode_document-IsDocument captures metadata identity r h in
    let first = identity.first_id in
    (
      d.run,
      d.rest,
      d.both,
      ground (arith, d.boundary.start_ns),
      Layout-Timeline (span_id first) captures (started first) d.last d.rest 2 d.run.end_ns d.layout
          refl d.boundary.end_ns,
    )
