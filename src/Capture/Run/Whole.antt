-- ===== src/Capture/Run/Whole.antt =====
-- The document of a run: its spans, and their ids.
use specgate.Prelude.{
  ℕ, zero, suc, ◌+◌, ◌≤◌, ◌<◌, false, none, List, [], ◌∷◌, ◌≡◌, refl, sym, ap, inl, inr, arith,
  length, map,
}
use mathlib.Core.Path.{subst}
use specgate.Prelude.Elem.{Elem}
use specgate.Prelude.Int.{pos}
use specgate.Prelude.Text.{codes}
use specgate.Names.{run_span}
use specgate.Registry.Checks.Distinct.{Distinct}
use specgate.Capture.Evidence.{Capture, Metadata}
use specgate.Capture.Wire.{ok, >>=-eq-ok, Span, Document}
use specgate.Capture.Encoding.{Identity, checked_id, span_id, next_of}
use specgate.Capture.Encoding.Hex.{span_id-injective}
use specgate.Capture.Scenario.{Progress}
use specgate.Capture.Run.{encode_scenarios, run_wire, document_of, encode_document}
use specgate.Capture.Run.Parts.{checked_id-ok, next_of-ok, IsBoundary, run_wire-IsBoundary}
use specgate.Capture.Run.Numbers.{ids_from, span_ids}
use specgate.Capture.Run.Layout.{Layout, encode_scenarios-Layout, Layout-IsNumbered}

abbrev pub started : ℕ → Progress
started first = record {
  next_id = first + 1;
  next_time = pos 2;
  operation_count = 0;
  has_error = false;
}

-- What `encode_document` returns.
pub record IsDocument (captures : List Capture) (first : ℕ) (spans : List Span) (count : ℕ)
    : Type 0 where
  pub run : Span
  pub rest : List Span
  pub last : Progress
  pub both : spans ≡ run ∷ rest
  pub fits : first + 1 < 18446744073709551616
  pub boundary : IsBoundary run_span (span_id first) none (pos 1) last.next_time run
  pub layout : Layout (span_id first) captures (started first) rest last
  pub counted : count ≡ last.operation_count

pub encode_document-IsDocument :
    (captures : List Capture) (metadata : Metadata) (identity : Identity) (r : Document × ℕ)
    → encode_document captures metadata identity ≡ ok r
    → IsDocument captures identity.first_id r.0.spans r.1
unfolding encode_document
encode_document-IsDocument captures metadata identity r h =
    let trace_id = codes identity.trace_id in
    let first = identity.first_id in
    let (id, identified, h1) = >>=-eq-ok (checked_id first) _ h in
    let (next_id, counted, h2) = >>=-eq-ok (next_of first) _ h1 in
    let (s, scenarios, h3) =
      >>=-eq-ok
        (encode_scenarios trace_id id 0 captures
          (record { next_id = next_id; next_time = pos 2; operation_count = 0; has_error = false }))
        _ h2 in
    let (run, encoded, h4) =
      >>=-eq-ok (run_wire trace_id identity.run_id id s.1.next_time s.1.has_error) _ h3 in
    let named = checked_id-ok first id identified in
    let (after, fits) = next_of-ok first next_id counted in
    let same : (document_of metadata (run ∷ s.0), s.1.operation_count) ≡ r = ground arith in
    record {
      run = run;
      rest = s.0;
      last = s.1;
      both = ap (λ (x : Document × ℕ). x.0.spans) (sym same);
      fits = fits;
      boundary =
          subst (λ (x : List ℕ). IsBoundary run_span x none (pos 1) s.1.next_time run) named
            (run_wire-IsBoundary trace_id identity.run_id id s.1.next_time s.1.has_error run
              encoded);
      layout =
          subst (λ (x : List ℕ). Layout x captures (started first) s.0 s.1) named
            (encode_scenarios-Layout trace_id id 0 captures (started first) s (
              subst
                (λ (n : ℕ).
                  encode_scenarios trace_id id 0 captures (record {
                    next_id = n;
                    next_time = pos 2;
                    operation_count = 0;
                    has_error = false;
                  })
                  ≡ ok s)
                after scenarios));
      counted = ap (λ (x : Document × ℕ). x.1) (sym same);
    }

Layout-bound :
    (run_id : List ℕ) (captures : List Capture) (p last : Progress) (spans : List Span)
    → Layout run_id captures p spans last
    → p.next_id < 18446744073709551616
    → last.next_id < 18446744073709551616
Layout-bound run_id [] p last spans l below = rw l.1 below
Layout-bound run_id (c ∷ cs) p last spans (q, first, rest, both, head, tail) below =
    Layout-bound run_id cs q last rest tail head.bound

later_ids :
    (n m count : ℕ)
    → n < m
    → m + count ≤ 18446744073709551616
    → ¬ Elem (span_id n) (ids_from m count)
later_ids n m zero below fits e = e
later_ids n m (suc count) below fits (inl same) =
    let equal = span_id-injective n m (omega arith) (omega arith) same in omega arith
later_ids n m (suc count) below fits (inr e) =
    later_ids n (m + 1) count (omega arith) (omega arith) e

ids_from-Distinct : (n count : ℕ) → n + count ≤ 18446744073709551616 → Distinct (ids_from n count)
ids_from-Distinct n zero fits = tt
ids_from-Distinct n (suc count) fits = (
  later_ids n (n + 1) count (omega arith) (omega arith),
  ids_from-Distinct (n + 1) count (omega arith),
)

IsDocument-ids :
    (captures : List Capture) (first : ℕ) (spans : List Span) (count : ℕ)
    → IsDocument captures first spans count
    → (span_ids spans ≡ ids_from first (length spans))
      × (first + length spans ≤ 18446744073709551616)
IsDocument-ids captures first spans count d =
    let numbered =
      Layout-IsNumbered (span_id first) captures (started first) d.last d.rest d.layout in
    let bound =
      Layout-bound (span_id first) captures (started first) d.last d.rest d.layout d.fits in
    (rw d.both (rw (d.boundary.id, numbered.ids) refl), rw d.both (ground (arith, numbered.total)))

-- The spans of an encoded document have consecutive ids from the first id of the identity, in
-- the order of the document.
pub encode_document-ids :
    (captures : List Capture) (metadata : Metadata) (identity : Identity) (r : Document × ℕ)
    → encode_document captures metadata identity ≡ ok r
    → map (λ (s : Span). s.id) r.0.spans ≡ ids_from identity.first_id (length r.0.spans)
encode_document-ids captures metadata identity r h =
    (IsDocument-ids captures identity.first_id r.0.spans r.1
      (encode_document-IsDocument captures metadata identity r h)).0

-- No two spans of an encoded document have the same id.
pub encode_document-Distinct :
    (captures : List Capture) (metadata : Metadata) (identity : Identity) (r : Document × ℕ)
    → encode_document captures metadata identity ≡ ok r
    → Distinct (map (λ (s : Span). s.id) r.0.spans)
encode_document-Distinct captures metadata identity r h =
    let (same, fits) =
      IsDocument-ids captures identity.first_id r.0.spans r.1
        (encode_document-IsDocument captures metadata identity r h) in
    rw same (ids_from-Distinct identity.first_id (length r.0.spans) fits)
