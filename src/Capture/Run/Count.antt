-- ===== src/Capture/Run/Count.antt =====
-- `encode`: the count of the spans that it reports beside the document.
use specgate.Prelude.{
  ℕ, suc, ◌+◌, ◌<◌, String, false, List, [], ◌∷◌, ◌≡◌, ◌∙◌, ap, ◌⊎◌, inl, inr, arith, length,
  length-append, is_empty, Bool-cases,
}
use specgate.Capture.Evidence.{Capture, Metadata}
use specgate.Capture.Wire.{ok, >>=-eq-ok, Span, Document}
use specgate.Capture.Encoding.{Identity, span_id}
use specgate.Capture.Scenario.{Progress}
use specgate.Capture.Run.{encode_document, count_spans, json_or_err, Encoding, encode}
use specgate.Capture.Run.Layout.{Layout, own_ids}
use specgate.Capture.Run.Whole.{started, encode_document-IsDocument}

Layout-count :
    (run_id : List ℕ) (captures : List Capture) (p last : Progress) (spans : List Span)
    → Layout run_id captures p spans last
    → last.operation_count + length captures ≡ p.operation_count + length spans
Layout-count run_id [] p last spans l =
    rw l.0 (ground (arith, ap (λ (x : Progress). x.operation_count) l.1))
Layout-count run_id (c ∷ cs) p last spans (q, first, rest, both, head, tail) =
    let (own, same) =
      own_ids (span_id p.next_id) head.ids head.offset c.operations head.operations (p.next_id + 1)
        head.hold head.assigned in
    let later = Layout-count run_id cs q last rest tail in
    let long : length first ≡ suc (length head.operations) = ap length head.both in
    rw both (ground (arith, length-append first rest, head.counted))

json_or_err-ok : (o : String ⊎ String) (json : String) → json_or_err o ≡ ok json → o ≡ inr json
json_or_err-ok (inl error) json h = absurd (ground arith)
json_or_err-ok (inr text) json h = ground arith

count_spans-ok :
    (operations captures n : ℕ)
    → count_spans operations captures ≡ ok n
    → (n ≡ operations + captures + 1) × (n < 2147483648)
unfolding count_spans
count_spans-ok operations captures n h = ground arith

-- When `encode` returns, there was a capture, the text is that of the document, and the span
-- count is the number of the document's spans, which fits an i32.
pub encode-span_count :
    (to_json : Document → String ⊎ String) (captures : List Capture) (metadata : Metadata)
    (identity : Identity) (e : Encoding)
    → encode to_json captures metadata identity ≡ ok e
    → (document : Document) × (count : ℕ) × (encode_document captures metadata identity
        ≡ ok (document, count))
      × (to_json document ≡ inr e.otlp_json)
      × (e.span_count ≡ length document.spans)
      × (e.span_count < 2147483648)
      × (is_empty captures ≡ false)
unfolding encode
encode-span_count to_json captures metadata identity e h = elim (Bool-cases (is_empty captures)) [
  | inl none_left ↦ absurd (let wrong = rw none_left at h in ground arith)
  | inr present ↦
      let (d, encoded, h1) =
        >>=-eq-ok (encode_document captures metadata identity) _ (rw present at h) in
      let (json, written, h2) = >>=-eq-ok (json_or_err (to_json d.0)) _ h1 in
      let (n, counted, h3) = >>=-eq-ok (count_spans d.1 (length captures)) _ h2 in
      let doc = encode_document-IsDocument captures metadata identity d encoded in
      let (total, fits) = count_spans-ok d.1 (length captures) n counted in
      let all =
        Layout-count (span_id identity.first_id) captures (started identity.first_id) doc.last
          doc.rest doc.layout in
      let text : json ≡ e.otlp_json = ground arith in
      let long : length d.0.spans ≡ suc (length doc.rest) = ap length doc.both in
      let count : n ≡ e.span_count = ground arith in
      (
        d.0,
        d.1,
        encoded,
        json_or_err-ok (to_json d.0) json written ∙ ap (λ (x : String). inr x) text,
        omega (arith, doc.counted),
        omega arith,
        present,
      )
]
