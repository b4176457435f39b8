-- ===== src/Capture/Run/Returns.antt =====
-- `encode` returns a document or an error on the captures of a run in time order.
use specgate.Prelude.{
  ℕ, String, Bool, false, List, ◌≡◌, refl, ◌⊎◌, inl, inr, arith, length, is_empty, Bool-cases,
  if◌then◌else◌,
}
use specgate.Prelude.Elem.{All}
use specgate.Prelude.Int.{ℤ, pos}
use specgate.Prelude.Order.{string_order}
use specgate.Prelude.Text.{codes}
use specgate.Capture.Evidence.{Status, Capture, Metadata}
use specgate.Capture.Wire.{wire_trace_id, unix_nanos, wire_status, Document}
use specgate.Capture.Encoding.{Identity, checked_id, next_of, status_code}
use specgate.Capture.Scenario.{Progress}
use specgate.Capture.Run.{
  encode_scenarios, run_wire, encode_document, count_spans, json_or_err, encode,
}
use specgate.Capture.Run.Parts.{next_of-ok}
use specgate.Capture.Run.Layout.{encode_scenarios-Layout}
use specgate.Capture.Run.Panics.{
  NoPanic, NoPanic-bind, checked_id-NoPanic, unix_nanos-NoPanic, wire_status-NoPanic,
}
use specgate.Capture.Run.Sound.{IsTimely, next_of-NoPanic}
use specgate.Capture.Run.Steps.{IsId, encode_scenarios-NoPanic, Layout-time}

run_wire-NoPanic :
    (trace_id : List ℕ) (run_id : String) (id : List ℕ) (end_time : ℤ) (has_error : Bool) (n : ℕ)
    → NoPanic (wire_trace_id trace_id)
    → end_time ≡ pos n
    → NoPanic (run_wire trace_id run_id id end_time has_error)
unfolding run_wire unix_nanos
run_wire-NoPanic trace_id run_id id end_time has_error n traced ended =
    NoPanic-bind (wire_trace_id trace_id) _ traced (λ t ht.
      NoPanic-bind (unix_nanos end_time) _ (unix_nanos-NoPanic end_time n ended) (λ e he.
        NoPanic-bind (wire_status (status_code (if has_error then Status.error else Status.ok))) _
          (wire_status-NoPanic (if has_error then Status.error else Status.ok)) (λ x hx. tt)))

-- An identity that has a valid trace id and a first id that is not zero.
pub record IsIdentity (i : Identity) : Type 0 where
  pub trace_id : NoPanic (wire_trace_id (codes i.trace_id))
  pub first_id : IsId i.first_id

encode_document-NoPanic :
    (captures : List Capture) (metadata : Metadata) (identity : Identity)
    → IsIdentity identity
    → All IsTimely captures
    → NoPanic (encode_document captures metadata identity)
unfolding encode_document
encode_document-NoPanic captures metadata identity sound timely =
    let trace_id = codes identity.trace_id in
    let first = identity.first_id in
    NoPanic-bind (checked_id first) _ (checked_id-NoPanic first sound.first_id.0 sound.first_id.1)
      (λ id hid. NoPanic-bind (next_of first) _ (next_of-NoPanic first) (λ next_id hnext.
        let fits = next_of-ok first next_id hnext in
        let p : Progress = record {
          next_id = next_id;
          next_time = pos 2;
          operation_count = 0;
          has_error = false;
        } in
        NoPanic-bind (encode_scenarios trace_id id 0 captures p) _
          (encode_scenarios-NoPanic trace_id id 0 captures p 2 sound.trace_id timely
            (ground (arith, fits), ground (arith, fits)) refl)
          (λ s hs.
            let (n, ended) =
              Layout-time id captures p s.1 s.0 2
                (encode_scenarios-Layout trace_id id 0 captures p s hs) refl in
            NoPanic-bind (run_wire trace_id identity.run_id id s.1.next_time s.1.has_error) _
              (run_wire-NoPanic trace_id identity.run_id id s.1.next_time s.1.has_error n
                sound.trace_id ended)
              (λ run hrun. tt))))

json_or_err-NoPanic : (o : String ⊎ String) → NoPanic (json_or_err o)
json_or_err-NoPanic (inl error) = tt
json_or_err-NoPanic (inr json) = tt

count_spans-NoPanic : (operations captures : ℕ) → NoPanic (count_spans operations captures)
unfolding count_spans
count_spans-NoPanic operations captures = ground arith

-- `encode` panics nowhere when the trace id of the identity is valid and its first id a positive
-- number of 64 bits, each scenario ends no earlier than it starts, and no time of an operation,
-- of its observations or of its completion lies before the start of its scenario.
pub encode-NoPanic :
    (to_json : Document → String ⊎ String) (captures : List Capture) (metadata : Metadata)
    (identity : Identity)
    → IsIdentity identity
    → All IsTimely captures
    → NoPanic (encode to_json captures metadata identity)
unfolding encode
encode-NoPanic to_json captures metadata identity sound timely =
    elim (Bool-cases (is_empty captures)) [
      | inl none_left ↦ rw none_left tt
      | inr present ↦ rw present (
          NoPanic-bind (encode_document captures metadata identity) _
            (encode_document-NoPanic captures metadata identity sound timely)
            (λ d hd.
              NoPanic-bind (json_or_err (to_json d.0)) _ (json_or_err-NoPanic (to_json d.0))
                (λ json hjson.
                  NoPanic-bind (count_spans d.1 (length captures)) _
                    (count_spans-NoPanic d.1 (length captures)) (λ count hcount. tt))))
    ]
