-- ===== src/Compare/Same/Valid.antt =====
-- A valid document compared with itself.
use specgate.Prelude.{suc, true, Option, some, [], ◌≡◌, refl, length, arith}
use specgate.Prelude.Elem.{All}
use specgate.Model.{RegistrySet, TraceDocument}
use specgate.Render.{Format}
use specgate.Trace.Semantics.{validate_semantics}
use specgate.Trace.Semantics.Nesting.{is_ctsc, validate_semantics-IsNested}
use specgate.Compare.Outcome.{Outcome, done, panic, out_of_fuel}
use specgate.Compare.Report.{Sink}
use specgate.Compare.Documents.{compare_documents}
use specgate.Compare.Same.Children.{NoMismatch}
use specgate.Compare.Same.Document.{compare_documents_self}
use specgate.Compare.Total.Children.{is_done}
use specgate.Compare.Total.Document.{compare_documents-is_done}

returned :
    (o : Outcome Sink)
    → is_done o ≡ true
    → NoMismatch o
    → (sink : Sink) × ((o ≡ done sink) × (sink.mismatches ≡ []))
returned (done sink) h n = (sink, (refl, n))
returned panic h n = absurd (ground arith)
returned out_of_fuel h n = absurd (ground arith)

-- The comparison of a document with itself returns and finds no mismatch, whatever the registry,
-- if the spans of the document are CTSC spans and semantic validation finds no issue in it.
pub compare_documents-valid :
    (fmt : Format) (registry : Option RegistrySet) (document : TraceDocument)
    → All (λ s. is_ctsc s ≡ true) document.spans
    → validate_semantics document.spans ≡ some []
    → (sink : Sink) × ((compare_documents fmt
            (suc (length document.spans))
            document
            document
            registry
          ≡ done sink)
        × (sink.mismatches ≡ []))
compare_documents-valid fmt registry document ctsc valid =
    let fuel = suc (length document.spans) in
    returned (compare_documents fmt fuel document document registry)
      (compare_documents-is_done fmt registry document document valid valid fuel (omega arith))
      (compare_documents_self fmt registry document
        (validate_semantics-IsNested document ctsc valid) fuel)
