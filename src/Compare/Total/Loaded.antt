-- ===== src/Compare/Total/Loaded.antt =====
-- `compare_loaded` returns a report.
use specgate.Prelude.{
  suc, String, Bool, true, false, Option, some, [], ◌≡◌, refl, length, is_empty, arith,
}
use specgate.Model.{RegistrySet, TraceDocument}
use specgate.Render.{Format, Issues, Loaded}
use specgate.Trace.Semantics.{validate_semantics}
use specgate.Compare.Documents.{loading_failures, loaded_registry, compare_valid, compare_loaded}
use specgate.Compare.Total.Children.{is_done}
use specgate.Compare.Total.Document.{compare_documents-is_done}

module _ (fmt : Format) (reference candidate : TraceDocument)
    (r_valid : validate_semantics reference.spans ≡ some [])
    (c_valid : validate_semantics candidate.spans ≡ some []) where
  compare_valid-is_done :
      (valid : Bool) (registry : Option RegistrySet)
      → is_done (compare_valid fmt valid (some reference) (some candidate) registry) ≡ true
  unfolding compare_valid
  compare_valid-is_done true registry =
      compare_documents-is_done fmt registry reference candidate r_valid c_valid
        (suc (length reference.spans)) (omega arith)
  compare_valid-is_done false registry = refl

  -- The comparison of two loaded documents returns a report if semantic validation finds no issue
  -- in either: no expectation on the inputs of an operation fails and the recursion over the
  -- spans ends, whatever issues and registry were loaded with the documents.
  pub compare_loaded-is_done :
      (r_name c_name : String) (r_issues c_issues : Issues)
      (registry_set : Option (Loaded RegistrySet))
      → is_done (
          compare_loaded fmt r_name c_name
            (record { value = some reference; issues = r_issues })
            (record { value = some candidate; issues = c_issues })
            registry_set)
        ≡ true
  unfolding compare_loaded
  compare_loaded-is_done r_name c_name r_issues c_issues registry_set = ground (
    arith,
    compare_valid-is_done
        (is_empty (
          loading_failures fmt (record { value = some reference; issues = r_issues })
            (record { value = some candidate; issues = c_issues }) registry_set))
        (loaded_registry registry_set),
  )
