-- ===== src/Compare/Documents/Laws.antt =====
-- The report of `compare_loaded`: what it says of its inputs, and when it says equivalent.
use specgate.Prelude.{
  suc, String, true, ◌&&◌, List, [], ◌∷◌, ◌++◌, Option, none, some, ◌≡◌, ◌∙◌, sym, ap, refl, inl,
  inr, ◌↔◌, arith, is_empty, length, append-eq-nil, Bool-cases,
}
use specgate.Model.{RegistrySet, TraceDocument}
use specgate.Linked.Operation.{check_linked}
use specgate.Render.{Format, Issues, Loaded}
use specgate.Compare.Outcome.{Outcome, done, >>=-eq-done}
use specgate.Compare.Report.{Sink, quiet, ValidationDiagnostic, ComparisonReport}
use specgate.Compare.Documents.{
  prefix_issues, registry_issues, loaded_registry, linked_issues, loading_failures, compare_valid,
  report_of, compare_documents, compare_loaded,
}

prefix_issues-nil : (prefix : String) (is : Issues) → prefix_issues prefix is ≡ [] → is ≡ []
unfolding prefix_issues
prefix_issues-nil prefix [] h = refl
prefix_issues-nil prefix (i ∷ is) h = absurd (ground arith)

abbrev pub IssueFree : Option (Loaded RegistrySet) → Type 0
IssueFree none = Unit
IssueFree (some set) = set.issues ≡ []

registry_issues-nil : (set : Option (Loaded RegistrySet)) → registry_issues set ≡ [] → IssueFree set
unfolding registry_issues
registry_issues-nil none h = tt
registry_issues-nil (some set) h = prefix_issues-nil "registry" set.issues h

is_empty-nil : {A : Type 0} (xs : List A) → is_empty xs ≡ true → xs ≡ []
is_empty-nil [] h = refl
is_empty-nil (x ∷ xs) h = absurd (ground arith)

sink-quiet : (sink : Sink) → sink.errors ≡ [] → sink.mismatches ≡ [] → sink ≡ quiet
sink-quiet sink e m = λ i. record { errors = e i; mismatches = m i }

abbrev from_done : {A : Type 0} → A → Outcome A → A
from_done fallback (done x) = x
from_done fallback _ = fallback

pub done-injective : {A : Type 0} (x y : A) → done x ≡ done y → x ≡ y
done-injective x y h = ap (from_done x) h

module _ (fmt : Format) where
  -- The linked checks find nothing in either document, where there is a registry.
  abbrev pub LinkFree : TraceDocument → TraceDocument → Option RegistrySet → Type 0
  LinkFree r c none = Unit
  LinkFree r c (some registry) =
      (check_linked fmt registry r ≡ []) × (check_linked fmt registry c ≡ [])

  linked_issues-nil :
      (r c : TraceDocument) (registry : Option RegistrySet)
      → linked_issues fmt (some r) (some c) registry ≡ []
      → LinkFree r c registry
  unfolding linked_issues
  linked_issues-nil r c none h = tt
  linked_issues-nil r c (some registry) h =
      let (left, right) =
        append-eq-nil (prefix_issues "reference linked" (check_linked fmt registry r)) _ h in
      (prefix_issues-nil "reference linked" _ left, prefix_issues-nil "candidate linked" _ right)

  -- No check of the documents, of the registry or of their linkage finds anything.
  abbrev pub Valid :
      Loaded TraceDocument
      → Loaded TraceDocument
      → TraceDocument
      → TraceDocument
      → Option (Loaded RegistrySet)
      → Type 0
  Valid reference candidate r c set =
      (reference.issues ≡ [])
      × (candidate.issues ≡ [])
      × IssueFree set
      × LinkFree r c (loaded_registry set)

  abbrev holding : TraceDocument → Issues → Loaded TraceDocument
  holding document issues = record { value = some document; issues = issues }

  loading_failures-nil :
      (r c : TraceDocument) (ri ci : Issues) (set : Option (Loaded RegistrySet))
      → loading_failures fmt (holding r ri) (holding c ci) set ≡ []
      → Valid (holding r ri) (holding c ci) r c set
  unfolding loading_failures
  loading_failures-nil r c ri ci set h =
      let own =
        prefix_issues "reference" ri ++ (prefix_issues "candidate" ci ++ registry_issues set) in
      elim (Bool-cases (is_empty own)) [
        | inr some_left ↦
            let same : own ≡ [] = rw some_left at h in
            absurd (let wrong = rw same at some_left in ground arith)
        | inl none_left ↦
            let (own_nil, linked) = append-eq-nil own _ (rw none_left at h) in
            let (left, rest) = append-eq-nil (prefix_issues "reference" ri) _ own_nil in
            let (right, given) = append-eq-nil (prefix_issues "candidate" ci) _ rest in
            (
              prefix_issues-nil "reference" ri left,
              prefix_issues-nil "candidate" ci right,
              registry_issues-nil set given,
              linked_issues-nil r c (loaded_registry set) linked,
            )
      ]

  LinkFree-linked_issues :
      (r c : TraceDocument) (registry : Option RegistrySet)
      → LinkFree r c registry
      → linked_issues fmt (some r) (some c) registry ≡ []
  unfolding linked_issues prefix_issues
  LinkFree-linked_issues r c none h = refl
  LinkFree-linked_issues r c (some registry) h = rw (h.0, h.1) refl

  Valid-loading_failures :
      (r c : TraceDocument) (ri ci : Issues) (set : Option (Loaded RegistrySet))
      → Valid (holding r ri) (holding c ci) r c set
      → loading_failures fmt (holding r ri) (holding c ci) set ≡ []
  unfolding loading_failures prefix_issues registry_issues
  Valid-loading_failures r c ri ci none v = rw (v.0, v.1) (LinkFree-linked_issues r c none tt)
  Valid-loading_failures r c ri ci (some set) v =
      rw (v.0, v.1, v.2) (LinkFree-linked_issues r c set.value v.3)

  module _ (reference candidate : String) where
    equivalent_iff :
        (failures : List ValidationDiagnostic) (sink : Sink) (report : ComparisonReport)
        → report_of fmt reference candidate failures sink ≡ report
        → (report.equivalent ≡ true) ↔ ((failures ≡ []) × (sink ≡ quiet))
    equivalent_iff failures sink report h = (
      λ equal.
          let all : is_empty failures && (is_empty sink.errors && is_empty sink.mismatches) ≡ true =
            ap (λ (x : ComparisonReport). x.equivalent) h ∙ equal in
          (
            is_empty-nil failures (ground arith),
            sink-quiet sink (is_empty-nil sink.errors (ground arith))
                (is_empty-nil sink.mismatches (ground arith)),
          ),
      λ (none_left, same).
          sym (ap (λ (x : ComparisonReport). x.equivalent) h) ∙ rw (none_left, same) refl,
    )

    -- Where both documents are there, a report says equivalent exactly when no document and no
    -- registry has an issue, the linked checks find nothing, and the comparison of the documents
    -- returns neither an error nor a mismatch.
    pub compare_loaded-equivalent :
        (r c : TraceDocument) (ri ci : Issues) (set : Option (Loaded RegistrySet))
        (report : ComparisonReport)
        → compare_loaded fmt reference candidate
            (record { value = some r; issues = ri })
            (record { value = some c; issues = ci })
            set
          ≡ done report
        → (report.equivalent ≡ true) ↔ (
            Valid
              (record { value = some r; issues = ri })
              (record { value = some c; issues = ci })
              r
              c
              set
            × (compare_documents fmt (suc (length r.spans)) r c (loaded_registry set) ≡ done quiet))
    unfolding compare_loaded compare_valid
    compare_loaded-equivalent r c ri ci set report h =
        let failures = loading_failures fmt (holding r ri) (holding c ci) set in
        let (sink, compared, reported) =
          >>=-eq-done
            (compare_valid fmt (is_empty failures) (some r) (some c) (loaded_registry set)) _ h in
        let verdict = equivalent_iff failures sink report (done-injective _ report reported) in
        (
          λ equal.
              let (none_left, quiet_sink) = verdict.0 equal in
              let all = rw none_left at compared in
              (
                loading_failures-nil r c ri ci set none_left,
                all ∙ ap (λ (x : Sink). done x) quiet_sink,
              ),
          λ (valid, same).
              let none_left = Valid-loading_failures r c ri ci set valid in
              let all = rw none_left at compared in
              verdict.1 (none_left, done-injective sink quiet (sym all ∙ same)),
        )
