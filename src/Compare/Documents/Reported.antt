-- ===== src/Compare/Documents/Reported.antt =====
-- What `compare_loaded` reports when an artifact has an issue.
use specgate.Prelude.{
  String, false, List, [], ◌∷◌, ◌++◌, Option, some, ◌≡◌, ◌∙◌, sym, ap, refl, ◌⊎◌, inl, inr,
  is_empty,
}
use specgate.Prelude.Elem.{Elem, Elem-left, Elem-right}
use mathlib.Core.Path.{subst}
use specgate.Prelude.Text.{format}
use specgate.Model.{RegistrySet, TraceDocument}
use specgate.Render.{Format, ValidationIssue, Issues, Loaded}
use specgate.Compare.Outcome.{done}
use specgate.Compare.Report.{quiet, ValidationDiagnostic, ComparisonReport}
use specgate.Compare.Documents.{
  prefix_issues, registry_issues, loading_failures, compare_valid, report_of, compare_loaded,
}
use specgate.Compare.Documents.Laws.{done-injective}

-- What the report writes for an issue of an artifact.
abbrev pub prefixed : String → ValidationIssue → ValidationDiagnostic
prefixed side i = record { location = format (side ∷ ":" ∷ i.location ∷ []); message = i.message }

prefix_issues-Elem :
    (side : String) (i : ValidationIssue) (is : Issues)
    → Elem i is
    → Elem (prefixed side i) (prefix_issues side is)
unfolding prefix_issues
prefix_issues-Elem side i [] e = absurd e
prefix_issues-Elem side i (j ∷ is) (inl same) = inl (ap (prefixed side) same)
prefix_issues-Elem side i (j ∷ is) (inr later) = inr (prefix_issues-Elem side i is later)

-- An issue of a document or of the registry, with the name of its side.
abbrev pub HasIssue :
    Loaded TraceDocument
    → Loaded TraceDocument
    → Option (Loaded RegistrySet)
    → String
    → ValidationIssue
    → Type 0
HasIssue r c set side i =
    ((side ≡ "reference") × Elem i r.issues)
    ⊎ ((side ≡ "candidate") × Elem i c.issues)
    ⊎ ((side ≡ "registry")
        × ((loaded : Loaded RegistrySet) × (set ≡ some loaded) × Elem i loaded.issues))

abbrev own_issues :
    Loaded TraceDocument
    → Loaded TraceDocument
    → Option (Loaded RegistrySet)
    → List ValidationDiagnostic
own_issues r c set =
    prefix_issues "reference" r.issues
    ++ (prefix_issues "candidate" c.issues ++ registry_issues set)

named-Elem :
    (name side : String) (i : ValidationIssue) (is : Issues)
    → side ≡ name
    → Elem i is
    → Elem (prefixed side i) (prefix_issues name is)
named-Elem name side i is same e =
    subst (λ (n : String). Elem (prefixed side i) (prefix_issues n is)) same
      (prefix_issues-Elem side i is e)

own_issues-Elem :
    (r c : Loaded TraceDocument) (set : Option (Loaded RegistrySet)) (side : String)
    (i : ValidationIssue)
    → HasIssue r c set side i
    → Elem (prefixed side i) (own_issues r c set)
unfolding registry_issues
own_issues-Elem r c set side i (inl (name, e)) =
    Elem-left _ _ _ (named-Elem "reference" side i r.issues name e)
own_issues-Elem r c set side i (inr (inl (name, e))) =
    Elem-right _ (prefix_issues "reference" r.issues) _
      (Elem-left _ _ _ (named-Elem "candidate" side i c.issues name e))
own_issues-Elem r c set side i (inr (inr (name, (loaded, given, e)))) =
    Elem-right _ (prefix_issues "reference" r.issues) _ (
      Elem-right _ (prefix_issues "candidate" c.issues) _
        (rw given (named-Elem "registry" side i loaded.issues name e)))

nonempty : {A : Type 0} (x : A) (xs : List A) → Elem x xs → is_empty xs ≡ false
nonempty x [] e = absurd e
nonempty x (y ∷ ys) e = refl

module _ (fmt : Format) (reference candidate : String) where
  failures-own :
      (r c : Loaded TraceDocument) (set : Option (Loaded RegistrySet))
      → is_empty (own_issues r c set) ≡ false
      → loading_failures fmt r c set ≡ own_issues r c set
  unfolding loading_failures
  failures-own r c set h = rw h refl

  compare_loaded-own :
      (r c : Loaded TraceDocument) (set : Option (Loaded RegistrySet))
      → is_empty (own_issues r c set) ≡ false
      → compare_loaded fmt reference candidate r c set
        ≡ done (report_of fmt reference candidate (own_issues r c set) quiet)
  unfolding compare_loaded compare_valid
  compare_loaded-own r c set h = rw (failures-own r c set h, h) refl

  -- Where a document or the registry has an issue, the report lists it, with the name of its side
  -- in front of its location; it does not say equivalent, and it has no error and no mismatch.
  pub compare_loaded-reports :
      (r c : Loaded TraceDocument) (set : Option (Loaded RegistrySet)) (report : ComparisonReport)
      (side : String) (i : ValidationIssue)
      → HasIssue r c set side i
      → compare_loaded fmt reference candidate r c set ≡ done report
      → Elem (prefixed side i) report.validation_failures
        × (report.equivalent ≡ false)
        × (report.errors ≡ [])
        × (report.mismatches ≡ [])
  compare_loaded-reports r c set report side i has h =
      let own = own_issues-Elem r c set side i has in
      let some_left = nonempty (prefixed side i) (own_issues r c set) own in
      let same : report_of fmt reference candidate (own_issues r c set) quiet ≡ report =
        done-injective _ report (sym (compare_loaded-own r c set some_left) ∙ h) in
      (
        subst (λ (x : ComparisonReport). Elem (prefixed side i) x.validation_failures) same own,
        sym (ap (λ (x : ComparisonReport). x.equivalent) same) ∙ rw some_left refl,
        sym (ap (λ (x : ComparisonReport). x.errors) same),
        sym (ap (λ (x : ComparisonReport). x.mismatches) same),
      )
