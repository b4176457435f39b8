-- ===== src/Registry/Cycles/Totality.antt =====
-- The walk of `validate_cycles` ends: each step down visits a document that is not under visit.
use specgate.Prelude.{
  ℕ, zero, suc, ◌+◌, ◌≤◌, ◌<◌, String, Bool, true, false, ◌||◌, Option, none, some, List, [], ◌∷◌,
  ◌++◌, ◌≡◌, refl, inl, inr, arith, any, length, if◌then◌else◌, Bool-cases, Option-cases,
}
use specgate.Prelude.Elem.{Elem}
use specgate.Prelude.Order.{string_order, get, contains_key, has_key, keys}
use specgate.Prelude.Text.{str_eq}
use text.Mathlib.TextEquality.{eq_iff}
use specgate.Model.{RegistryImport}
use specgate.Render.{Issues}
use specgate.Compare.Outcome.{Outcome, done, ◌>>=◌, expect}
use specgate.Registry.Cycles.{
  Member, Members, Visit, pushed, mark, add_issues, visit_imports, visit_document, visit, visit_all,
  validate_cycles,
}

abbrev pub IsDone {ℓ} : {A : Type ℓ} → Outcome A → Type ℓ
IsDone {A = A} o = (a : A) × (o ≡ done a)

pub >>=-IsDone {ℓ κ} :
    {A : Type ℓ} {B : Type κ} (m : Outcome A) (f : A → Outcome B)
    → IsDone m
    → ((a : A) → m ≡ done a → IsDone (f a))
    → IsDone (m >>= f)
>>=-IsDone m f (a, h) k = rw h (k a h)

abbrev under_visit : List String → String → Bool
under_visit visiting id = any (λ v. str_eq v id) visiting

-- The number of documents that are not under visit.
abbrev waiting : List String → Members → ℕ
waiting visiting [] = 0
waiting visiting ((k, m) ∷ ms) = (if under_visit visiting k then 0 else 1) + waiting visiting ms

under_visit-pushed :
    (visiting : List String) (id k : String)
    → under_visit (pushed visiting id) k ≡ (under_visit visiting k || str_eq id k)
under_visit-pushed [] id k = ground arith
under_visit-pushed (v ∷ vs) id k = ground (arith, under_visit-pushed vs id k)

waiting-le :
    (visiting : List String) (id : String) (ms : Members)
    → waiting (pushed visiting id) ms ≤ waiting visiting ms
waiting-le visiting id [] = omega arith
waiting-le visiting id ((k, m) ∷ ms) =
    ground (arith, waiting-le visiting id ms, under_visit-pushed visiting id k)

waiting-lt :
    (visiting : List String) (id : String) (ms : Members)
    → contains_key ms id ≡ true
    → under_visit visiting id ≡ false
    → waiting (pushed visiting id) ms < waiting visiting ms
waiting-lt visiting id [] known fresh = absurd (ground arith)
waiting-lt visiting id ((k, m) ∷ ms) known fresh = ground (
  arith,
  waiting-lt visiting id ms,
  waiting-le visiting id ms,
  under_visit-pushed visiting id k,
  string_order.cmp_iff id k,
  eq_iff id k,
  eq_iff k k,
)

waiting-nil : (ms : Members) → waiting [] ms ≡ length ms
waiting-nil [] = refl
waiting-nil ((k, m) ∷ ms) = omega (arith, waiting-nil ms)

add_issues-IsDone : (issues : Issues) (rest : Visit) → IsDone rest → IsDone (add_issues issues rest)
add_issues-IsDone issues rest ((visited, more), h) = rw h ((visited, issues ++ more), refl)

module _ (documents : Members) where
  visit_imports-IsDone :
      (on : String → List String → Visit) (imports : List RegistryImport) (visited : List String)
      → ((id : String) (seen : List String)
          → contains_key documents id ≡ true
          → IsDone (on id seen))
      → IsDone (visit_imports documents on imports visited)
  unfolding visit_imports
  visit_imports-IsDone on [] visited h = ((visited, []), refl)
  visit_imports-IsDone on (item ∷ imports) visited h =
      elim (Bool-cases (contains_key documents item.registry_id)) [
        | inl known ↦ rw known (
            >>=-IsDone (on item.registry_id visited)
              (λ r. add_issues r.1 (visit_imports documents on imports r.0))
              (h item.registry_id visited known)
              (λ r p. add_issues-IsDone r.1 _ (visit_imports-IsDone on imports r.0 h)))
        | inr unknown ↦ rw unknown (visit_imports-IsDone on imports visited h)
      ]

  visit_document-IsDone :
      (on : String → List String → Visit) (o : Option Member) (visited : List String)
      → ((id : String) (seen : List String)
          → contains_key documents id ≡ true
          → IsDone (on id seen))
      → IsDone (visit_document documents on o visited)
  visit_document-IsDone on none visited h = ((visited, []), refl)
  visit_document-IsDone on (some m) visited h = visit_imports-IsDone on m.document.imports visited h

  expect-IsDone :
      (id : String) → contains_key documents id ≡ true → IsDone (expect (get documents id))
  expect-IsDone id known = elim (Option-cases (get documents id)) [
    | inl absent ↦ absurd (ground arith)
    | inr (m, found) ↦ (m, rw found refl)
  ]

  visit-IsDone :
      (fuel : ℕ) (visiting : List String) (id : String) (visited : List String)
      → contains_key documents id ≡ true
      → waiting visiting documents < fuel
      → IsDone (visit documents fuel visiting id visited)
  unfolding visit
  visit-IsDone zero visiting id visited known enough = absurd (omega arith)
  visit-IsDone (suc fuel) visiting id visited known enough =
      elim (Bool-cases (has_key id visited)) [
        | inl old ↦ rw old ((visited, []), refl)
        | inr new ↦ elim (Bool-cases (under_visit visiting id)) [
          | inl cyclic ↦
              rw (new, cyclic)
                (>>=-IsDone (expect (get documents id)) _ (expect-IsDone id known)
                  (λ owner p. (_, refl)))
          | inr fresh ↦
              rw (new, fresh)
                (>>=-IsDone
                  (visit_document documents
                    (λ imported seen. visit documents fuel (pushed visiting id) imported seen)
                    (get documents id) visited)
                  (mark id)
                  (visit_document-IsDone
                    (λ imported seen. visit documents fuel (pushed visiting id) imported seen)
                    (get documents id) visited
                    (λ i seen k.
                      visit-IsDone fuel (pushed visiting id) i seen k
                        (omega (arith, waiting-lt visiting id documents known fresh))))
                  (λ r p. (_, refl)))
        ]
      ]

  visit_all-IsDone :
      (fuel : ℕ) (ids visited : List String)
      → ((id : String) → Elem id ids → contains_key documents id ≡ true)
      → length documents < fuel
      → IsDone (visit_all documents fuel ids visited)
  unfolding visit_all
  visit_all-IsDone fuel [] visited known enough = ([], refl)
  visit_all-IsDone fuel (id ∷ ids) visited known enough =
      >>=-IsDone (visit documents fuel [] id visited) _
        (visit-IsDone fuel [] id visited (known id (inl refl))
          (omega (arith, waiting-nil documents)))
        (λ r p.
          >>=-IsDone (visit_all documents fuel ids r.0) (λ more. done (r.1 ++ more))
            (visit_all-IsDone fuel ids r.0 (λ i e. known i (inr e)) enough) (λ more q. (_, refl)))

keys-known : (ms : Members) (id : String) → Elem id (keys ms) → contains_key ms id ≡ true
keys-known [] id e = absurd e
keys-known ((k, m) ∷ ms) id (inl same) = ground (arith, string_order.cmp_iff id k)
keys-known ((k, m) ∷ ms) id (inr e) = ground (arith, keys-known ms id e, string_order.cmp_iff id k)

-- With more fuel than there are documents, `validate_cycles` returns: its recursion ends also on
-- cyclic imports, and no lookup of a path fails.
pub validate_cycles-IsDone :
    (documents : Members) (fuel : ℕ)
    → length documents < fuel
    → (issues : Issues) × (validate_cycles documents fuel ≡ done issues)
unfolding validate_cycles
validate_cycles-IsDone documents fuel enough =
    visit_all-IsDone documents fuel (keys documents) [] (keys-known documents) enough
