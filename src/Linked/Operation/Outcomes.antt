-- ===== src/Linked/Operation/Outcomes.antt =====
-- What `check_linked` establishes: the spans name the root registry, and the operations are
-- declared in it and end as declared.
use specgate.Prelude.{
  String, true, false, [], Option, none, some, ◌≡◌, refl, arith, inl, inr, Option-cases,
}
use specgate.Prelude.Order.{get, string_order}
use specgate.Prelude.Text.{str_eq, eq_excludes}
use specgate.Model.{
  AnyValue, TypeRef, ErrorOutcome, RegistryOperation, ResolvedComponent, RegistrySet, TraceEvent,
}
use specgate.Names.{
  result_event, result_attr, empty_event, error_event, error_name_attr, error_value_attr,
}
use specgate.Linked.Canonical.{canonical_value}
use specgate.Linked.Arms.{at_name}
use specgate.Linked.Value.{validate_value}
use specgate.Linked.Value.Parts.{is_some}
use specgate.Linked.Value.Sound.{validate_value-is_some}
use specgate.Linked.Operation.{
  text_attr, validate_result, validate_error, validate_error_value, validate_terminal, find_error,
}
use specgate.Render.{Format}

module _ (fmt : Format) (registry : RegistrySet) (component : ResolvedComponent) where
  -- A value, where there is one, has a canonical form under the type.
  abbrev pub Canonical : TypeRef → Option AnyValue → Type 0
  Canonical t none = Unit
  Canonical t (some v) = is_some (canonical_value registry v t component) ≡ true

  -- A declared error has a value exactly if its declaration has a type.
  abbrev pub ErrorFits : ErrorOutcome → Option AnyValue → Type 0
  ErrorFits declaration v =
      (is_some declaration.value_type ≡ is_some v)
      × ((t : TypeRef) → declaration.value_type ≡ some t → Canonical t v)

  -- What the declaration asks of the first terminal event; of an abandonment it asks nothing.
  pub record OutcomeFits (operation : RegistryOperation) (event : TraceEvent) : Type 0 where
    pub result :
        str_eq event.name result_event ≡ true
        → (t : TypeRef) × ((operation.outcomes.result ≡ some t)
            × Canonical t (get event.attributes result_attr))
    pub empty : str_eq event.name empty_event ≡ true → operation.outcomes.empty ≡ true
    pub error :
        str_eq event.name error_event ≡ true
        → (declaration : ErrorOutcome) × ((find_error fmt registry component operation
                (text_attr event.attributes error_name_attr)
              ≡ some declaration)
            × ErrorFits declaration (get event.attributes error_value_attr))

  -- What the declaration asks of the end of an operation. One with no terminal event has neither a
  -- result nor an empty outcome declared.
  abbrev pub EndFits : RegistryOperation → Option TraceEvent → Type 0
  EndFits operation none = (operation.outcomes.result ≡ none) × (operation.outcomes.empty ≡ false)
  EndFits operation (some event) = OutcomeFits operation event

  present-Canonical :
      (t : TypeRef) (o : Option AnyValue) (location : String)
      → ((v : AnyValue) → o ≡ some v → validate_value fmt registry v t component location ≡ [])
      → Canonical t o
  present-Canonical t none location h = tt
  present-Canonical t (some v) location h =
      validate_value-is_some fmt registry v t component location (h v refl)

  same_type : (t u : TypeRef) → some t ≡ some u → u ≡ t
  same_type t u h = ground arith

  validate_error-fits :
      (declaration : ErrorOutcome) (operation : RegistryOperation) (v : Option AnyValue)
      (location : String)
      → validate_error_value fmt registry component operation declaration v location ≡ []
      → ErrorFits declaration v
  unfolding validate_error_value
  validate_error-fits declaration operation v location h =
      elim (Option-cases declaration.value_type) [
        | inl untyped ↦ elim (Option-cases v) [
          | inl absent ↦ (rw (untyped, absent) refl, λ t p. absurd (ground arith))
          | inr (w, given) ↦ absurd (ground (arith, rw (untyped, given, validate_error_value) at h))
        ]
        | inr (t, typed) ↦ elim (Option-cases v) [
          | inl absent ↦ absurd (ground (arith, rw (typed, absent, validate_error_value) at h))
          | inr (w, given) ↦ (
            rw (typed, given) refl,
            λ u p. rw given (
                rw (same_type t u (rw typed at p)) (
                  validate_value-is_some fmt registry w t component _
                    (rw (typed, given, validate_error_value) at h))),
          )
        ]
      ]

  validate_result-fits :
      (operation : RegistryOperation) (event : TraceEvent) (location : String)
      → validate_result fmt registry component operation event location ≡ []
      → (t : TypeRef) × ((operation.outcomes.result ≡ some t)
          × Canonical t (get event.attributes result_attr))
  unfolding validate_result
  validate_result-fits operation event location h = elim (Option-cases operation.outcomes.result) [
    | inl undeclared ↦ absurd (ground arith)
    | inr (t, declared) ↦ (
      t,
      (
        declared,
        present-Canonical t (get event.attributes result_attr) (at_name location "result")
            (λ v p. rw (declared, p, validate_result) at h),
      ),
    )
  ]

  validate_error-declared :
      (operation : RegistryOperation) (event : TraceEvent) (location : String)
      → validate_error fmt registry component operation event location ≡ []
      → (declaration : ErrorOutcome) × ((find_error fmt registry component operation
              (text_attr event.attributes error_name_attr)
            ≡ some declaration)
          × ErrorFits declaration (get event.attributes error_value_attr))
  unfolding validate_error
  validate_error-declared operation event location h =
      let name = text_attr event.attributes error_name_attr in
      elim (Option-cases (find_error fmt registry component operation name)) [
        | inl unknown ↦ absurd (ground (arith, rw (unknown, validate_error) at h))
        | inr (declaration, found) ↦ (
          declaration,
          (
            found,
            validate_error-fits declaration operation (get event.attributes error_value_attr)
                location (rw (found, validate_error) at h),
          ),
        )
      ]

  pub validate_terminal-EndFits :
      (operation : RegistryOperation) (end : Option TraceEvent) (location : String)
      → validate_terminal fmt registry component operation end location ≡ []
      → EndFits operation end
  unfolding validate_terminal
  validate_terminal-EndFits operation none location h = ground arith
  validate_terminal-EndFits operation (some event) location h =
      let excludes = eq_excludes event.name in
      record {
        result = λ o. validate_result-fits operation event location (rw o at h);
        empty = λ o. ground (arith, excludes empty_event result_event o refl);
        error = λ o.
            let failed : validate_error fmt registry component operation event location ≡ [] =
              rw
                (
                  excludes error_event result_event o refl,
                  excludes error_event empty_event o refl,
                  o,
                )
                at h in
            validate_error-declared operation event location failed;
      }
