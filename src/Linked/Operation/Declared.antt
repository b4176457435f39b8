-- ===== src/Linked/Operation/Declared.antt =====
-- What `check_linked` establishes of each span of a document.
use specgate.Prelude.{
  String, true, false, List, [], ◌∷◌, some, ◌≡◌, arith, inl, inr, append-eq-nil, Bool-cases,
  Option-cases, any, find,
}
use specgate.Prelude.Elem.{Elem}
use specgate.Prelude.Order.{string_order}
use specgate.Prelude.Text.{str_eq}
use text.Mathlib.TextEquality.{eq_iff}
use specgate.Model.{RegistryOperation, ResolvedComponent, RegistrySet, TraceSpan, TraceDocument}
use specgate.Names.{
  op_span, component_attr, op_name_attr, registry_attr, registry_version_attr, registry_digest_attr,
}
use specgate.Linked.Resolve.{find_operation}
use specgate.Linked.Operation.{
  text_attr, validate_key, validate_linkage, is_terminal, is_fault_event, validate_inputs,
  validate_observations, validate_operation, check_identity, check_span, check_spans, check_linked,
}
use specgate.Linked.Operation.Outcomes.{EndFits, validate_terminal-EndFits}
use specgate.Render.{Format}

module _ (fmt : Format) (registry : RegistrySet) where
  -- The span names the root registry. An operation that names its component and itself is declared
  -- in the registry, and unless it has a fault its end fits the declaration.
  pub record IsLinked (span : TraceSpan) : Type 0 where
    pub root_id : text_attr span.resource_attributes registry_attr ≡ some registry.root_id
    pub root_version :
        text_attr span.resource_attributes registry_version_attr ≡ some registry.root_version
    pub root_digest :
        text_attr span.resource_attributes registry_digest_attr ≡ some registry.root_digest
    pub declared :
        str_eq span.name op_span ≡ true
        → (component_id operation_name : String)
        → text_attr span.attributes component_attr ≡ some component_id
        → text_attr span.attributes op_name_attr ≡ some operation_name
        → (component : ResolvedComponent) × (operation : RegistryOperation) × ((find_operation
                registry component_id operation_name
              ≡ some (component, operation))
            × (any is_fault_event span.events ≡ false
                → EndFits fmt registry component operation (find is_terminal span.events)))

  validate_key-some :
      (span : TraceSpan) (key expected : String)
      → validate_key span key expected ≡ []
      → text_attr span.resource_attributes key ≡ some expected
  unfolding validate_key
  validate_key-some span key expected h =
      elim (Option-cases (text_attr span.resource_attributes key)) [
        | inl absent ↦ absurd (ground (arith, rw (absent, validate_key) at h))
        | inr (actual, found) ↦
            let checked = rw (found, validate_key) at h in
            elim (Bool-cases (str_eq actual expected)) [
              | inl same ↦ rw (← (eq_iff actual expected).0 same) found
              | inr differ ↦ absurd (ground (arith, rw differ at checked))
            ]
      ]

  check_identity-declared :
      (span : TraceSpan) (component_id operation_name : String)
      → check_identity fmt registry span component_id operation_name ≡ []
      → (component : ResolvedComponent) × (operation : RegistryOperation) × ((find_operation
              registry component_id operation_name
            ≡ some (component, operation))
          × (any is_fault_event span.events ≡ false
              → EndFits fmt registry component operation (find is_terminal span.events)))
  unfolding check_identity validate_operation
  check_identity-declared span component_id operation_name h =
      elim (Option-cases (find_operation registry component_id operation_name)) [
        | inl unknown ↦ absurd (ground (arith, rw (unknown, check_identity) at h))
        | inr ((component, operation), found) ↦
            let (inputs, rest) =
              append-eq-nil (validate_inputs fmt registry component operation span) _
                (rw (found, check_identity) at h) in
            let (observed, ended) =
              append-eq-nil
                (validate_observations fmt registry component operation span.events span.location 0)
                _ rest in
            (
              component,
              operation,
              (
                found,
                λ whole.
                    validate_terminal-EndFits fmt registry component operation
                      (find is_terminal span.events) span.location (rw whole at ended),
              ),
            )
      ]

  check_span-IsLinked : (span : TraceSpan) → check_span fmt registry span ≡ [] → IsLinked span
  unfolding check_span validate_linkage
  check_span-IsLinked span h =
      let (linkage, operation) = append-eq-nil (validate_linkage span registry) _ h in
      let (id, rest) = append-eq-nil (validate_key span registry_attr registry.root_id) _ linkage in
      let (version, digest) =
        append-eq-nil (validate_key span registry_version_attr registry.root_version) _ rest in
      record {
        root_id = validate_key-some span registry_attr registry.root_id id;
        root_version = validate_key-some span registry_version_attr registry.root_version version;
        root_digest = validate_key-some span registry_digest_attr registry.root_digest digest;
        declared = λ o component_id operation_name c n.
            check_identity-declared span component_id operation_name (rw (o, c, n) at operation);
      }

  check_spans-Elem :
      (spans : List TraceSpan) (span : TraceSpan)
      → check_spans fmt registry spans ≡ []
      → Elem span spans
      → IsLinked span
  unfolding check_spans
  check_spans-Elem [] span p e = absurd e
  check_spans-Elem (s ∷ ss) span p (inl same) =
      rw same (check_span-IsLinked s (append-eq-nil _ _ p).0)
  check_spans-Elem (s ∷ ss) span p (inr later) =
      check_spans-Elem ss span (append-eq-nil (check_span fmt registry s) _ p).1 later

  -- When the linked checks find nothing in a document, every span names the root registry by its
  -- id, version and digest. Every operation span that carries a component id and an operation name
  -- is found in the registry under them. Unless such a span has a fault event, its first event that
  -- is a result, an empty outcome, an error or an abandonment, if there is one, meets the
  -- declaration: a result needs a declared type, and its value, where it has one, has a canonical
  -- form under it; an empty outcome needs to be declared; an error needs a declaration, and has a
  -- value exactly when that has a type, with a canonical form under it; an abandonment needs nothing.
  -- Where there is no such event, neither a result nor an empty outcome is declared.
  pub check_linked-IsLinked :
      (document : TraceDocument)
      → check_linked fmt registry document ≡ []
      → (span : TraceSpan) → Elem span document.spans
      → IsLinked span
  unfolding check_linked
  check_linked-IsLinked document h span e = check_spans-Elem document.spans span h e
