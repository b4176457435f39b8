-- ===== src/Compare/Events/Agree.antt =====
-- What two lists of events share when `compare_events` finds no mismatch.
use specgate.Prelude.{
  ℕ, ◌+◌, String, Bool, true, false, List, [], ◌∷◌, Option, none, some, ◌≡◌, refl, arith, ap, inl,
  inr, append-eq-nil, Bool-cases, decided-eq, if◌then◌else◌,
}
use specgate.Prelude.Order.{get, string_order}
use specgate.Prelude.Text.{str_eq, eq_excludes}
use text.Mathlib.TextEquality.{eq_iff}
use specgate.Model.{
  AnyValue, AnyValue-discrete, CanonicalValue, CanonicalValue-discrete, TypeRef, RegistrySet,
  TraceEvent,
}
use specgate.Names.{
  obs_event, obs_name_attr, obs_value_attr, result_event, result_attr, error_event, error_name_attr,
  error_value_attr, fault_event, fault_type_attr, fault_message_attr,
}
use specgate.Linked.Canonical.{canonical_value}
use specgate.Linked.Arms.{at_name}
use specgate.Render.{Format}
use specgate.Compare.Report.{quiet, mismatch}
use specgate.Compare.Values.{
  Declaration, Linkage, linkage, same_canonical, compare_both, compare_value,
}
use specgate.Compare.Events.{
  text_or_missing, observation_type, result_type, error_type, compare_named, compare_fault,
  compare_same_event, compare_event, compare_events_from, compare_events,
}

-- Equal canonical forms where the type is known, equal values where it is not.
abbrev pub SameValue : Option Linkage → Option AnyValue → Option AnyValue → Type 0
SameValue link none none = Unit
SameValue (some (t, component, registry)) (some v) (some w) =
    canonical_value registry v t component ≡ canonical_value registry w t component
SameValue none (some v) (some w) = v ≡ w
SameValue link none (some w) = ⊥
SameValue link (some v) none = ⊥

same_canonical-eq : (v w : Option CanonicalValue) → same_canonical v w ≡ true → v ≡ w
same_canonical-eq none none h = refl
same_canonical-eq (some v) (some w) h = ap some (decided-eq (CanonicalValue-discrete v w) h)
same_canonical-eq none (some w) h = absurd (ground arith)
same_canonical-eq (some v) none h = absurd (ground arith)

quiet-if :
    (b : Bool) (path expected actual : String)
    → (if b then quiet else mismatch path expected actual).mismatches ≡ []
    → b ≡ true
quiet-if true path expected actual h = refl
quiet-if false path expected actual h = absurd (ground arith)

module _ (fmt : Format) where
  pub compare_value-SameValue :
      (v w : Option AnyValue) (link : Option Linkage) (path : String)
      → (compare_value fmt v w link path).mismatches ≡ []
      → SameValue link v w
  unfolding compare_value compare_both
  compare_value-SameValue none none link path h = tt
  compare_value-SameValue (some v) none link path h = absurd (ground arith)
  compare_value-SameValue none (some w) link path h = absurd (ground arith)
  compare_value-SameValue (some v) (some w) none path h =
      decided-eq (AnyValue-discrete v w) (quiet-if _ _ _ _ h)
  compare_value-SameValue (some v) (some w) (some (t, component, registry)) path h =
      same_canonical-eq (canonical_value registry v t component)
        (canonical_value registry w t component) (quiet-if _ _ _ _ h)

module _ (registry : Option RegistrySet) (declaration : Option Declaration) where
  -- The same name, and the same values under the declared types.
  pub record EventsAgree (r c : TraceEvent) : Type 0 where
    pub names : r.name ≡ c.name
    pub observation :
        str_eq r.name obs_event ≡ true
        → (text_or_missing r.attributes obs_name_attr ≡ text_or_missing c.attributes obs_name_attr)
          × SameValue
              (linkage
                (observation_type declaration (text_or_missing r.attributes obs_name_attr))
                declaration
                registry)
              (get r.attributes obs_value_attr)
              (get c.attributes obs_value_attr)
    pub result :
        str_eq r.name result_event ≡ true
        → SameValue
            (linkage (result_type declaration) declaration registry)
            (get r.attributes result_attr)
            (get c.attributes result_attr)
    pub error :
        str_eq r.name error_event ≡ true
        → (text_or_missing r.attributes error_name_attr
            ≡ text_or_missing c.attributes error_name_attr)
          × SameValue
              (linkage
                (error_type declaration (text_or_missing r.attributes error_name_attr))
                declaration
                registry)
              (get r.attributes error_value_attr)
              (get c.attributes error_value_attr)
    pub fault :
        str_eq r.name fault_event ≡ true
        → SameValue none (get r.attributes fault_type_attr) (get c.attributes fault_type_attr)
          × SameValue none
              (get r.attributes fault_message_attr)
              (get c.attributes fault_message_attr)

  -- As many events on both sides, agreeing in order.
  abbrev pub AllAgree : List TraceEvent → List TraceEvent → Type 0
  AllAgree [] [] = Unit
  AllAgree (r ∷ rs) (c ∷ cs) = EventsAgree r c × AllAgree rs cs
  AllAgree [] (c ∷ cs) = ⊥
  AllAgree (r ∷ rs) [] = ⊥

  module _ (fmt : Format) where
    compare_named-same :
        (label name_attr value_attr : String) (type_of : String → Option TypeRef) (r c : TraceEvent)
        (path : String)
        → (compare_named fmt registry declaration label name_attr value_attr type_of r c
            path).mismatches
          ≡ []
        → (text_or_missing r.attributes name_attr ≡ text_or_missing c.attributes name_attr)
          × SameValue
              (linkage (type_of (text_or_missing r.attributes name_attr)) declaration registry)
              (get r.attributes value_attr)
              (get c.attributes value_attr)
    unfolding compare_named
    compare_named-same label name_attr value_attr type_of r c path h =
        let rn = text_or_missing r.attributes name_attr in
        let cn = text_or_missing c.attributes name_attr in
        let (first, second) = append-eq-nil _ _ h in
        let same : str_eq rn cn ≡ true = quiet-if _ _ _ _ first in
        ((eq_iff rn cn).0 same, compare_value-SameValue fmt _ _ _ _ (rw same at second))

    compare_fault-same :
        (r c : TraceEvent) (path key : String)
        → (compare_fault fmt registry declaration r c path key).mismatches ≡ []
        → SameValue none (get r.attributes key) (get c.attributes key)
    unfolding compare_fault
    compare_fault-same r c path key h =
        compare_value-SameValue fmt (get r.attributes key) (get c.attributes key) none
          (at_name path key) h

    compare_event-EventsAgree :
        (r c : TraceEvent) (path : String)
        → (compare_event fmt registry declaration r c path).mismatches ≡ []
        → EventsAgree r c
    unfolding compare_event compare_same_event
    compare_event-EventsAgree r c path h = elim (Bool-cases (str_eq r.name c.name)) [
      | inr differ ↦ absurd (ground arith)
      | inl same ↦
          let excludes = eq_excludes r.name in
          record {
            names = (eq_iff r.name c.name).0 same;
            observation = λ o.
                compare_named-same "observation" obs_name_attr obs_value_attr
                  (observation_type declaration) r c path (rw (same, o) at h);
            result = λ o.
                compare_value-SameValue fmt (get r.attributes result_attr)
                  (get c.attributes result_attr)
                  (linkage (result_type declaration) declaration registry) (at_name path "result")
                  (rw (same, excludes result_event obs_event o refl, o) at h);
            error = λ o.
                compare_named-same "error" error_name_attr error_value_attr (error_type declaration)
                  r c path
                  (rw
                    (
                      same,
                      excludes error_event obs_event o refl,
                      excludes error_event result_event o refl,
                      o,
                    )
                    at h);
            fault = λ o.
                let faults =
                  append-eq-nil
                    (compare_fault fmt registry declaration r c path fault_type_attr).mismatches _
                    (rw
                      (
                        same,
                        excludes fault_event obs_event o refl,
                        excludes fault_event result_event o refl,
                        excludes fault_event error_event o refl,
                        o,
                      )
                      at h) in
                (
                  compare_fault-same r c path fault_type_attr faults.0,
                  compare_fault-same r c path fault_message_attr faults.1,
                );
          }
    ]

    compare_events_from-AllAgree :
        (position : ℕ) (rs cs : List TraceEvent) (path : String)
        → (compare_events_from fmt registry declaration position rs cs path).mismatches ≡ []
        → AllAgree rs cs
    unfolding compare_events_from
    compare_events_from-AllAgree position [] [] path h = tt
    compare_events_from-AllAgree position (r ∷ rs) [] path h = absurd (ground arith)
    compare_events_from-AllAgree position [] (c ∷ cs) path h = absurd (ground arith)
    compare_events_from-AllAgree position (r ∷ rs) (c ∷ cs) path h =
        let (first, rest) =
          append-eq-nil (compare_event fmt registry declaration r c _).mismatches _ h in
        (
          compare_event-EventsAgree r c _ first,
          compare_events_from-AllAgree (position + 1) rs cs path rest,
        )

    -- When the comparison of two lists of events finds no mismatch, they are as long as each
    -- other, and events at the same position have the same name. Observations and errors carry
    -- the same name attribute, and their values and those of results have equal canonical forms
    -- under the declared type, or are equal where no type is declared or linked. Faults have equal
    -- types and messages.
    pub compare_events-AllAgree :
        (rs cs : List TraceEvent) (path : String)
        → (compare_events fmt registry declaration rs cs path).mismatches ≡ []
        → AllAgree rs cs
    unfolding compare_events
    compare_events-AllAgree rs cs path h = compare_events_from-AllAgree 0 rs cs path h
