-- ===== src/Compare/Same/Events.antt =====
-- Values, inputs and events compared with themselves give nothing.
use specgate.Prelude.{
  ℕ, ◌+◌, String, true, List, [], ◌∷◌, Option, none, some, ◌≡◌, refl, arith, decided_self,
}
use text.Mathlib.TextPositions.{eq_refl}
use specgate.Model.{
  AnyValue, AnyValue-discrete, CanonicalValue, CanonicalValue-discrete, Entries, TypeRef,
  RegistrySet, TraceEvent,
}
use specgate.Linked.Canonical.{canonical_value}
use specgate.Render.{Format}
use specgate.Compare.Report.{quiet}
use specgate.Compare.Values.{
  Declaration, Linkage, same_value, same_canonical, compare_both, compare_value, compare_names,
}
use specgate.Compare.Events.{
  compare_named, compare_fault, compare_same_event, compare_event, compare_events_from,
  compare_events,
}

same_value_refl : (v : AnyValue) → same_value v v ≡ true
same_value_refl v = decided_self v (AnyValue-discrete v v)

same_canonical_refl : (v : Option CanonicalValue) → same_canonical v v ≡ true
same_canonical_refl none = refl
same_canonical_refl (some v) = decided_self v (CanonicalValue-discrete v v)

module _ (fmt : Format) where
  compare_both_self :
      (v : AnyValue) (link : Option Linkage) (path : String)
      → compare_both fmt v v link path ≡ quiet
  unfolding compare_both
  compare_both_self v none path = rw (same_value_refl v)
  compare_both_self v (some (t, component, registry)) path =
      rw (same_canonical_refl (canonical_value registry v t component))

  pub compare_value_self :
      (v : Option AnyValue) (link : Option Linkage) (path : String)
      → compare_value fmt v v link path ≡ quiet
  unfolding compare_value
  compare_value_self none link path = refl
  compare_value_self (some v) link path = compare_both_self v link path

  module _ (registry : Option RegistrySet) (declaration : Option Declaration) where
    compare_named_self :
        (label name_attr value_attr : String) (type_of : String → Option TypeRef)
        (event : TraceEvent) (path : String)
        → compare_named fmt registry declaration label name_attr value_attr type_of event event path
          ≡ quiet
    unfolding compare_named
    compare_named_self label name_attr value_attr type_of event path =
        rw eq_refl (rw compare_value_self refl)

    compare_same_event_self :
        (event : TraceEvent) (path : String)
        → compare_same_event fmt registry declaration event event path ≡ quiet
    unfolding compare_same_event compare_fault
    compare_same_event_self event path = simp (compare_value_self, eq_refl) (ground arith)

    compare_event_self :
        (event : TraceEvent) (path : String)
        → compare_event fmt registry declaration event event path ≡ quiet
    unfolding compare_event
    compare_event_self event path = rw (eq_refl event.name) (compare_same_event_self event path)

    compare_events_from_self :
        (position : ℕ) (events : List TraceEvent) (path : String)
        → compare_events_from fmt registry declaration position events events path ≡ quiet
    unfolding compare_events_from
    compare_events_from_self position [] path = refl
    compare_events_from_self position (event ∷ events) path =
        simp (compare_event_self, compare_events_from_self (position + 1) events path)

    pub compare_events_self :
        (events : List TraceEvent) (path : String)
        → compare_events fmt registry declaration events events path ≡ quiet
    unfolding compare_events
    compare_events_self events path = compare_events_from_self 0 events path

    pub compare_names_self :
        (inputs : Entries) (path : String) (names : List String)
        → compare_names fmt registry inputs inputs declaration path names ≡ quiet
    unfolding compare_names
    compare_names_self inputs path [] = refl
    compare_names_self inputs path (name ∷ names) =
        rw compare_value_self (rw (compare_names_self inputs path names) refl)
