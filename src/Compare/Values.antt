-- ===== src/Compare/Values.antt =====
-- engine.rs: `compare_value` and `compare_inputs`.
use specgate.Prelude.{
  String, Bool, true, false, List, [], ◌∷◌, ◌++◌, Option, none, some, if◌then◌else◌, decided,
}
use specgate.Prelude.Order.{get, key_set, string_order}
use specgate.Prelude.Text.{format}
use specgate.Model.{
  AnyValue, AnyValue-discrete, as_kvlist, Entries, entry_keys, get_entry, CanonicalValue,
  CanonicalValue-discrete, TypeRef, find_field, RegistryOperation, ResolvedComponent, RegistrySet,
  TraceSpan,
}
use specgate.Names.{op_inputs_attr}
use specgate.Linked.Canonical.{canonical_value}
use specgate.Render.{Format}
use specgate.Render.Display.{display, display_canonical}
use specgate.Compare.Outcome.{Outcome, done, panic, expect, ◌>>=◌}
use specgate.Compare.Report.{Sink, quiet, mismatch, push_both}

abbrev pub missing : String
missing = "<missing>"

abbrev pub invalid : String
invalid = "<invalid>"

abbrev pub present : String
present = "present"

abbrev pub Declaration : Type 0
Declaration = ResolvedComponent × RegistryOperation

-- The type, component and registry under which values are canonicalised, where all are known.
abbrev pub Linkage : Type 0
Linkage = TypeRef × ResolvedComponent × RegistrySet

abbrev pub linkage : Option TypeRef → Option Declaration → Option RegistrySet → Option Linkage
linkage (some t) (some (component, operation)) (some registry) = some (t, component, registry)
linkage _ _ _ = none

-- `==` of the derived `PartialEq`
abbrev pub same_value : AnyValue → AnyValue → Bool
same_value v w = decided (AnyValue-discrete v w)

abbrev pub same_canonical : Option CanonicalValue → Option CanonicalValue → Bool
same_canonical none none = true
same_canonical (some v) (some w) = decided (CanonicalValue-discrete v w)
same_canonical _ _ = false

abbrev pub display_or_invalid : Format → Option CanonicalValue → String
display_or_invalid fmt none = invalid
display_or_invalid fmt (some v) = display_canonical fmt v

module _ (fmt : Format) where
  unfoldable pub compare_both : AnyValue → AnyValue → Option Linkage → String → Sink
  unfolding AnyValue-discrete CanonicalValue-discrete
  compare_both reference candidate (some (t, component, registry)) path =
      let r = canonical_value registry reference t component in
      let c = canonical_value registry candidate t component in
      if same_canonical r c
      then quiet
      else mismatch path (display_or_invalid fmt r) (display_or_invalid fmt c)
  compare_both reference candidate none path =
      if same_value reference candidate
      then quiet
      else mismatch path (display fmt reference) (display fmt candidate)

  unfoldable pub compare_value : Option AnyValue → Option AnyValue → Option Linkage → String → Sink
  unfolding compare_both
  compare_value (some reference) (some candidate) link path =
      compare_both reference candidate link path
  compare_value (some reference) none link path = mismatch path (display fmt reference) missing
  compare_value none (some candidate) link path = mismatch path missing (display fmt candidate)
  compare_value none none link path = quiet

-- The type that a declaration gives an input.
abbrev pub input_type : Option Declaration → String → Option TypeRef
input_type none name = none
input_type (some (component, operation)) name = find_field operation.inputs name

-- `.expect("validated operation inputs")`
unfoldable pub operation_inputs : TraceSpan → Outcome Entries
operation_inputs span = elim (get span.attributes op_inputs_attr) [
  | none ↦ panic
  | some v ↦ expect (as_kvlist v)
]

module _ (fmt : Format) (registry : Option RegistrySet) where
  unfoldable pub compare_names :
      Entries → Entries → Option Declaration → String → List String → Sink
  unfolding compare_value
  compare_names reference candidate declaration path [] = quiet
  compare_names reference candidate declaration path (name ∷ names) =
      push_both
        (compare_value fmt (get_entry reference name) (get_entry candidate name)
          (linkage (input_type declaration name) declaration registry)
          (format (path ∷ ".inputs." ∷ name ∷ [])))
        (compare_names reference candidate declaration path names)

  unfoldable pub compare_inputs : TraceSpan → TraceSpan → Option Declaration → String → Outcome Sink
  unfolding compare_names operation_inputs
  compare_inputs reference candidate declaration path = do
    r ← operation_inputs reference
    c ← operation_inputs candidate
    done (compare_names r c declaration path (key_set (entry_keys r ++ entry_keys c)))
