-- ===== src/Model/CanonicalValues.antt =====
-- trace_model.rs: `CanonicalValue`.
use specgate.Prelude.{ℕ, String, Bool, List}
use specgate.Prelude.Int.{ℤ}
use native.Mathlib.Decide.{ℕ_discrete}
use specgate.Prelude.Text.{String-discrete}
use specgate.Model.AnyValues.{F64Value}

-- The boxed slices and the maps, in key order, are the lists of the block.
mutual
  pub data CanonicalValue : Type 0 where
    unit : CanonicalValue
    string : String → CanonicalValue
    bool : Bool → CanonicalValue
    integer : ℤ → CanonicalValue
    float : F64Value → CanonicalValue
    bytes : List ℕ → CanonicalValue
    list tuple : CanonicalList → CanonicalValue
    map_of ordered_map : CanonicalPairs → CanonicalValue
    record_of : CanonicalFields → CanonicalValue
    variant : String → CanonicalValue → CanonicalValue

  pub data CanonicalList : Type 0 where
    list_end : CanonicalList
    item : CanonicalValue → CanonicalList → CanonicalList

  pub data CanonicalPairs : Type 0 where
    pairs_end : CanonicalPairs
    pair : CanonicalValue → CanonicalValue → CanonicalPairs → CanonicalPairs

  pub data CanonicalFields : Type 0 where
    fields_end : CanonicalFields
    field : String → CanonicalValue → CanonicalFields → CanonicalFields

unfoldable pub CanonicalValue-discrete : Discrete CanonicalValue
CanonicalValue-discrete = hlevel (ℕ_discrete, String-discrete)
