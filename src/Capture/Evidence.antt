-- ===== src/Capture/Evidence.antt =====
-- capture.rs: values, operations and captures, and what their builders check.
use specgate.Prelude.{
  ℕ, String, Bool, true, false, Option, List, [], ◌∷◌, ◌⊎◌, inl, inr, length, ◌==◌, map,
  if◌then◌else◌, Ordering,
}
use specgate.Prelude.Int.{ℤ, compare_int}
use specgate.Prelude.Order.{string_order, key_set}
use specgate.Prelude.Text.{format, show_int}
use specgate.Model.{F64Value}

-- `Vec<Value>` and `BTreeMap<String, Value>` are the lists of the block. A float is held as the
-- trace model holds it: the encoder writes the same text for every NaN.
mutual
  pub data Value : Type 0 where
    string : String → Value
    integer : ℤ → Value
    unsigned : ℕ → Value
    float : F64Value → Value
    bool : Bool → Value
    list : ValueList → Value
    map_of : ValueMap → Value
    set : ValueList → Value

  pub data ValueList : Type 0 where
    list_end : ValueList
    item : Value → ValueList → ValueList

  pub data ValueMap : Type 0 where
    map_end : ValueMap
    pair : String → Value → ValueMap → ValueMap

pub data Status : Type 0 where
  unset ok error : Status

pub record BoundarySpan : Type 0 where
  pub span_id : String
  pub parent_id : Option String

pub record TimeInterval : Type 0 where
  pub start_ns : ℤ
  pub end_ns : ℤ

pub record Boundary : Type 0 where
  pub span : BoundarySpan
  pub interval : TimeInterval
  pub status : Status

pub record Observation : Type 0 where
  pub order : ℕ
  pub time_ns : ℤ
  pub name : String
  pub value : Value

pub data Completion : Type 0 where
  result : ℕ → ℤ → Value → Completion
  empty : ℕ → ℤ → Completion
  failed : ℕ → ℤ → String → Option Value → Completion
  fault : ℕ → ℤ → String → String → String → Completion
  abandoned : ℕ → ℤ → Completion

pub record Operation : Type 0 where
  pub order : ℕ
  pub span_id : String
  pub parent_id : String
  pub component_id : String
  pub operation_name : String
  pub start_ns : ℤ
  pub end_ns : ℤ
  pub status : Status
  pub inputs : ValueMap
  pub observations : List Observation
  pub completion : Option Completion

pub record Capture : Type 0 where
  pub trace_id : String
  pub scenario_name : String
  pub run : Boundary
  pub scenario : Boundary
  pub operations : List Operation

pub record Registry : Type 0 where
  pub id : String
  pub version : String
  pub digest : String

pub record Metadata : Type 0 where
  pub tool_version : String
  pub target_name : String
  pub target_language : String
  pub registry : Registry

-- `end_ns < start_ns`
abbrev pub is_reversed : ℤ → ℤ → Bool
is_reversed start_ns end_ns = elim (compare_int end_ns start_ns) [ Ordering.lt ↦ true | _ ↦ false ]

-- `OperationBuilder::build`
unfoldable pub build_operation : Operation → String ⊎ Operation
unfolding compare_int
build_operation operation =
    if is_reversed operation.start_ns operation.end_ns
    then inl (
        format (
          "operation end timestamp "
          ∷ show_int operation.end_ns
          ∷ " precedes start timestamp "
          ∷ show_int operation.start_ns
          ∷ []))
    else inr operation

abbrev reversed : String → TimeInterval → String
reversed what interval = format (
    "capture "
    ∷ what
    ∷ " end "
    ∷ show_int interval.end_ns
    ∷ " precedes start "
    ∷ show_int interval.start_ns
    ∷ [])

-- `CaptureBuilder::build`
unfoldable pub build_capture : Capture → String ⊎ Capture
unfolding compare_int
build_capture capture =
    let ids = key_set (map (λ (o : Operation). o.span_id) capture.operations) in
    if is_reversed capture.run.interval.start_ns capture.run.interval.end_ns
    then inl (reversed "run" capture.run.interval)
    else if is_reversed capture.scenario.interval.start_ns capture.scenario.interval.end_ns
    then inl (reversed "scenario" capture.scenario.interval)
    else if length ids == length capture.operations
    then inr capture
    else inl "capture operation span IDs must be unique"
