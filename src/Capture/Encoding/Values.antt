-- ===== src/Capture/Encoding/Values.antt =====
-- capture/encoding.rs: `any_value`, and `DoubleValue::new` of capture/otlp.rs.
use specgate.Prelude.Text.{show_nat}
use specgate.Model.{F64Value}
use specgate.Capture.Evidence.{Value, ValueList, list_end, item, ValueMap, map_end, pair}
use specgate.Capture.Wire.{
  DoubleRepr, number, symbol, WireValue, WireList, array_end, element, WirePairs, pairs_end,
  key_value,
}

abbrev pub double_value : F64Value → DoubleRepr
double_value F64Value.nan = symbol "NaN"
double_value F64Value.infinity = symbol "Infinity"
double_value F64Value.negative_infinity = symbol "-Infinity"
double_value (F64Value.finite bits) = number bits

unfoldable mutual
  pub any_value : Value → WireValue
  any_value (Value.string s) = WireValue.string s
  any_value (Value.integer z) = WireValue.int z
  any_value (Value.unsigned n) = WireValue.string (show_nat n)
  any_value (Value.float f) = WireValue.double (double_value f)
  any_value (Value.bool b) = WireValue.bool b
  any_value (Value.list vs) = WireValue.array (wire_list vs)
  any_value (Value.set vs) = WireValue.array (wire_list vs)
  any_value (Value.map_of es) = WireValue.kvlist (wire_pairs es)

  pub wire_list : ValueList → WireList
  wire_list list_end = array_end
  wire_list (item v vs) = element (any_value v) (wire_list vs)

  pub wire_pairs : ValueMap → WirePairs
  wire_pairs map_end = pairs_end
  wire_pairs (pair k v es) = key_value k (any_value v) (wire_pairs es)
