-- ===== src/Model/AnyValues.antt =====
-- trace_model.rs: `F64Value` and `AnyValue`. A finite binary64 is its bits.
use specgate.Prelude.{ℕ, suc, String, Bool, Option, none, some, List, if◌then◌else◌}
use native.Mathlib.Decide.{ℕ_discrete}
use specgate.Prelude.Int.{ℤ}
use specgate.Prelude.Text.{str_eq, String-discrete}

pub data F64Value : Type 0 where
  finite : ℕ → F64Value
  nan infinity negative_infinity : F64Value

-- `Box<[AnyValue]>` and `BTreeMap<String, AnyValue>` are the lists of the block. An `int` is an i64 in
-- the source, and any integer here.
mutual
  pub data AnyValue : Type 0 where
    string : String → AnyValue
    bool : Bool → AnyValue
    int : ℤ → AnyValue
    double : F64Value → AnyValue
    bytes : List ℕ → AnyValue
    array : Values → AnyValue
    kv_list : Entries → AnyValue

  pub data Values : Type 0 where
    values_end : Values
    value : AnyValue → Values → Values

  pub data Entries : Type 0 where
    entries_end : Entries
    entry : String → AnyValue → Entries → Entries

abbrev pub as_string : AnyValue → Option String
as_string (string s) = some s
as_string _ = none

abbrev pub as_kvlist : AnyValue → Option Entries
as_kvlist (kv_list es) = some es
as_kvlist _ = none

-- `len` of the array and of the map
abbrev pub count_values : Values → ℕ
count_values values_end = 0
count_values (value v vs) = suc (count_values vs)

abbrev pub count_entries : Entries → ℕ
count_entries entries_end = 0
count_entries (entry k v es) = suc (count_entries es)

-- `BTreeMap::get`
abbrev pub get_entry : Entries → String → Option AnyValue
get_entry entries_end name = none
get_entry (entry k v es) name =
    let rest = get_entry es name in if str_eq k name then some v else rest

abbrev pub entry_keys : Entries → List String
entry_keys entries_end = List.[]
entry_keys (entry k v es) = List.◌∷◌ k (entry_keys es)

unfoldable pub F64Value-discrete : Discrete F64Value
F64Value-discrete = hlevel ℕ_discrete

unfoldable pub AnyValue-discrete : Discrete AnyValue
AnyValue-discrete = hlevel (ℕ_discrete, String-discrete)
