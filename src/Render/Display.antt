-- ===== src/Render/Display.antt =====
-- `display` and `write_display` of both value types. What is written is returned.
use specgate.Prelude.{String, Bool, true, false, [], ◌∷◌}
use specgate.Prelude.Text.{format, show_int}
use specgate.Model.{
  F64Value, finite, nan, infinity, negative_infinity, AnyValue, Values, values_end, value, Entries,
  entries_end, entry, CanonicalValue, CanonicalList, list_end, item, CanonicalPairs, pairs_end,
  pair, CanonicalFields,
}
use specgate.Render.{Format}

abbrev pub show_bool : Bool → String
show_bool true = "true"
show_bool false = "false"

abbrev pub show_float : Format → F64Value → String
show_float fmt (finite bits) = fmt.float bits
show_float fmt nan = "\"NaN\""
show_float fmt infinity = "\"Infinity\""
show_float fmt negative_infinity = "\"-Infinity\""

module _ (fmt : Format) where
  unfoldable mutual
    unfolding show_int

    pub display : AnyValue → String
    display (AnyValue.string s) = fmt.json s
    display (AnyValue.bool b) = show_bool b
    display (AnyValue.int n) = show_int n
    display (AnyValue.double x) = show_float fmt x
    display (AnyValue.bytes b) = format ("bytes:" ∷ fmt.base64 b ∷ [])
    display (AnyValue.array vs) = format ("[" ∷ display_first vs ∷ "]" ∷ [])
    display (AnyValue.kv_list es) = format ("{" ∷ display_first_entry es ∷ "}" ∷ [])

    -- no comma stands before the first element
    display_first : Values → String
    display_first values_end = ""
    display_first (value v vs) = format (display v ∷ display_rest vs ∷ [])

    display_rest : Values → String
    display_rest values_end = ""
    display_rest (value v vs) = format ("," ∷ display v ∷ display_rest vs ∷ [])

    display_first_entry : Entries → String
    display_first_entry entries_end = ""
    display_first_entry (entry k v es) =
        format (fmt.json k ∷ ":" ∷ display v ∷ display_rest_entries es ∷ [])

    display_rest_entries : Entries → String
    display_rest_entries entries_end = ""
    display_rest_entries (entry k v es) =
        format ("," ∷ fmt.json k ∷ ":" ∷ display v ∷ display_rest_entries es ∷ [])

  unfoldable mutual
    unfolding show_int

    pub display_canonical : CanonicalValue → String
    display_canonical CanonicalValue.unit = "{}"
    display_canonical (CanonicalValue.string s) = fmt.json s
    display_canonical (CanonicalValue.bool b) = show_bool b
    display_canonical (CanonicalValue.integer n) = show_int n
    display_canonical (CanonicalValue.float x) = show_float fmt x
    display_canonical (CanonicalValue.bytes b) = format ("bytes:" ∷ fmt.base64 b ∷ [])
    display_canonical (CanonicalValue.list l) = format ("[" ∷ display_list l ∷ "]" ∷ [])
    display_canonical (CanonicalValue.tuple l) = format ("[" ∷ display_list l ∷ "]" ∷ [])
    display_canonical (CanonicalValue.map_of m) = format ("map{" ∷ display_pairs m ∷ "}" ∷ [])
    display_canonical (CanonicalValue.ordered_map m) =
        format ("ordered_map[" ∷ display_pairs m ∷ "]" ∷ [])
    display_canonical (CanonicalValue.record_of r) = format ("{" ∷ display_fields r ∷ "}" ∷ [])
    display_canonical (CanonicalValue.variant n v) =
        format (n ∷ "(" ∷ display_canonical v ∷ ")" ∷ [])

    -- `write_sequence` between its brackets
    display_list : CanonicalList → String
    display_list list_end = ""
    display_list (item v l) = format (display_canonical v ∷ display_list_rest l ∷ [])

    display_list_rest : CanonicalList → String
    display_list_rest list_end = ""
    display_list_rest (item v l) = format ("," ∷ display_canonical v ∷ display_list_rest l ∷ [])

    display_pairs : CanonicalPairs → String
    display_pairs pairs_end = ""
    display_pairs (pair k v m) =
        format (display_canonical k ∷ ":" ∷ display_canonical v ∷ display_pairs_rest m ∷ [])

    display_pairs_rest : CanonicalPairs → String
    display_pairs_rest pairs_end = ""
    display_pairs_rest (pair k v m) =
        format ("," ∷ display_canonical k ∷ ":" ∷ display_canonical v ∷ display_pairs_rest m ∷ [])

    display_fields : CanonicalFields → String
    display_fields CanonicalFields.fields_end = ""
    display_fields (CanonicalFields.field k v r) =
        format (k ∷ ":" ∷ display_canonical v ∷ display_fields_rest r ∷ [])

    display_fields_rest : CanonicalFields → String
    display_fields_rest CanonicalFields.fields_end = ""
    display_fields_rest (CanonicalFields.field k v r) =
        format ("," ∷ k ∷ ":" ∷ display_canonical v ∷ display_fields_rest r ∷ [])
