-- ===== src/Trace/Fields.antt =====
-- fields.rs: the checks on attributes and identifiers.
use Prim.Native.String
use text.Mathlib.Text.{starts_with}
use specgate.Prelude.{
  ℕ, String, Bool, true, false, not, ◌&&◌, ◌||◌, List, [], ◌∷◌, ◌++◌, Option, none, some, ◌==◌,
  if◌then◌else◌, any, all, leb,
}
use specgate.Prelude.Order.{Dict, get, string_order}
use specgate.Prelude.Text.{codes, is_digit, str_eq, format}
use specgate.Model.{AnyValue}
use specgate.Render.{Issues, issue}

pub data AttributeType : Type 0 where
  string int : AttributeType

unfoldable pub reject_attrs : Dict String AnyValue → List String → String → Issues
reject_attrs [] allowed location = []
reject_attrs ((key, v) ∷ attributes) allowed location =
    (if starts_with key "conformance." && not (any (str_eq key) allowed)
      then issue location
          (format ("undeclared CTSC attribute '" ∷ key ∷ "' is not allowed in this scope" ∷ []))
      else [])
    ++ reject_attrs attributes allowed location

abbrev pub matches_type : AttributeType → AnyValue → Bool
matches_type AttributeType.string (AnyValue.string s) = true
matches_type AttributeType.int (AnyValue.int n) = true
matches_type _ _ = false

abbrev pub wire_name : AttributeType → String
wire_name AttributeType.string = "stringValue"
wire_name AttributeType.int = "intValue"

unfoldable pub check_attr : Dict String AnyValue → String → AttributeType → String → Issues
check_attr attributes key expected location = elim (get attributes key) [
  | none ↦ []
  | some v ↦
      if matches_type expected v
      then []
      else issue location (format ("attribute '" ∷ key ∷ "' must use " ∷ wire_name expected ∷ []))
]

-- `require_str`: the text, and the issue where there is none.
unfoldable pub require_str : Dict String AnyValue → String → String → Option String × Issues
require_str attributes key location = elim (get attributes key) [
  | none ↦ (none, issue location (format ("missing string attribute '" ∷ key ∷ "'" ∷ [])))
  | some (AnyValue.string s) ↦ (some s, [])
  | some _ ↦ (none, issue location (format ("attribute '" ∷ key ∷ "' must use stringValue" ∷ [])))
]

abbrev is_hex : ℕ → Bool
is_hex c = is_digit c || (leb b'a' c && leb c b'f')

unfoldable pub is_hex_id : String → ℕ → Bool
is_hex_id value length =
    (String.len value == length)
    && (any (λ c. not (c == b'0')) (codes value) && all is_hex (codes value))
