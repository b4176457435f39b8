-- ===== src/Registry/Checks.antt =====
-- registry.rs and validation/mod.rs: `located`, `unique`, `is_digest`, and the digest of bytes.
pub mod Distinct
use Prim.Native.Char.{code}
use specgate.Prelude.{
  ℕ, String, Bool, false, ◌&&◌, ◌||◌, Option, none, some, List, [], ◌∷◌, ◌++◌, leb, ◌==◌,
  if◌then◌else◌, length, all,
}
use specgate.Prelude.Order.{string_order, has_key, insert_key}
use specgate.Prelude.Text.{codes, format, is_digit, str_eq}
use specgate.Render.{Issues, issue}

abbrev pub located : String → String → String
located path location = format (path ∷ ":" ∷ location ∷ [])

abbrev pub is_empty_text : String → Bool
is_empty_text s = str_eq s ""

-- `option.as_ref().is_some_and(String::is_empty)`
abbrev pub is_empty_option : Option String → Bool
is_empty_option none = false
is_empty_option (some s) = is_empty_text s

-- The loop of `unique`, with the values seen so far.
unfoldable pub unique_from : List String → List String → String → String → Issues
unique_from seen [] location field = []
unique_from seen (value ∷ values) location field =
    (if has_key value seen
      then issue location (format ("duplicate " ∷ field ∷ " '" ∷ value ∷ "'" ∷ []))
      else [])
    ++ unique_from (insert_key value seen) values location field

unfoldable pub unique : List String → String → String → Issues
unfolding unique_from
unique values location field = unique_from [] values location field

-- `str::strip_prefix`
abbrev pub strip_prefix : String → String → Option String
strip_prefix String.[] s = some s
strip_prefix (String.◌∷◌ c cs) String.[] = none
strip_prefix (String.◌∷◌ c cs) (String.◌∷◌ d ds) =
    let rest = strip_prefix cs ds in if code c == code d then rest else none

abbrev pub is_hex_digit : ℕ → Bool
is_hex_digit c = is_digit c || (leb b'a' c && leb c b'f')

abbrev is_sha256_hex : Option String → Bool
is_sha256_hex none = false
is_sha256_hex (some hex) = (length (codes hex) == 64) && all is_hex_digit (codes hex)

unfoldable pub is_digest : String → Bool
is_digest value = is_sha256_hex (strip_prefix "sha256:" value)
