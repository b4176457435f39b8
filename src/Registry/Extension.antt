-- ===== src/Registry/Extension.antt =====
-- registry.rs: `validate_extensions`, on the keys of the map.
use specgate.Prelude.{
  ℕ, String, Bool, true, false, not, ◌&&◌, Option, none, some, List, [], ◌∷◌, ◌++◌, if◌then◌else◌,
  all, is_empty,
}
use specgate.Prelude.Text.{codes, format, is_lower}
use specgate.Render.{Issues, issue}
use specgate.Trace.Fault.{split_dots, is_name_byte, valid_segment}
use specgate.Registry.Checks.{strip_prefix}

abbrev starts : List ℕ → Bool
starts [] = false
starts (c ∷ cs) = is_lower c && all is_name_byte cs

abbrev is_namespaced : List (List ℕ) → Bool
is_namespaced [] = false
is_namespaced (first ∷ remaining) =
    starts first && (not (is_empty remaining) && all valid_segment remaining)

-- A lower-case dotted namespace.
unfoldable pub is_namespace : String → Bool
unfolding split_dots valid_segment
is_namespace key = is_namespaced (split_dots (codes key))

abbrev found : {A : Type 0} → Option A → Bool
found none = false
found (some a) = true

-- `key.starts_with(RESERVED_NAMESPACE)`
unfoldable pub is_reserved : String → Bool
is_reserved key = found (strip_prefix "conformance." key)

unfoldable pub validate_extensions : List String → String → Issues
validate_extensions [] location = []
validate_extensions (key ∷ keys) location =
    (if is_namespace key
      then []
      else issue location
          (format ("extension key '" ∷ key ∷ "' must use a lowercase dotted namespace" ∷ [])))
    ++ ((if is_reserved key
          then issue location (
              format
                ("extension key '" ∷ key ∷ "' must use a namespace outside conformance.*" ∷ []))
          else [])
        ++ validate_extensions keys location)
