-- ===== src/Registry/Shape/Types.antt =====
-- registry/shape.rs: `validate_type_at`, `validate_values` and `validate_variants`.
pub mod Typed
use specgate.Prelude.{
  ℕ, ◌+◌, String, Bool, true, false, not, Option, none, some, List, [], ◌∷◌, ◌++◌, if◌then◌else◌,
  any,
}
use specgate.Prelude.Text.{format, show_nat, str_eq}
use specgate.Model.{
  TypeRef, Types, types_end, type_item, Fields, fields_end, field, field_names, Variants,
  variants_end, variant, unit_variant,
}
use specgate.Render.{Issues, issue, require}
use specgate.Registry.Checks.{located, is_empty_text, is_empty_option, unique}

-- `PRIMITIVES`
abbrev pub primitives : List String
primitives =
    "unit" ∷ "string" ∷ "bool" ∷ "i32" ∷ "i64" ∷ "u32" ∷ "u64" ∷ "f32" ∷ "f64" ∷ "bytes" ∷ []

-- `{location}[{index}]`
abbrev pub at_index : String → ℕ → String
at_index location index = format (location ∷ "[" ∷ show_nat index ∷ "]" ∷ [])

abbrev pub under : String → String → String
under location name = format (location ∷ name ∷ [])

abbrev pub variant_names : Variants → List String
variant_names variants_end = []
variant_names (variant k t vs) = k ∷ variant_names vs
variant_names (unit_variant k vs) = k ∷ variant_names vs

abbrev pub has_variants : Variants → Bool
has_variants variants_end = false
has_variants _ = true

module _ (path : String) where
  -- An empty optional name is reported at its own location.
  abbrev pub empty_option : Option String → String → String → Issues
  empty_option value location message =
      if is_empty_option value then issue (located path location) message else []

  abbrev pub lacks_component : Option String → Option String → Bool
  lacks_component none (some registry_id) = true
  lacks_component _ _ = false

  unfoldable pub validate_named_ref : String → Option String → Option String → String → Issues
  validate_named_ref name component_id registry_id location =
      require (not (is_empty_text name)) (located path (under location ".name"))
        "type name must not be empty"
      ++ (empty_option component_id (under location ".componentId") "componentId must not be empty"
          ++ (empty_option registry_id (under location ".registryId") "registryId must not be empty"
              ++ (if lacks_component component_id registry_id
                  then issue (located path location)
                      "registryId requires componentId on a named type reference"
                  else [])))

  unfoldable mutual
    unfolding validate_named_ref

    pub validate_type : TypeRef → String → Issues
    validate_type (TypeRef.primitive name) location =
        require (any (str_eq name) primitives) (located path (under location ".name"))
          "unknown primitive type"
    validate_type (TypeRef.named name component_id registry_id) location =
        validate_named_ref name component_id registry_id location
    validate_type (TypeRef.collection items ordered is_unique) location =
        validate_type items (under location ".items")
    validate_type (TypeRef.map_of keys values ordered) location =
        validate_type keys (under location ".keys")
        ++ validate_type values (under location ".values")
    validate_type (TypeRef.tuple items) location = validate_items items 0 (under location ".items")
    validate_type (TypeRef.record_of fields) location =
        let inner = under location ".fields" in
        unique (field_names fields) (located path inner) "name" ++ validate_fields fields 0 inner
    validate_type (TypeRef.optional value) location = validate_type value (under location ".value")
    validate_type (TypeRef.tagged_union variants) location =
        let inner = under location ".variants" in
        require (has_variants variants) (located path inner)
          "tagged union must contain at least one variant"
        ++ (unique (variant_names variants) (located path inner) "name"
            ++ validate_each_variant variants 0 inner)

    pub validate_items : Types → ℕ → String → Issues
    validate_items types_end index location = []
    validate_items (type_item t ts) index location =
        validate_type t (at_index location index) ++ validate_items ts (index + 1) location

    -- The loop over named values, after the check of their names.
    pub validate_fields : Fields → ℕ → String → Issues
    validate_fields fields_end index location = []
    validate_fields (field name t fs) index location =
        require (not (is_empty_text name)) (located path (under (at_index location index) ".name"))
          "name must not be empty"
        ++ (validate_type t (under (at_index location index) ".type")
            ++ validate_fields fs (index + 1) location)

    pub validate_each_variant : Variants → ℕ → String → Issues
    validate_each_variant variants_end index location = []
    validate_each_variant (variant name payload vs) index location =
        require (not (is_empty_text name)) (located path (under (at_index location index) ".name"))
          "name must not be empty"
        ++ (validate_type payload (under (at_index location index) ".payload")
            ++ validate_each_variant vs (index + 1) location)
    validate_each_variant (unit_variant name vs) index location =
        require (not (is_empty_text name)) (located path (under (at_index location index) ".name"))
          "name must not be empty"
        ++ validate_each_variant vs (index + 1) location

  unfoldable pub validate_values : Fields → String → Issues
  validate_values fields location =
      unique (field_names fields) (located path location) "name"
      ++ validate_fields fields 0 location

  unfoldable pub validate_variants : Variants → String → Issues
  validate_variants variants location =
      unique (variant_names variants) (located path location) "name"
      ++ validate_each_variant variants 0 location
