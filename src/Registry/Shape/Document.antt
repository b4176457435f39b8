-- ===== src/Registry/Shape/Document.antt =====
-- registry/shape.rs: `validate_named`, `validate_operation` and `validate_shape`.
pub mod Fits
pub mod Accepted
use specgate.Prelude.{
  ℕ, ◌+◌, String, Bool, true, false, not, Option, none, some, List, [], ◌∷◌, ◌++◌, map,
  if◌then◌else◌, is_empty, ◌≡◌, append-eq-nil, Ordering,
}
use specgate.Prelude.Elem.{All}
use specgate.Prelude.Order.{string_order}
use Prim.Native.String
use specgate.Prelude.Text.{format, str_eq}
use specgate.Model.{
  TypeRef, ErrorOutcome, RegistryOutcomes, RegistryOperation, NamedType, type_name, ComponentRef,
  RegistryComponent, RegistryImport, RegistryDocument,
}
use specgate.Render.{Issues, issue, require}
use specgate.Registry.Checks.{located, is_empty_text, is_empty_option, is_digest, unique}
use specgate.Registry.Extension.{validate_extensions}
use specgate.Registry.Shape.Types.{
  at_index, under, has_variants, validate_type, validate_values, validate_variants,
}

-- `REGISTRY_FORMAT` and `CTSC_VERSION`
abbrev pub registry_format : String
registry_format = "ctsc.registry"

abbrev pub ctsc_version : String
ctsc_version = "0.4.0"

-- The loop over a list with the location of each element.
abbrev pub each_at {ℓ} : {A : Type ℓ} → (A → String → Issues) → List A → ℕ → String → Issues
each_at check [] index location = []
each_at check (x ∷ xs) index location =
    check x (at_index location index) ++ each_at check xs (index + 1) location

-- A loop of checks that finds nothing found nothing at any element.
pub each_at-All {κ} :
    {A : Type 0} (check : A → String → Issues) (P : A → Type κ) (xs : List A) (i : ℕ)
    (location : String)
    → ((x : A) (place : String) → check x place ≡ [] → P x)
    → each_at check xs i location ≡ []
    → All P xs
each_at-All check P [] i location imp h = tt
each_at-All check P (x ∷ xs) i location imp h =
    let (first, rest) = append-eq-nil (check x (at_index location i)) _ h in
    (imp x _ first, each_at-All check P xs (i + 1) location imp rest)

-- `windows(2).find(|pair| pair[0].id > pair[1].id)`, the second of the pair
unfoldable pub out_of_order : List String → Option String
out_of_order [] = none
out_of_order (a ∷ []) = none
out_of_order (a ∷ b ∷ rest) =
    let later = out_of_order (b ∷ rest) in
    elim (String.compare a b) [ Ordering.gt ↦ some b | _ ↦ later ]

module _ (path : String) where
  unfoldable pub validate_named : NamedType → String → Issues
  validate_named named location =
      require (not (is_empty_text (type_name named))) (located path (under location ".name"))
        "type name must not be empty"
      ++ (elim named [
        | NamedType.record_type name fields extensions ↦
            validate_extensions extensions (located path (under location ".extensions"))
            ++ validate_values path fields (under location ".fields")
        | NamedType.union_type name variants extensions ↦
            validate_extensions extensions (located path (under location ".extensions"))
            ++ (require (has_variants variants) (located path (under location ".variants"))
                  "tagged union must contain at least one variant"
                ++ validate_variants path variants (under location ".variants"))
      ])

  abbrev pub is_unit : TypeRef → Bool
  is_unit (TypeRef.primitive name) = str_eq name "unit"
  is_unit _ = false

  abbrev pub validate_optional : Option TypeRef → String → Issues
  validate_optional none location = []
  validate_optional (some t) location = validate_type path t location

  unfoldable pub validate_result : Option TypeRef → String → Issues
  validate_result none location = []
  validate_result (some result) location =
      (if is_unit result
        then issue (located path location) "result type must not be primitive unit"
        else [])
      ++ validate_type path result location

  unfoldable pub validate_error_outcome : ErrorOutcome → String → Issues
  validate_error_outcome error location =
      require (not (is_empty_text error.name)) (located path (under location ".name"))
        "error name must not be empty"
      ++ validate_optional error.value_type (under location ".type")

  -- `empty: true` with no result
  abbrev pub lacks_result : Bool → Option TypeRef → Bool
  lacks_result true none = true
  lacks_result _ _ = false

  unfoldable pub validate_outcomes : RegistryOutcomes → String → Issues
  validate_outcomes outcomes location =
      unique (map (λ (e : ErrorOutcome). e.name) outcomes.errors)
        (located path (under location ".errors")) "name"
      ++ ((if lacks_result outcomes.empty outcomes.result
            then issue (located path (under location ".empty"))
                "empty: true requires a result outcome"
            else [])
          ++ (validate_result outcomes.result (under location ".result")
              ++ each_at validate_error_outcome outcomes.errors 0 (under location ".errors")))

  unfoldable pub validate_operation_shape : RegistryOperation → String → Issues
  validate_operation_shape operation location =
      require (not (is_empty_text operation.name)) (located path (under location ".name"))
        "operation name must not be empty"
      ++ (validate_extensions operation.extensions (located path (under location ".extensions"))
          ++ (validate_values path operation.inputs (under location ".inputs")
              ++ (validate_values path operation.observations (under location ".observations")
                  ++ validate_outcomes operation.outcomes (under location ".outcomes"))))

  unfoldable pub validate_dependency : ComponentRef → String → Issues
  validate_dependency dependency location =
      require (not (is_empty_text dependency.component_id))
        (located path (under location ".componentId")) "componentId must not be empty"
      ++ (if is_empty_option dependency.registry_id
          then issue (located path (under location ".registryId")) "registryId must not be empty"
          else [])

  unfoldable pub validate_component : RegistryComponent → String → Issues
  unfolding validate_dependency validate_operation_shape validate_named
  validate_component component location =
      require (not (is_empty_text component.id)) (located path (under location ".id"))
        "component id must not be empty"
      ++ (unique (map (λ (r : ComponentRef). r.component_id) component.dependencies)
            (located path (under location ".dependencies")) "componentId"
          ++ (each_at validate_dependency component.dependencies 0 (under location ".dependencies")
              ++ (validate_extensions component.extensions
                    (located path (under location ".extensions"))
                  ++ (unique (map (λ (o : RegistryOperation). o.name) component.operations)
                        (located path (under location ".operations")) "name"
                      ++ (unique (map type_name component.types)
                            (located path (under location ".types")) "name"
                          ++ (each_at validate_operation_shape component.operations 0
                                (under location ".operations")
                              ++ each_at validate_named component.types 0
                                  (under location ".types")))))))

  unfoldable pub validate_import : RegistryImport → String → Issues
  validate_import item location =
      require (not (is_empty_text item.registry_id)) (located path (under location ".registryId"))
        "registryId must not be empty"
      ++ (require (not (is_empty_text item.version)) (located path (under location ".version"))
            "version must not be empty"
          ++ (require (is_digest item.digest) (located path (under location ".digest"))
                "digest must be 'sha256:' followed by 64 lowercase hexadecimal characters"
              ++ (if is_empty_option item.uri
                  then issue (located path (under location ".uri")) "uri must not be empty"
                  else [])))

  abbrev pub report_order : Option String → Issues
  report_order none = []
  report_order (some id) =
      issue (located path "$.components")
        (format ("component id '" ∷ id ∷ "' is out of ascending id order" ∷ []))

  unfoldable pub validate_header : RegistryDocument → Issues
  validate_header document =
      require (str_eq document.format registry_format) (located path "$.format")
        "format must be 'ctsc.registry'"
      ++ (require (str_eq document.format_version ctsc_version) (located path "$.formatVersion")
            (format ("formatVersion must be '" ∷ ctsc_version ∷ "'" ∷ []))
          ++ (require (not (is_empty_text document.registry_id)) (located path "$.registryId")
                "registryId must not be empty"
              ++ (require (not (is_empty_text document.version)) (located path "$.version")
                    "version must not be empty"
                  ++ (require (not (is_empty document.components)) (located path "$.components")
                        "components must contain at least one component"
                      ++ validate_extensions document.extensions (located path "$.extensions")))))

  unfoldable pub validate_shape : RegistryDocument → Issues
  unfolding validate_component validate_import validate_header validate_outcomes validate_result
      validate_error_outcome
  validate_shape document =
      let ids = map (λ (c : RegistryComponent). c.id) document.components in
      validate_header document
      ++ (unique (map (λ (i : RegistryImport). i.registry_id) document.imports)
            (located path "$.imports") "registryId"
          ++ (each_at validate_import document.imports 0 "$.imports"
              ++ (unique ids (located path "$.components") "id"
                  ++ (report_order (out_of_order ids)
                      ++ each_at validate_component document.components 0 "$.components"))))
