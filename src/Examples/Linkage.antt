-- ===== src/Examples/Linkage.antt =====
-- Linked validation at a span of the sample trace.
use specgate.Prelude.{false, [], ◌∷◌, none, some, ◌≡◌, refl, inl}
use specgate.Prelude.Int.{pos}
use specgate.Model.{
  AnyValue, CanonicalValue, TypeRef, Fields, RegistryOperation, RegistrySet, TraceSpan,
  TraceDocument,
}
use specgate.Names.{registry_attr, registry_version_attr, registry_digest_attr}
use specgate.Linked.Primitive.{validate_primitive, canonical_primitive}
use specgate.Linked.Primitive.Range.{InRange, validate_primitive-InRange}
use specgate.Linked.Resolve.{resolve, find_operation}
use specgate.Linked.Arms.{check_fields}
use specgate.Linked.Value.{validate_at}
use specgate.Linked.Operation.{validate_linkage, validate_operation, check_linked}
use native.Mathlib.Decide.{ℕ_discrete}
use specgate.Linked.Operation.Declared.{IsLinked, check_linked-IsLinked}
use specgate.Compare.Events.{compare_events}
use specgate.Compare.Events.Agree.{AllAgree, compare_events-AllAgree}
use specgate.Examples.Traces.{plain, add_item}

abbrev add_item_operation : RegistryOperation
add_item_operation = record {
  name = "add_item";
  inputs = Fields.field "count" (TypeRef.primitive "u32") Fields.fields_end;
  observations = Fields.field "stock" (TypeRef.primitive "i64") Fields.fields_end;
  outcomes = record { result = some (TypeRef.primitive "bool"); empty = false; errors = [] };
  extensions = [];
}

abbrev shop_registry : RegistrySet
shop_registry = record {
  root_id = "acme";
  root_version = "1.0.0";
  root_digest = "sha256:0";
  components =
      (
        "shop",
        record {
          registry_id = "acme";
          component = record {
            id = "shop";
            dependencies = [];
            operations = add_item_operation ∷ [];
            types = [];
            extensions = [];
          };
        },
      )
      ∷ [];
}

abbrev linked_span : TraceSpan
linked_span = record add_item {
  resource_attributes =
      (registry_digest_attr, AnyValue.string "sha256:0")
      ∷ (registry_attr, AnyValue.string "acme")
      ∷ (registry_version_attr, AnyValue.string "1.0.0")
      ∷ [];
}

abbrev linked_document : TraceDocument
linked_document = record { spans = linked_span ∷ [] }

linked : check_linked plain shop_registry linked_document ≡ []
unfolding check_linked validate_linkage find_operation validate_operation check_fields validate_at
    resolve
linked = refl

check_linked-IsLinked_example : IsLinked plain shop_registry linked_span
check_linked-IsLinked_example =
    check_linked-IsLinked plain shop_registry linked_document linked linked_span (inl refl)

same_events :
    (compare_events plain
      (some shop_registry)
      none
      add_item.events
      add_item.events
      "run").mismatches
    ≡ []
unfolding compare_events ℕ_discrete
same_events = refl

compare_events-AllAgree_example : AllAgree (some shop_registry) none add_item.events add_item.events
compare_events-AllAgree_example =
    compare_events-AllAgree (some shop_registry) none plain add_item.events add_item.events "run"
      same_events

amount_valid : validate_primitive (AnyValue.string "42") "u64" "amount" ≡ []
unfolding validate_primitive
amount_valid = refl

amount_canonical :
    canonical_primitive (AnyValue.string "42") "u64" ≡ some (CanonicalValue.integer (pos 42))
unfolding canonical_primitive
amount_canonical = refl

validate_primitive-InRange_example : InRange "u64" (pos 42)
validate_primitive-InRange_example =
    validate_primitive-InRange (AnyValue.string "42") "u64" "amount" (pos 42) tt amount_valid
      amount_canonical
