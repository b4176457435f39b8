-- ===== src/Examples/Registry.antt =====
-- A registry with one component, and a value of its record type.
use specgate.Prelude.{false, true, [], ◌∷◌, some, none}
use specgate.Model.{
  AnyValue, values_end, value, entries_end, entry, TypeRef, Fields, NamedType, ResolvedComponent,
  RegistrySet,
}

-- A line of an order: an amount, tags in any order, and an optional note.
abbrev line_fields : Fields
line_fields = Fields.field "amount" (TypeRef.primitive "u64") (
    Fields.field "note" (TypeRef.optional (TypeRef.primitive "string")) (
      Fields.field "tags" (TypeRef.collection (TypeRef.primitive "string") false true)
        Fields.fields_end))

abbrev pub shop : ResolvedComponent
shop = record {
  registry_id = "acme";
  component = record {
    id = "shop";
    dependencies = [];
    operations = [];
    types = NamedType.record_type "Line" line_fields [] ∷ [];
    extensions = [];
  };
}

abbrev pub registry : RegistrySet
registry = record {
  root_id = "acme";
  root_version = "1.0.0";
  root_digest = "sha256:0";
  components = ("shop", shop) ∷ [];
}

abbrev pub line_type : TypeRef
line_type = TypeRef.named "Line" none (some "acme")

abbrev pub line_value : AnyValue
line_value = AnyValue.kv_list (
    entry "amount" (AnyValue.string "42") (
      entry "note" (AnyValue.kv_list (entry "Some" (AnyValue.string "gift") entries_end)) (
        entry "tags"
          (AnyValue.array
            (value (AnyValue.string "red") (value (AnyValue.string "big") values_end)))
          entries_end)))
