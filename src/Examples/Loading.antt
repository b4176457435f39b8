-- ===== src/Examples/Loading.antt =====
-- Two registry files: a root that uses a type of a registry which it imports by digest.
use specgate.Prelude.{
  ℕ, String, false, none, some, List, [], ◌∷◌, ◌≡◌, refl, ap, ◌⊎◌, inl, inr, arith, if◌then◌else◌,
  ◌==◌,
}
use Prim.Native.String
use specgate.Prelude.Elem.{Elem}
use specgate.Prelude.Order.{Order, string_order, compare-eq}
use text.Mathlib.TextEquality.{path_by_compare}
use specgate.Model.{
  TypeRef, Fields, NamedType, RegistryOperation, RegistryComponent, RegistryDocument, RegistrySet,
  ResolvedComponent,
}
use specgate.Render.{Loaded}
use specgate.Compare.Outcome.{Outcome, done}
use specgate.Registry.Files.{
  FilePath, Libraries, Filesystem, memory, canonicalize, read_file, load_file, insert_candidate,
}
use specgate.Registry.Load.{load_fs}
use specgate.Registry.Load.Resolves.{ResolvesIn, ComponentResolves}
use specgate.Registry.Load.Closed.{load_fs-resolves}
use specgate.Registry.Load.Totality.{load_fs-IsDone}
use specgate.Registry.Load.Trusted.{FromTrusted, load_fs-FromTrusted}
use specgate.Registry.Cycles.{Members, validate_cycles}
use specgate.Registry.Cycles.Acyclic.{ImportChain, validate_cycles-irreflexive}
use specgate.Registry.Checks.{unique, is_digest}
use specgate.Registry.Extension.{is_namespace, is_reserved, validate_extensions}
use specgate.Registry.Shape.Types.{validate_values, validate_fields}
use specgate.Registry.Shape.Document.{out_of_order, validate_shape}
use specgate.Registry.Shape.Document.Fits.{IsWellShaped}
use specgate.Registry.Shape.Document.Accepted.{validate_shape-IsWellShaped}
use specgate.Registry.Uri.{UriError, resolve_uri}

instance abbrev path_order : Order FilePath
path_order = record {
  cmp = λ a b. String.compare a.text b.text;
  cmp_iff = λ a b. (
    λ h.
        ap (λ (t : String). let p : FilePath = record { text = t } in p)
          (path_by_compare a.text b.text h),
    λ h. compare-eq a.text b.text (ap (λ (p : FilePath). p.text) h),
  );
}

abbrev hex : String
hex = "0123456789abcdef0123456789abcdef0123456789abcdef0123456789abcdef"

abbrev base : RegistryDocument
base = record {
  format = "ctsc.registry";
  format_version = "0.4.0";
  registry_id = "urn:base";
  version = "1.0.0";
  imports = [];
  components =
      record {
        id = "money";
        dependencies = [];
        operations = [];
        types =
            NamedType.record_type "Amount"
              (Fields.field "cents" (TypeRef.primitive "u64") Fields.fields_end) []
            ∷ [];
        extensions = [];
      }
      ∷ [];
  extensions = [];
}

abbrev pay_operation : RegistryOperation
pay_operation = record {
  name = "pay";
  inputs =
      Fields.field "amount" (TypeRef.named "Amount" (some "money") (some "urn:base"))
        Fields.fields_end;
  observations = Fields.fields_end;
  outcomes = record { result = some (TypeRef.primitive "bool"); empty = false; errors = [] };
  extensions = "acme.owner" ∷ [];
}

abbrev shop_component : RegistryComponent
shop_component = record {
  id = "shop";
  dependencies = record { component_id = "money"; registry_id = some "urn:base" } ∷ [];
  operations = pay_operation ∷ [];
  types = [];
  extensions = [];
}

abbrev root : RegistryDocument
root = record {
  format = "ctsc.registry";
  format_version = "0.4.0";
  registry_id = "urn:root";
  version = "2.0.0";
  imports =
      record {
        registry_id = "urn:base";
        version = "1.0.0";
        digest = "sha256:0123456789abcdef0123456789abcdef0123456789abcdef0123456789abcdef";
        uri = some "file:base.json";
      }
      ∷ [];
  components = shop_component ∷ [];
  extensions = [];
}

abbrev parse : List ℕ → String ⊎ RegistryDocument
parse [] = inl "no value"
parse (b ∷ bs) = inr (if b == 1 then root else base)

abbrev libraries : Libraries
libraries = record {
  parse_registry = parse;
  sha256_hex = λ bytes. hex;
  not_found = λ path. "not found";
  is_absolute = λ path. false;
  parent = λ path. none;
  join = λ directory path. path;
  parse_authority = λ s. inr s;
  percent_decode = λ s. inr s;
}

abbrev root_path : FilePath
root_path = record { text = "root.json" }

abbrev base_path : FilePath
base_path = record { text = "base.json" }

abbrev files : Filesystem
files = memory ((base_path, 2 ∷ []) ∷ (root_path, 1 ∷ []) ∷ [])

abbrev no_message : UriError → String
no_message e = e.message

abbrev result : Outcome (Loaded RegistrySet)
result = load_fs libraries no_message files 5 root_path []

abbrev shop : ResolvedComponent
shop = record { registry_id = "urn:root"; component = shop_component }

abbrev set : RegistrySet
set = record {
  root_id = "urn:root";
  root_version = "2.0.0";
  root_digest = "sha256:0123456789abcdef0123456789abcdef0123456789abcdef0123456789abcdef";
  components =
      (
        "money",
        record {
          registry_id = "urn:base";
          component = record {
            id = "money";
            dependencies = [];
            operations = [];
            types =
                NamedType.record_type "Amount"
                  (Fields.field "cents" (TypeRef.primitive "u64") Fields.fields_end) []
                ∷ [];
            extensions = [];
          };
        },
      )
      ∷ ("shop", shop)
      ∷ [];
}

abbrev loaded : Loaded RegistrySet
loaded = record { value = some set; issues = [] }

loads : load_fs libraries no_message files 5 root_path [] ≡ done loaded
unfolding load_fs load_file insert_candidate resolve_uri validate_shape validate_extensions unique
    is_digest out_of_order is_namespace is_reserved validate_values validate_fields
loads = refl

load_fs-resolves_example : ComponentResolves (ResolvesIn set shop) shop_component
load_fs-resolves_example =
    load_fs-resolves libraries no_message files 5 root_path [] loaded set loads refl refl "shop"
      shop refl

load_fs-FromTrusted_example :
    FromTrusted libraries no_message files (canonicalize libraries files root_path) shop
load_fs-FromTrusted_example =
    load_fs-FromTrusted libraries no_message files 5 root_path [] loaded set loads refl "shop" shop
      refl

readable :
    (path : FilePath) (bytes : List ℕ)
    → read_file libraries files path ≡ inr bytes
    → Elem path (base_path ∷ root_path ∷ [])
unfolding read_file
readable path bytes h =
    ground (arith, path_order.cmp_iff path base_path, path_order.cmp_iff path root_path)

load_fs-IsDone_example :
    (l : Loaded RegistrySet) × (load_fs libraries no_message files 5 root_path [] ≡ done l)
load_fs-IsDone_example =
    load_fs-IsDone libraries no_message files (base_path ∷ root_path ∷ []) 5 root_path [] readable
      (omega arith)

root_accepted : validate_shape "root.json" root ≡ []
unfolding validate_shape validate_extensions unique is_digest out_of_order is_namespace is_reserved
    validate_values validate_fields
root_accepted = refl

validate_shape-IsWellShaped_example : IsWellShaped root
validate_shape-IsWellShaped_example = validate_shape-IsWellShaped "root.json" root root_accepted

abbrev documents : Members
documents =
    ("urn:base", record { document = base; path = "base.json" })
    ∷ ("urn:root", record { document = root; path = "root.json" })
    ∷ []

no_cycles : validate_cycles documents 3 ≡ done []
unfolding validate_cycles
no_cycles = refl

validate_cycles-irreflexive_example : ¬ ImportChain documents "urn:root" "urn:root"
validate_cycles-irreflexive_example = validate_cycles-irreflexive documents 3 no_cycles "urn:root"
