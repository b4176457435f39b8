-- ===== src/Registry/Load/Closed.antt =====
-- `load_fs` without issues gives a registry set in which every reference resolves.
use specgate.Prelude.{
  ℕ, suc, length, String, Option, none, some, List, [], ◌∷◌, ◌++◌, ◌≡◌, inl, inr, arith, map,
  append-eq-nil,
}
use specgate.Prelude.Elem.{Elem, All-Elem}
use specgate.Prelude.Order.{Order, string_order, get}
use specgate.Model.{
  TypeRef, RegistryOperation, as_type, RegistryComponent, ResolvedComponent, RegistrySet,
}
use specgate.Render.{Loaded}
use specgate.Compare.Outcome.{done, expect, >>=-eq-done}
use specgate.Registry.Cycles.{Member, Members, validate_cycles}
use specgate.Registry.Files.{FilePath, Libraries, Filesystem, RegistryFile, Files, canonicalize}
use specgate.Registry.Uri.{UriError}
use specgate.Registry.Selection.{Selection, select_pending, duplicate_inputs, load_inputs}
use specgate.Registry.Load.{collect_documents, members, finish_set, load_root, load_fs}
use specgate.Registry.Load.Collect.{resolved, collect_documents-origin}
use specgate.Registry.Load.Resolves.{
  ResolvesIn, AllOptional, OperationResolves, ComponentResolves, found-resolves,
}
use specgate.Registry.References.{
  scope_of, own_documents, resolve_optional, resolve_error, resolve_operation, resolve_definition,
  resolve_dependency, resolve_component, resolve_documents, validate_references,
}
use specgate.Registry.Scope.{Scope, resolve_fields}
use specgate.Registry.Scope.Named.{
  AllNamed, AllFields, IsFound, resolve_type-AllNamed, resolve_fields-AllFields, AllNamed-mono,
  AllFields-mono,
}
use specgate.Registry.Shape.Types.{under}
use specgate.Registry.Shape.Document.{each_at, each_at-All}

module _ (scope : Scope) (P : String → Option String → Option String → Type 0)
    (imp : (n : String) (c r : Option String) → IsFound scope n c r → P n c r) where
  optional-lem :
      (o : Option TypeRef) (location : String)
      → resolve_optional scope o location ≡ []
      → AllOptional P o
  optional-lem none location h = tt
  optional-lem (some t) location h =
      AllNamed-mono (IsFound scope) P imp t (resolve_type-AllNamed scope t location h)

  fields-lem :
      (fs : _) (i : ℕ) (location : String)
      → resolve_fields scope fs i location ≡ []
      → AllFields P fs
  fields-lem fs i location h =
      AllFields-mono (IsFound scope) P imp fs (resolve_fields-AllFields scope fs i location h)

  operation-lem :
      (o : RegistryOperation) (location : String)
      → resolve_operation scope o location ≡ []
      → OperationResolves P o
  operation-lem o location h =
      let (inputs, h1) =
        append-eq-nil (resolve_fields scope o.inputs 0 (under location ".inputs")) _ h in
      let (observations, h2) =
        append-eq-nil (resolve_fields scope o.observations 0 (under location ".observations")) _
          h1 in
      let (result, errors) =
        append-eq-nil (resolve_optional scope o.outcomes.result (under location ".outcomes.result"))
          _ h2 in
      record {
        inputs = fields-lem o.inputs 0 _ inputs;
        observations = fields-lem o.observations 0 _ observations;
        result = optional-lem o.outcomes.result _ result;
        errors =
            each_at-All (resolve_error scope) (λ e. AllOptional P e.value_type) o.outcomes.errors 0
              _ (λ e place q. optional-lem e.value_type _ q) errors;
      }

  component-lem :
      (m : Member) (location : String)
      → resolve_component scope m location ≡ []
      → ComponentResolves P scope.component
  unfolding resolve_component
  component-lem m location h =
      let at_operations = under location ".operations" in
      let at_types = under location ".types" in
      let c = scope.component in
      let (dependencies, h1) =
        append-eq-nil
          (each_at (resolve_dependency scope m) c.dependencies 0 (under location ".dependencies")) _
          h in
      let (operations, types) =
        append-eq-nil (each_at (resolve_operation scope) c.operations 0 at_operations) _ h1 in
      record {
        operations =
            each_at-All (resolve_operation scope) (OperationResolves P) c.operations 0 at_operations
              operation-lem operations;
        types =
            each_at-All (resolve_definition scope) (λ t. AllNamed P (as_type t)) c.types 0 at_types
              (λ t place q.
                AllNamed-mono (IsFound scope) P imp (as_type t)
                  (resolve_type-AllNamed scope (as_type t) place q))
              types;
      }

module _ (documents : Members) where
  resolve_documents-Elem :
      (ds : Members) (registry_id : String) (m : Member) (c : RegistryComponent)
      → resolve_documents documents ds ≡ []
      → Elem (registry_id, m) ds
      → Elem c m.document.components
      → (place : String) × (resolve_component (scope_of documents registry_id m c) m place ≡ [])
  unfolding resolve_documents
  resolve_documents-Elem [] registry_id m c h e stands = absurd e
  resolve_documents-Elem ((id, d) ∷ ds) registry_id m c h e stands =
      let check = λ (c : RegistryComponent) (place : String).
        resolve_component (scope_of documents id d c) d place in
      let (first, rest) =
        append-eq-nil (each_at check d.document.components 0 "$.components") _ h in
      elim e [
        | inr later ↦ resolve_documents-Elem ds registry_id m c rest later stands
        | inl here ↦
            let same_id : registry_id ≡ id = ground arith in
            let same_member : m ≡ d = ground arith in
            let all =
              each_at-All check (λ c. (place : String) × (check c place ≡ [])) d.document.components
                0 "$.components" (λ c place q. (place, q)) first in
            rw (same_id, same_member)
              (All-Elem (λ c. (place : String) × (check c place ≡ [])) c d.document.components all
                (rw same_member at stands))
      ]

  -- What the last part of loading leaves, when it reports nothing.
  record Finished (root : FilePath) (set : RegistrySet) : Type 0 where
    references : validate_references documents ≡ []
    quiet : (collect_documents root documents []).1 ≡ []
    components : set.components ≡ (collect_documents root documents []).0
    cycles : (fuel : ℕ) × (validate_cycles documents fuel ≡ done [])

  finish_set-Finished :
      (root : FilePath) (file : RegistryFile) (loaded : Loaded RegistrySet) (set : RegistrySet)
      → finish_set root file documents ≡ done loaded
      → loaded.issues ≡ []
      → loaded.value ≡ some set
      → Finished root set
  unfolding finish_set
  finish_set-Finished root file loaded set h quiet valued =
      let (cycles, p, q) = >>=-eq-done (validate_cycles documents (suc (length documents))) _ h in
      let all : cycles ++ (validate_references documents ++ (collect_documents root documents []).1)
          ≡ [] =
        ground arith in
      let (no_cycle, rest) = append-eq-nil cycles _ all in
      let (references, duplicates) = append-eq-nil (validate_references documents) _ rest in
      record {
        references = references;
        quiet = duplicates;
        components = ground arith;
        cycles = (suc (length documents), ground arith);
      }

  module _ (root : FilePath) (set : RegistrySet) (f : Finished root set) where
    closed-lem :
        (id : String) (owner : ResolvedComponent)
        → get set.components id ≡ some owner
        → ComponentResolves (ResolvesIn set owner) owner.component
    unfolding validate_references
    closed-lem id owner known =
        elim (collect_documents-origin root documents [] id owner (rw f.components at known)) [
          | inl empty ↦ absurd (ground arith)
          | inr (registry_id, m, c, at_document, stands, same) ↦
              let (first, references) = append-eq-nil (own_documents documents []) _ f.references in
              let (place, checked) =
                resolve_documents-Elem documents registry_id m c references at_document stands in
              rw same (
                component-lem (scope_of documents registry_id m c)
                  (ResolvesIn set (resolved registry_id c))
                  (found-resolves documents registry_id m c at_document root set f.quiet
                    f.components)
                  m place checked)
        ]

module _ (lib : Libraries) (show_error : UriError → String) ⦃path_order : Order FilePath⦄
    (filesystem : Filesystem) where
  load_root-Finished :
      (fuel : ℕ) (root : FilePath) (files : Files) (o : Option RegistryFile)
      (loaded : Loaded RegistrySet) (set : RegistrySet)
      → load_root lib show_error filesystem fuel root files o ≡ done loaded
      → loaded.issues ≡ []
      → loaded.value ≡ some set
      → (documents : Members) × Finished documents root set
  unfolding load_root
  load_root-Finished fuel root files none loaded set h quiet valued = absurd (ground arith)
  load_root-Finished fuel root files (some file) loaded set h quiet valued =
      let start : Selection = record { files = files; selected = root ∷ []; pending = root ∷ [] } in
      let (r, selected, h1) =
        >>=-eq-done (select_pending lib show_error filesystem fuel start) _ h in
      let (documents, gathered, h2) = >>=-eq-done (members r.0.files r.0.selected []) _ h1 in
      let (root_file, found, h3) = >>=-eq-done (expect (get r.0.files.by_path root)) _ h2 in
      let (l, finished, h4) = >>=-eq-done (finish_set root root_file documents) _ h3 in
      let all : r.1 ++ l.issues ≡ [] = ground arith in
      (
        documents,
        finish_set-Finished documents root root_file l set finished
            (append-eq-nil r.1 l.issues all).1 (ground arith),
      )

  load_fs-Finished :
      (fuel : ℕ) (root : FilePath) (explicit_imports : List FilePath) (loaded : Loaded RegistrySet)
      (set : RegistrySet)
      → load_fs lib show_error filesystem fuel root explicit_imports ≡ done loaded
      → loaded.issues ≡ []
      → loaded.value ≡ some set
      → (documents : Members) × Finished documents (canonicalize lib filesystem root) set
  unfolding load_fs
  load_fs-Finished fuel root explicit_imports loaded set h quiet valued =
      let root' = canonicalize lib filesystem root in
      let inputs = root' ∷ map (canonicalize lib filesystem) explicit_imports in
      let r = load_inputs lib show_error filesystem inputs (record { by_path = []; by_id = [] }) in
      let (l, finished, h1) =
        >>=-eq-done (load_root lib show_error filesystem fuel root' r.0 (get r.0.by_path root')) _
          h in
      let early = duplicate_inputs lib show_error filesystem [] inputs ++ r.1 in
      let all : early ++ l.issues ≡ [] = ground arith in
      load_root-Finished fuel root' r.0 (get r.0.by_path root') l set finished
        (append-eq-nil early l.issues all).1 (ground arith)

  -- When `load_fs` returns a registry set and reports no issue, every named reference in the
  -- operations (inputs, observations, result, errors) and the types of every component of the set
  -- is found by `resolve`, the lookup of linked validation, from within that component.
  pub load_fs-resolves :
      (fuel : ℕ) (root : FilePath) (explicit_imports : List FilePath) (loaded : Loaded RegistrySet)
      (set : RegistrySet)
      → load_fs lib show_error filesystem fuel root explicit_imports ≡ done loaded
      → loaded.issues ≡ []
      → loaded.value ≡ some set
      → (id : String) (owner : ResolvedComponent) → get set.components id ≡ some owner
      → ComponentResolves (ResolvesIn set owner) owner.component
  load_fs-resolves fuel root explicit_imports loaded set h quiet valued id owner known =
      let (documents, finished) =
        load_fs-Finished fuel root explicit_imports loaded set h quiet valued in
      closed-lem documents (canonicalize lib filesystem root) set finished id owner known
