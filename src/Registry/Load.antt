-- ===== src/Registry/Load.antt =====
-- registry.rs: `load_fs` and its entry points: from a root registry to the set of components.
pub mod Collect
pub mod Resolves
pub mod Closed
pub mod Steps
pub mod Totality
pub mod Trust
pub mod Trusted
pub mod Inventory
use specgate.Prelude.{ℕ, suc, String, Option, none, some, List, [], ◌∷◌, ◌++◌, map, length}
use specgate.Prelude.Order.{Order, Dict, string_order, get, insert}
use specgate.Prelude.Text.{format}
use specgate.Model.{RegistryComponent, ResolvedComponent, RegistrySet}
use specgate.Render.{Issues, issue, Loaded}
use specgate.Compare.Outcome.{Outcome, done, ◌>>=◌, expect}
use specgate.Registry.Checks.{located}
use specgate.Registry.Cycles.{Members, validate_cycles}
use specgate.Registry.Selection.{Selection, select_pending, duplicate_inputs, load_inputs}
use specgate.Registry.Files.{
  FilePath, Libraries, Filesystem, memory, RegistryFile, Files, canonicalize,
}
use specgate.Registry.References.{validate_references}
use specgate.Registry.Uri.{UriError}

-- The documents of the set under their registry ids, and the components under theirs.
abbrev pub report_existing : FilePath → String → String → Option ResolvedComponent → Issues
report_existing root id registry_id none = []
report_existing root id registry_id (some existing) = issue (located root.text "$.components") (
    format (
      "component ID '" ∷ id ∷ "' exists in both '" ∷ existing.registry_id ∷ "' and '" ∷ registry_id
      ∷ "'" ∷ []))

unfoldable pub collect_components :
    FilePath
    → String
    → List RegistryComponent
    → Dict String ResolvedComponent
    → Dict String ResolvedComponent × Issues
collect_components root registry_id [] components = (components, [])
collect_components root registry_id (c ∷ cs) components =
    let entry : ResolvedComponent = record { registry_id = registry_id; component = c } in
    let (all, issues) = collect_components root registry_id cs (insert c.id entry components) in
    (all, report_existing root c.id registry_id (get components c.id) ++ issues)

unfoldable pub collect_documents :
    FilePath → Members → Dict String ResolvedComponent → Dict String ResolvedComponent × Issues
unfolding collect_components
collect_documents root [] components = (components, [])
collect_documents root ((registry_id, m) ∷ rest) components =
    let (some_of, issues) = collect_components root registry_id m.document.components components in
    let (all, more) = collect_documents root rest some_of in (all, issues ++ more)

module _ ⦃path_order : Order FilePath⦄ where
  unfoldable pub members : Files → List FilePath → Members → Outcome Members
  members files [] acc = done acc
  members files (path ∷ paths) acc = expect (get files.by_path path) >>= λ file.
      members files paths (
        insert file.document.registry_id
          (record { document = file.document; path = file.path.text }) acc)

-- What `load_fs` does with the documents that were selected.
unfoldable pub finish_set : FilePath → RegistryFile → Members → Outcome (Loaded RegistrySet)
unfolding validate_cycles validate_references collect_documents
finish_set root file documents = validate_cycles documents (suc (length documents)) >>= λ cycles.
    let (components, duplicates) = collect_documents root documents [] in
    done (record {
      value = some (record {
        root_id = file.document.registry_id;
        root_version = file.document.version;
        root_digest = file.digest;
        components = components;
      });
      issues = cycles ++ (validate_references documents ++ duplicates);
    })

abbrev pub with_issues : Issues → Loaded RegistrySet → Loaded RegistrySet
with_issues issues loaded = record { value = loaded.value; issues = issues ++ loaded.issues }

module _ (lib : Libraries) (show_error : UriError → String) ⦃path_order : Order FilePath⦄
    (filesystem : Filesystem) where
  unfoldable pub load_root :
      ℕ → FilePath → Files → Option RegistryFile → Outcome (Loaded RegistrySet)
  unfolding select_pending members finish_set
  load_root fuel root files none = done (record { value = none; issues = [] })
  load_root fuel root files (some file) = do
    let start : Selection = record { files = files; selected = root ∷ []; pending = root ∷ [] }
    (s, issues) ← select_pending lib show_error filesystem fuel start
    documents ← members s.files s.selected []
    root_file ← expect (get s.files.by_path root)
    loaded ← finish_set root root_file documents
    done (with_issues issues loaded)

  unfoldable pub load_fs : ℕ → FilePath → List FilePath → Outcome (Loaded RegistrySet)
  unfolding load_root load_inputs duplicate_inputs canonicalize
  load_fs fuel root explicit_imports =
      let root' = canonicalize lib filesystem root in
      let inputs = root' ∷ map (canonicalize lib filesystem) explicit_imports in
      let (files, issues) =
        load_inputs lib show_error filesystem inputs (record { by_path = []; by_id = [] }) in
      load_root fuel root' files (get files.by_path root') >>= λ loaded.
      done (with_issues (duplicate_inputs lib show_error filesystem [] inputs ++ issues) loaded)

-- `Filesystem::from_documents`
unfoldable pub from_documents :
    ⦃path_order : Order FilePath⦄
    → List (FilePath × List ℕ)
    → Dict FilePath (List ℕ)
    → Dict FilePath (List ℕ)
from_documents [] files = files
from_documents ((path, bytes) ∷ documents) files =
    from_documents documents (insert path bytes files)

unfoldable pub load_bytes :
    Libraries
    → (UriError → String)
    → ⦃path_order : Order FilePath⦄ → ℕ
    → FilePath × List ℕ
    → List (FilePath × List ℕ)
    → Outcome (Loaded RegistrySet)
unfolding from_documents load_fs
load_bytes lib show_error fuel root explicit_imports =
    load_fs lib show_error (memory (from_documents (root ∷ explicit_imports) [])) fuel root.0
      (map (λ (d : FilePath × List ℕ). d.0) explicit_imports)
