-- ===== src/Registry/Selection.antt =====
-- registry.rs: the first part of `load_fs`: the inputs, and the imports that they select.
use specgate.Prelude.{
  ℕ, zero, suc, ◌+◌, String, Bool, true, false, not, ◌&&◌, Option, none, some, List, [], ◌∷◌, ◌++◌,
  ◌⊎◌, inl, inr, if◌then◌else◌,
}
use specgate.Prelude.Order.{Order, string_order, get, contains_key, insert_key, has_key}
use specgate.Prelude.Text.{format, str_eq}
use specgate.Model.{RegistryImport, RegistryDocument}
use specgate.Render.{Issues, issue, require}
use specgate.Compare.Outcome.{Outcome, done, panic, out_of_fuel, ◌>>=◌, expect}
use specgate.Registry.Checks.{located}
use specgate.Registry.Files.{
  FilePath, Libraries, Filesystem, RegistryFile, Files, paths_of, load_file, insert_loaded,
}
use specgate.Registry.Shape.Types.{at_index, under}
use specgate.Registry.Uri.{UriError, resolve_uri}
use specgate.Registry.Uses.{document_uses}

-- The state of the selection. `pending` is what the cursor has not reached.
pub record Selection : Type 0 where
  pub files : Files
  pub selected : List FilePath
  pub pending : List FilePath

abbrev pub import_at : ℕ → String
import_at index = at_index "$.imports" index

module _ (lib : Libraries) (show_error : UriError → String) ⦃path_order : Order FilePath⦄
    (filesystem : Filesystem) where
  -- The import's file, if its `uri` names one that is not loaded yet.
  unfoldable pub load_import :
      FilePath → String → UriError ⊎ Option FilePath → Files → Files × Issues
  load_import path location (inl error) files =
      (files, issue (located path.text (under location ".uri")) (show_error error))
  load_import path location (inr none) files = (files, [])
  load_import path location (inr (some candidate)) files =
      let loaded = insert_loaded lib (load_file lib filesystem candidate false) files in
      if contains_key files.by_path candidate then (files, []) else loaded

  unfoldable pub load_uri : FilePath → String → Option String → Files → Files × Issues
  unfolding load_import
  load_uri path location none files = (files, [])
  load_uri path location (some uri) files =
      load_import path location (resolve_uri lib filesystem uri path) files

  -- A candidate whose version and digest fit is selected, once.
  unfoldable pub check_candidate :
      FilePath → String → RegistryImport → FilePath → RegistryFile → Selection → Selection × Issues
  check_candidate path location item candidate_path candidate s =
      let version_matches = str_eq candidate.document.version item.version in
      let digest_matches = str_eq candidate.digest item.digest in
      (
        if (version_matches && digest_matches) && not (has_key candidate_path s.selected)
            then record s {
              selected = insert_key candidate_path s.selected;
              pending = s.pending ++ candidate_path ∷ [];
            }
            else s,
        require version_matches (located path.text location)
              "imported registry version does not match referenced version"
            ++ require digest_matches (located path.text location)
                "imported registry digest does not match exact file bytes",
      )

  unfoldable pub choose_candidate :
      FilePath
      → String
      → Bool
      → RegistryImport
      → List FilePath
      → Selection
      → Outcome (Selection × Issues)
  unfolding check_candidate
  choose_candidate path location used item [] s = done (
    s,
    if used
        then issue (located path.text location) (
            format (
              "unresolved import '" ∷ item.registry_id ∷ "'; supply --import or a local file: URI"
              ∷ []))
        else [],
  )
  choose_candidate path location used item (candidate_path ∷ []) s =
      expect (get s.files.by_path candidate_path) >>= λ candidate.
      done (check_candidate path location item candidate_path candidate s)
  choose_candidate path location used item (candidate_path ∷ other ∷ others) s = done (
    s,
    issue (located path.text location)
        (format ("import '" ∷ item.registry_id ∷ "' has ambiguous candidate registry files" ∷ [])),
  )

  unfoldable pub select_import :
      FilePath
      → RegistryDocument
      → String
      → RegistryImport
      → Selection
      → Outcome (Selection × Issues)
  unfolding load_uri choose_candidate
  select_import path document location item s =
      let (files, loading) = load_uri path location item.uri s.files in
      choose_candidate path location (document_uses item.registry_id document) item
        (paths_of (get files.by_id item.registry_id)) (record s { files = files })
      >>= λ r. done (r.0, loading ++ r.1)

  unfoldable pub select_imports :
      FilePath
      → RegistryDocument
      → ℕ
      → List RegistryImport
      → Selection
      → Outcome (Selection × Issues)
  unfolding select_import
  select_imports path document index [] s = done (s, [])
  select_imports path document index (item ∷ items) s = do
    (s', issues) ← select_import path document (import_at index) item s
    (t, more) ← select_imports path document (index + 1) items s'
    done (t, issues ++ more)

  unfoldable pub select_file :
      FilePath → Option RegistryFile → Selection → Outcome (Selection × Issues)
  unfolding select_imports
  select_file path none s = panic
  select_file path (some file) s = select_imports path file.document 0 file.document.imports s

  -- `while cursor < pending.len()`
  unfoldable pub select_pending : ℕ → Selection → Outcome (Selection × Issues)
  unfolding select_file
  select_pending zero s = out_of_fuel
  select_pending (suc fuel) s = elim s.pending [
    | [] ↦ done (s, [])
    | path ∷ rest ↦
        select_file path (get s.files.by_path path) (record s { pending = rest }) >>= λ r.
        select_pending fuel r.0 >>= λ q. done (q.0, r.1 ++ q.1)
  ]

  unfoldable pub duplicate_inputs : List FilePath → List FilePath → Issues
  duplicate_inputs seen [] = []
  duplicate_inputs seen (path ∷ paths) =
      (if has_key path seen
        then issue (located path.text "$") "duplicate registry input path"
        else [])
      ++ duplicate_inputs (insert_key path seen) paths

  unfoldable pub load_inputs : List FilePath → Files → Files × Issues
  load_inputs [] files = (files, [])
  load_inputs (path ∷ paths) files =
      let (files', issues) =
        if contains_key files.by_path path
        then (files, [])
        else insert_loaded lib (load_file lib filesystem path true) files in
      let (all, more) = load_inputs paths files' in (all, issues ++ more)
