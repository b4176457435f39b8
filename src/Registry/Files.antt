-- ===== src/Registry/Files.antt =====
-- registry.rs: `Filesystem`, `RegistryFile`, `load_file` and `insert_candidate`, and what they
-- take from outside the repository.
use specgate.Prelude.{
  ℕ, String, Bool, Option, none, some, List, [], ◌∷◌, ◌++◌, ◌⊎◌, inl, inr, if◌then◌else◌,
}
use specgate.Prelude.Order.{Order, Dict, string_order, get, insert}
use specgate.Prelude.Text.{format}
use specgate.Model.{RegistryDocument}
use specgate.Render.{Issues, issue}
use specgate.Registry.Checks.{located}
use specgate.Registry.Shape.Document.{validate_shape}

-- A `PathBuf`, by the text that `display` shows. Its order is a parameter, under which paths are equal
-- when their texts are; the source compares components, for which `a//b` and `a/b` are one path.
pub record FilePath : Type 0 where
  pub text : String

-- `DocumentReader`; a failed `read` is given by the text of its error.
pub record Reader : Type 0 where
  pub canonicalize : FilePath → Option FilePath
  pub read : FilePath → String ⊎ List ℕ

-- The libraries that loading calls: serde_json on a registry, the hexadecimal SHA-256, paths,
-- `Authority::parse` (an error's text or the parsed text), percent decoding to UTF-8, and the
-- texts of two errors.
pub record Libraries : Type 0 where
  pub parse_registry : List ℕ → String ⊎ RegistryDocument
  pub sha256_hex : List ℕ → String
  pub not_found : FilePath → String
  pub is_absolute : FilePath → Bool
  pub parent : FilePath → Option FilePath
  pub join : FilePath → FilePath → FilePath
  pub parse_authority : String → String ⊎ String
  pub percent_decode : String → String ⊎ String

-- `FilesystemInner`; the real one is the system's reader.
pub data Filesystem : Type 0 where
  memory : Dict FilePath (List ℕ) → Filesystem
  reader : Reader → Filesystem

pub record RegistryFile : Type 0 where
  pub path : FilePath
  pub digest : String
  pub document : RegistryDocument

-- `files_by_path` and `paths_by_id`
pub record Files : Type 0 where
  pub by_path : Dict FilePath RegistryFile
  pub by_id : Dict String (List FilePath)

abbrev pub paths_of : Option (List FilePath) → List FilePath
paths_of none = []
paths_of (some paths) = paths

abbrev pub sha256_digest : Libraries → List ℕ → String
sha256_digest lib bytes = format ("sha256:" ∷ lib.sha256_hex bytes ∷ [])

module _ (lib : Libraries) ⦃path_order : Order FilePath⦄ where
  abbrev or_not_found : FilePath → Option (List ℕ) → String ⊎ List ℕ
  or_not_found path none = inl (lib.not_found path)
  or_not_found path (some bytes) = inr bytes

  unfoldable pub read_file : Filesystem → FilePath → String ⊎ List ℕ
  read_file (memory files) path = or_not_found path (get files path)
  read_file (reader r) path = r.read path

  abbrev pub path_or : FilePath → Option FilePath → FilePath
  path_or path none = path
  path_or path (some p) = p

  -- `Filesystem::canonicalize` and the function that falls back to the path itself
  unfoldable pub canonicalize : Filesystem → FilePath → FilePath
  canonicalize (memory files) path = path
  canonicalize (reader r) path = path_or path (r.canonicalize path)

  unfoldable pub parse_file :
      String ⊎ RegistryDocument → List ℕ → FilePath → Option RegistryFile × Issues
  parse_file (inl error) bytes path =
      (none, issue (located path.text "$") (format ("invalid CTSC registry JSON: " ∷ error ∷ [])))
  parse_file (inr document) bytes path = (
    some (record { path = path; digest = sha256_digest lib bytes; document = document }),
    validate_shape path.text document,
  )

  unfoldable pub load_read : String ⊎ List ℕ → FilePath → Bool → Option RegistryFile × Issues
  unfolding parse_file
  load_read (inl error) path report_read_error = (
    none,
    if report_read_error
        then issue (located path.text "$") (format ("failed to read file: " ∷ error ∷ []))
        else [],
  )
  load_read (inr bytes) path report_read_error = parse_file (lib.parse_registry bytes) bytes path

  unfoldable pub load_file : Filesystem → FilePath → Bool → Option RegistryFile × Issues
  unfolding load_read read_file
  load_file filesystem path report_read_error =
      load_read (read_file filesystem path) path report_read_error

  abbrev pub ambiguous : List FilePath → RegistryFile → Issues
  ambiguous [] file = []
  ambiguous (existing ∷ paths) file = issue (located file.path.text "$.registryId") (
      format (
        "registry ID '" ∷ file.document.registry_id ∷ "' has ambiguous candidates " ∷ existing.text
        ∷ " and " ∷ file.path.text ∷ []))

  unfoldable pub insert_candidate : RegistryFile → Files → Files × Issues
  insert_candidate file files =
      let id = file.document.registry_id in
      let paths = paths_of (get files.by_id id) in
      (
        record {
          by_path = insert file.path file files.by_path;
          by_id = insert id (paths ++ file.path ∷ []) files.by_id;
        },
        ambiguous paths file,
      )

  -- `if let Some(file) = load_file(..) { insert_candidate(file, ..) }`
  abbrev pub insert_loaded : Option RegistryFile × Issues → Files → Files × Issues
  insert_loaded (none, issues) files = (files, issues)
  insert_loaded (some file, issues) files =
      let (files', more) = insert_candidate file files in (files', issues ++ more)
