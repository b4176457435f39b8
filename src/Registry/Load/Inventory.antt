-- ===== src/Registry/Load/Inventory.antt =====
-- The files that loading holds: what each step adds, and that the index of ids names loaded files.
use specgate.Prelude.{
  String, Bool, true, false, Option, none, some, List, [], ◌∷◌, ◌++◌, ◌≡◌, refl, sym, ap, ◌⊎◌, inl,
  inr, arith, if◌then◌else◌, ℕ, Bool-cases,
}
use mathlib.Core.Path.{subst}
use specgate.Prelude.Elem.{Elem, Elem-append}
use specgate.Prelude.Order.{Order, string_order, get, contains_key}
use specgate.Prelude.Order.Laws.{same_key, same_key-eq, get-insert}
use specgate.Model.{RegistryDocument}
use specgate.Render.{Issues}
use specgate.Registry.Files.{
  FilePath, Libraries, Filesystem, RegistryFile, Files, paths_of, sha256_digest, read_file,
  parse_file, load_read, load_file, insert_candidate, insert_loaded,
}
use specgate.Registry.Selection.{load_import, load_uri, load_inputs}
use specgate.Registry.Uri.{UriError, resolve_uri}

Sum-cases : {A B : Type 0} (s : A ⊎ B) → ((a : A) × (s ≡ inl a)) ⊎ ((b : B) × (s ≡ inr b))
Sum-cases (inl a) = inl (a, refl)
Sum-cases (inr b) = inr (b, refl)

module _ (lib : Libraries) (show_error : UriError → String) ⦃path_order : Order FilePath⦄
    (filesystem : Filesystem) where
  abbrev pub IsLoaded : Files → FilePath → Type 0
  IsLoaded files path = contains_key files.by_path path ≡ true

  -- A file that is loaded can be read, and holds what its bytes say.
  pub record Reads (path : FilePath) (file : RegistryFile) : Type 0 where
    pub bytes : List ℕ
    pub document : RegistryDocument
    pub read : read_file lib filesystem path ≡ inr bytes
    pub parsed : lib.parse_registry bytes ≡ inr document
    pub same : file ≡ record { path = path; digest = sha256_digest lib bytes; document = document }

  pub record IsSound (files : Files) : Type 0 where
    pub indexed :
        (id : String) (path : FilePath)
        → Elem path (paths_of (get files.by_id id))
        → IsLoaded files path
    pub reads :
        (path : FilePath) (file : RegistryFile)
        → get files.by_path path ≡ some file
        → Reads path file

  abbrev pub Grows : Files → Files → Type 0
  Grows before after = (path : FilePath) → IsLoaded before path → IsLoaded after path

  load_file-Reads :
      (path : FilePath) (report : Bool) (file : RegistryFile) (issues : Issues)
      → load_file lib filesystem path report ≡ (some file, issues)
      → Reads path file
  unfolding load_file load_read parse_file
  load_file-Reads path report file issues h = elim (Sum-cases (read_file lib filesystem path)) [
    | inl (error, failed) ↦ absurd (ground arith)
    | inr (bytes, read) ↦ elim (Sum-cases (lib.parse_registry bytes)) [
      | inl (error, failed) ↦ absurd (ground arith)
      | inr (document, parsed) ↦ record {
        bytes = bytes;
        document = document;
        read = read;
        parsed = parsed;
        same = ground arith;
      }
    ]
  ]

  get-insert_file :
      (file : RegistryFile) (files : Files) (path : FilePath)
      → get (insert_candidate lib file files).0.by_path path
        ≡ (if same_key path file.path then some file else get files.by_path path)
  unfolding insert_candidate
  get-insert_file file files path = get-insert file.path path file files.by_path

  insert_candidate-Grows :
      (file : RegistryFile) (files : Files) → Grows files (insert_candidate lib file files).0
  insert_candidate-Grows file files path loaded = ground (arith, get-insert_file file files path)

  insert_candidate-IsLoaded :
      (file : RegistryFile) (files : Files) → IsLoaded (insert_candidate lib file files).0 file.path
  insert_candidate-IsLoaded file files =
      ground (arith, get-insert_file file files file.path, path_order.cmp_iff file.path file.path)

  insert_candidate-indexed :
      (file : RegistryFile) (files : Files)
      → IsSound files
      → (id : String) (path : FilePath)
      → Elem path (paths_of (get (insert_candidate lib file files).0.by_id id))
      → IsLoaded (insert_candidate lib file files).0 path
  unfolding insert_candidate
  insert_candidate-indexed file files sound id path e =
      let own = file.document.registry_id in
      let paths = paths_of (get files.by_id own) in
      let found = get-insert own id (paths ++ file.path ∷ []) files.by_id in
      elim (Bool-cases (same_key id own)) [
        | inl same ↦
            let here : Elem path (paths ++ file.path ∷ []) = rw (found, same) at e in
            elim (Elem-append path paths (file.path ∷ []) here) [
              | inl old ↦ insert_candidate-Grows file files path (sound.indexed own path old)
              | inr (inl new) ↦ rw new (insert_candidate-IsLoaded file files)
              | inr (inr never) ↦ absurd never
            ]
        | inr other ↦
            insert_candidate-Grows file files path (sound.indexed id path (rw (found, other) at e))
      ]

  insert_candidate-IsSound :
      (file : RegistryFile) (files : Files)
      → Reads file.path file
      → IsSound files
      → IsSound (insert_candidate lib file files).0
  insert_candidate-IsSound file files r sound = record {
    indexed = insert_candidate-indexed file files sound;
    reads = λ path other found. elim (Bool-cases (same_key path file.path)) [
      | inl same ↦
          let here : file ≡ other = ground (arith, get-insert_file file files path) in
          rw (same_key-eq path file.path same, ← here) r
      | inr differs ↦ sound.reads path other (ground (arith, get-insert_file file files path))
    ];
  }

  insert_any :
      (r : Option RegistryFile × Issues) (files : Files)
      → ((file : RegistryFile) → r.0 ≡ some file → Reads file.path file)
      → IsSound files
      → IsSound (insert_loaded lib r files).0 × Grows files (insert_loaded lib r files).0
  insert_any (none, issues) files reads sound = (sound, λ path h. h)
  insert_any (some file, issues) files reads sound = (
    insert_candidate-IsSound file files (reads file refl) sound,
    insert_candidate-Grows file files,
  )

  insert_loaded-lem :
      (path : FilePath) (report : Bool) (files : Files)
      → IsSound files
      → IsSound (insert_loaded lib (load_file lib filesystem path report) files).0
        × Grows files (insert_loaded lib (load_file lib filesystem path report) files).0
  insert_loaded-lem path report files sound =
      let r = load_file lib filesystem path report in
      insert_any r files
        (λ file p.
          let read = load_file-Reads path report file r.1 (ground arith) in
          let same : file.path ≡ path = ap (λ (f : RegistryFile). f.path) read.same in
          subst (λ p. Reads p file) (sym same) read)
        sound

  load_import-lem :
      (path : FilePath) (location : String) (r : UriError ⊎ Option FilePath) (files : Files)
      → IsSound files
      → IsSound (load_import lib show_error filesystem path location r files).0
        × Grows files (load_import lib show_error filesystem path location r files).0
  unfolding load_import
  load_import-lem path location (inl error) files sound = (sound, λ p h. h)
  load_import-lem path location (inr none) files sound = (sound, λ p h. h)
  load_import-lem path location (inr (some candidate)) files sound =
      elim (Bool-cases (contains_key files.by_path candidate)) [
        | inl old ↦ rw old (sound, λ p h. h)
        | inr new ↦ rw new (insert_loaded-lem candidate false files sound)
      ]

  pub load_uri-lem :
      (path : FilePath) (location : String) (uri : Option String) (files : Files)
      → IsSound files
      → IsSound (load_uri lib show_error filesystem path location uri files).0
        × Grows files (load_uri lib show_error filesystem path location uri files).0
  unfolding load_uri
  load_uri-lem path location none files sound = (sound, λ p h. h)
  load_uri-lem path location (some uri) files sound =
      load_import-lem path location (resolve_uri lib filesystem uri path) files sound

  pub load_inputs-IsSound :
      (paths : List FilePath) (files : Files)
      → IsSound files
      → IsSound (load_inputs lib show_error filesystem paths files).0
  unfolding load_inputs
  load_inputs-IsSound [] files sound = sound
  load_inputs-IsSound (path ∷ paths) files sound =
      elim (Bool-cases (contains_key files.by_path path)) [
        | inl old ↦ rw old (load_inputs-IsSound paths files sound)
        | inr new ↦ rw new (
            load_inputs-IsSound paths
              (insert_loaded lib (load_file lib filesystem path true) files).0
              (insert_loaded-lem path true files sound).0)
      ]

  pub no_files-IsSound : IsSound (record { by_path = []; by_id = [] })
  no_files-IsSound = record {
    indexed = λ id path e. absurd e;
    reads = λ path file h. absurd (ground arith);
  }
