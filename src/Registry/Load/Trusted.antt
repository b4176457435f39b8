-- ===== src/Registry/Load/Trusted.antt =====
-- Where the components of a registry set come from: the root, or files whose bytes have the digest
-- that an importing file of the set pins.
use specgate.Prelude.{
  ℕ, suc, String, Option, none, some, List, [], ◌∷◌, ◌≡◌, refl, ap, length, ◌⊎◌, inl, inr, arith,
  map,
}
use specgate.Prelude.Elem.{Elem}
use specgate.Prelude.Order.{Order, string_order, get, insert}
use specgate.Model.{ResolvedComponent, RegistrySet}
use specgate.Render.{Loaded}
use specgate.Compare.Outcome.{done, expect, >>=-eq-done}
use specgate.Registry.Cycles.{Member, Members, validate_cycles}
use specgate.Registry.Files.{FilePath, Libraries, Filesystem, RegistryFile, Files, canonicalize}
use specgate.Registry.Load.{collect_documents, members, finish_set, load_root, load_fs}
use specgate.Registry.Load.Collect.{collect_documents-origin}
use specgate.Registry.Load.Inventory.{IsSound, Reads, load_inputs-IsSound, no_files-IsSound}
use specgate.Registry.Selection.{Selection, select_pending, load_inputs}
use specgate.Registry.Uri.{UriError}
use specgate.Registry.Load.Trust.{Trusted, is_root, select_pending-IsTrusted}

Elem-insert :
    (k : String) (v : Member) (ms : Members) (i : String) (w : Member)
    → Elem (i, w) (insert k v ms)
    → ((i ≡ k) × (w ≡ v)) ⊎ Elem (i, w) ms
Elem-insert k v [] i w (inl p) = inl (ground arith)
Elem-insert k v [] i w (inr never) = absurd never
Elem-insert k v ((j, u) ∷ ms) i w e =
    ground (arith, Elem-insert k v ms i w, string_order.cmp_iff k j)

module _ (lib : Libraries) (show_error : UriError → String) ⦃path_order : Order FilePath⦄
    (filesystem : Filesystem) (root : FilePath) where
  abbrev ReadsAs : FilePath → RegistryFile → Type 0
  ReadsAs = Reads lib show_error filesystem

  abbrev Sound : Files → Type 0
  Sound = IsSound lib show_error filesystem

  -- A document of the set, and the trusted file that holds it.
  record FromFile (registry_id : String) (m : Member) : Type 0 where
    path : FilePath
    file : RegistryFile
    trusted : Trusted lib show_error filesystem root path
    reads : ReadsAs path file
    document : m.document ≡ file.document
    named : registry_id ≡ file.document.registry_id

  members-FromFile :
      (files : Files) (paths : List FilePath) (acc documents : Members)
      → Sound files
      → ((p : FilePath) → Elem p paths → Trusted lib show_error filesystem root p)
      → ((id : String) (m : Member) → Elem (id, m) acc → FromFile id m)
      → members files paths acc ≡ done documents
      → (id : String) (m : Member) → Elem (id, m) documents
      → FromFile id m
  unfolding members
  members-FromFile files [] acc documents sound trusted before h id m e =
      let same : acc ≡ documents = ground arith in before id m (rw same e)
  members-FromFile files (path ∷ paths) acc documents sound trusted before h id m e =
      let (file, found, h1) = >>=-eq-done (expect (get files.by_path path)) _ h in
      let own = file.document.registry_id in
      let member : Member = record { document = file.document; path = file.path.text } in
      members-FromFile files paths (insert own member acc) documents sound
        (λ p q. trusted p (inr q))
        (λ i n q. elim (Elem-insert own member acc i n q) [
          | inr old ↦ before i n old
          | inl (named, same) ↦ record {
            path = path;
            file = file;
            trusted = trusted path (inl refl);
            reads = sound.reads path file (ground arith);
            document = ap (λ (x : Member). x.document) same;
            named = named;
          }
        ])
        h1 id m e

  load_root-FromFile :
      (fuel : ℕ) (files : Files) (o : Option RegistryFile) (loaded : Loaded RegistrySet)
      (set : RegistrySet)
      → Sound files
      → load_root lib show_error filesystem fuel root files o ≡ done loaded
      → loaded.value ≡ some set
      → (documents : Members) × (set.components ≡ (collect_documents root documents []).0)
        × ((id : String) (m : Member) → Elem (id, m) documents → FromFile id m)
  unfolding load_root finish_set
  load_root-FromFile fuel files none loaded set sound h valued = absurd (ground arith)
  load_root-FromFile fuel files (some file) loaded set sound h valued =
      let start : Selection = record { files = files; selected = root ∷ []; pending = root ∷ [] } in
      let (r, selected, h1) =
        >>=-eq-done (select_pending lib show_error filesystem fuel start) _ h in
      let (documents, gathered, h2) = >>=-eq-done (members r.0.files r.0.selected []) _ h1 in
      let (root_file, found, h3) = >>=-eq-done (expect (get r.0.files.by_path root)) _ h2 in
      let (l, finished, h4) = >>=-eq-done (finish_set root root_file documents) _ h3 in
      let (cycles, walked, h5) =
        >>=-eq-done (validate_cycles documents (suc (length documents))) _ finished in
      let only_root : (p : FilePath)
          → Elem p (root ∷ [])
          → Trusted lib show_error filesystem root p =
        λ p e. elim e [ inl same ↦ is_root p same | inr never ↦ absurd never ] in
      let t =
        select_pending-IsTrusted lib show_error filesystem root fuel files (root ∷ []) (root ∷ []) r
          (record { files = sound; pending = only_root; selected = only_root }) selected in
      (
        documents,
        ground arith,
        members-FromFile r.0.files r.0.selected [] documents t.files t.selected (λ id m e. absurd e)
            gathered,
      )

  -- A component of the set, the file that holds it, and why the file is trusted.
  pub record FromTrusted (owner : ResolvedComponent) : Type 0 where
    pub path : FilePath
    pub file : RegistryFile
    pub trusted : Trusted lib show_error filesystem root path
    pub reads : Reads lib show_error filesystem path file
    pub stands : Elem owner.component file.document.components
    pub named : owner.registry_id ≡ file.document.registry_id

-- Every component of a registry set that `load_fs` returns stands in a file that can be read and
-- parsed, under that file's registry id; and the file is the root, or a file of the set imports it
-- with its version and with the SHA-256 digest of its bytes.
pub load_fs-FromTrusted :
    (lib : Libraries) (show_error : UriError → String) ⦃path_order : Order FilePath⦄
    (filesystem : Filesystem) (fuel : ℕ) (root : FilePath) (explicit_imports : List FilePath)
    (loaded : Loaded RegistrySet) (set : RegistrySet)
    → load_fs lib show_error filesystem fuel root explicit_imports ≡ done loaded
    → loaded.value ≡ some set
    → (id : String) (owner : ResolvedComponent) → get set.components id ≡ some owner
    → FromTrusted lib show_error filesystem (canonicalize lib filesystem root) owner
unfolding load_fs
load_fs-FromTrusted lib show_error filesystem fuel root explicit_imports loaded set h valued id
      owner known =
    let root' = canonicalize lib filesystem root in
    let inputs = root' ∷ map (canonicalize lib filesystem) explicit_imports in
    let r = load_inputs lib show_error filesystem inputs (record { by_path = []; by_id = [] }) in
    let sound =
      load_inputs-IsSound lib show_error filesystem inputs (record { by_path = []; by_id = [] })
        (no_files-IsSound lib show_error filesystem) in
    let (l, finished, h1) =
      >>=-eq-done (load_root lib show_error filesystem fuel root' r.0 (get r.0.by_path root')) _
        h in
    let (documents, components, from) =
      load_root-FromFile lib show_error filesystem root' fuel r.0 (get r.0.by_path root') l set
        sound finished (ground arith) in
    elim (collect_documents-origin root' documents [] id owner (rw components at known)) [
      | inl empty ↦ absurd (ground arith)
      | inr (registry_id, m, c, at_document, stands, same) ↦
          let f = from registry_id m at_document in
          record {
            path = f.path;
            file = f.file;
            trusted = f.trusted;
            reads = f.reads;
            stands = rw (same, ← f.document) stands;
            named = ground (arith, f.named);
          }
    ]
