-- ===== src/Registry/Load/Trust.antt =====
-- The selection takes the root, and files whose bytes have the digest that an importing file pins.
use specgate.Prelude.{
  ℕ, zero, suc, ◌+◌, String, Bool, not, ◌&&◌, Option, none, some, List, [], ◌∷◌, ◌≡◌, refl, inl,
  inr, arith, Bool-cases,
}
use mathlib.Core.Path.{subst}
use specgate.Prelude.Elem.{Elem, Elem-append}
use specgate.Prelude.Order.{Order, string_order, get, has_key}
use specgate.Prelude.Text.{str_eq}
use text.Mathlib.TextEquality.{eq_iff}
use specgate.Model.{RegistryImport}
use specgate.Render.{Issues}
use specgate.Compare.Outcome.{done, expect, >>=-eq-done}
use specgate.Registry.Files.{FilePath, Libraries, Filesystem, RegistryFile, Files, paths_of}
use specgate.Registry.Load.Inventory.{IsSound, Reads, load_uri-lem}
use specgate.Registry.Load.Steps.{Elem-insert_key}
use specgate.Registry.Selection.{
  Selection, import_at, load_uri, check_candidate, choose_candidate, select_import, select_imports,
  select_file, select_pending,
}
use specgate.Registry.Uri.{UriError}
use specgate.Registry.Uses.{document_uses}

module _ (lib : Libraries) (show_error : UriError → String) ⦃path_order : Order FilePath⦄
    (filesystem : Filesystem) (root : FilePath) where
  abbrev pub ReadsAs : FilePath → RegistryFile → Type 0
  ReadsAs = Reads lib show_error filesystem

  abbrev pub Sound : Files → Type 0
  Sound = IsSound lib show_error filesystem

  -- The root is trusted, and what a trusted file imports by version and digest.
  pub data Trusted : FilePath → Type 0 where
    is_root : (path : FilePath) → path ≡ root → Trusted path
    pinned :
        (path owner_path : FilePath) (owner : RegistryFile) (item : RegistryImport)
        (file : RegistryFile)
        → Trusted owner_path
        → Reads lib show_error filesystem owner_path owner
        → Elem item owner.document.imports
        → Reads lib show_error filesystem path file
        → file.document.version ≡ item.version
        → file.digest ≡ item.digest
        → Trusted path

  pub record IsTrusted (s : Selection) : Type 0 where
    pub files : Sound s.files
    pub pending : (p : FilePath) → Elem p s.pending → Trusted p
    pub selected : (p : FilePath) → Elem p s.selected → Trusted p

  with_files :
      (s : Selection) (files : Files)
      → IsTrusted s
      → Sound files
      → IsTrusted (record s { files = files })
  with_files s files t sound = record { files = sound; pending = t.pending; selected = t.selected }

  check_candidate-IsTrusted :
      (path : FilePath) (owner : RegistryFile) (location : String) (item : RegistryImport)
      (candidate_path : FilePath) (candidate : RegistryFile) (s : Selection)
      → IsTrusted s
      → Trusted path
      → ReadsAs path owner
      → Elem item owner.document.imports
      → get s.files.by_path candidate_path ≡ some candidate
      → IsTrusted
          (check_candidate lib show_error filesystem path location item candidate_path candidate
            s).0
  unfolding check_candidate
  check_candidate-IsTrusted path owner location item candidate_path candidate s t own reads stands
        found =
      let version_matches = str_eq candidate.document.version item.version in
      let digest_matches = str_eq candidate.digest item.digest in
      elim (Bool-cases
        ((version_matches && digest_matches) && not (has_key candidate_path s.selected))) [
          | inr old ↦ rw old t
          | inl new ↦
              let trusted : Trusted candidate_path =
                pinned candidate_path path owner item candidate own reads stands
                  (t.files.reads candidate_path candidate found)
                  (ground (arith, eq_iff candidate.document.version item.version))
                  (ground (arith, eq_iff candidate.digest item.digest)) in
              rw new (record {
                files = t.files;
                pending = λ p e. elim (Elem-append p s.pending (candidate_path ∷ []) e) [
                  | inl before ↦ t.pending p before
                  | inr (inl here) ↦ rw here trusted
                  | inr (inr never) ↦ absurd never
                ];
                selected = λ p e. elim (Elem-insert_key candidate_path p s.selected e) [
                  | inl here ↦ rw here trusted
                  | inr before ↦ t.selected p before
                ];
              })
        ]

  choose_candidate-IsTrusted :
      (path : FilePath) (owner : RegistryFile) (location : String) (used : Bool)
      (item : RegistryImport) (candidates : List FilePath) (s : Selection) (r : Selection × Issues)
      → IsTrusted s
      → Trusted path
      → ReadsAs path owner
      → Elem item owner.document.imports
      → choose_candidate lib show_error filesystem path location used item candidates s ≡ done r
      → IsTrusted r.0
  unfolding choose_candidate
  choose_candidate-IsTrusted path owner location used item [] s r t own reads stands h =
      let same : s ≡ r.0 = ground arith in subst IsTrusted same t
  choose_candidate-IsTrusted path owner location used item (c ∷ []) s r t own reads stands h =
      let (candidate, found, h1) = >>=-eq-done (expect (get s.files.by_path c)) _ h in
      let checked = check_candidate lib show_error filesystem path location item c candidate s in
      let same : checked.0 ≡ r.0 = ground arith in
      subst IsTrusted same (
        check_candidate-IsTrusted path owner location item c candidate s t own reads stands
          (ground arith))
  choose_candidate-IsTrusted path owner location used item (c ∷ d ∷ ds) s r t own reads stands h =
      let same : s ≡ r.0 = ground arith in subst IsTrusted same t

  select_import-IsTrusted :
      (path : FilePath) (owner : RegistryFile) (location : String) (item : RegistryImport)
      (s : Selection) (r : Selection × Issues)
      → IsTrusted s
      → Trusted path
      → ReadsAs path owner
      → Elem item owner.document.imports
      → select_import lib show_error filesystem path owner.document location item s ≡ done r
      → IsTrusted r.0
  unfolding select_import
  select_import-IsTrusted path owner location item s r t own reads stands h =
      let files = (load_uri lib show_error filesystem path location item.uri s.files).0 in
      let (sound, grows) =
        load_uri-lem lib show_error filesystem path location item.uri s.files t.files in
      let (q, chosen, h1) =
        >>=-eq-done
          (choose_candidate lib show_error filesystem path location
            (document_uses item.registry_id owner.document) item
            (paths_of (get files.by_id item.registry_id)) (record s { files = files }))
          _ h in
      let same : q.0 ≡ r.0 = ground arith in
      subst IsTrusted same (
        choose_candidate-IsTrusted path owner location
          (document_uses item.registry_id owner.document) item
          (paths_of (get files.by_id item.registry_id)) (record s { files = files }) q
          (with_files s files t sound) own reads stands chosen)

  select_imports-IsTrusted :
      (path : FilePath) (owner : RegistryFile) (index : ℕ) (items : List RegistryImport)
      (s : Selection) (r : Selection × Issues)
      → IsTrusted s
      → Trusted path
      → ReadsAs path owner
      → ((item : RegistryImport) → Elem item items → Elem item owner.document.imports)
      → select_imports lib show_error filesystem path owner.document index items s ≡ done r
      → IsTrusted r.0
  unfolding select_imports
  select_imports-IsTrusted path owner index [] s r t own reads stands h =
      let same : s ≡ r.0 = ground arith in subst IsTrusted same t
  select_imports-IsTrusted path owner index (item ∷ items) s r t own reads stands h =
      let (q, first, h1) =
        >>=-eq-done
          (select_import lib show_error filesystem path owner.document (import_at index) item s) _
          h in
      let (u, rest, h2) =
        >>=-eq-done
          (select_imports lib show_error filesystem path owner.document (index + 1) items q.0) _
          h1 in
      let same : u.0 ≡ r.0 = ground arith in
      let t' =
        select_import-IsTrusted path owner (import_at index) item s q t own reads
          (stands item (inl refl)) first in
      subst IsTrusted same (
        select_imports-IsTrusted path owner (index + 1) items q.0 u t' own reads
          (λ i e. stands i (inr e)) rest)

  select_file-IsTrusted :
      (path : FilePath) (o : Option RegistryFile) (s : Selection) (r : Selection × Issues)
      → IsTrusted s
      → Trusted path
      → get s.files.by_path path ≡ o
      → select_file lib show_error filesystem path o s ≡ done r
      → IsTrusted r.0
  unfolding select_file
  select_file-IsTrusted path none s r t own found h = absurd (ground arith)
  select_file-IsTrusted path (some file) s r t own found h =
      select_imports-IsTrusted path file 0 file.document.imports s r t own
        (t.files.reads path file found) (λ i e. e) h

  pub select_pending-IsTrusted :
      (fuel : ℕ) (files : Files) (selected pending : List FilePath) (r : Selection × Issues)
      → IsTrusted (record { files = files; selected = selected; pending = pending })
      → select_pending lib show_error filesystem fuel
          (record { files = files; selected = selected; pending = pending })
        ≡ done r
      → IsTrusted r.0
  unfolding select_pending
  select_pending-IsTrusted zero files selected pending r t h = absurd (ground arith)
  select_pending-IsTrusted (suc fuel) files selected [] r t h =
      let s : Selection = record { files = files; selected = selected; pending = [] } in
      let same : s ≡ r.0 = ground arith in subst IsTrusted same t
  select_pending-IsTrusted (suc fuel) files selected (path ∷ rest) r t h =
      let s : Selection = record { files = files; selected = selected; pending = rest } in
      let (q, first, h1) =
        >>=-eq-done (select_file lib show_error filesystem path (get files.by_path path) s) _ h in
      let (u, later, h2) = >>=-eq-done (select_pending lib show_error filesystem fuel q.0) _ h1 in
      let same : u.0 ≡ r.0 = ground arith in
      let t' =
        select_file-IsTrusted path (get files.by_path path) s q
          (record { files = t.files; pending = λ p e. t.pending p (inr e); selected = t.selected })
          (t.pending path (inl refl)) refl first in
      subst IsTrusted same
        (select_pending-IsTrusted fuel q.0.files q.0.selected q.0.pending u t' later)
