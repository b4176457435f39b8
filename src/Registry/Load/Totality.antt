-- ===== src/Registry/Load/Totality.antt =====
-- `load_fs` ends: every file is selected once, and what is pending is loaded.
use specgate.Prelude.{
  ℕ, suc, ◌<◌, String, Option, none, some, List, [], ◌∷◌, ◌≡◌, refl, inl, inr, arith, length, map,
  Option-cases,
}
use specgate.Prelude.Elem.{Elem}
use specgate.Prelude.Order.{Order, string_order, get}
use specgate.Model.{RegistrySet}
use specgate.Render.{Loaded}
use specgate.Compare.Outcome.{done, expect}
use specgate.Registry.Cycles.{Members, validate_cycles}
use specgate.Registry.Cycles.Totality.{IsDone, >>=-IsDone, validate_cycles-IsDone}
use specgate.Registry.Files.{
  FilePath, Libraries, Filesystem, RegistryFile, Files, read_file, canonicalize,
}
use specgate.Registry.Load.{members, finish_set, with_issues, load_root, load_fs}
use specgate.Registry.Load.Inventory.{IsLoaded, IsSound, load_inputs-IsSound, no_files-IsSound}
use specgate.Registry.Selection.{load_inputs}
use specgate.Registry.Uri.{UriError}
use specgate.Registry.Load.Steps.{unselected-le-length, IsReady, select_pending-Steps}

module _ (lib : Libraries) (show_error : UriError → String) ⦃path_order : Order FilePath⦄
    (filesystem : Filesystem) (known : List FilePath)
    (readable : (path : FilePath) (bytes : List ℕ)
      → read_file lib filesystem path ≡ inr bytes
      → Elem path known) where
  abbrev Sound : Files → Type 0
  Sound = IsSound lib show_error filesystem

  abbrev Holds : Files → FilePath → Type 0
  Holds = IsLoaded lib show_error filesystem

  members-IsDone :
      (files : Files) (paths : List FilePath) (acc : Members)
      → ((p : FilePath) → Elem p paths → Holds files p)
      → IsDone (members files paths acc)
  unfolding members
  members-IsDone files [] acc held = (acc, refl)
  members-IsDone files (path ∷ paths) acc held = elim (Option-cases (get files.by_path path)) [
    | inl absent ↦ absurd (ground (arith, held path (inl refl)))
    | inr (file, found) ↦ rw found (members-IsDone files paths _ (λ p e. held p (inr e)))
  ]

  finish_set-IsDone :
      (root : FilePath) (file : RegistryFile) (documents : Members)
      → IsDone (finish_set root file documents)
  unfolding finish_set
  finish_set-IsDone root file documents =
      >>=-IsDone (validate_cycles documents (suc (length documents))) _
        (validate_cycles-IsDone documents (suc (length documents)) (omega arith))
        (λ cycles p. (_, refl))

  expect-IsDone :
      (files : Files) (path : FilePath)
      → Holds files path
      → IsDone (expect (get files.by_path path))
  expect-IsDone files path held = elim (Option-cases (get files.by_path path)) [
    | inl absent ↦ absurd (ground arith)
    | inr (file, found) ↦ (file, rw found refl)
  ]

  load_root-IsDone :
      (fuel : ℕ) (root : FilePath) (files : Files) (o : Option RegistryFile)
      → Sound files
      → get files.by_path root ≡ o
      → suc (length known) < fuel
      → IsDone (load_root lib show_error filesystem fuel root files o)
  unfolding load_root
  load_root-IsDone fuel root files none sound found enough = (_, refl)
  load_root-IsDone fuel root files (some file) sound found enough =
      let held : Holds files root = ground arith in
      let ready : IsReady lib show_error filesystem known readable
          (record { files = files; selected = root ∷ []; pending = root ∷ [] }) =
        record {
          files = sound;
          pending = λ p e. elim e [ inl same ↦ rw same held | inr never ↦ absurd never ];
          selected = λ p e. elim e [ inl same ↦ rw same held | inr never ↦ absurd never ];
        } in
      let (r, selected, steps) =
        select_pending-Steps lib show_error filesystem known readable fuel files (root ∷ [])
          (root ∷ []) ready (omega (arith, unselected-le-length (root ∷ []) known)) in
      let (documents, gathered) = members-IsDone r.0.files r.0.selected [] steps.ready.selected in
      let (root_file, at_root) = expect-IsDone r.0.files root (steps.grows root held) in
      let (l, finished) = finish_set-IsDone root root_file documents in
      (with_issues r.1 l, rw (selected, gathered, at_root, finished) refl)

-- `load_fs` returns when the file system has finitely many readable files: where every path that can
-- be read is among `known`, fuel above one more than their number is enough, and no lookup of a
-- selected or pending file fails.
pub load_fs-IsDone :
    (lib : Libraries) (show_error : UriError → String) ⦃path_order : Order FilePath⦄
    (filesystem : Filesystem) (known : List FilePath) (fuel : ℕ) (root : FilePath)
    (explicit_imports : List FilePath)
    → ((path : FilePath) (bytes : List ℕ)
        → read_file lib filesystem path ≡ inr bytes
        → Elem path known)
    → suc (length known) < fuel
    → (loaded : Loaded RegistrySet) × (load_fs lib show_error filesystem fuel root explicit_imports
        ≡ done loaded)
unfolding load_fs
load_fs-IsDone lib show_error filesystem known fuel root explicit_imports readable enough =
    let root' = canonicalize lib filesystem root in
    let inputs = root' ∷ map (canonicalize lib filesystem) explicit_imports in
    let r = load_inputs lib show_error filesystem inputs (record { by_path = []; by_id = [] }) in
    let sound =
      load_inputs-IsSound lib show_error filesystem inputs (record { by_path = []; by_id = [] })
        (no_files-IsSound lib show_error filesystem) in
    >>=-IsDone (load_root lib show_error filesystem fuel root' r.0 (get r.0.by_path root')) _
      (load_root-IsDone lib show_error filesystem known readable fuel root' r.0
        (get r.0.by_path root') sound refl enough)
      (λ loaded p. (_, refl))
