-- ===== src/Registry/Load/Steps.antt =====
-- The steps of the selection: every file is selected once, and what is pending is loaded.
use specgate.Prelude.{
  ℕ, zero, suc, ◌+◌, ◌≤◌, ◌<◌, String, Bool, false, not, ◌&&◌, List, [], ◌∷◌, ◌++◌, ◌≡◌, refl, ◌⊎◌,
  inl, inr, arith, length, length-append, if◌then◌else◌, Bool-cases, Option-cases,
}
use specgate.Prelude.Elem.{Elem, Elem-append}
use specgate.Prelude.Order.{Order, string_order, get, insert_key, has_key}
use specgate.Prelude.Order.Laws.{has_key-insert_key}
use specgate.Prelude.Text.{str_eq}
use specgate.Model.{RegistryImport, RegistryDocument}
use specgate.Render.{Issues}
use specgate.Compare.Outcome.{Outcome, done}
use specgate.Registry.Files.{
  FilePath, Libraries, Filesystem, RegistryFile, Files, paths_of, read_file,
}
use specgate.Registry.Load.Inventory.{IsLoaded, IsSound, load_uri-lem}
use specgate.Registry.Selection.{
  Selection, import_at, load_uri, check_candidate, choose_candidate, select_import, select_imports,
  select_file, select_pending,
}
use specgate.Registry.Uri.{UriError}
use specgate.Registry.Uses.{document_uses}

module _ ⦃path_order : Order FilePath⦄ where
  -- The number of paths that are not selected.
  abbrev pub unselected : List FilePath → List FilePath → ℕ
  unselected selected [] = 0
  unselected selected (p ∷ ps) = (if has_key p selected then 0 else 1) + unselected selected ps

  unselected-le :
      (path : FilePath) (selected paths : List FilePath)
      → unselected (insert_key path selected) paths ≤ unselected selected paths
  unselected-le path selected [] = omega arith
  unselected-le path selected (p ∷ ps) =
      ground (arith, unselected-le path selected ps, has_key-insert_key path p selected)

  pub unselected-le-length :
      (selected paths : List FilePath) → unselected selected paths ≤ length paths
  unselected-le-length selected [] = omega arith
  unselected-le-length selected (p ∷ ps) = ground (arith, unselected-le-length selected ps)

  unselected-lt :
      (path : FilePath) (selected paths : List FilePath)
      → Elem path paths
      → has_key path selected ≡ false
      → unselected (insert_key path selected) paths < unselected selected paths
  unselected-lt path selected [] e fresh = absurd e
  unselected-lt path selected (p ∷ ps) (inl same) fresh = rw (← same) (
      ground (
        arith,
        unselected-le path selected ps,
        has_key-insert_key path path selected,
        path_order.cmp_iff path path,
      ))
  unselected-lt path selected (p ∷ ps) (inr e) fresh =
      ground (arith, unselected-lt path selected ps e fresh, has_key-insert_key path p selected)

  pub Elem-insert_key :
      (k p : FilePath) (s : List FilePath) → Elem p (insert_key k s) → (p ≡ k) ⊎ Elem p s
  Elem-insert_key k p [] (inl same) = inl same
  Elem-insert_key k p [] (inr never) = absurd never
  Elem-insert_key k p (j ∷ s) e = ground (arith, Elem-insert_key k p s)

module _ (lib : Libraries) (show_error : UriError → String) ⦃path_order : Order FilePath⦄
    (filesystem : Filesystem) (known : List FilePath)
    (readable : (path : FilePath) (bytes : List ℕ)
      → read_file lib filesystem path ≡ inr bytes
      → Elem path known) where
  abbrev pub Sound : Files → Type 0
  Sound = IsSound lib show_error filesystem

  abbrev pub Holds : Files → FilePath → Type 0
  Holds = IsLoaded lib show_error filesystem

  pub record IsReady (s : Selection) : Type 0 where
    pub files : Sound s.files
    pub pending : (p : FilePath) → Elem p s.pending → Holds s.files p
    pub selected : (p : FilePath) → Elem p s.selected → Holds s.files p

  -- What is left to select and to read.
  abbrev pub weight : Selection → ℕ
  weight s = unselected s.selected known + length s.pending

  -- What a step of the selection does.
  pub record Steps (s t : Selection) : Type 0 where
    pub ready : IsReady t
    pub lighter : weight t ≤ weight s
    pub grows : (p : FilePath) → Holds s.files p → Holds t.files p

  Steps-trans : (s t u : Selection) → Steps s t → Steps t u → Steps s u
  Steps-trans s t u a b = record {
    ready = b.ready;
    lighter = omega (arith, a.lighter, b.lighter);
    grows = λ p h. b.grows p (a.grows p h);
  }

  loaded-known :
      (files : Files) (path : FilePath) → Sound files → Holds files path → Elem path known
  loaded-known files path sound loaded = elim (Option-cases (get files.by_path path)) [
    | inl absent ↦ absurd (ground arith)
    | inr (file, found) ↦ let r = sound.reads path file found in readable path r.bytes r.read
  ]

  abbrev added : FilePath → Selection → Selection
  added path s = record s {
    selected = insert_key path s.selected;
    pending = s.pending ++ path ∷ [];
  }

  added-Steps :
      (path : FilePath) (s : Selection)
      → IsReady s
      → Holds s.files path
      → has_key path s.selected ≡ false
      → Steps s (added path s)
  added-Steps path s ready held fresh =
      let listed = loaded-known s.files path ready.files held in
      record {
        ready = record {
          files = ready.files;
          pending = λ p e. elim (Elem-append p s.pending (path ∷ []) e) [
            | inl old ↦ ready.pending p old
            | inr (inl new) ↦ rw new held
            | inr (inr never) ↦ absurd never
          ];
          selected = λ p e. elim (Elem-insert_key path p s.selected e) [
            | inl new ↦ rw new held
            | inr old ↦ ready.selected p old
          ];
        };
        lighter = omega (
          arith,
          unselected-lt path s.selected known listed fresh,
          length-append s.pending (path ∷ []),
        );
        grows = λ p h. h;
      }

  same-Steps : (s : Selection) → IsReady s → Steps s s
  same-Steps s ready = record { ready = ready; lighter = omega arith; grows = λ p h. h }

  check_candidate-Steps :
      (path : FilePath) (location : String) (item : RegistryImport) (candidate_path : FilePath)
      (candidate : RegistryFile) (s : Selection)
      → IsReady s
      → Holds s.files candidate_path
      → Steps s
          (check_candidate lib show_error filesystem path location item candidate_path candidate
            s).0
  unfolding check_candidate
  check_candidate-Steps path location item candidate_path candidate s ready held =
      let version_matches = str_eq candidate.document.version item.version in
      let digest_matches = str_eq candidate.digest item.digest in
      elim (Bool-cases
        ((version_matches && digest_matches) && not (has_key candidate_path s.selected))) [
          | inl new ↦ rw new (added-Steps candidate_path s ready held (ground arith))
          | inr old ↦ rw old (same-Steps s ready)
        ]

  abbrev pub StepsTo : Selection → Outcome (Selection × Issues) → Type 0
  StepsTo s o = (r : Selection × Issues) × (o ≡ done r) × Steps s r.0

  choose_candidate-Steps :
      (path : FilePath) (location : String) (used : Bool) (item : RegistryImport)
      (candidates : List FilePath) (s : Selection)
      → IsReady s
      → ((p : FilePath) → Elem p candidates → Holds s.files p)
      → StepsTo s (choose_candidate lib show_error filesystem path location used item candidates s)
  unfolding choose_candidate
  choose_candidate-Steps path location used item [] s ready held = (_, refl, same-Steps s ready)
  choose_candidate-Steps path location used item (c ∷ []) s ready held =
      let loaded = held c (inl refl) in
      elim (Option-cases (get s.files.by_path c)) [
        | inl absent ↦ absurd (ground arith)
        | inr (file, found) ↦ (
          check_candidate lib show_error filesystem path location item c file s,
          rw found refl,
          check_candidate-Steps path location item c file s ready loaded,
        )
      ]
  choose_candidate-Steps path location used item (c ∷ d ∷ ds) s ready held =
      (_, refl, same-Steps s ready)

  select_import-Steps :
      (path : FilePath) (document : RegistryDocument) (location : String) (item : RegistryImport)
      (s : Selection)
      → IsReady s
      → StepsTo s (select_import lib show_error filesystem path document location item s)
  unfolding select_import
  select_import-Steps path document location item s ready =
      let loaded = load_uri lib show_error filesystem path location item.uri s.files in
      let (sound, grows) =
        load_uri-lem lib show_error filesystem path location item.uri s.files ready.files in
      let s' : Selection = record s { files = loaded.0 } in
      let ready' : IsReady s' = record {
        files = sound;
        pending = λ p e. grows p (ready.pending p e);
        selected = λ p e. grows p (ready.selected p e);
      } in
      let (r, chosen, steps) =
        choose_candidate-Steps path location (document_uses item.registry_id document) item
          (paths_of (get loaded.0.by_id item.registry_id)) s' ready'
          (sound.indexed item.registry_id) in
      (
        (r.0, loaded.1 ++ r.1),
        rw chosen refl,
        record {
          ready = steps.ready;
          lighter = steps.lighter;
          grows = λ p h. steps.grows p (grows p h);
        },
      )

  select_imports-Steps :
      (path : FilePath) (document : RegistryDocument) (index : ℕ) (items : List RegistryImport)
      (s : Selection)
      → IsReady s
      → StepsTo s (select_imports lib show_error filesystem path document index items s)
  unfolding select_imports
  select_imports-Steps path document index [] s ready = (_, refl, same-Steps s ready)
  select_imports-Steps path document index (item ∷ items) s ready =
      let (r, first, steps) = select_import-Steps path document (import_at index) item s ready in
      let (q, rest, steps') =
        select_imports-Steps path document (index + 1) items r.0 steps.ready in
      ((q.0, r.1 ++ q.1), rw (first, rest) refl, Steps-trans s r.0 q.0 steps steps')

  abbrev pub select_at : ℕ → Files → List FilePath → List FilePath → Outcome (Selection × Issues)
  select_at fuel files selected pending =
      select_pending lib show_error filesystem fuel
        (record { files = files; selected = selected; pending = pending })

  pub select_pending-Steps :
      (fuel : ℕ) (files : Files) (selected pending : List FilePath)
      → IsReady (record { files = files; selected = selected; pending = pending })
      → unselected selected known + length pending < fuel
      → StepsTo
          (record { files = files; selected = selected; pending = pending })
          (select_at fuel files selected pending)
  unfolding select_pending select_file
  select_pending-Steps zero files selected pending ready enough = absurd (omega arith)
  select_pending-Steps (suc fuel) files selected [] ready enough = (_, refl, same-Steps _ ready)
  select_pending-Steps (suc fuel) files selected (path ∷ rest) ready enough =
      let s : Selection = record { files = files; selected = selected; pending = rest } in
      let ready' : IsReady s = record {
        files = ready.files;
        pending = λ p e. ready.pending p (inr e);
        selected = ready.selected;
      } in
      elim (Option-cases (get files.by_path path)) [
        | inl absent ↦ absurd (ground (arith, ready.pending path (inl refl)))
        | inr (file, found) ↦
            let (r, first, steps) =
              select_imports-Steps path file.document 0 file.document.imports s ready' in
            let (q, later, steps') =
              select_pending-Steps fuel r.0.files r.0.selected r.0.pending steps.ready
                (omega (arith, steps.lighter)) in
            (
              (q.0, r.1 ++ q.1),
              rw (found, select_file) (rw (first, later) refl),
              record {
                ready = steps'.ready;
                lighter = omega (arith, steps.lighter, steps'.lighter);
                grows = λ p h. steps'.grows p (steps.grows p h);
              },
            )
      ]
