-- ===== src/Registry/Load/Collect.antt =====
-- The map of components: when no id occurs twice, it holds every component of every document.
use specgate.Prelude.{
  String, Option, none, some, List, [], ◌∷◌, ◌≡◌, refl, ◌⊎◌, inl, inr, arith, append-eq-nil,
  Bool-cases,
}
use specgate.Prelude.Elem.{Elem}
use specgate.Prelude.Order.{Dict, string_order, get, insert}
use specgate.Prelude.Order.Laws.{same_key, same_key-eq, get-insert}
use specgate.Model.{RegistryComponent, ResolvedComponent}
use specgate.Registry.Cycles.{Member, Members}
use specgate.Registry.Files.{FilePath}
use specgate.Registry.Load.{report_existing, collect_components, collect_documents}

abbrev pub Components : Type 0
Components = Dict String ResolvedComponent

abbrev pub resolved : String → RegistryComponent → ResolvedComponent
resolved registry_id c = record { registry_id = registry_id; component = c }

-- What a part of the collection that reports nothing does.
abbrev Keeps : Components → Components → Type 0
Keeps before after =
    (id : String) (v : ResolvedComponent) → get before id ≡ some v → get after id ≡ some v

report_existing-nil :
    (root : FilePath) (id registry_id : String) (o : Option ResolvedComponent)
    → report_existing root id registry_id o ≡ []
    → o ≡ none
report_existing-nil root id registry_id none h = refl
report_existing-nil root id registry_id (some v) h = absurd (ground arith)

insert-Keeps :
    (id : String) (v : ResolvedComponent) (m : Components)
    → get m id ≡ none
    → Keeps m (insert id v m)
insert-Keeps id v m absent j w h = rw (get-insert id j v m) (elim (Bool-cases (same_key j id)) [
  | inl same ↦ let e = same_key-eq j id same in absurd (ground arith)
  | inr other ↦ rw other h
])

get-insert_self :
    (id : String) (v : ResolvedComponent) (m : Components) → get (insert id v m) id ≡ some v
get-insert_self id v m = ground (arith, get-insert id id v m, string_order.cmp_iff id id)

-- Where an entry of the map after an insertion comes from.
insert-origin :
    (id j : String) (v w : ResolvedComponent) (m : Components)
    → get (insert id v m) j ≡ some w
    → (get m j ≡ some w) ⊎ (v ≡ w)
insert-origin id j v w m h = ground (arith, get-insert id j v m)

module _ (root : FilePath) where
  collect_components-cons :
      (registry_id : String) (c : RegistryComponent) (cs : List RegistryComponent) (m : Components)
      → (collect_components root registry_id (c ∷ cs) m).1 ≡ []
      → (get m c.id ≡ none)
        × ((collect_components root registry_id cs (insert c.id (resolved registry_id c) m)).1 ≡ [])
  unfolding collect_components
  collect_components-cons registry_id c cs m h =
      let (first, rest) = append-eq-nil (report_existing root c.id registry_id (get m c.id)) _ h in
      (report_existing-nil root c.id registry_id (get m c.id) first, rest)

  collect_components-Keeps :
      (registry_id : String) (cs : List RegistryComponent) (m : Components)
      → (collect_components root registry_id cs m).1 ≡ []
      → Keeps m (collect_components root registry_id cs m).0
        × ((c : RegistryComponent)
            → Elem c cs
            → get (collect_components root registry_id cs m).0 c.id ≡ some (resolved registry_id c))
  unfolding collect_components
  collect_components-Keeps registry_id [] m h = (λ id v p. p, λ c e. absurd e)
  collect_components-Keeps registry_id (c ∷ cs) m h =
      let entry = resolved registry_id c in
      let (absent, rest) = collect_components-cons registry_id c cs m h in
      let (keeps, holds) = collect_components-Keeps registry_id cs (insert c.id entry m) rest in
      (
        λ id v p. keeps id v (insert-Keeps c.id entry m absent id v p),
        λ d e. elim e [
          | inl same ↦ rw same (keeps c.id entry (get-insert_self c.id entry m))
          | inr later ↦ holds d later
        ],
      )

  collect_components-origin :
      (registry_id : String) (cs : List RegistryComponent) (m : Components) (id : String)
      (w : ResolvedComponent)
      → get (collect_components root registry_id cs m).0 id ≡ some w
      → (get m id ≡ some w) ⊎ ((c : RegistryComponent) × Elem c cs × (w ≡ resolved registry_id c))
  unfolding collect_components
  collect_components-origin registry_id [] m id w h = inl h
  collect_components-origin registry_id (c ∷ cs) m id w h =
      let entry = resolved registry_id c in
      elim (collect_components-origin registry_id cs (insert c.id entry m) id w h) [
        | inr (d, e, p) ↦ inr (d, inr e, p)
        | inl before ↦ elim (insert-origin c.id id entry w m before) [
          | inl old ↦ inl old
          | inr here ↦ inr (c, inl refl, ground arith)
        ]
      ]

  collect_documents-cons :
      (id : String) (d : Member) (ds : Members) (m : Components)
      → (collect_documents root ((id, d) ∷ ds) m).1 ≡ []
      → ((collect_components root id d.document.components m).1 ≡ [])
        × ((collect_documents root ds (collect_components root id d.document.components m).0).1
            ≡ [])
  unfolding collect_documents
  collect_documents-cons id d ds m h =
      append-eq-nil (collect_components root id d.document.components m).1 _ h

  -- Every component of every document is in the map.
  pub collect_documents-holds :
      (ds : Members) (m : Components)
      → (collect_documents root ds m).1 ≡ []
      → Keeps m (collect_documents root ds m).0
        × ((id : String) (d : Member) (c : RegistryComponent)
            → Elem (id, d) ds
            → Elem c d.document.components
            → get (collect_documents root ds m).0 c.id ≡ some (resolved id c))
  unfolding collect_documents
  collect_documents-holds [] m h = (λ id v p. p, λ id d c e f. absurd e)
  collect_documents-holds ((id, d) ∷ ds) m h =
      let (first, rest) = collect_documents-cons id d ds m h in
      let (keeps, holds) = collect_components-Keeps id d.document.components m first in
      let (keeps', holds') =
        collect_documents-holds ds (collect_components root id d.document.components m).0 rest in
      (
        λ j v p. keeps' j v (keeps j v p),
        λ j e c at_document stands. elim at_document [
          | inl same ↦
              let same_id : j ≡ id = ground arith in
              let same_member : e ≡ d = ground arith in
              rw same_id (keeps' c.id (resolved id c) (holds c (rw same_member at stands)))
          | inr later ↦ holds' j e c later stands
        ],
      )

  -- Every component in the map stands in a document.
  pub collect_documents-origin :
      (ds : Members) (m : Components) (id : String) (w : ResolvedComponent)
      → get (collect_documents root ds m).0 id ≡ some w
      → (get m id ≡ some w)
        ⊎ ((registry_id : String) × (d : Member) × (c : RegistryComponent) × Elem
              (registry_id, d)
              ds
            × Elem c d.document.components
            × (w ≡ resolved registry_id c))
  unfolding collect_documents
  collect_documents-origin [] m id w h = inl h
  collect_documents-origin ((k, d) ∷ ds) m id w h =
      let after = (collect_components root k d.document.components m).0 in
      elim (collect_documents-origin ds after id w h) [
        | inr (j, e, c, at_document, stands, p) ↦ inr (j, e, c, inr at_document, stands, p)
        | inl before ↦ elim (collect_components-origin k d.document.components m id w before) [
          | inl old ↦ inl old
          | inr (c, stands, p) ↦ inr (k, d, c, inl refl, stands, p)
        ]
      ]
