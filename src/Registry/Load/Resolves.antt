-- ===== src/Registry/Load/Resolves.antt =====
-- A registry set that loads without issues is closed: the lookup of linked validation finds every
-- named type that its operations and types mention.
use specgate.Prelude.{
  String, true, false, Option, none, some, List, [], ◌∷◌, ◌≡◌, refl, ◌⊎◌, inl, inr, arith, any,
  find, Bool-cases, Option-cases,
}
use specgate.Prelude.Elem.{Elem, All}
use specgate.Prelude.Order.{Dict, string_order, get, insert}
use specgate.Prelude.Order.Laws.{same_key, same_key-eq, get-insert}
use specgate.Prelude.Text.{str_eq}
use text.Mathlib.TextEquality.{eq_iff}
use specgate.Model.{
  TypeRef, ErrorOutcome, RegistryOperation, NamedType, type_name, as_type, RegistryComponent,
  ResolvedComponent, RegistrySet,
}
use specgate.Linked.Resolve.{Scoped, registry_differs, component_or, find_definition, resolve}
use specgate.Registry.Cycles.{Member, Members}
use specgate.Registry.Files.{FilePath}
use specgate.Registry.Load.{collect_documents}
use specgate.Registry.Load.Collect.{resolved, collect_documents-holds}
use specgate.Registry.References.{scope_of, by_component_id}
use specgate.Registry.Scope.{Scope, find_component, component_in, find_target}
use specgate.Registry.Scope.Named.{AllNamed, AllFields, IsFound}

-- The named type is found in the set, from within the component.
abbrev pub ResolvesIn :
    RegistrySet → ResolvedComponent → String → Option String → Option String → Type 0
ResolvesIn set owner name component_id registry_id =
    (scoped : Scoped) × (resolve set (TypeRef.named name component_id registry_id) owner
      ≡ inr scoped)

abbrev pub AllOptional : (String → Option String → Option String → Type 0) → Option TypeRef → Type 0
AllOptional P none = Unit
AllOptional P (some t) = AllNamed P t

pub record OperationResolves (P : String → Option String → Option String → Type 0)
    (operation : RegistryOperation) : Type 0 where
  pub inputs : AllFields P operation.inputs
  pub observations : AllFields P operation.observations
  pub result : AllOptional P operation.outcomes.result
  pub errors : All (λ (e : ErrorOutcome). AllOptional P e.value_type) operation.outcomes.errors

pub record ComponentResolves (P : String → Option String → Option String → Type 0)
    (component : RegistryComponent) : Type 0 where
  pub operations : All (OperationResolves P) component.operations
  pub types : All (λ (t : NamedType). AllNamed P (as_type t)) component.types

get-Elem : (m : Members) (k : String) (v : Member) → get m k ≡ some v → Elem (k, v) m
get-Elem [] k v h = absurd (ground arith)
get-Elem ((j, w) ∷ m) k v h = elim (Bool-cases (same_key k j)) [
  | inl same ↦ let e = same_key-eq k j same in inl (ground arith)
  | inr other ↦ inr (get-Elem m k v (ground arith))
]

some-injective {ℓ} : {A : Type ℓ} {a b : A} → some a ≡ some b → a ≡ b
some-injective h = cc

find_component-Elem :
    (id : String) (cs : List RegistryComponent) (c : RegistryComponent)
    → find_component id cs ≡ some c
    → Elem c cs × (c.id ≡ id)
find_component-Elem id [] c h = absurd (ground arith)
find_component-Elem id (d ∷ cs) c h = elim (Bool-cases (str_eq d.id id)) [
  | inl same ↦
      let here : d ≡ c = some-injective (rw same at h) in
      (inl (ground arith), ground (arith, eq_iff d.id id))
  | inr other ↦ let (e, p) = find_component-Elem id cs c (rw other at h) in (inr e, p)
]

by_component_id-origin :
    (cs : List RegistryComponent) (acc : Dict String RegistryComponent) (id : String)
    (c : RegistryComponent)
    → get (by_component_id cs acc) id ≡ some c
    → (get acc id ≡ some c) ⊎ (Elem c cs × (c.id ≡ id))
by_component_id-origin [] acc id c h = inl h
by_component_id-origin (d ∷ cs) acc id c h =
    elim (by_component_id-origin cs (insert d.id d acc) id c h) [
      | inr (e, p) ↦ inr (inr e, p)
      | inl before ↦ elim (Bool-cases (same_key id d.id)) [
        | inl same ↦
            let q = same_key-eq id d.id same in
            let here : d ≡ c = ground (arith, get-insert d.id id d acc) in
            inr (inl (ground arith), ground arith)
        | inr other ↦ inl (ground (arith, get-insert d.id id d acc))
      ]
    ]

any-find :
    (name : String) (types : List NamedType)
    → any (λ (t : NamedType). str_eq (type_name t) name) types ≡ true
    → (t : NamedType) × (find (λ (t : NamedType). str_eq (type_name t) name) types ≡ some t)
any-find name [] h = absurd (ground arith)
any-find name (t ∷ ts) h = elim (Bool-cases (str_eq (type_name t) name)) [
  | inl same ↦ (t, rw same refl)
  | inr other ↦ rw other (any-find name ts (rw other at h))
]

-- Where a target comes from.
record Origin (documents : Members) (registry id : String) (target : RegistryComponent)
    : Type 0 where
  member : Member
  at_document : Elem (registry, member) documents
  stands : Elem target member.document.components
  named : target.id ≡ id

module _ (documents : Members) (registry_id : String) (m : Member) (c : RegistryComponent)
    (at_own : Elem (registry_id, m) documents) where
  abbrev scope : Scope
  scope = scope_of documents registry_id m c

  find_target-Origin :
      (registry id : String) (target : RegistryComponent)
      → find_target scope registry id ≡ some target
      → Origin documents registry id target
  unfolding find_target
  find_target-Origin registry id target h =
      elim (Option-cases (component_in (get documents registry) id)) [
        | inr (d, direct) ↦
            let here : d ≡ target = some-injective (rw direct at h) in
            elim (Option-cases (get documents registry)) [
              | inl absent ↦ absurd (ground arith)
              | inr (owner, known) ↦
                  let (e, p) =
                    find_component-Elem id owner.document.components target (ground arith) in
                  record {
                    member = owner;
                    at_document = get-Elem documents registry owner known;
                    stands = e;
                    named = p;
                  }
            ]
        | inl absent ↦ elim (Bool-cases (str_eq registry registry_id)) [
          | inr other ↦ absurd (let wrong = rw (absent, other) at h in ground arith)
          | inl own ↦
              let same = (eq_iff registry registry_id).0 own in
              elim (by_component_id-origin m.document.components [] id target
                (rw (absent, own) at h)) [
                  | inl empty ↦ absurd (ground arith)
                  | inr (e, p) ↦ record {
                    member = m;
                    at_document = rw same at_own;
                    stands = e;
                    named = p;
                  }
                ]
        ]
      ]

  module _ (root : FilePath) (set : RegistrySet)
      (quiet : (collect_documents root documents []).1 ≡ [])
      (components : set.components ≡ (collect_documents root documents []).0) where
    differs-not :
        (type_registry : Option String)
        → registry_differs type_registry (component_or type_registry registry_id) ≡ false
    differs-not none = refl
    differs-not (some r) = ground (arith, eq_iff r r)

    pub found-resolves :
        (name : String) (component_id type_registry : Option String)
        → IsFound scope name component_id type_registry
        → ResolvesIn set (resolved registry_id c) name component_id type_registry
    unfolding resolve find_definition
    found-resolves name component_id type_registry f =
        let registry = component_or type_registry registry_id in
        let id = component_or component_id c.id in
        let origin = find_target-Origin registry id f.target f.found in
        let holds =
          (collect_documents-holds root documents [] quiet).1 registry origin.member f.target
            origin.at_document origin.stands in
        let entry : get set.components id ≡ some (resolved registry f.target) =
          rw (components, ← origin.named) holds in
        let (t, found) = any-find name f.target.types f.declared in
        (
          (resolved registry f.target, as_type t),
          rw (entry, resolve) (rw (differs-not type_registry, find_definition) (rw found refl)),
        )
