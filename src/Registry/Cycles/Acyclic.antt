-- ===== src/Registry/Cycles/Acyclic.antt =====
-- `validate_cycles` finds nothing only if the imports between the documents have no cycle.
use specgate.Prelude.{
  ℕ, zero, suc, String, true, some, List, [], ◌∷◌, ◌≡◌, refl, inl, inr, arith, any, Bool-cases,
  Option-cases, append-eq-nil,
}
use mathlib.Core.WellFounded.{Acc}
use specgate.Prelude.Elem.{Elem}
use specgate.Prelude.Order.{string_order, get, contains_key, has_key, insert_key, keys}
use specgate.Prelude.Order.Laws.{same_key, same_key-eq, has_key-insert_key}
use specgate.Prelude.Text.{str_eq}
use specgate.Model.{RegistryImport}
use specgate.Render.{Issues}
use specgate.Compare.Outcome.{done, panic, out_of_fuel, ◌>>=◌, expect, >>=-eq-done}
use specgate.Registry.Cycles.{
  Member, Members, Visit, pushed, mark, add_issues, visit_imports, visit_document, visit, visit_all,
  validate_cycles,
}

module _ (documents : Members) where
  -- The document `owner` imports the document `imported`, both of the set.
  pub record Imports (imported owner : String) : Type 0 where
    pub member : Member
    pub item : RegistryImport
    pub owned : get documents owner ≡ some member
    pub stands : Elem item member.document.imports
    pub names : item.registry_id ≡ imported
    pub known : contains_key documents imported ≡ true

  -- A chain of imports, of one step at least.
  pub data ImportChain : String → String → Type 0 where
    direct : (a b : String) → Imports b a → ImportChain a b
    through : (a b c : String) → Imports b a → ImportChain b c → ImportChain a c

  -- No chain of imports from the registry is endless.
  abbrev Ends : String → Type 0
  Ends = Acc Imports

  abbrev AllEnd : List String → Type 0
  AllEnd visited = (id : String) → has_key id visited ≡ true → Ends id

  -- What a part of the walk that finds nothing does to the visited registries.
  record Extends (visited seen : List String) : Type 0 where
    ends : AllEnd seen
    keeps : (id : String) → has_key id visited ≡ true → has_key id seen ≡ true

  abbrev Visits : (String → List String → Visit) → Type 0
  Visits on =
      (id : String) (visited seen : List String)
      → AllEnd visited
      → on id visited ≡ done (seen, [])
      → Extends visited seen × (has_key id seen ≡ true)

  -- The imports of a list that the set holds are visited.
  abbrev Reaches : List RegistryImport → List String → Type 0
  Reaches imports seen =
      (item : RegistryImport)
      → Elem item imports
      → contains_key documents item.registry_id ≡ true
      → has_key item.registry_id seen ≡ true

  add_issues-nil :
      (issues : Issues) (rest : Visit) {seen : List String}
      → add_issues issues rest ≡ done (seen, [])
      → (issues ≡ []) × (rest ≡ done (seen, []))
  add_issues-nil issues (done (visited, more)) h =
      let (first, last) = append-eq-nil issues more (ground arith) in (first, ground arith)
  add_issues-nil issues panic h = cc
  add_issues-nil issues out_of_fuel h = cc

  enter-lem :
      (on : String → List String → Visit) (item : RegistryImport) (imports : List RegistryImport)
      (visited : List String) {seen : List String}
      → (on item.registry_id visited >>= λ r.
          add_issues r.1 (visit_imports documents on imports r.0))
        ≡ done (seen, [])
      → (middle : List String) × (on item.registry_id visited ≡ done (middle, []))
        × (visit_imports documents on imports middle ≡ done (seen, []))
  enter-lem on item imports visited h =
      let (r, first, rest) = >>=-eq-done (on item.registry_id visited) _ h in
      let (quiet, last) = add_issues-nil r.1 (visit_imports documents on imports r.0) rest in
      (r.0, ground arith, last)

  visit_imports-lem :
      (on : String → List String → Visit) (imports : List RegistryImport)
      (visited seen : List String)
      → Visits on
      → AllEnd visited
      → visit_imports documents on imports visited ≡ done (seen, [])
      → Extends visited seen × Reaches imports seen
  unfolding visit_imports
  visit_imports-lem on [] visited seen visits all h =
      let same : visited ≡ seen = ground arith in
      (rw (← same) (record { ends = all; keeps = λ id k. k }), λ item e. absurd e)
  visit_imports-lem on (item ∷ imports) visited seen visits all h =
      elim (Bool-cases (contains_key documents item.registry_id)) [
        | inl known ↦
            let (middle, first, rest) = enter-lem on item imports visited (rw known at h) in
            let (step, visited_item) = visits item.registry_id visited middle all first in
            let (tail, reaches) = visit_imports-lem on imports middle seen visits step.ends rest in
            (
              record { ends = tail.ends; keeps = λ id k. tail.keeps id (step.keeps id k) },
              λ other e k. elim e [
                | inl same ↦ tail.keeps other.registry_id (rw same visited_item)
                | inr later ↦ reaches other later k
              ],
            )
        | inr unknown ↦
            let (tail, reaches) =
              visit_imports-lem on imports visited seen visits all (rw unknown at h) in
            (
              tail,
              λ other e k. elim e [
                | inl same ↦ absurd (ground arith)
                | inr later ↦ reaches other later k
              ],
            )
      ]

  Ends-lem :
      (id : String) (seen : List String)
      → AllEnd seen
      → ((m : Member) → get documents id ≡ some m → Reaches m.document.imports seen)
      → Ends id
  Ends-lem id seen all reaches = Acc.intro id λ imported h.
      all imported (rw (← h.names) (reaches h.member h.owned h.item h.stands (rw h.names h.known)))

  visit_document-lem :
      (on : String → List String → Visit) (id : String) (visited seen : List String)
      → Visits on
      → AllEnd visited
      → visit_document documents on (get documents id) visited ≡ done (seen, [])
      → Extends visited seen × Ends id
  visit_document-lem on id visited seen visits all h = elim (Option-cases (get documents id)) [
    | inl absent ↦
        let same : visited ≡ seen = ground arith in
        (
          rw (← same) (record { ends = all; keeps = λ i k. k }),
          Ends-lem id visited all (λ m p. absurd (ground arith)),
        )
    | inr (m, found) ↦
        let (step, reaches) =
          visit_imports-lem on m.document.imports visited seen visits all (rw found at h) in
        (
          step,
          Ends-lem id seen step.ends
              (λ n p. let same : m ≡ n = ground arith in rw (← same) reaches),
        )
  ]

  insert_key-Extends :
      (id : String) (visited seen : List String)
      → Extends visited seen
      → Ends id
      → Extends visited (insert_key id seen) × (has_key id (insert_key id seen) ≡ true)
  insert_key-Extends id visited seen step ended = (
    record {
      ends = λ v k. elim (Bool-cases (same_key v id)) [
        | inl same ↦ rw (same_key-eq v id same) ended
        | inr other ↦ step.ends v (ground (arith, has_key-insert_key id v seen))
      ];
      keeps = λ v k. ground (arith, step.keeps v k, has_key-insert_key id v seen);
    },
    ground (arith, has_key-insert_key id id seen, string_order.cmp_iff id id),
  )

  visit-Visits : (fuel : ℕ) (visiting : List String) → Visits (visit documents fuel visiting)
  unfolding visit
  visit-Visits zero visiting id visited seen all h = absurd (ground arith)
  visit-Visits (suc fuel) visiting id visited seen all h = elim (Bool-cases (has_key id visited)) [
    | inl old ↦
        let before : Visit = done (visited, []) in
        let returned : before ≡ done (seen, []) = rw old at h in
        let same : visited ≡ seen = ground arith in
        (rw (← same) (record { ends = all; keeps = λ v k. k }), rw (← same) old)
    | inr new ↦ elim (Bool-cases (any (λ v. str_eq v id) visiting)) [
      | inl cyclic ↦
          let (owner, known, reported) =
            >>=-eq-done (expect (get documents id)) _ (rw (new, cyclic) at h) in
          absurd (ground arith)
      | inr fresh ↦
          let (r, entered, marked) =
            >>=-eq-done
              (visit_document documents
                (λ imported known. visit documents fuel (pushed visiting id) imported known)
                (get documents id) visited)
              (mark id) (rw (new, fresh) at h) in
          let (step, ended) =
            visit_document-lem
              (λ imported known. visit documents fuel (pushed visiting id) imported known) id
              visited r.0 (visit-Visits fuel (pushed visiting id)) all (ground arith) in
          let same : insert_key id r.0 ≡ seen = ground arith in
          rw (← same) (insert_key-Extends id visited r.0 step ended)
    ]
  ]

  visit_all-lem :
      (fuel : ℕ) (ids visited : List String)
      → AllEnd visited
      → visit_all documents fuel ids visited ≡ done []
      → (id : String) → Elem id ids
      → Ends id
  unfolding visit_all
  visit_all-lem fuel [] visited all h id e = absurd e
  visit_all-lem fuel (i ∷ ids) visited all h id e =
      let (r, first, rest) = >>=-eq-done (visit documents fuel [] i visited) _ h in
      let (later, last, joined) = >>=-eq-done (visit_all documents fuel ids r.0) _ rest in
      let (quiet, silent) = append-eq-nil r.1 later (ground arith) in
      let (step, marked) = visit-Visits fuel [] i visited r.0 all (ground arith) in
      elim e [
        | inl same ↦ step.ends id (rw same marked)
        | inr other ↦ visit_all-lem fuel ids r.0 step.ends (ground arith) id other
      ]

  chain-append : (a b c : String) → ImportChain a b → Imports c b → ImportChain a c
  chain-append a b c (direct _ _ i) j = through a b c i (direct b c j)
  chain-append a b c (through _ d _ i chain) j = through a d c i (chain-append d b c chain j)

  -- What imports itself has an endless chain.
  chain-irreflexive : (a b : String) → Ends a → a ≡ b → ¬ ImportChain a b
  chain-irreflexive a b (Acc.intro _ smaller) same (direct _ _ i) =
      chain-irreflexive b b (smaller b i) refl (rw same at (direct a b i))
  chain-irreflexive a b (Acc.intro _ smaller) same (through _ c _ i chain) =
      chain-irreflexive c c (smaller c i) refl (chain-append c b c chain (rw same at i))

Elem-keys :
    (documents : Members) (id : String)
    → contains_key documents id ≡ true
    → Elem id (keys documents)
Elem-keys [] id h = absurd (ground arith)
Elem-keys ((k, m) ∷ documents) id h =
    ground (arith, Elem-keys documents id, string_order.cmp_iff id k)

chain-known :
    (documents : Members) (a b : String)
    → ImportChain documents a b
    → (m : Member) × (get documents a ≡ some m)
chain-known documents a b (direct _ _ i) = (i.member, i.owned)
chain-known documents a b (through _ c _ i chain) = (i.member, i.owned)

-- When `validate_cycles` finds nothing, no registry of the set imports itself, directly or through
-- other registries of the set.
pub validate_cycles-irreflexive :
    (documents : Members) (fuel : ℕ)
    → validate_cycles documents fuel ≡ done []
    → (id : String) → ¬ ImportChain documents id id
unfolding validate_cycles
validate_cycles-irreflexive documents fuel h id chain =
    let (m, known) = chain-known documents id id chain in
    chain-irreflexive documents id id
      (visit_all-lem documents fuel (keys documents) [] (λ v k. absurd (ground arith)) h id
        (Elem-keys documents id (ground arith)))
      refl chain
