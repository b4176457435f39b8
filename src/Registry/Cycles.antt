-- ===== src/Registry/Cycles.antt =====
-- registry.rs: `validate_cycles`, a depth-first walk of the imports.
pub mod Acyclic
pub mod Totality
use specgate.Prelude.{
  ℕ, zero, suc, String, Option, none, some, List, [], ◌∷◌, ◌++◌, if◌then◌else◌, any,
}
use specgate.Prelude.Order.{Dict, string_order, get, contains_key, insert_key, has_key, keys}
use specgate.Prelude.Text.{format, str_eq}
use specgate.Model.{RegistryImport, RegistryDocument}
use specgate.Render.{Issues, issue}
use specgate.Compare.Outcome.{Outcome, done, out_of_fuel, ◌>>=◌, expect}
use specgate.Registry.Checks.{located}

-- `documents` and `document_paths` are built from the same files under the same keys, and are
-- one map here.
pub record Member : Type 0 where
  pub document : RegistryDocument
  pub path : String

abbrev pub Members : Type 0
Members = Dict String Member

-- The visited registries and the issues of a part of the walk.
abbrev pub Visit : Type 0
Visit = Outcome (List String × Issues)

-- `&visiting[position..]`
abbrev pub from_position : String → List String → List String
from_position id [] = []
from_position id (v ∷ vs) = let rest = from_position id vs in if str_eq v id then v ∷ vs else rest

abbrev pub arrows : List String → List String
arrows [] = []
arrows (s ∷ []) = s ∷ []
arrows (s ∷ t ∷ rest) = s ∷ " -> " ∷ arrows (t ∷ rest)

abbrev pub cycle_issue : String → List String → Member → Issues
cycle_issue id visiting owner =
    issue (located owner.path "$.imports")
      (format ("registry import cycle: " ∷ arrows (from_position id visiting ++ id ∷ [])))

-- `Vec::push`, here of the registry under visit
abbrev pub pushed : List String → String → List String
pushed visiting id = visiting ++ id ∷ []

abbrev pub mark : String → List String × Issues → Visit
mark id (visited, issues) = done (insert_key id visited, issues)

abbrev pub add_issues : Issues → Visit → Visit
add_issues issues rest = do (visited, more) ← rest; done (visited, issues ++ more)

module _ (documents : Members) where
  -- The loop over the imports of a document; `on` visits one.
  unfoldable pub visit_imports :
      (String → List String → Visit) → List RegistryImport → List String → Visit
  visit_imports on [] visited = done (visited, [])
  visit_imports on (imported ∷ imports) visited =
      let skip = visit_imports on imports visited in
      let enter : Visit =
        (on imported.registry_id visited) >>= λ r. add_issues r.1 (visit_imports on imports r.0) in
      if contains_key documents imported.registry_id then enter else skip

  abbrev pub visit_document : (String → List String → Visit) → Option Member → List String → Visit
  visit_document on none visited = done (visited, [])
  visit_document on (some m) visited = visit_imports on m.document.imports visited

  unfoldable pub visit : ℕ → List String → String → List String → Visit
  unfolding visit_imports
  visit zero visiting id visited = out_of_fuel
  visit (suc fuel) visiting id visited =
      let enter : Visit =
        visit_document (λ imported seen. visit fuel (pushed visiting id) imported seen)
          (get documents id) visited
        >>= mark id in
      let report : Visit =
        expect (get documents id) >>= λ owner. done (visited, cycle_issue id visiting owner) in
      if has_key id visited
      then done (visited, [])
      else if any (λ v. str_eq v id) visiting
      then report
      else enter

  unfoldable pub visit_all : ℕ → List String → List String → Outcome Issues
  unfolding visit
  visit_all fuel [] visited = done []
  visit_all fuel (id ∷ ids) visited = do
    (seen, issues) ← visit fuel [] id visited
    more ← visit_all fuel ids seen
    done (issues ++ more)

  -- Each step down visits a document that is not under visit.
  unfoldable pub validate_cycles : ℕ → Outcome Issues
  unfolding visit_all
  validate_cycles fuel = visit_all fuel (keys documents) []
