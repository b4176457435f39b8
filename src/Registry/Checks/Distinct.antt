-- ===== src/Registry/Checks/Distinct.antt =====
-- What `unique` accepts: lists in which no value occurs twice.
use specgate.Prelude.{String, false, List, [], ◌∷◌, ◌≡◌, refl, inl, inr, ◌↔◌, arith}
use specgate.Prelude.Elem.{Elem}
use specgate.Prelude.Order.{string_order, has_key, insert_key}
use specgate.Prelude.Order.Laws.{has_key-insert_key}
use specgate.Registry.Checks.{unique_from, unique}

abbrev pub Distinct : {A : Type 0} → List A → Type 0
Distinct [] = Unit
Distinct (v ∷ vs) = ¬ Elem v vs × Distinct vs

-- No value of the list is in the set.
abbrev IsFresh : List String → List String → Type 0
IsFresh seen values = (v : String) → Elem v values → has_key v seen ≡ false

IsFresh-tail :
    (seen : List String) (value : String) (values : List String)
    → ¬ Elem value values
    → IsFresh seen (value ∷ values)
    → IsFresh (insert_key value seen) values
IsFresh-tail seen value values once h v e = ground (
  arith,
  has_key-insert_key value v seen,
  h v (inr e),
  string_order.cmp_iff v value,
  (λ (same : value ≡ v). once (rw same e)),
)

unique_from-nil :
    (seen values : List String) (location field : String)
    → Distinct values
    → IsFresh seen values
    → unique_from seen values location field ≡ []
unfolding unique_from
unique_from-nil seen [] location field d h = refl
unique_from-nil seen (v ∷ vs) location field d h =
    rw (h v (inl refl))
      (unique_from-nil (insert_key v seen) vs location field d.1 (IsFresh-tail seen v vs d.0 h))

unique_from-cons :
    (seen : List String) (v : String) (vs : List String) (location field : String)
    → unique_from seen (v ∷ vs) location field ≡ []
    → (has_key v seen ≡ false) × (unique_from (insert_key v seen) vs location field ≡ [])
unfolding unique_from
unique_from-cons seen v vs location field h = ground arith

unique_from-Distinct :
    (seen values : List String) (location field : String)
    → unique_from seen values location field ≡ []
    → Distinct values × IsFresh seen values
unique_from-Distinct seen [] location field h = (tt, λ v e. absurd e)
unique_from-Distinct seen (v ∷ vs) location field h =
    let (fresh, rest) = unique_from-cons seen v vs location field h in
    let (distinct, unseen) = unique_from-Distinct (insert_key v seen) vs location field rest in
    (
      (
        λ e. ground (arith, unseen v e, has_key-insert_key v v seen, string_order.cmp_iff v v),
        distinct,
      ),
      λ w e. ground (arith, (λ (later : Elem w vs). unseen w later), has_key-insert_key v w seen),
    )

-- `unique` finds nothing exactly when the values are distinct.
pub unique_iff :
    (values : List String) (location field : String)
    → (unique values location field ≡ []) ↔ Distinct values
unfolding unique
unique_iff values location field = (
  λ h. (unique_from-Distinct [] values location field h).0,
  λ d. unique_from-nil [] values location field d (λ v e. refl),
)
