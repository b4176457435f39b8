-- ===== src/Capture/Run/Numbers.antt =====
-- The span ids of an encoded run: consecutive from the first id, in document order.
use specgate.Prelude.{
  ℕ, zero, suc, ◌+◌, ◌<◌, String, none, some, List, [], ◌∷◌, ◌++◌, ◌≡◌, ◌∙◌, ap, ◌⊎◌, inl, inr,
  arith, length, map, Option-cases, Bool-cases,
}
use mathlib.Core.Path.{subst}
use specgate.Prelude.Elem.{Elem}
use specgate.Prelude.Order.{string_order, get, insert}
use specgate.Prelude.Order.Laws.{same_key, same_key-eq, get-insert}
use specgate.Capture.Evidence.{Operation}
use specgate.Capture.Wire.{ok, >>=-eq-ok, Span}
use specgate.Capture.Encoding.{checked_id, span_id, next_of}
use specgate.Capture.Scenario.{Ids, assign_ids}
use specgate.Capture.Run.Parts.{checked_id-ok, next_of-ok}

-- The ids of `count` spans, from `first` on.
abbrev pub ids_from : ℕ → ℕ → List (List ℕ)
ids_from first zero = []
ids_from first (suc count) = span_id first ∷ ids_from (first + 1) count

pub ids_from-append : (n a b : ℕ) → ids_from n (a + b) ≡ ids_from n a ++ ids_from (n + a) b
ids_from-append n zero b = ground arith
ids_from-append n (suc a) b =
    let step : suc a + b ≡ suc (a + b) = omega arith in
    let shift : n + 1 + a ≡ n + suc a = omega arith in
    rw step (
      ap (λ r. span_id n ∷ r)
        (ids_from-append (n + 1) a b ∙ ap (λ k. ids_from (n + 1) a ++ ids_from k b) shift))

abbrev pub span_ids : List Span → List (List ℕ)
span_ids = map (λ (s : Span). s.id)

-- The map gives the operations consecutive ids.
abbrev pub Assigned : ℕ → List Operation → Ids → Type 0
Assigned n [] ids = Unit
Assigned n (o ∷ os) ids = (get ids o.span_id ≡ some (span_id n)) × Assigned (n + 1) os ids

abbrev pub KeepsIds : Ids → Ids → Type 0
KeepsIds before after = (k : String) (v : List ℕ) → get before k ≡ some v → get after k ≡ some v

insert_keeps :
    (k : String) (v : List ℕ) (ids : Ids) → get ids k ≡ none → KeepsIds ids (insert k v ids)
insert_keeps k v ids absent j w h = rw (get-insert k j v ids) (elim (Bool-cases (same_key j k)) [
  | inl same ↦ let e = same_key-eq j k same in absurd (ground arith)
  | inr other ↦ rw other h
])

insert_self : (k : String) (v : List ℕ) (ids : Ids) → get (insert k v ids) k ≡ some v
insert_self k v ids = ground (arith, get-insert k k v ids, string_order.cmp_iff k k)

pub assign_ids-ok :
    (name : String) (os : List Operation) (n : ℕ) (before : Ids) (r : Ids × ℕ)
    → assign_ids name os n before ≡ ok r
    → (r.1 ≡ n + length os) × KeepsIds before r.0 × Assigned n os r.0
unfolding assign_ids
assign_ids-ok name [] n before r h =
    let same : before ≡ r.0 = ground arith in (ground arith, rw (← same) (λ k v p. p), tt)
assign_ids-ok name (o ∷ os) n before r h =
    let (id, identified, h1) = >>=-eq-ok (checked_id n) _ h in
    let (m, counted, h2) = >>=-eq-ok (next_of n) _ h1 in
    let named = checked_id-ok n id identified in
    let after_n = (next_of-ok n m counted).0 in
    elim (Option-cases (get before o.span_id)) [
      | inr (old, found) ↦ absurd (let wrong = rw found at h2 in ground arith)
      | inl absent ↦
          let (total, keeps, assigned) =
            assign_ids-ok name os m (insert o.span_id id before) r (rw absent at h2) in
          (
            ground arith,
            λ k v p. keeps k v (insert_keeps o.span_id id before absent k v p),
            (
              keeps o.span_id (span_id n) (rw (← named) (insert_self o.span_id id before)),
              rw (← after_n) assigned,
            ),
          )
    ]

-- Every id of the map that was not there before is one of the given ones.
pub assign_ids-only :
    (name : String) (os : List Operation) (n : ℕ) (before : Ids) (r : Ids × ℕ) (k : String)
    (v : List ℕ)
    → assign_ids name os n before ≡ ok r
    → get r.0 k ≡ some v
    → (get before k ≡ some v) ⊎ Elem v (ids_from n (length os))
unfolding assign_ids
assign_ids-only name [] n before r k v h found =
    let same : before ≡ r.0 = ground arith in inl (rw same found)
assign_ids-only name (o ∷ os) n before r k v h found =
    let (id, identified, h1) = >>=-eq-ok (checked_id n) _ h in
    let (m, counted, h2) = >>=-eq-ok (next_of n) _ h1 in
    let named = checked_id-ok n id identified in
    let after_n = (next_of-ok n m counted).0 in
    elim (Option-cases (get before o.span_id)) [
      | inr (old, present) ↦ absurd (let wrong = rw present at h2 in ground arith)
      | inl absent ↦
          elim (assign_ids-only name os m (insert o.span_id id before) r k v (rw absent at h2)
            found) [
              | inr later ↦
                  inr (inr (subst (λ (j : ℕ). Elem v (ids_from j (length os))) after_n later))
              | inl here ↦ elim (Bool-cases (same_key k o.span_id)) [
                | inl same ↦ inr (inl (ground (arith, get-insert o.span_id k id before)))
                | inr other ↦ inl (ground (arith, get-insert o.span_id k id before))
              ]
            ]
    ]

-- The ids stay below 2⁶⁴.
pub assign_ids-bound :
    (name : String) (os : List Operation) (n : ℕ) (before : Ids) (r : Ids × ℕ)
    → assign_ids name os n before ≡ ok r
    → n < 18446744073709551616
    → r.1 < 18446744073709551616
unfolding assign_ids
assign_ids-bound name [] n before r h below = ground arith
assign_ids-bound name (o ∷ os) n before r h below =
    let (id, identified, h1) = >>=-eq-ok (checked_id n) _ h in
    let (m, counted, h2) = >>=-eq-ok (next_of n) _ h1 in
    let fits = next_of-ok n m counted in
    elim (Option-cases (get before o.span_id)) [
      | inr (old, present) ↦ absurd (let wrong = rw present at h2 in ground arith)
      | inl absent ↦
          assign_ids-bound name os m (insert o.span_id id before) r (rw absent at h2) (ground arith)
    ]
