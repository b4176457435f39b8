-- ===== src/Capture/Run/Room.antt =====
-- `encode`: every operation of a capture with distinct ids receives an id, while there are ids.
use specgate.Prelude.{
  ℕ, suc, ◌+◌, ◌<◌, String, none, List, [], ◌∷◌, ◌≡◌, refl, ap, inl, inr, arith, length, map,
  Bool-cases,
}
use specgate.Prelude.Elem.{Elem}
use specgate.Prelude.Order.{string_order, get, insert}
use specgate.Prelude.Order.Laws.{same_key, same_key-eq, get-insert}
use specgate.Registry.Checks.Distinct.{Distinct}
use specgate.Capture.Evidence.{Operation}
use specgate.Capture.Wire.{Encoded, ok}
use specgate.Capture.Encoding.{span_id, next_of}
use specgate.Capture.Scenario.{Ids, assign_ids}
use specgate.Capture.Encoding.Hex.{checked_id_lem}
use specgate.Capture.Run.Numbers.{Assigned, assign_ids-ok}

abbrev pub native_ids : List Operation → List String
native_ids = map (λ (o : Operation). o.span_id)

next_of_lem : (n : ℕ) → n + 1 < 18446744073709551616 → next_of n ≡ ok (n + 1)
unfolding next_of
next_of_lem n h = ground arith

-- None of the ids is a key of the map.
abbrev Absent : List String → Ids → Type 0
Absent ks ids = (k : String) → Elem k ks → get ids k ≡ none

Absent-insert :
    (k : String) (ks : List String) (v : List ℕ) (ids : Ids)
    → ¬ Elem k ks
    → Absent (k ∷ ks) ids
    → Absent ks (insert k v ids)
Absent-insert k ks v ids once h j e = elim (Bool-cases (same_key j k)) [
  | inl same ↦ let equal = same_key-eq j k same in absurd (once (rw (← equal) e))
  | inr other ↦ rw (get-insert k j v ids, other) (h j (inr e))
]

assign_ids_room :
    (name : String) (os : List Operation) (n : ℕ) (before : Ids)
    → Distinct (native_ids os)
    → Absent (native_ids os) before
    → 0 < n
    → n + length os < 18446744073709551616
    → (ids : Ids) × (assign_ids name os n before ≡ ok (ids, n + length os))
unfolding assign_ids
assign_ids_room name [] n before distinct absent positive room =
    (before, ap (λ (m : ℕ). let e : Encoded (Ids × ℕ) = ok (before, m) in e) (omega arith))
assign_ids_room name (o ∷ os) n before distinct absent positive room =
    let (ids, rest) =
      assign_ids_room name os (n + 1) (insert o.span_id (span_id n) before) distinct.1
        (Absent-insert o.span_id (native_ids os) (span_id n) before distinct.0 absent) (omega arith)
        (omega arith) in
    let first = checked_id_lem n positive (omega arith) in
    let next = next_of_lem n (omega arith) in
    let shift : n + 1 + length os ≡ n + suc (length os) = omega arith in
    (
      ids,
      rw (first, next, absent o.span_id (inl refl), rest)
          (ap (λ (m : ℕ). let e : Encoded (Ids × ℕ) = ok (ids, m) in e) shift),
    )

-- When the operations of a capture have distinct ids and enough span ids are left, the loop ends
-- without an error, past as many ids as there are operations, and the map that it returns gives
-- the operations consecutive ids in their order, the first of them the given one.
pub assign_ids-Assigned :
    (name : String) (os : List Operation) (n : ℕ)
    → Distinct (map (λ (o : Operation). o.span_id) os)
    → 0 < n
    → n + length os < 18446744073709551616
    → (ids : Ids) × (assign_ids name os n [] ≡ ok (ids, n + length os)) × Assigned n os ids
assign_ids-Assigned name os n distinct positive room =
    let (ids, h) = assign_ids_room name os n [] distinct (λ k e. refl) positive room in
    (ids, h, (assign_ids-ok name os n [] (ids, n + length os) h).2)
