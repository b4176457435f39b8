-- ===== src/Capture/Built.antt =====
-- capture.rs: which captures `CaptureBuilder::build` accepts.
use specgate.Prelude.{
  suc, String, true, false, List, [], ◌∷◌, ◌≤◌, ◌≡◌, refl, ap, inl, inr, arith, length, ◌==◌, map,
  Bool-cases,
}
use specgate.Prelude.Elem.{Elem}
use specgate.Prelude.Int.{ℤ, pos, negsuc, compare_int, ◌≤ℤ◌}
use specgate.Prelude.Order.{string_order, key_set, has_key}
use specgate.Prelude.Order.Sets.{length-insert_key, insert_key-present, key_set-Ascending}
use specgate.Prelude.Order.Laws.{same_key_refl, same_key, same_key-eq, has_key-insert_key}
use specgate.Registry.Checks.Distinct.{Distinct}
use specgate.Capture.Evidence.{Operation, Capture, is_reversed, build_capture}

is_reversed-false : (start end : ℤ) → is_reversed start end ≡ false → start ≤ℤ end
unfolding compare_int
is_reversed-false (pos a) (pos b) h = ground arith
is_reversed-false (pos a) (negsuc b) h = absurd (ground arith)
is_reversed-false (negsuc a) (pos b) h = ground arith
is_reversed-false (negsuc a) (negsuc b) h = ground arith

≤ℤ-is_reversed : (start end : ℤ) → start ≤ℤ end → is_reversed start end ≡ false
unfolding compare_int
≤ℤ-is_reversed (pos a) (pos b) h = ground arith
≤ℤ-is_reversed (pos a) (negsuc b) h = absurd (ground arith)
≤ℤ-is_reversed (negsuc a) (pos b) h = ground arith
≤ℤ-is_reversed (negsuc a) (negsuc b) h = ground arith

length-map : {A B : Type 0} (f : A → B) (xs : List A) → length (map f xs) ≡ length xs
length-map f [] = refl
length-map f (x ∷ xs) = ap suc (length-map f xs)

has_key-key_set : (k : String) (ks : List String) → ¬ Elem k ks → has_key k (key_set ks) ≡ false
has_key-key_set k [] h = refl
has_key-key_set k (j ∷ ks) h = elim (Bool-cases (same_key k j)) [
  | inl same ↦ absurd (h (inl (same_key-eq k j same)))
  | inr other ↦
      rw (has_key-insert_key j k (key_set ks), other) (has_key-key_set k ks (λ e. h (inr e)))
]

length-key_set : (ks : List String) → Distinct ks → length (key_set ks) ≡ length ks
length-key_set [] d = refl
length-key_set (k ∷ ks) d =
    ground
      (arith, length-insert_key k (key_set ks) (has_key-key_set k ks d.0), length-key_set ks d.1)

-- A capture whose run and scenario end no earlier than they start, and whose operations have
-- distinct ids, is built as it is.
pub build_capture_accepts :
    (c : Capture)
    → c.run.interval.start_ns ≤ℤ c.run.interval.end_ns
    → c.scenario.interval.start_ns ≤ℤ c.scenario.interval.end_ns
    → Distinct (map (λ (o : Operation). o.span_id) c.operations)
    → build_capture c ≡ inr c
unfolding build_capture
build_capture_accepts c run scenario distinct =
    let ids = map (λ (o : Operation). o.span_id) c.operations in
    let count : (length (key_set ids) == length c.operations) ≡ true = ground (
      arith,
      length-key_set ids distinct,
      length-map (λ (o : Operation). o.span_id) c.operations,
    ) in
    rw
      (
        ≤ℤ-is_reversed c.run.interval.start_ns c.run.interval.end_ns run,
        ≤ℤ-is_reversed c.scenario.interval.start_ns c.scenario.interval.end_ns scenario,
        count,
      )
      refl

length-key_set-le : (ks : List String) → length (key_set ks) ≤ length ks
length-key_set-le [] = omega arith
length-key_set-le (k ∷ ks) =
    let rest = length-key_set-le ks in
    elim (Bool-cases (has_key k (key_set ks))) [
      | inl present ↦
          let same = insert_key-present k (key_set ks) (key_set-Ascending ks) present in omega arith
      | inr absent ↦ let more = length-insert_key k (key_set ks) absent in omega arith
    ]

key_set-has : (k : String) (ks : List String) → Elem k ks → has_key k (key_set ks) ≡ true
key_set-has k [] e = absurd e
key_set-has k (j ∷ ks) (inl same) =
    rw (has_key-insert_key j k (key_set ks), same, same_key_refl j) refl
key_set-has k (j ∷ ks) (inr later) =
    ground (arith, has_key-insert_key j k (key_set ks), key_set-has k ks later)

-- A set that is as long as the list comes from distinct texts.
key_set-Distinct : (ks : List String) → length (key_set ks) ≡ length ks → Distinct ks
key_set-Distinct [] h = tt
key_set-Distinct (k ∷ ks) h =
    let rest = length-key_set-le ks in
    elim (Bool-cases (has_key k (key_set ks))) [
      | inl present ↦
          let same = insert_key-present k (key_set ks) (key_set-Ascending ks) present in
          absurd (omega arith)
      | inr absent ↦
          let more = length-insert_key k (key_set ks) absent in
          (λ e. let found = key_set-has k ks e in ground arith, key_set-Distinct ks (omega arith))
    ]

-- What `build_capture` returns it was given, with operations of distinct ids, and a run and a
-- scenario that end no earlier than they start.
pub build_capture-Distinct :
    (c built : Capture)
    → build_capture c ≡ inr built
    → (built ≡ c)
      × (c.run.interval.start_ns ≤ℤ c.run.interval.end_ns)
      × (c.scenario.interval.start_ns ≤ℤ c.scenario.interval.end_ns)
      × Distinct (map (λ (o : Operation). o.span_id) c.operations)
unfolding build_capture
build_capture-Distinct c built h =
    let run = is_reversed c.run.interval.start_ns c.run.interval.end_ns in
    let scenario = is_reversed c.scenario.interval.start_ns c.scenario.interval.end_ns in
    let ids = map (λ (o : Operation). o.span_id) c.operations in
    elim (Bool-cases run) [
      | inl late ↦ absurd (let wrong = rw late at h in ground arith)
      | inr run_fits ↦ elim (Bool-cases scenario) [
        | inl late ↦ absurd (let wrong = rw (run_fits, late) at h in ground arith)
        | inr scenario_fits ↦ elim (Bool-cases (length (key_set ids) == length c.operations)) [
          | inr fewer ↦
              absurd (let wrong = rw (run_fits, scenario_fits, fewer) at h in ground arith)
          | inl whole ↦
              let rest = rw (run_fits, scenario_fits, whole) at h in
              let all = length-map (λ (o : Operation). o.span_id) c.operations in
              (
                ground arith,
                is_reversed-false c.run.interval.start_ns c.run.interval.end_ns run_fits,
                is_reversed-false c.scenario.interval.start_ns c.scenario.interval.end_ns
                    scenario_fits,
                key_set-Distinct ids (ground arith),
              )
        ]
      ]
    ]
