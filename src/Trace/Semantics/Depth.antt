-- ===== src/Trace/Semantics/Depth.antt =====
-- The depth of a span below its run, in a document that `validate_semantics` accepts.
use specgate.Prelude.{
  ℕ, zero, suc, ◌≤◌, ◌<◌, true, false, List, [], ◌∷◌, some, length, ◌≡◌, refl, ◌⊎◌, inl, inr, arith,
  sym, ap, ◌∙◌, Bool-cases, is_empty, length-append, is_empty→nil,
}
use mathlib.Core.Path.{subst}
use specgate.Prelude.Elem.{Elem, Elem-append}
use specgate.Prelude.Order.{get, has_key}
use specgate.Prelude.Order.Laws.{same_key, same_key-eq}
use text.Mathlib.TextEquality.{eq_iff}
use specgate.Model.{TraceSpan, TraceDocument}
use specgate.Index.{SpanKey, key_order, TraceIndex, or_empty, own_key, parent_key, push_span}
use specgate.Index.Laws.{get-push_span, is_child}
use specgate.Trace.Ancestry.Totality.{fresh, fresh-lt, fresh-nil}
use specgate.Trace.Semantics.{index_spans, validate_semantics, role_of, parent_of}
use specgate.Trace.Semantics.Nesting.{
  index-own, index-hex, semantics-parts, check_all-Elem, check_semantics-role, run-parent,
  hex-empty, child-parent_key,
}
use specgate.Compare.Documents.{is_run}

-- What `index_spans` adds under a key.
index_spans-keyed :
    (spans : List TraceSpan) (by_id : TraceIndex) (key : SpanKey) (x : TraceSpan)
    → Elem x (or_empty (get (index_spans spans by_id).0 key))
    → (Elem x spans × (own_key x ≡ key)) ⊎ Elem x (or_empty (get by_id key))
unfolding index_spans
index_spans-keyed [] by_id key x e = inr e
index_spans-keyed (s ∷ ss) by_id key x e =
    elim (index_spans-keyed ss (push_span (own_key s) s by_id) key x e) [
      | inl (later, own) ↦ inl (inr later, own)
      | inr pushed ↦
          elim (Elem-append x (or_empty (get by_id key)) _ (rw get-push_span at pushed)) [
            | inl before ↦ inr before
            | inr here ↦ elim (Bool-cases (same_key key (own_key s))) [
              | inl same ↦
                  let now : x ≡ s = ground arith in
                  inl (inl now, ap own_key now ∙ sym (same_key-eq key (own_key s) same))
              | inr differ ↦ absurd (ground arith)
            ]
          ]
    ]

index_spans-fresh :
    (t : TraceSpan) (ts : List TraceSpan) (by_id : TraceIndex)
    → (index_spans (t ∷ ts) by_id).1 ≡ []
    → (is_empty (or_empty (get by_id (own_key t))) ≡ true)
      × ((index_spans ts (push_span (own_key t) t by_id)).1 ≡ [])
unfolding index_spans
index_spans-fresh t ts by_id h = ground arith

push-single :
    (t : TraceSpan) (by_id : TraceIndex) (key : SpanKey)
    → is_empty (or_empty (get by_id (own_key t))) ≡ true
    → length (or_empty (get by_id key)) ≤ 1
    → length (or_empty (get (push_span (own_key t) t by_id) key)) ≤ 1
push-single t by_id key empty single = elim (Bool-cases (same_key key (own_key t))) [
  | inl same ↦
      let nothing : or_empty (get by_id key) ≡ [] =
        is_empty→nil _ (rw (same_key-eq key (own_key t) same) empty) in
      rw (get-push_span, same) (rw nothing (omega arith))
  | inr differ ↦
      rw (get-push_span, differ) (omega (arith, length-append (or_empty (get by_id key)) []))
]

-- No identifier stands for two spans.
index_spans-single :
    (spans : List TraceSpan) (by_id : TraceIndex)
    → (index_spans spans by_id).1 ≡ []
    → ((key : SpanKey) → length (or_empty (get by_id key)) ≤ 1)
    → (key : SpanKey) → length (or_empty (get (index_spans spans by_id).0 key)) ≤ 1
unfolding index_spans
index_spans-single [] by_id h single key = single key
index_spans-single (t ∷ ts) by_id h single key =
    let (empty, rest) = index_spans-fresh t ts by_id h in
    index_spans-single ts (push_span (own_key t) t by_id) rest
      (λ k. push-single t by_id k empty (single k)) key

only_one : (x : TraceSpan) (xs : List TraceSpan) → Elem x xs → length xs ≤ 1 → xs ≡ x ∷ []
only_one x [] e l = absurd e
only_one x (y ∷ []) (inl p) l = rw p refl
only_one x (y ∷ []) (inr e) l = absurd e
only_one x (y ∷ z ∷ zs) e l = absurd (ground arith)

-- The span under `key` stands `n` steps below a run.
abbrev pub Depth : TraceIndex → ℕ → SpanKey → Type 0
Depth by_id zero key = (s : TraceSpan) × ((or_empty (get by_id key) ≡ s ∷ []) × (is_run s ≡ true))
Depth by_id (suc n) key =
    (s : TraceSpan) × ((or_empty (get by_id key) ≡ s ∷ [])
      × (is_run s ≡ false)
      × Depth by_id n (parent_key s))

pub same_single : (s t : TraceSpan) (xs : List TraceSpan) → xs ≡ s ∷ [] → xs ≡ t ∷ [] → s ≡ t
same_single s t xs h k = ground arith

Depth-unique :
    (by_id : TraceIndex) (n m : ℕ) (key : SpanKey) → Depth by_id n key → Depth by_id m key → n ≡ m
Depth-unique by_id zero zero key d e = refl
Depth-unique by_id zero (suc m) key (s, (b, r)) (t, (c, q, e)) =
    let same = same_single s t _ b c in absurd (ground arith)
Depth-unique by_id (suc n) zero key (s, (b, r, d)) (t, (c, q)) =
    let same = same_single s t _ b c in absurd (ground arith)
Depth-unique by_id (suc n) (suc m) key (s, (b, r, d)) (t, (c, q, e)) =
    let same = same_single s t _ b c in
    ap suc
      (Depth-unique by_id n m (parent_key t) (subst (λ u. Depth by_id n (parent_key u)) same d) e)

abbrev pub index_of : List TraceSpan → TraceIndex
index_of spans = (index_spans spans []).0

abbrev pub DepthIn : TraceDocument → ℕ → TraceSpan → Type 0
DepthIn document n s = Depth (index_of document.spans) n (own_key s)

module _ (spans : List TraceSpan) where
  pub keyed-Elem :
      (key : SpanKey) (s : TraceSpan)
      → or_empty (get (index_of spans) key) ≡ s ∷ []
      → Elem s spans × (own_key s ≡ key)
  keyed-Elem key s h = ground (arith, index_spans-keyed spans [] key s (rw h (inl refl)))

  step-fresh :
      (key : SpanKey) (path : List SpanKey) (s : TraceSpan)
      → or_empty (get (index_of spans) key) ≡ s ∷ []
      → has_key key path ≡ false
      → fresh (key ∷ path) spans < fresh path spans
  step-fresh key path s h unseen =
      let (e, own) = keyed-Elem key s h in rw (← own) (fresh-lt path s spans e (rw own unseen))

  -- The keys of a path stand deeper than `n`.
  abbrev Deeper : ℕ → List SpanKey → Type 0
  Deeper n path =
      (j : SpanKey) → has_key j path ≡ true → (m : ℕ) × (Depth (index_of spans) m j × (n < m))

  Deeper-unseen :
      (n : ℕ) (key : SpanKey) (path : List SpanKey)
      → Depth (index_of spans) n key
      → Deeper n path
      → has_key key path ≡ false
  Deeper-unseen n key path d deeper = elim (Bool-cases (has_key key path)) [
    | inl seen ↦
        let (m, (e, less)) = deeper key seen in
        absurd (ground (arith, Depth-unique (index_of spans) n m key d e))
    | inr unseen ↦ unseen
  ]

  Deeper-cons :
      (n : ℕ) (key : SpanKey) (path : List SpanKey)
      → Depth (index_of spans) (suc n) key
      → Deeper (suc n) path
      → Deeper n (key ∷ path)
  Deeper-cons n key path d deeper j h = elim (Bool-cases (same_key j key)) [
    | inl same ↦ (
      suc n,
      (subst (λ k. Depth (index_of spans) (suc n) k) (sym (same_key-eq j key same)) d, omega arith),
    )
    | inr differ ↦ let (m, (e, less)) = deeper j (ground arith) in (m, (e, omega arith))
  ]

  -- Such a path leaves room for the keys above it.
  Deeper-fresh :
      (n : ℕ) (key : SpanKey) (path : List SpanKey)
      → Depth (index_of spans) n key
      → Deeper n path
      → n < fresh path spans
  Deeper-fresh zero key path (s, (b, r)) deeper =
      let less = step-fresh key path s b (Deeper-unseen zero key path (s, (b, r)) deeper) in
      omega arith
  Deeper-fresh (suc n) key path (s, (b, r, d)) deeper =
      let here : Depth (index_of spans) (suc n) key = (s, (b, r, d)) in
      let less = step-fresh key path s b (Deeper-unseen (suc n) key path here deeper) in
      let above =
        Deeper-fresh n (parent_key s) (key ∷ path) d (Deeper-cons n key path here deeper) in
      omega arith

  -- No span stands deeper than there are spans.
  pub Depth-lt : (n : ℕ) (key : SpanKey) → Depth (index_of spans) n key → n < length spans
  Depth-lt n key d = rw (← fresh-nil spans) (Deeper-fresh n key [] d (λ j h. absurd (ground arith)))

module _ (document : TraceDocument) (valid : validate_semantics document.spans ≡ some []) where
  pub single-own :
      (s : TraceSpan)
      → Elem s document.spans
      → or_empty (get (index_of document.spans) (own_key s)) ≡ s ∷ []
  single-own s e =
      let (ids, checks) = semantics-parts document.spans valid in
      only_one s _ (index-own document.spans [] s e)
        (index_spans-single document.spans [] ids (λ k. omega arith) (own_key s))

  pub run-Depth : (s : TraceSpan) → Elem s document.spans → is_run s ≡ true → DepthIn document 0 s
  run-Depth s e r = (s, (single-own s e, r))

  -- The children of a span stand one step below it.
  pub child-Depth :
      (n : ℕ) (p c : TraceSpan)
      → Elem p document.spans
      → Elem c document.spans
      → is_child p c ≡ true
      → DepthIn document n p
      → DepthIn document (suc n) c
  child-Depth n p c ep ec child d =
      let spans = document.spans in
      let (ids, checks) = semantics-parts spans valid in
      let own =
        check_semantics-role (index_of spans) c
          (check_all-Elem (index_of spans) spans c checks ec) in
      elim (Bool-cases (is_run c)) [
        | inl run ↦ absurd (
            ground (
              arith,
              hex-empty p.span_id
                  (ground (
                    arith,
                    run-parent c (role_of (parent_of (index_of spans) c)) run own,
                    eq_iff p.span_id c.parent_span_id,
                  ))
                  (index-hex spans [] p ids ep),
            ))
        | inr below ↦ (
          c,
          (
            single-own c ec,
            below,
            subst (λ k. Depth (index_of spans) n k) (child-parent_key p c child) d,
          ),
        )
      ]
