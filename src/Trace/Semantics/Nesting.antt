-- ===== src/Trace/Semantics/Nesting.antt =====
-- A document that `validate_semantics` accepts is nested: below a span that is no run stand
-- operations and parallel spans only.
use specgate.Prelude.{
  suc, String, Bool, true, false, ◌||◌, List, [], ◌∷◌, ◌++◌, some, length, ◌≡◌, refl, inl, inr,
  arith, Bool-cases, Option-cases, append-eq-nil,
}
use specgate.Prelude.Elem.{Elem, All, All-Elem}
use specgate.Prelude.Order.{get}
use specgate.Prelude.Order.Laws.{same_key_refl}
use specgate.Prelude.Text.{str_eq, eq_excludes}
use text.Mathlib.TextEquality.{eq_iff}
use specgate.Model.{TraceSpan, TraceDocument}
use specgate.Names.{run_span, scenario_span, op_span, parallel_span}
use specgate.Index.{SpanKey, key_order, TraceIndex, or_empty, own_key, parent_key, push_span}
use specgate.Index.Laws.{get-push_span, is_child}
use specgate.Render.{require}
use specgate.Trace.Fields.{is_hex_id}
use specgate.Trace.Roles.{SpanRole, parse_span_role, is_run_role}
use specgate.Trace.Ancestry.{validate_ancestry}
use specgate.Trace.Semantics.{
  index_spans, single, parent_of, role_of, check_span_role, check_semantics, check_all,
  validate_semantics,
}
use specgate.Compare.Documents.{is_run}
use specgate.Compare.Same.Spans.{is_branch}
use specgate.Compare.Same.Document.{IsNested}

Elem-append_left : {A : Type 0} (x : A) (xs ys : List A) → Elem x xs → Elem x (xs ++ ys)
Elem-append_left x [] ys e = absurd e
Elem-append_left x (z ∷ xs) ys e = ground (arith, Elem-append_left x xs ys)

Elem-append_right : {A : Type 0} (x : A) (xs ys : List A) → Elem x ys → Elem x (xs ++ ys)
Elem-append_right x [] ys e = e
Elem-append_right x (z ∷ xs) ys e = inr (Elem-append_right x xs ys e)

push-own :
    (s : TraceSpan) (by_id : TraceIndex)
    → Elem s (or_empty (get (push_span (own_key s) s by_id) (own_key s)))
push-own s by_id =
    rw (get-push_span (own_key s) (own_key s) s by_id, same_key_refl (own_key s))
      (Elem-append_right s (or_empty (get by_id (own_key s))) (s ∷ []) (inl refl))

index-keeps :
    (spans : List TraceSpan) (by_id : TraceIndex) (key : SpanKey) (s : TraceSpan)
    → Elem s (or_empty (get by_id key))
    → Elem s (or_empty (get (index_spans spans by_id).0 key))
unfolding index_spans
index-keeps [] by_id key s e = e
index-keeps (t ∷ ts) by_id key s e =
    index-keeps ts (push_span (own_key t) t by_id) key s
      (rw get-push_span (Elem-append_left s (or_empty (get by_id key)) _ e))

-- Every span stands under its own identifier.
pub index-own :
    (spans : List TraceSpan) (by_id : TraceIndex) (s : TraceSpan)
    → Elem s spans
    → Elem s (or_empty (get (index_spans spans by_id).0 (own_key s)))
unfolding index_spans
index-own [] by_id s e = absurd e
index-own (t ∷ ts) by_id s (inl p) =
    index-keeps ts (push_span (own_key t) t by_id) (own_key s) s (rw p (push-own t by_id))
index-own (t ∷ ts) by_id s (inr e) = index-own ts (push_span (own_key t) t by_id) s e

pub require-holds :
    (b : Bool) (location message : String) → require b location message ≡ [] → b ≡ true
require-holds b location message h = ground arith

index_spans-cons :
    (t : TraceSpan) (ts : List TraceSpan) (by_id : TraceIndex)
    → (index_spans (t ∷ ts) by_id).1 ≡ []
    → (is_hex_id t.span_id 16 ≡ true) × ((index_spans ts (push_span (own_key t) t by_id)).1 ≡ [])
unfolding index_spans
index_spans-cons t ts by_id h = ground arith

pub index-hex :
    (spans : List TraceSpan) (by_id : TraceIndex) (s : TraceSpan)
    → (index_spans spans by_id).1 ≡ []
    → Elem s spans
    → is_hex_id s.span_id 16 ≡ true
index-hex [] by_id s h e = absurd e
index-hex (t ∷ ts) by_id s h (inl p) = rw p (index_spans-cons t ts by_id h).0
index-hex (t ∷ ts) by_id s h (inr e) =
    index-hex ts (push_span (own_key t) t by_id) s (index_spans-cons t ts by_id h).1 e

pub check_all-Elem :
    (by_id : TraceIndex) (spans : List TraceSpan) (s : TraceSpan)
    → check_all by_id spans ≡ []
    → Elem s spans
    → check_semantics by_id s ≡ []
unfolding check_all
check_all-Elem by_id [] s h e = absurd e
check_all-Elem by_id (t ∷ ts) s h (inl p) = rw p (append-eq-nil _ _ h).0
check_all-Elem by_id (t ∷ ts) s h (inr e) = check_all-Elem by_id ts s (append-eq-nil _ _ h).1 e

pub check_semantics-role :
    (by_id : TraceIndex) (s : TraceSpan)
    → check_semantics by_id s ≡ []
    → check_span_role s (parse_span_role s.name) (role_of (parent_of by_id s)) ≡ []
unfolding check_semantics
check_semantics-role by_id s h = (append-eq-nil _ _ (append-eq-nil _ _ (append-eq-nil _ _ h).1).1).0

-- The parent that the index finds is the one that the span names.
parent_unique :
    (bucket : List TraceSpan) (p : TraceSpan)
    → Elem p bucket
    → is_run_role (role_of (single bucket)) ≡ true
    → is_run_role (parse_span_role p.name) ≡ true
parent_unique [] p e h = absurd e
parent_unique (q ∷ []) p (inl same) h = rw same h
parent_unique (q ∷ []) p (inr e) h = absurd e
parent_unique (q ∷ r ∷ rs) p e h = absurd (ground arith)

-- The spans that the parser keeps: `CTSC_SPANS`.
abbrev pub is_ctsc : TraceSpan → Bool
is_ctsc s =
    str_eq s.name run_span
    || (str_eq s.name scenario_span || (str_eq s.name op_span || str_eq s.name parallel_span))

pub run-parent :
    (s : TraceSpan) (parent_role : SpanRole)
    → str_eq s.name run_span ≡ true
    → check_span_role s (parse_span_role s.name) parent_role ≡ []
    → str_eq s.parent_span_id "" ≡ true
unfolding parse_span_role check_span_role
run-parent s parent_role n h =
    let checks : check_span_role s SpanRole.run parent_role ≡ [] = rw n at h in
    require-holds _ _ _ (append-eq-nil _ _ (append-eq-nil _ _ checks).1).0

pub scenario-parent :
    (s : TraceSpan) (parent_role : SpanRole)
    → str_eq s.name scenario_span ≡ true
    → check_span_role s (parse_span_role s.name) parent_role ≡ []
    → is_run_role parent_role ≡ true
unfolding parse_span_role check_span_role
scenario-parent s parent_role n h =
    let checks : check_span_role s SpanRole.scenario parent_role ≡ [] =
      rw (eq_excludes s.name scenario_span run_span n refl, n) at h in
    require-holds _ _ _ (append-eq-nil _ _ (append-eq-nil _ _ checks).1).0

role-run : (s : TraceSpan) → is_run_role (parse_span_role s.name) ≡ is_run s
unfolding parse_span_role
role-run s = ground arith

pub child-parent_key : (p c : TraceSpan) → is_child p c ≡ true → own_key p ≡ parent_key c
child-parent_key p c h =
    ground (arith, eq_iff p.trace_id c.trace_id, eq_iff p.span_id c.parent_span_id)

pub hex-empty : (s : String) → str_eq s "" ≡ true → is_hex_id s 16 ≡ true → true ≡ false
unfolding is_hex_id
hex-empty s e h = let wrong : is_hex_id "" 16 ≡ true = rw ((eq_iff s "").0 e) at h in ground arith

module _ (spans : List TraceSpan) (ctsc : All (λ s. is_ctsc s ≡ true) spans) where
  nested-lem :
      (index_spans spans []).1 ≡ []
      → check_all (index_spans spans []).0 spans ≡ []
      → (p c : TraceSpan) → Elem p spans
      → Elem c spans
      → is_child p c ≡ true
      → is_run p ≡ false
      → is_branch c ≡ true
  nested-lem ids checks p c ep ec child above =
      let by_id = (index_spans spans []).0 in
      let own = check_semantics-role by_id c (check_all-Elem by_id spans c checks ec) in
      let kept = All-Elem (λ s. is_ctsc s ≡ true) c spans ctsc ec in
      elim (Bool-cases (str_eq c.name run_span)) [
        | inl run ↦ absurd (
            ground (
              arith,
              hex-empty p.span_id
                  (ground (
                    arith,
                    run-parent c (role_of (parent_of by_id c)) run own,
                    eq_iff p.span_id c.parent_span_id,
                  ))
                  (index-hex spans [] p ids ep),
            ))
        | inr other ↦ elim (Bool-cases (str_eq c.name scenario_span)) [
          | inl scenario ↦
              let found : Elem p (or_empty (get by_id (parent_key c))) =
                rw (← child-parent_key p c child) (index-own spans [] p ep) in
              absurd (
                ground (
                  arith,
                  role-run p,
                  parent_unique _ p found
                      (scenario-parent c (role_of (parent_of by_id c)) scenario own),
                ))
          | inr branch ↦ ground arith
        ]
      ]

pub semantics-parts :
    (spans : List TraceSpan)
    → validate_semantics spans ≡ some []
    → ((index_spans spans []).1 ≡ []) × (check_all (index_spans spans []).0 spans ≡ [])
unfolding validate_semantics
semantics-parts spans h =
    let by_id = (index_spans spans []).0 in
    elim (Option-cases (validate_ancestry (suc (length spans)) spans by_id)) [
      | inl ran_out ↦ absurd (ground arith)
      | inr (ancestry, found) ↦
          let all : (index_spans spans []).1 ++ (ancestry ++ check_all by_id spans) ≡ [] =
            ground arith in
          let (ids, rest) = append-eq-nil _ _ all in (ids, (append-eq-nil ancestry _ rest).1)
    ]

-- A document of CTSC spans in which semantic validation finds no issue is nested.
pub validate_semantics-IsNested :
    (document : TraceDocument)
    → All (λ s. is_ctsc s ≡ true) document.spans
    → validate_semantics document.spans ≡ some []
    → IsNested document
validate_semantics-IsNested document ctsc h =
    let spans = document.spans in
    let (ids, checks) = semantics-parts spans h in
    record { branch = λ p c ep ec. nested-lem spans ctsc ids checks p c ep ec }
