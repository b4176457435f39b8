-- ===== src/Compare/Children/Identities.antt =====
-- The map from semantic identities to the branches of a parallel span.
use specgate.Prelude.{
  String, Bool, true, false, ◌||◌, List, [], ◌∷◌, Option, none, some, ◌≡◌, refl, inl, inr, arith,
  if◌then◌else◌, Bool-cases, any, not, find, ◌∙◌,
}
use specgate.Prelude.Order.{get, insert, contains_key}
use specgate.Prelude.Order.Laws.{get-insert, same_key, same_key-eq, same_key_refl}
use specgate.Model.{TraceSpan}
use specgate.Render.{Format}
use specgate.Linked.Value.Parts.{is_some}
use specgate.Compare.Children.{
  SpanIdentity, identity_order, span_identity, IdentityMap, insert_identities, identity_map,
}

-- No two spans have the same identity.
abbrev pub repeats : SpanIdentity → List TraceSpan → Bool
repeats identity spans = any (λ s. same_key identity (span_identity s)) spans

abbrev pub ambiguous_spans : List TraceSpan → Bool
ambiguous_spans [] = false
ambiguous_spans (s ∷ spans) = repeats (span_identity s) spans || ambiguous_spans spans

-- Whether a span's identity is known already.
abbrev clashes : IdentityMap → List TraceSpan → Bool
clashes m spans = any (λ s. contains_key m (span_identity s)) spans

contains_key-insert :
    (key j : SpanIdentity) (v : TraceSpan) (m : IdentityMap)
    → contains_key (insert key v m) j ≡ (same_key key j || contains_key m j)
contains_key-insert key j v m =
    ground (arith, get-insert key j v m, same_key-eq key j, same_key-eq j key, same_key_refl j)

clashes-insert :
    (key : SpanIdentity) (v : TraceSpan) (m : IdentityMap) (spans : List TraceSpan)
    → clashes (insert key v m) spans ≡ (repeats key spans || clashes m spans)
clashes-insert key v m [] = refl
clashes-insert key v m (s ∷ spans) =
    ground (arith, clashes-insert key v m spans, contains_key-insert key (span_identity s) v m)

abbrev with_identity : SpanIdentity → List TraceSpan → Option TraceSpan
with_identity identity spans = find (λ s. same_key identity (span_identity s)) spans

abbrev or_else : Option TraceSpan → Option TraceSpan → Option TraceSpan
or_else none o = o
or_else (some s) o = some s

with_identity-none :
    (identity : SpanIdentity) (spans : List TraceSpan)
    → repeats identity spans ≡ false
    → with_identity identity spans ≡ none
with_identity-none identity [] h = refl
with_identity-none identity (s ∷ spans) h = ground (arith, with_identity-none identity spans)

-- A span is inserted before those after it, none of which has its identity.
insert-find :
    (identity : SpanIdentity) (s : TraceSpan) (spans : List TraceSpan) (m : IdentityMap)
    → repeats (span_identity s) spans ≡ false
    → or_else (with_identity identity spans) (get (insert (span_identity s) s m) identity)
      ≡ or_else (with_identity identity (s ∷ spans)) (get m identity)
insert-find identity s spans m h = elim (Bool-cases (same_key identity (span_identity s))) [
  | inl same ↦
      rw (get-insert, same)
        (rw
          (with_identity-none identity spans
            (rw (← same_key-eq identity (span_identity s) same) at h))
          refl)
  | inr differ ↦ rw (get-insert, differ) refl
]

module _ (fmt : Format) (side path : String) where
  insert_identities-ambiguous :
      (spans : List TraceSpan) (m : IdentityMap) (b : Bool)
      → (insert_identities fmt side path spans m b).1
        ≡ (b || (clashes m spans || ambiguous_spans spans))
  unfolding insert_identities
  insert_identities-ambiguous [] m b = ground arith
  insert_identities-ambiguous (s ∷ spans) m b = ground (
    arith,
    insert_identities-ambiguous spans (insert (span_identity s) s m)
        (if contains_key m (span_identity s) then true else b),
    clashes-insert (span_identity s) s m spans,
  )

  insert_identities-get :
      (spans : List TraceSpan) (m : IdentityMap) (b : Bool) (identity : SpanIdentity)
      → ambiguous_spans spans ≡ false
      → get (insert_identities fmt side path spans m b).0 identity
        ≡ or_else (with_identity identity spans) (get m identity)
  unfolding insert_identities
  insert_identities-get [] m b identity h = refl
  insert_identities-get (s ∷ spans) m b identity h =
      insert_identities-get spans (insert (span_identity s) s m)
        (if contains_key m (span_identity s) then true else b) identity (ground arith)
      ∙ insert-find identity s spans m (ground arith)

  no_clashes : (spans : List TraceSpan) → clashes [] spans ≡ false
  no_clashes [] = refl
  no_clashes (s ∷ spans) = no_clashes spans

  or_else-none : (o : Option TraceSpan) → or_else o none ≡ o
  or_else-none none = refl
  or_else-none (some s) = refl

  -- The branches of a parallel span have an identity map exactly when no two of them have the
  -- same identity, and the map then answers each identity with the branch that has it, and with
  -- none where no branch has it.
  pub identity_map-find :
      (spans : List TraceSpan)
      → (is_some (identity_map fmt side path spans).0 ≡ not (ambiguous_spans spans))
        × ((m : IdentityMap)
            → (identity_map fmt side path spans).0 ≡ some m
            → (identity : SpanIdentity)
            → get m identity ≡ find (λ s. same_key identity (span_identity s)) spans)
  unfolding identity_map
  identity_map-find spans =
      let found = insert_identities-ambiguous spans [] false in
      let clear = no_clashes spans in
      (
        ground arith,
        λ m h identity.
            let plain : ambiguous_spans spans ≡ false = ground arith in
            let same : (insert_identities fmt side path spans [] false).0 ≡ m = ground arith in
            rw (← same) (
              insert_identities-get spans [] false identity plain
              ∙ or_else-none (with_identity identity spans)),
      )
