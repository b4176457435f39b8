-- ===== src/Trace/Fault/Grammar.antt =====
-- The names that `is_fault` accepts, as a grammar.
use specgate.Prelude.{
  ℕ, String, Bool, true, false, List, [], ◌∷◌, ◌++◌, ◌≡◌, ◌≢◌, ◌↔◌, refl, sym, arith, ◌==◌, all,
  Bool-cases, inl, inr,
}
use specgate.Prelude.Text.{codes, is_lower}
use specgate.Trace.Fault.{
  add_to_first, split_dots, same_codes, is_name_byte, is_segment_byte, valid_first, valid_segment,
  valid_segments, is_fault,
}

-- The segments with a dot between each two.
abbrev pub join_dots : List (List ℕ) → List ℕ
join_dots [] = []
join_dots (s ∷ []) = s
join_dots (s ∷ t ∷ ts) = s ++ (b'.' ∷ join_dots (t ∷ ts))

abbrev pub All {ℓ κ} : {A : Type ℓ} → (A → Type κ) → List A → Type κ
All P [] = Unit
All P (x ∷ xs) = P x × All P xs

-- The first segment: not the reserved namespace, a lower-case letter, then lower-case letters
-- and digits.
pub record IsFirst (s : List ℕ) : Type 0 where
  pub head : ℕ
  pub tail : List ℕ
  pub split : s ≡ head ∷ tail
  pub lower : is_lower head ≡ true
  pub name : All (λ c. is_name_byte c ≡ true) tail
  pub unreserved : s ≢ codes "conformance"

-- A later segment: not empty, lower-case letters, digits, `_` and `-`.
pub record IsSegment (s : List ℕ) : Type 0 where
  pub nonempty : s ≢ []
  pub bytes : All (λ c. is_segment_byte c ≡ true) s

-- At least two segments.
pub record IsFaultName (text : List ℕ) : Type 0 where
  pub first : List ℕ
  pub second : List ℕ
  pub remaining : List (List ℕ)
  pub joined : text ≡ join_dots (first ∷ second ∷ remaining)
  pub is_first : IsFirst first
  pub is_second : IsSegment second
  pub are_segments : All IsSegment remaining

split-ne-nil : (cs : List ℕ) → split_dots cs ≢ []
unfolding split_dots
split-ne-nil [] = ground arith
split-ne-nil (c ∷ cs) = ground arith

join-add : (c : ℕ) (ss : List (List ℕ)) → join_dots (add_to_first c ss) ≡ c ∷ join_dots ss
join-add c [] = refl
join-add c (s ∷ []) = refl
join-add c (s ∷ t ∷ ts) = refl

join-nil : (ss : List (List ℕ)) → ss ≢ [] → join_dots ([] ∷ ss) ≡ b'.' ∷ join_dots ss
join-nil [] h = absurd (h refl)
join-nil (t ∷ ts) h = refl

-- Splitting is undone by joining.
join-split : (cs : List ℕ) → join_dots (split_dots cs) ≡ cs
unfolding split_dots
join-split [] = refl
join-split (c ∷ cs) = elim (Bool-cases (c == b'.')) [
  | inl dot ↦
      rw dot (ground (arith, join-nil (split_dots cs) (split-ne-nil cs), join-split cs, dot))
  | inr other ↦ rw other (ground (arith, join-add c (split_dots cs), join-split cs))
]

abbrev NoDot : List ℕ → Type 0
NoDot s = All (λ c. (c == b'.') ≡ false) s

split-NoDot : (s : List ℕ) → NoDot s → split_dots s ≡ s ∷ []
unfolding split_dots
split-NoDot [] h = refl
split-NoDot (c ∷ s) h = rw (h.0) (rw (split-NoDot s h.1) refl)

split-append : (s cs : List ℕ) → NoDot s → split_dots (s ++ (b'.' ∷ cs)) ≡ s ∷ split_dots cs
unfolding split_dots
split-append [] cs h = refl
split-append (c ∷ s) cs h = rw (h.0) (rw (split-append s cs h.1) refl)

split-join :
    (s : List ℕ) (ss : List (List ℕ))
    → NoDot s
    → All NoDot ss
    → split_dots (join_dots (s ∷ ss)) ≡ s ∷ ss
split-join s [] h hs = split-NoDot s h
split-join s (t ∷ ts) h hs =
    rw (split-append s (join_dots (t ∷ ts)) h) (rw (split-join t ts hs.0 hs.1) refl)

name_byte-NoDot : (s : List ℕ) → All (λ c. is_name_byte c ≡ true) s → NoDot s
name_byte-NoDot [] h = tt
name_byte-NoDot (c ∷ s) h = (ground (arith, h.0), name_byte-NoDot s h.1)

segment_byte-NoDot : (s : List ℕ) → All (λ c. is_segment_byte c ≡ true) s → NoDot s
segment_byte-NoDot [] h = tt
segment_byte-NoDot (c ∷ s) h = (ground (arith, h.0), segment_byte-NoDot s h.1)

IsFirst-NoDot : (s : List ℕ) → IsFirst s → NoDot s
IsFirst-NoDot s f = rw (f.split) (ground (arith, f.lower), name_byte-NoDot f.tail f.name)

All-NoDot : (ss : List (List ℕ)) → All IsSegment ss → All NoDot ss
All-NoDot [] h = tt
All-NoDot (s ∷ ss) h = (segment_byte-NoDot s h.0.bytes, All-NoDot ss h.1)

all→All : (p : ℕ → Bool) (s : List ℕ) → all p s ≡ true → All (λ c. p c ≡ true) s
all→All p [] h = tt
all→All p (c ∷ s) h = (ground arith, all→All p s (ground arith))

All→all : (p : ℕ → Bool) (s : List ℕ) → All (λ c. p c ≡ true) s → all p s ≡ true
All→all p [] h = refl
All→all p (c ∷ s) h = rw (h.0) (All→all p s h.1)

same_codes-eq : (s t : List ℕ) → same_codes s t ≡ true → s ≡ t
same_codes-eq [] [] h = refl
same_codes-eq (x ∷ s) (y ∷ t) h = ground (arith, same_codes-eq s t)
same_codes-eq _ _ h = cc

same_codes_refl : (s : List ℕ) → same_codes s s ≡ true
same_codes_refl [] = refl
same_codes_refl (x ∷ s) = ground (arith, same_codes_refl s)

same_codes-eq_true : (s t : List ℕ) → s ≡ t → same_codes s t ≡ true
same_codes-eq_true s t h = rw h (same_codes_refl t)

valid_first-IsFirst : (s : List ℕ) → valid_first s ≡ true → IsFirst s
unfolding valid_first
valid_first-IsFirst [] h = absurd (cc)
valid_first-IsFirst (c ∷ s) h = record {
  head = c;
  tail = s;
  split = refl;
  lower = ground arith;
  name = all→All is_name_byte s (ground arith);
  unreserved = λ e. ground (arith, same_codes-eq_true (c ∷ s) (codes "conformance") e);
}

IsFirst-valid : (s : List ℕ) → IsFirst s → valid_first s ≡ true
unfolding valid_first
IsFirst-valid [] f = ground (arith, f.split)
IsFirst-valid (c ∷ s) f =
    let name = All→all is_name_byte f.tail f.name in
    elim (Bool-cases (same_codes (c ∷ s) (codes "conformance"))) [
      | inl same ↦ absurd (f.unreserved (same_codes-eq (c ∷ s) (codes "conformance") same))
      | inr differ ↦ rw differ (ground (arith, f.split, f.lower, name))
    ]

valid_segment-IsSegment : (s : List ℕ) → valid_segment s ≡ true → IsSegment s
unfolding valid_segment
valid_segment-IsSegment [] h = absurd (cc)
valid_segment-IsSegment (c ∷ s) h = record {
  nonempty = λ e. ground arith;
  bytes = all→All is_segment_byte (c ∷ s) (ground arith);
}

IsSegment-valid : (s : List ℕ) → IsSegment s → valid_segment s ≡ true
unfolding valid_segment
IsSegment-valid [] h = absurd (h.nonempty refl)
IsSegment-valid (c ∷ s) h = All→all is_segment_byte (c ∷ s) h.bytes

segments_valid : (ss : List (List ℕ)) → all valid_segment ss ≡ true → All IsSegment ss
segments_valid [] h = tt
segments_valid (s ∷ ss) h =
    (valid_segment-IsSegment s (ground arith), segments_valid ss (ground arith))

valid_of_segments : (ss : List (List ℕ)) → All IsSegment ss → all valid_segment ss ≡ true
valid_of_segments [] h = refl
valid_of_segments (s ∷ ss) h = rw (IsSegment-valid s h.0) (valid_of_segments ss h.1)

name_of_segments :
    (text : List ℕ) (ss : List (List ℕ))
    → join_dots ss ≡ text
    → valid_segments ss ≡ true
    → IsFaultName text
unfolding valid_segments
name_of_segments text [] j h = absurd (cc)
name_of_segments text (s ∷ []) j h = absurd (ground arith)
name_of_segments text (s ∷ t ∷ ts) j h = record {
  first = s;
  second = t;
  remaining = ts;
  joined = sym j;
  is_first = valid_first-IsFirst s (ground arith);
  is_second = valid_segment-IsSegment t (ground arith);
  are_segments = segments_valid ts (ground arith);
}

is_fault_of_name : (name : String) → IsFaultName (codes name) → is_fault name ≡ true
unfolding is_fault
is_fault_of_name name f = rw (f.joined) (
    rw
      (split-join f.first (f.second ∷ f.remaining) (IsFirst-NoDot f.first f.is_first)
        (segment_byte-NoDot f.second f.is_second.bytes, All-NoDot f.remaining f.are_segments))
      (rw (IsFirst-valid f.first f.is_first)
        (rw (IsSegment-valid f.second f.is_second) (valid_of_segments f.remaining f.are_segments))))

is_fault-IsFaultName : (name : String) → is_fault name ≡ true → IsFaultName (codes name)
unfolding is_fault
is_fault-IsFaultName name h =
    name_of_segments (codes name) (split_dots (codes name)) (join-split (codes name)) h

-- `is_fault` accepts a name exactly when the name is two or more segments joined by dots, of
-- which the first is a lower-case letter followed by lower-case letters and digits and is not
-- `conformance`, and each later one is not empty and has lower-case letters, digits, `_` and
-- `-` only.
pub is_fault_iff : (name : String) → (is_fault name ≡ true) ↔ IsFaultName (codes name)
is_fault_iff name = (is_fault-IsFaultName name, is_fault_of_name name)
