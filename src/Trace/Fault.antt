-- ===== src/Trace/Fault.antt =====
-- fault.rs: `is_fault`, the grammar of extension fault names.
pub mod Grammar
use specgate.Prelude.{
  ℕ, String, Bool, true, false, not, ◌&&◌, ◌||◌, List, [], ◌∷◌, ◌==◌, if◌then◌else◌, all, is_empty,
}
use specgate.Prelude.Text.{codes, is_digit, is_lower, str_eq}

-- `str::split('.')`: a segment for each piece, also an empty one.
abbrev pub add_to_first : ℕ → List (List ℕ) → List (List ℕ)
add_to_first c [] = (c ∷ []) ∷ []
add_to_first c (s ∷ ss) = (c ∷ s) ∷ ss

unfoldable pub split_dots : List ℕ → List (List ℕ)
split_dots [] = [] ∷ []
split_dots (c ∷ cs) = if c == b'.' then [] ∷ split_dots cs else add_to_first c (split_dots cs)

abbrev pub same_codes : List ℕ → List ℕ → Bool
same_codes [] [] = true
same_codes (x ∷ xs) (y ∷ ys) = (x == y) && same_codes xs ys
same_codes _ _ = false

abbrev pub is_name_byte : ℕ → Bool
is_name_byte c = is_lower c || is_digit c

abbrev pub is_segment_byte : ℕ → Bool
is_segment_byte c = is_lower c || (is_digit c || ((c == b'_') || (c == b'-')))

-- The first segment: nonempty, a lower-case letter, then letters and digits.
unfoldable pub valid_first : List ℕ → Bool
valid_first [] = false
valid_first (c ∷ cs) =
    not (same_codes (c ∷ cs) (codes "conformance")) && (is_lower c && all is_name_byte cs)

unfoldable pub valid_segment : List ℕ → Bool
valid_segment segment = not (is_empty segment) && all is_segment_byte segment

unfoldable pub valid_segments : List (List ℕ) → Bool
unfolding valid_first valid_segment
valid_segments [] = false
valid_segments (first ∷ remaining) =
    valid_first first && (not (is_empty remaining) && all valid_segment remaining)

unfoldable pub is_fault : String → Bool
unfolding split_dots valid_segments
is_fault name = valid_segments (split_dots (codes name))
