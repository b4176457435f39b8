-- ===== src/Capture/Encoding/Hex.antt =====
-- The text of a span id, read back: sixteen digits that name one number.
use specgate.Prelude.{
  Bool, true, false, length, length-append, all, ◌==◌, Bool-cases, inl, inr, ℕ, zero, suc, ◌+◌, ◌-◌,
  ◌*◌, ◌/◌, ◌%◌, ◌<◌, List, [], ◌∷◌, ◌++◌, ◌≡◌, ◌∙◌, refl, sym, ap, arith, ltb, if◌then◌else◌,
}
use specgate.Capture.Wire.{ok, wire_span_id, is_hex, is_nonzero}
use specgate.Capture.Encoding.{checked_id, hex_code, hex_text, span_id}

-- The value of a lower case hexadecimal digit.
abbrev digit_value : ℕ → ℕ
digit_value code = if ltb code b'a' then code - b'0' else code - b'a' + 10

-- The value of a text of digits that follows digits of value `above`.
abbrev pub hex_value_from : ℕ → List ℕ → ℕ
hex_value_from above [] = above
hex_value_from above (code ∷ codes) = hex_value_from (above * 16 + digit_value code) codes

abbrev pub hex_value : List ℕ → ℕ
hex_value codes = hex_value_from 0 codes

-- The number of texts of `width` digits.
abbrev pub texts : ℕ → ℕ
texts zero = 1
texts (suc width) = 16 * texts width

hex_value_from-append :
    (above : ℕ) (xs : List ℕ) (code : ℕ)
    → hex_value_from above (xs ++ code ∷ []) ≡ hex_value_from above xs * 16 + digit_value code
hex_value_from-append above [] code = refl
hex_value_from-append above (x ∷ xs) code =
    hex_value_from-append (above * 16 + digit_value x) xs code

digit_value-hex_code : (d : ℕ) → d < 16 → digit_value (hex_code d) ≡ d
digit_value-hex_code d h = ground arith

hex_value-hex_text : (width n : ℕ) → n < texts width → hex_value (hex_text width n) ≡ n
unfolding hex_text
hex_value-hex_text zero n h = omega arith
hex_value-hex_text (suc width) n h =
    let above = hex_value-hex_text width (n / 16) (omega arith) in
    let last = digit_value-hex_code (n % 16) (omega arith) in
    hex_value_from-append 0 (hex_text width (n / 16)) (hex_code (n % 16))
    ∙ rw (above, last) (omega arith)

pub hex_value-span_id : (n : ℕ) → n < 18446744073709551616 → hex_value (span_id n) ≡ n
unfolding span_id
hex_value-span_id n h = hex_value-hex_text 16 n (ground arith)

pub span_id-injective :
    (n m : ℕ) → n < 18446744073709551616 → m < 18446744073709551616 → span_id n ≡ span_id m → n ≡ m
span_id-injective n m hn hm same =
    sym (hex_value-span_id n hn) ∙ ap hex_value same ∙ hex_value-span_id m hm

length-hex_text : (width n : ℕ) → length (hex_text width n) ≡ width
unfolding hex_text
length-hex_text zero n = refl
length-hex_text (suc width) n = ground (
  arith,
  length-append (hex_text width (n / 16)) (hex_code (n % 16) ∷ []),
  length-hex_text width (n / 16),
)

all_append_one :
    (p : ℕ → Bool) (xs : List ℕ) (x : ℕ)
    → all p xs ≡ true
    → p x ≡ true
    → all p (xs ++ x ∷ []) ≡ true
all_append_one p [] x h k = ground arith
all_append_one p (y ∷ ys) x h k = ground (arith, all_append_one p ys x)

is_hex-hex_code : (d : ℕ) → d < 16 → is_hex (hex_code d) ≡ true
is_hex-hex_code d h = ground arith

hex_text-all : (width n : ℕ) → all is_hex (hex_text width n) ≡ true
unfolding hex_text
hex_text-all zero n = refl
hex_text-all (suc width) n =
    all_append_one is_hex (hex_text width (n / 16)) (hex_code (n % 16))
      (hex_text-all width (n / 16)) (is_hex-hex_code (n % 16) (omega arith))

zeros_value : (codes : List ℕ) → is_nonzero codes ≡ false → hex_value codes ≡ 0
zeros_value [] h = refl
zeros_value (c ∷ cs) h =
    let zero_digit : c ≡ b'0' = ground arith in
    let later : is_nonzero cs ≡ false = ground arith in rw zero_digit (zeros_value cs later)

pub checked_id_lem : (n : ℕ) → 0 < n → n < 18446744073709551616 → checked_id n ≡ ok (span_id n)
unfolding checked_id wire_span_id span_id
checked_id_lem n positive fits =
    let value = hex_value-span_id n fits in
    let nonzero : is_nonzero (span_id n) ≡ true = elim (Bool-cases (is_nonzero (span_id n))) [
      | inl some_digit ↦ some_digit
      | inr zeros ↦ let z = zeros_value (span_id n) zeros in absurd (omega arith)
    ] in
    let other : (n == 0) ≡ false = ground arith in
    rw (other, length-hex_text 16 n, hex_text-all 16 n, nonzero) refl

-- For every number from 1 to 2^64 - 1, `checked_id` returns a text of sixteen characters, which the
-- check of wire span ids accepts and which read as a hexadecimal number is that number again.
pub checked_id-hex_value :
    (n : ℕ)
    → 0 < n
    → n < 18446744073709551616
    → (id : List ℕ) × (checked_id n ≡ ok id) × (length id ≡ 16) × (hex_value id ≡ n)
unfolding span_id
checked_id-hex_value n positive fits =
    (span_id n, checked_id_lem n positive fits, length-hex_text 16 n, hex_value-span_id n fits)
