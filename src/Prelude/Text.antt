-- ===== src/Prelude/Text.antt =====
-- Texts: equality, concatenation, decimal numbers, and the characters of a text.
use Prim.Native.Nat.{ℕ, zero, suc, ◌/◌, ◌%◌}
use Prim.Native.Char.{code}
use Prim.Native.String.{String}
use Prim.Native.String
use mathlib.Core.Path.{◌≡◌, refl}
use mathlib.Core.Bool.{Bool, true, false, Bool-discrete, ◌&&◌}
use mathlib.Core.List.{List, [], ◌∷◌}
use text.Mathlib.Text
use text.Mathlib.TextEquality.{eq_iff}
use specgate.Prelude.Tests.{◌==◌, leb, if◌then◌else◌}
use specgate.Prelude.Int.{ℤ, pos, negsuc}

abbrev pub str_eq : String → String → Bool
str_eq = Text.◌==◌

-- `format!`, its pieces in order
abbrev pub format : List String → String
format [] = ""
format (s ∷ rest) = String.◌++◌ s (format rest)

-- The code points of a text.
abbrev pub codes : String → List ℕ
codes String.[] = []
codes (String.◌∷◌ c s) = code c ∷ codes s

abbrev pub is_digit : ℕ → Bool
is_digit c = leb b'0' c && leb c b'9'

abbrev pub is_lower : ℕ → Bool
is_lower c = leb b'a' c && leb c b'z'

digit : ℕ → String
digit n =
    if n == 0
    then "0"
    else if n == 1
    then "1"
    else if n == 2
    then "2"
    else if n == 3
    then "3"
    else if n == 4
    then "4"
    else if n == 5
    then "5"
    else if n == 6
    then "6"
    else if n == 7
    then "7"
    else if n == 8
    then "8"
    else "9"

-- A number below 2 ^ fuel is printed whole.
digits : ℕ → ℕ → String → String
digits zero n acc = acc
digits (suc fuel) n acc =
    let rest = digits fuel (n / 10) (String.◌++◌ (digit (n % 10)) acc) in
    if leb n 9 then String.◌++◌ (digit n) acc else rest

-- The decimal text of a number.
pub show_nat : ℕ → String
unfolding digits digit
show_nat n = digits (suc n) n ""

unfoldable pub show_int : ℤ → String
unfolding show_nat
show_int (pos n) = show_nat n
show_int (negsuc n) = String.◌++◌ "-" (show_nat (suc n))

show_twelve : show_int (negsuc 11) ≡ "-12"
unfolding show_int
show_twelve = refl

unfoldable pub String-discrete : Discrete String
String-discrete s t = elim (Bool-discrete (str_eq s t) true) [
  | yes p ↦ yes ((eq_iff s t).0 p)
  | no n ↦ no (λ p. n ((eq_iff s t).1 p))
]

-- A text that equals one text does not equal another.
pub eq_excludes : (s a b : String) → str_eq s a ≡ true → str_eq a b ≡ false → str_eq s b ≡ false
eq_excludes s a b h d = rw ((eq_iff s a).0 h) d
