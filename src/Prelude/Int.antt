-- ===== src/Prelude/Int.antt =====
-- Signed integers, of which the source uses i64 and i128.
use Prim.Native.Nat.{ℕ, suc, ◌+◌, ◌-◌, ◌≤◌, compare, Ordering}
use mathlib.Core.Path.{◌≡◌, refl}
use mathlib.Core.Bool.{Bool, ◌&&◌}
use mathlib.Core.Option.{Option, none, some}
use native.Mathlib.Omega.{arith}
use specgate.Prelude.Tests.{ltb, leb, if◌then◌else◌}

-- `negsuc n` is -(n + 1).
pub data ℤ : Type 0 where
  pos : ℕ → ℤ
  negsuc : ℕ → ℤ

unfoldable pub compare_int : ℤ → ℤ → Ordering
compare_int (pos a) (pos b) = compare a b
compare_int (pos a) (negsuc b) = Ordering.gt
compare_int (negsuc a) (pos b) = Ordering.lt
compare_int (negsuc a) (negsuc b) = compare b a

abbrev pub pos_part : ℤ → ℕ
pos_part (pos n) = n
pos_part (negsuc n) = 0

abbrev pub neg_part : ℤ → ℕ
neg_part (pos n) = 0
neg_part (negsuc n) = suc n

-- a - b, as an integer.
abbrev pub sub_ℕ : ℕ → ℕ → ℤ
sub_ℕ a b = if leb b a then pos (a - b) else negsuc (b - a - 1)

infixl 65 ◌+ℤ◌ ◌-ℤ◌
infix 50 ◌≤ℤ◌
unfoldable pub ◌+ℤ◌ : ℤ → ℤ → ℤ
a +ℤ b = sub_ℕ (pos_part a + pos_part b) (neg_part a + neg_part b)

unfoldable pub ◌-ℤ◌ : ℤ → ℤ → ℤ
a -ℤ b = sub_ℕ (pos_part a + neg_part b) (neg_part a + pos_part b)

abbrev pub ◌≤ℤ◌ : ℤ → ℤ → Type 0
a ≤ℤ b = pos_part a + neg_part b ≤ pos_part b + neg_part a

pub +ℤ_parts :
    (a b : ℤ)
    → pos_part (a +ℤ b) + neg_part a + neg_part b ≡ neg_part (a +ℤ b) + pos_part a + pos_part b
unfolding ◌+ℤ◌
+ℤ_parts a b = ground arith

pub -ℤ_parts :
    (a b : ℤ)
    → pos_part (a -ℤ b) + neg_part a + pos_part b ≡ neg_part (a -ℤ b) + pos_part a + neg_part b
unfolding ◌-ℤ◌
-ℤ_parts a b = ground arith

-- The range of an i64, and its checked arithmetic.
unfoldable pub fits_i64 : ℤ → Bool
fits_i64 z = ltb (pos_part z) 9223372036854775808 && leb (neg_part z) 9223372036854775808

abbrev checked : ℤ → Option ℤ
checked z = if fits_i64 z then some z else none

unfoldable pub checked_add : ℤ → ℤ → Option ℤ
unfolding fits_i64 ◌+ℤ◌
checked_add a b = checked (a +ℤ b)

unfoldable pub checked_sub : ℤ → ℤ → Option ℤ
unfolding fits_i64 ◌-ℤ◌
checked_sub a b = checked (a -ℤ b)

pub checked_add-some : (a b c : ℤ) → checked_add a b ≡ some c → c ≡ a +ℤ b
unfolding checked_add
checked_add-some a b c h = ground arith

pub checked_sub-some : (a b c : ℤ) → checked_sub a b ≡ some c → c ≡ a -ℤ b
unfolding checked_sub
checked_sub-some a b c h = ground arith

sub_ℕ-eq : (a b c d : ℕ) → a + d ≡ c + b → sub_ℕ a b ≡ sub_ℕ c d
sub_ℕ-eq a b c d h = ground arith

-- A shift by `to - from` keeps the distance to the origin.
pub shift_distance :
    (value from to offset moved : ℤ)
    → offset ≡ to -ℤ from
    → value +ℤ offset ≡ moved
    → moved -ℤ to ≡ value -ℤ from
unfolding ◌-ℤ◌
shift_distance value from to offset moved h1 h2 =
    let o = -ℤ_parts to from in
    let m = +ℤ_parts value offset in
    sub_ℕ-eq (pos_part moved + neg_part to) (neg_part moved + pos_part to)
      (pos_part value + neg_part from) (neg_part value + pos_part from)
      (omega (arith, rw h2 at m, rw (← h1) at o))

-- What is not before `from` is not negative after a shift to a time from 0 on.
pub shift_pos :
    (value from : ℤ) (to : ℕ) (offset moved : ℤ)
    → offset ≡ pos to -ℤ from
    → value +ℤ offset ≡ moved
    → from ≤ℤ value
    → (n : ℕ) × (moved ≡ pos n)
shift_pos value from to offset (pos n) h1 h2 below = (n, refl)
shift_pos value from to offset (negsuc n) h1 h2 below =
    let o = -ℤ_parts (pos to) from in
    let m = +ℤ_parts value offset in absurd (omega (arith, rw h2 at m, rw (← h1) at o))
