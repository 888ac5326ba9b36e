-- ===== src/Base/Int.antt =====
-- The values of a C `int`: signed integers over the native numbers, with the order and the tests.
use Prim.Native.Nat.{ℕ, suc, ◌+◌, ◌-◌, ◌*◌, ◌^◌, ◌≤◌, ◌<◌}
use mathlib.Core.Path.{◌≡◌, refl}
use mathlib.Core.Option.{Option, none, some}
use mathlib.Core.List.{List, [], ◌∷◌, ◌++◌}
use native.Mathlib.Omega.{arith}
use mathlib.Core.Bool.{Bool, true, false, ◌&&◌}
use cn.Base.Tests.{ltb, leb, ◌==◌, if◌then◌else◌}

-- `negsuc n` is -(n + 1).
pub data ℤ : Type 0 where
  pos : ℕ → ℤ
  negsuc : ℕ → ℤ

abbrev pub pos_part : ℤ → ℕ
pos_part (pos n) = n
pos_part (negsuc n) = 0

abbrev pub neg_part : ℤ → ℕ
neg_part (pos n) = 0
neg_part (negsuc n) = suc n

infix 50 ◌≤ℤ◌ ◌<ℤ◌
abbrev pub ◌≤ℤ◌ : ℤ → ℤ → Type 0
a ≤ℤ b = pos_part a + neg_part b ≤ pos_part b + neg_part a

abbrev pub ◌<ℤ◌ : ℤ → ℤ → Type 0
a <ℤ b = pos_part a + neg_part b < pos_part b + neg_part a

abbrev pub ltb_ℤ : ℤ → ℤ → Bool
ltb_ℤ a b = ltb (pos_part a + neg_part b) (pos_part b + neg_part a)

abbrev pub is_negative : ℤ → Bool
is_negative (pos n) = false
is_negative (negsuc n) = true

abbrev pub eqb_ℤ : ℤ → ℤ → Bool
eqb_ℤ a b = (pos_part a == pos_part b) && (neg_part a == neg_part b)

abbrev pub bit : Bool → ℕ
bit true = 1
bit false = 0

-- How often a value stands in a list.
abbrev pub occurrences : ℤ → List ℤ → ℕ
occurrences x [] = 0
occurrences x (y ∷ ys) = bit (eqb_ℤ x y) + occurrences x ys

pub occurrences-append :
    (x : ℤ) (a b : List ℤ) → occurrences x (a ++ b) ≡ occurrences x a + occurrences x b
occurrences-append x [] b = omega arith
occurrences-append x (y ∷ a) b = omega (arith, occurrences-append x a b)

-- a - b, as an integer.
abbrev pub sub_ℕ : ℕ → ℕ → ℤ
sub_ℕ a b = if leb b a then pos (a - b) else negsuc (b - a - 1)

infixl 65 ◌+ℤ◌
infixl 70 ◌*ℤ◌
unfoldable pub ◌+ℤ◌ : ℤ → ℤ → ℤ
a +ℤ b = sub_ℕ (pos_part a + pos_part b) (neg_part a + neg_part b)

unfoldable pub ◌*ℤ◌ : ℤ → ℤ → ℤ
a *ℤ b =
    sub_ℕ (pos_part a * pos_part b + neg_part a * neg_part b)
      (pos_part a * neg_part b + neg_part a * pos_part b)

-- The range of an `int` of 32 bits.
abbrev pub in_int : ℤ → Bool
in_int (pos n) = ltb n (2 ^ 31)
in_int (negsuc n) = ltb n (2 ^ 31)

-- `a+b` of two `int`s: a sum out of range has no result.
unfoldable pub add_int : ℤ → ℤ → Option ℤ
unfolding ◌+ℤ◌
add_int a b = let sum = a +ℤ b in if in_int sum then some sum else none

pub add_int-fits : (a b : ℤ) → in_int (a +ℤ b) ≡ true → add_int a b ≡ some (a +ℤ b)
unfolding add_int
add_int-fits a b h = rw h refl

-- The sums of `total` and the first ones of the numbers are all in the range of an `int`.
abbrev pub SumsFit : ℤ → List ℤ → Type 0
SumsFit total [] = Unit
SumsFit total (x ∷ xs) = (in_int (total +ℤ x) ≡ true) × SumsFit (total +ℤ x) xs

pub +ℤ_assoc : (a b c : ℤ) → a +ℤ b +ℤ c ≡ a +ℤ (b +ℤ c)
unfolding ◌+ℤ◌
+ℤ_assoc a b c = ground arith

pub +ℤ_zero : (a : ℤ) → a +ℤ pos 0 ≡ a
unfolding ◌+ℤ◌
+ℤ_zero a = ground arith

pub +ℤ_from_zero : (a : ℤ) → pos 0 +ℤ a ≡ a
unfolding ◌+ℤ◌
+ℤ_from_zero a = ground arith
