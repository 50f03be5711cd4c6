-- ===== src/Prelude/Int.antt =====
-- Go's `int64`: signed integers with the wrap-around written out.
use Prim.Native.Nat.{ℕ, suc, ◌+◌, ◌-◌, ◌*◌, ◌%◌, ◌^◌, compare, Ordering}
use codex_balancer.Prelude.Tests.{ltb, leb, if◌then◌else◌}

-- `negsuc n` is -(n + 1).
pub data ℤ : Type 0 where
  pos : ℕ → ℤ
  negsuc : ℕ → ℤ

abbrev pub pos_part : ℤ → ℕ
pos_part (pos n) = n
pos_part (negsuc n) = 0

abbrev pub neg_part : ℤ → ℕ
neg_part (pos n) = 0
neg_part (negsuc n) = suc n

-- a - b, as an integer.
abbrev pub sub_ℕ : ℕ → ℕ → ℤ
sub_ℕ a b = if leb b a then pos (a - b) else negsuc (b - a - 1)

infixl 65 ◌+ℤ◌ ◌-ℤ◌
infixl 70 ◌*ℤ◌
unfoldable pub ◌+ℤ◌ : ℤ → ℤ → ℤ
a +ℤ b = sub_ℕ (pos_part a + pos_part b) (neg_part a + neg_part b)

unfoldable pub ◌-ℤ◌ : ℤ → ℤ → ℤ
a -ℤ b = sub_ℕ (pos_part a + neg_part b) (neg_part a + pos_part b)

unfoldable pub ◌*ℤ◌ : ℤ → ℤ → ℤ
a *ℤ b =
    sub_ℕ (pos_part a * pos_part b + neg_part a * neg_part b)
      (pos_part a * neg_part b + neg_part a * pos_part b)

abbrev pub int_compare : ℤ → ℤ → Ordering
int_compare (pos a) (pos b) = compare a b
int_compare (pos a) (negsuc b) = Ordering.gt
int_compare (negsuc a) (pos b) = Ordering.lt
int_compare (negsuc a) (negsuc b) = compare b a

abbrev word : ℕ
word = 2 ^ 64

-- The bit pattern of an integer in 64 bits, and the integer of a bit pattern.
unfoldable pub to_bits : ℤ → ℕ
to_bits (pos n) = n % word
to_bits (negsuc n) = word - 1 - n % word

unfoldable pub of_bits : ℕ → ℤ
of_bits b = if ltb b (2 ^ 63) then pos b else negsuc (word - 1 - b)

unfoldable pub int64 : ℤ → ℤ
unfolding to_bits of_bits
int64 z = of_bits (to_bits z)
