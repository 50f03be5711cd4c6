-- ===== src/Prelude/Float.antt =====
-- The `float64` values of the program as fixed-point numbers, with NaN and the infinities.
-- A finite value counts millionths; rounding is not modelled.
use Prim.Native.Nat.{ℕ, ◌*◌, Ordering}
use mathlib.Core.Bool.{Bool, true, false}
use codex_balancer.Prelude.Tests.{if◌then◌else◌, is_lt}
use codex_balancer.Prelude.Int.{ℤ, pos, int_compare, ◌+ℤ◌, ◌-ℤ◌}

pub data Float64 : Type 0 where
  nan : Float64
  neg_inf : Float64
  finite : ℤ → Float64
  inf : Float64

-- A whole number.
abbrev pub float_of : ℕ → Float64
float_of n = finite (pos (n * 1000000))

-- `math.IsInf(x, 0)`.
abbrev pub is_inf : Float64 → Bool
is_inf inf = true
is_inf neg_inf = true
is_inf (finite _) = false
is_inf nan = false

-- `cmp.Compare`: NaN equals itself and stands before all else.
unfoldable pub float_compare : Float64 → Float64 → Ordering
float_compare nan nan = Ordering.eq
float_compare nan neg_inf = Ordering.lt
float_compare nan (finite b) = Ordering.lt
float_compare nan inf = Ordering.lt
float_compare neg_inf nan = Ordering.gt
float_compare neg_inf neg_inf = Ordering.eq
float_compare neg_inf (finite b) = Ordering.lt
float_compare neg_inf inf = Ordering.lt
float_compare (finite a) nan = Ordering.gt
float_compare (finite a) neg_inf = Ordering.gt
float_compare (finite a) (finite b) = int_compare a b
float_compare (finite a) inf = Ordering.lt
float_compare inf nan = Ordering.gt
float_compare inf neg_inf = Ordering.gt
float_compare inf (finite b) = Ordering.gt
float_compare inf inf = Ordering.eq

-- `x < y`, false where either is NaN.
unfoldable pub float_lt : Float64 → Float64 → Bool
unfolding float_compare
float_lt nan _ = false
float_lt _ nan = false
float_lt x y = is_lt (float_compare x y)

-- `x >= y`, false where either is NaN.
unfoldable pub float_ge : Float64 → Float64 → Bool
unfolding float_compare
float_ge nan _ = false
float_ge _ nan = false
float_ge x y = if is_lt (float_compare x y) then false else true

-- `math.Max`: a positive infinity wins over NaN.
unfoldable pub float_max : Float64 → Float64 → Float64
unfolding float_lt
float_max inf _ = inf
float_max _ inf = inf
float_max nan _ = nan
float_max _ nan = nan
float_max x y = if float_lt x y then y else x

-- `x + 1`.
unfoldable pub float_suc : Float64 → Float64
unfolding ◌+ℤ◌
float_suc (finite a) = finite (a +ℤ pos 1000000)
float_suc nan = nan
float_suc neg_inf = neg_inf
float_suc inf = inf

-- `100 - x`.
unfoldable pub hundred_minus : Float64 → Float64
unfolding ◌-ℤ◌
hundred_minus (finite a) = finite (pos 100000000 -ℤ a)
hundred_minus nan = nan
hundred_minus neg_inf = inf
hundred_minus inf = neg_inf

-- The built-in `max` and `min`: NaN wins.
unfoldable pub greater : Float64 → Float64 → Float64
unfolding float_lt
greater nan _ = nan
greater _ nan = nan
greater x y = if float_lt x y then y else x

unfoldable pub lesser : Float64 → Float64 → Float64
unfolding float_lt
lesser nan _ = nan
lesser _ nan = nan
lesser x y = if float_lt y x then y else x
