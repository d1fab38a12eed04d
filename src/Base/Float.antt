-- ===== src/Base/Float.antt =====
-- Go's `float64`, as far as the code computes with it: a division of two naturals, a product with
-- a natural and `math.Floor`, each rounded to 53 significant bits, ties to even. The values stay
-- between 1/100 and 65535, so that no exponent is out of range.
use Prim.Native.Nat.{ℕ, zero, suc, ◌+◌, ◌*◌, ◌/◌, ◌%◌, ◌^◌}
use mathlib.Core.Path.{◌≡◌, refl}
use ketch.Base.Tests.{ltb, leb, beq, if◌then◌else◌}

-- `numerator / 2 ^ scale`
pub record Float64 : Type 0 where
  pub numerator : ℕ
  pub scale : ℕ

-- `n / d` to the nearest natural, a tie to the even one
unfoldable pub round_div : ℕ → ℕ → ℕ
round_div n d =
    let q = n / d in
    let r = n % d in if ltb (2 * r) d then q else if ltb d (2 * r) then q + 1 else q + q % 2

-- The number of low bits of `n` beyond the first 53; `f` bounds it.
unfoldable pub excess : ℕ → ℕ → ℕ
excess zero n = 0
excess (suc f) n = let more = suc (excess f (n / 2)) in if ltb n (2 ^ 53) then 0 else more

-- The nearest number of 53 significant bits. A product of such a number with a `uint16` has at most
-- 16 bits more.
unfoldable pub round53 : ℕ → ℕ
unfolding round_div excess
round53 n = let j = excess 20 n in round_div n (2 ^ j) * 2 ^ j

-- The first scale from `k` on that leaves a quotient of 53 bits; a quotient from 1/100 up needs
-- seven steps beyond 52.
unfoldable pub find_scale : ℕ → ℕ → ℕ → ℕ → ℕ
find_scale zero k n d = k
find_scale (suc f) k n d =
    let more = find_scale f (suc k) n d in if leb (d * 2 ^ 52) (n * 2 ^ k) then k else more

-- `float64(n) / d`, for `n ≤ d`
unfoldable pub div_float : ℕ → ℕ → Float64
unfolding round_div find_scale
div_float n d =
    if beq n 0
    then record { numerator = 0; scale = 0 }
    else (let k = find_scale 8 52 n d in record { numerator = round_div (n * 2 ^ k) d; scale = k })

-- `x * float64(t)`
unfoldable pub mul_float : Float64 → ℕ → Float64
unfolding round53
mul_float x t = record { numerator = round53 (x.numerator * t); scale = x.scale }

-- `math.Floor`
unfoldable pub floor : Float64 → ℕ
floor x = x.numerator / 2 ^ x.scale

-- 0.29 * 100 is below 29, and 0.57 * 100 below 57.
float_tests :
    (floor (mul_float (div_float 75 100) 4) ≡ 3)
    × (floor (mul_float (div_float 29 100) 100) ≡ 28)
    × (floor (mul_float (div_float 57 100) 100) ≡ 56)
    × (floor (mul_float (div_float 100 100) 65535) ≡ 65535)
    × (floor (mul_float (div_float 1 100) 100) ≡ 1)
unfolding floor mul_float div_float
float_tests = (refl, refl, refl, refl, refl)
