-- ===== src/App/Scaling/Split.antt =====
-- `getUpdatedUnits` against the exact share `weight * target / 100` of the target units.
use native.Mathlib.Decide.{dec_lt}
use native.Mathlib.Nat.{div-add-mod, mod-lt}
use ketch.Base.{
  ℕ, zero, suc, ◌+◌, ◌-◌, ◌*◌, ◌/◌, ◌%◌, ◌^◌, ◌≤◌, ◌<◌, ◌≡◌, refl, ap, ◌∙◌, ◌⊎◌, inl, inr, Bool,
  true, ◌&&◌, ◌||◌, ℤ, pos, leb, ltb, beq, div_float, mul_float, floor, round53, round53_bounds,
  arith, if◌then◌else◌,
}
use ketch.App.Scaling.{get_updated_units}

-- The units of the source as the code computes them, in float64.
abbrev pub unit_split : ℕ → ℕ → ℕ
unit_split weight target = floor (mul_float (div_float weight 100) target)

-- A test passes at every weight under a bound.
holds_under : (ℕ → Bool) → ℕ → Bool
holds_under test zero = true
holds_under test (suc bound) = holds_under test bound && test bound

holds_under-at :
    (test : ℕ → Bool) (bound w : ℕ) → w < bound → holds_under test bound ≡ true → test w ≡ true
unfolding holds_under
holds_under-at test zero w lt h = absurd (omega arith)
holds_under-at test (suc bound) w lt h = ground (arith, holds_under-at test bound w)

-- `m / k` is within half a unit of `w / 100`, and `k` is large.
abbrev is_near : ℕ → ℕ → ℕ → Bool
is_near w m k =
    leb (100 * m) (w * k + 50) && leb (w * k) (100 * m + 50) && leb m (2 ^ 53) && leb (2 ^ 52) k

quotient_is_near : ℕ → Bool
quotient_is_near w = beq w 0 || is_near w (div_float w 100).numerator (2 ^ (div_float w 100).scale)

-- Every weight from 1 to 100 is divided to within half a unit of 52 or more bits.
quotient_table : holds_under quotient_is_near 101 ≡ true
unfolding holds_under quotient_is_near div_float
quotient_table = refl

near_facts :
    (w m k : ℕ)
    → is_near w m k ≡ true
    → (100 * m ≤ w * k + 50) × (w * k ≤ 100 * m + 50) × (m ≤ 2 ^ 53) × (2 ^ 52 ≤ k)
near_facts w m k h = ground arith

times : (a b t : ℕ) → a ≤ b → a * t ≤ b * t
times a b t h = grind arith

-- The scaled result `r` of the product is within 150 target units of the exact one.
product_bounds :
    (w t m k r : ℕ)
    → is_near w m k ≡ true
    → (2 ^ 53 * r ≤ 2 ^ 53 * (m * t) + m * t) × (2 ^ 53 * (m * t) ≤ 2 ^ 53 * r + m * t)
    → (100 * r ≤ w * t * k + 150 * t) × (w * t * k ≤ 100 * r + 150 * t)
product_bounds w t m k r h b =
    let (upper, lower, small, _) = near_facts w m k h in
    omega (
      arith,
      times (100 * m) (w * k + 50) t upper,
      times (w * k) (100 * m + 50) t lower,
      times m (2 ^ 53) t small,
    )

floor_cases :
    (x t k r : ℕ)
    → t < 65536
    → 2 ^ 52 ≤ k
    → (100 * r ≤ x * k + 150 * t) × (x * k ≤ 100 * r + 150 * t)
    → (r / k ≡ x / 100) ⊎ ((r / k + 1 ≡ x / 100) × (x % 100 ≡ 0))
floor_cases x t k r h l b =
    let a = x / 100 in
    let f = r / k in
    let rem : r % k < k = mod-lt r (omega arith) in
    let whole = ap (λ (z : ℕ). z * k) (div-add-mod x 100) in
    elim (dec_lt a f) [
      | yes above ↦ absurd (
          omega (
            arith,
            times (suc a) f k above,
            div-add-mod r k,
            whole,
            times (x % 100) 99 k (omega arith),
          ))
      | no not_above ↦ elim (dec_lt f a) [
        | yes below ↦ elim (dec_lt 0 (x % 100)) [
          | yes some_rest ↦ absurd (
              omega (
                arith,
                times (suc f) a k below,
                div-add-mod r k,
                whole,
                times 1 (x % 100) k some_rest,
              ))
          | no no_rest ↦ elim (dec_lt (suc f) a) [
            | yes far ↦ absurd (omega (arith, times (suc (suc f)) a k far, div-add-mod r k, whole))
            | no near ↦ inr (omega arith, omega arith)
          ]
        ]
        | no not_below ↦ inl (omega arith)
      ]
    ]

quotient_near :
    (w : ℕ)
    → 0 < w
    → w ≤ 100
    → is_near w (div_float w 100).numerator (2 ^ (div_float w 100).scale) ≡ true
unfolding quotient_is_near
quotient_near w positive h =
    let table = holds_under-at quotient_is_near 101 w (omega arith) quotient_table in
    ground (arith, table)

unit_split_zero : (t : ℕ) → unit_split 0 t ≡ 0
unfolding floor mul_float div_float
unit_split_zero t = omega (arith, round53_bounds (0 * t))

-- The float computation gives the exact share rounded down, or one unit less where the exact share
-- is a whole number.
pub unit_split_near :
    (w t : ℕ)
    → w ≤ 100
    → t < 65536
    → (unit_split w t ≡ w * t / 100) ⊎ ((unit_split w t + 1 ≡ w * t / 100) × (w * t % 100 ≡ 0))
unfolding floor mul_float
unit_split_near w t hw ht = elim (dec_lt 0 w) [
  | yes positive ↦
      let m = (div_float w 100).numerator in
      let k = 2 ^ (div_float w 100).scale in
      let near = quotient_near w positive hw in
      floor_cases (w * t) t k (round53 (m * t)) ht (near_facts w m k near).3
        (product_bounds w t m k (round53 (m * t)) near (round53_bounds (m * t)))
  | no nought ↦ let e : w ≡ 0 = omega arith in rw e (inl (unit_split_zero t ∙ omega arith))
]

-- A share of the target: the exact one rounded down, or one less where the exact one is whole.
abbrev pub IsShare : ℕ → ℕ → ℕ → Type 0
IsShare w t n = (n ≡ w * t / 100) ⊎ ((n + 1 ≡ w * t / 100) × (w * t % 100 ≡ 0))

share_le : (w t n : ℕ) → w ≤ 100 → IsShare w t n → n ≤ t
share_le w t n h (inl e) = omega (arith, times w 100 t h)
share_le w t n h (inr e) = omega (arith, times w 100 t h)

split_units : (t n : ℕ) → n ≤ t → t < 65536 → (t + 65536 - n % 65536) % 65536 ≡ t - n
split_units t n h b = omega arith

below_hundred : (w : ℕ) → w ≤ 100 → (if ltb 100 w then 100 else w) ≡ w
below_hundred w h = ground arith

abbrev pub split_pair : ℕ → ℕ → ℤ × ℤ
split_pair t n = if beq n 0 then (pos 1, pos t) else (pos n, pos (t - n))

-- The tail of `getUpdatedUnits`, for a destination of `d` units.
abbrev tail_pair : ℕ → ℕ → ℤ × ℤ
tail_pair t d = if beq t d then (pos 1, pos d) else (pos ((t + 65536 - d) % 65536), pos d)

tail_pair_lem :
    (t n : ℕ) → n ≤ t → t < 65536 → tail_pair t ((t + 65536 - n % 65536) % 65536) ≡ split_pair t n
tail_pair_lem t n h b = rw (split_units t n h b) (ground (arith, split_units t (t - n)))

-- The source gets its share of the target units and the destination the rest; a source without a
-- share gets one unit on top of the target.
pub get_updated_units-IsShare :
    (w t : ℕ)
    → w ≤ 100
    → t < 65536
    → (n : ℕ) × IsShare w t n × (get_updated_units w t ≡ split_pair t n)
unfolding get_updated_units
get_updated_units-IsShare w t hw ht =
    let near = unit_split_near w t hw ht in
    let le = share_le w t (unit_split w t) hw near in
    (unit_split w t, near, rw (below_hundred w hw) (tail_pair_lem t (unit_split w t) le ht))
