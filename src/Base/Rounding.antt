-- ===== src/Base/Rounding.antt =====
-- How far the rounded products of Base/Float.antt are from the exact ones.
use Prim.Native.Nat.{ℕ, zero, suc, ◌+◌, ◌*◌, ◌/◌, ◌%◌, ◌^◌, ◌≤◌, ◌<◌}
use mathlib.Core.Path.{◌≡◌, refl}
use mathlib.Core.Logic.{◌⊎◌, inl, inr}
use native.Mathlib.Nat.{pow-suc, div-add-mod, mod-lt}
use native.Mathlib.Omega.{arith}
use ketch.Base.Tests.{ltb, beq, Bool-cases}
use ketch.Base.Float.{round_div, excess, round53}

-- `h` is a quotient `q` rounded up or down, `r` the remainder.
half_unit :
    (n d q r h : ℕ)
    → d * q + r ≡ n
    → r < d
    → ((h ≡ q) × (2 * r ≤ d)) ⊎ ((h ≡ q + 1) × (d ≤ 2 * r))
    → (2 * (h * d) ≤ 2 * n + d) × (2 * n ≤ 2 * (h * d) + d)
half_unit n d q r h e lt (inl (same, small)) = rw same (grind arith)
half_unit n d q r h e lt (inr (up, large)) = rw up (grind arith)

rounds :
    (n d : ℕ)
    → let q = n / d in
      let r = n % d in ((round_div n d ≡ q) × (2 * r ≤ d)) ⊎ ((round_div n d ≡ q + 1) × (d ≤ 2 * r))
unfolding round_div
rounds n d = elim (Bool-cases (ltb (2 * (n % d)) d)) [
  | inl small ↦ inl (rw (small, round_div), ground arith)
  | inr not_small ↦ elim (Bool-cases (ltb d (2 * (n % d)))) [
    | inl large ↦ inr (ground arith, ground arith)
    | inr not_large ↦ elim (Bool-cases (beq (n / d % 2) 0)) [
      | inl even ↦ inl (ground arith, ground arith)
      | inr odd ↦ inr (ground arith, ground arith)
    ]
  ]
]

-- Half a unit is the most that a rounded quotient is off.
pub round_div_bounds :
    (n d : ℕ)
    → 0 < d
    → (2 * (round_div n d * d) ≤ 2 * n + d) × (2 * n ≤ 2 * (round_div n d * d) + d)
round_div_bounds n d h =
    half_unit n d (n / d) (n % d) (round_div n d) (div-add-mod n d) (mod-lt n h) (rounds n d)

doubled : (j n : ℕ) → 2 ^ 53 ≤ n → (j ≡ 0) ⊎ (2 ^ 52 * 2 ^ j ≤ n / 2) → 2 ^ 52 * (2 ^ j * 2) ≤ n
doubled j n large (inl e) = rw e (omega arith)
doubled j n large (inr h) = omega arith

excess_lem : (f n : ℕ) → (excess f n ≡ 0) ⊎ (2 ^ 52 * 2 ^ excess f n ≤ n)
unfolding excess
excess_lem zero n = inl refl
excess_lem (suc f) n = elim (Bool-cases (ltb n (2 ^ 53))) [
  | inl small ↦ inl (rw small)
  | inr large ↦
      rw (large, excess)
        (inr (
          rw (pow-suc 2 (excess f (n / 2)))
            (doubled (excess f (n / 2)) n (ground arith) (excess_lem f (n / 2)))))
]

pow_pos : (j : ℕ) → 0 < 2 ^ j
pow_pos zero = omega arith
pow_pos (suc j) = rw (pow-suc 2 j) (omega (arith, pow_pos j))

scaled :
    (n p r : ℕ)
    → (p ≡ 1) ⊎ (2 ^ 52 * p ≤ n)
    → (2 * r ≤ 2 * n + p) × (2 * n ≤ 2 * r + p)
    → (2 ^ 53 * r ≤ 2 ^ 53 * n + n) × (2 ^ 53 * n ≤ 2 ^ 53 * r + n)
scaled n p r (inl e) b = omega arith
scaled n p r (inr h) b = omega arith

-- A rounded number is off by one part in 2 ^ 53 at most.
pub round53_bounds :
    (n : ℕ) → (2 ^ 53 * round53 n ≤ 2 ^ 53 * n + n) × (2 ^ 53 * n ≤ 2 ^ 53 * round53 n + n)
unfolding round53
round53_bounds n =
    let j = excess 20 n in
    scaled n (2 ^ j) (round_div n (2 ^ j) * 2 ^ j) (low_bits j (excess_lem 20 n))
      (round_div_bounds n (2 ^ j) (pow_pos j))
  where
    low_bits : (j : ℕ) → (j ≡ 0) ⊎ (2 ^ 52 * 2 ^ j ≤ n) → (2 ^ j ≡ 1) ⊎ (2 ^ 52 * 2 ^ j ≤ n)
    low_bits j (inl e) = inl (rw e refl)
    low_bits j (inr h) = inr h
