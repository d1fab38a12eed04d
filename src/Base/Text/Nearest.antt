-- ===== src/Base/Text/Nearest.antt =====
-- The number of Go's `strconv.Atoi` where its error is dropped.
use Prim.Native.Nat.{ℕ, suc, zero, ◌+◌, ◌-◌, ◌*◌, ◌^◌, ◌≤◌, ◌<◌}
use Prim.Native.Char.{code}
use Prim.Native.String.{String, [], ◌∷◌}
use mathlib.Core.Path.{◌≡◌, refl, sym, ap, ◌∙◌}
use mathlib.Core.Bool.{Bool, true, false}
use mathlib.Core.Logic.{inl, inr}
use mathlib.Core.Option.{Option, none, some}
use native.Mathlib.Omega.{arith}
use ketch.Base.Tests.{ltb, leb, beq, Option-cases, if◌then◌else◌}
use ketch.Base.Int.{ℤ, pos, negsuc}
use ketch.Base.Text.{is_digit, scan, parse_nat, to_int, atoi}

-- Reading stops where the value passes 64 bits; `none` is a text that is no number.
scan_uint : String → ℕ → Option ℕ
unfolding is_digit
scan_uint [] n = some n
scan_uint (c ∷ s) n =
    let next = n * 10 + (code c - 48) in
    let rest = scan_uint s next in
    if is_digit c then (if leb (2 ^ 64) next then some next else rest) else none

nearest : Bool → Option ℕ → ℤ
nearest negative none = pos 0
nearest false (some n) = if ltb n (2 ^ 63) then pos n else pos (2 ^ 63 - 1)
nearest true (some zero) = pos 0
nearest true (some (suc n)) = if ltb n (2 ^ 63) then negsuc n else negsuc (2 ^ 63 - 1)

parse_uint : String → Option ℕ
unfolding scan_uint
parse_uint [] = none
parse_uint (c ∷ s) = scan_uint (c ∷ s) 0

-- 0 for a text that is no number, the nearest `int` for one out of range
unfoldable pub atoi_nearest : String → ℤ
unfolding parse_uint nearest
atoi_nearest [] = pos 0
atoi_nearest (c ∷ s) =
    if beq (code c) 45
    then nearest true (parse_uint s)
    else if beq (code c) 43
    then nearest false (parse_uint s)
    else nearest false (parse_uint (c ∷ s))

scan-le : (s : String) (n k : ℕ) → scan s n ≡ some k → n ≤ k
unfolding scan
scan-le [] n k h = ground (arith, h)
scan-le (c ∷ s) n k h = ground (arith, h, scan-le s (n * 10 + (code c - 48)) k)

scan_uint-scan : (s : String) (n k : ℕ) → scan s n ≡ some k → k < 2 ^ 64 → scan_uint s n ≡ some k
unfolding scan scan_uint
scan_uint-scan [] n k h lt = h
scan_uint-scan (c ∷ s) n k h lt =
    ground
      (arith, h, scan-le s (n * 10 + (code c - 48)) k, scan_uint-scan s (n * 10 + (code c - 48)) k)

parse_uint-parse_nat :
    (s : String) (k : ℕ) → parse_nat s ≡ some k → k < 2 ^ 64 → parse_uint s ≡ some k
unfolding parse_nat parse_uint
parse_uint-parse_nat [] k h lt = h
parse_uint-parse_nat (c ∷ s) k h lt = scan_uint-scan (c ∷ s) 0 k h lt

nearest_of_value :
    (negative : Bool) (k : ℕ) (n : ℤ)
    → to_int negative (some k) ≡ some n
    → (k < 2 ^ 64) × (nearest negative (some k) ≡ n)
unfolding to_int nearest
nearest_of_value false k n h = ground (arith, h)
nearest_of_value true zero n h = ground (arith, h)
nearest_of_value true (suc k) n h = ground (arith, h)

nearest-to_int :
    (negative : Bool) (s : String) (n : ℤ)
    → to_int negative (parse_nat s) ≡ some n
    → nearest negative (parse_uint s) ≡ n
unfolding to_int
nearest-to_int negative s n h = elim (Option-cases (parse_nat s)) [
  | inl missing ↦ cc (missing, h, to_int-none negative)
  | inr (k, found) ↦
      let (lt, same) = nearest_of_value negative k n (ap (to_int negative) (sym found) ∙ h) in
      ap (nearest negative) (parse_uint-parse_nat s k found lt) ∙ same
]
  where
    to_int-none : (b : Bool) → to_int b none ≡ none
    to_int-none b = refl

-- Atoi without its error gives the same number where there is no error.
pub atoi_nearest_lem : (s : String) (n : ℤ) → atoi s ≡ some n → atoi_nearest s ≡ n
unfolding atoi atoi_nearest
atoi_nearest_lem [] n h = ground (arith, h)
atoi_nearest_lem (c ∷ s) n h =
    ground
      (arith, h, nearest-to_int true s n, nearest-to_int false s n, nearest-to_int false (c ∷ s) n)
