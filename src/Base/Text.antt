-- ===== src/Base/Text.antt =====
-- Go's `strconv.Itoa` and `strconv.Atoi`, and `%d` of fmt, on texts.
pub mod Nearest
use Prim.Native.Nat.{ℕ, zero, suc, ◌+◌, ◌-◌, ◌*◌, ◌/◌, ◌%◌, ◌^◌, ◌<◌}
use Prim.Native.Char.{Char, code}
use Prim.Native.String
use Prim.Native.String.{String, [], ◌∷◌}
use mathlib.Core.List.{List}
use mathlib.Core.Path.{◌≡◌, refl, sym, ap, ◌∙◌}
use mathlib.Core.Bool.{Bool, true, false, ◌&&◌, ◌||◌}
use mathlib.Core.Logic.{inl, inr}
use mathlib.Core.Option.{Option, none, some}
use native.Mathlib.Omega.{arith}
use ketch.Base.Tests.{ltb, leb, beq, Bool-cases, if◌then◌else◌}
use ketch.Base.Int.{ℤ, pos, negsuc}

digit : ℕ → Char
digit n =
    if beq n 0
    then "0"
    else if beq n 1
    then "1"
    else if beq n 2
    then "2"
    else if beq n 3
    then "3"
    else if beq n 4
    then "4"
    else if beq n 5
    then "5"
    else if beq n 6
    then "6"
    else if beq n 7
    then "7"
    else if beq n 8
    then "8"
    else "9"

-- The digits of `n` in front of `out`; `f` bounds their number.
print_nat : ℕ → ℕ → String → String
print_nat zero n out = out
print_nat (suc f) n out =
    let more = print_nat f (n / 10) (digit (n % 10) ∷ out) in
    if ltb n 10 then digit n ∷ out else more

format_nat : ℕ → String
unfolding print_nat digit
format_nat n = print_nat (suc n) n ""

unfoldable pub itoa : ℤ → String
unfolding format_nat
itoa (pos n) = format_nat n
itoa (negsuc n) = "-" ∷ format_nat (suc n)

is_digit : Char → Bool
is_digit c = leb 48 (code c) && leb (code c) 57

-- The value of the digits read so far and of the rest.
scan : String → ℕ → Option ℕ
unfolding is_digit
scan [] n = some n
scan (c ∷ s) n = if is_digit c then scan s (n * 10 + (code c - 48)) else none

parse_nat : String → Option ℕ
unfolding scan
parse_nat [] = none
parse_nat (c ∷ s) = scan (c ∷ s) 0

-- The range of `int`: a number outside is an error.
to_int : Bool → Option ℕ → Option ℤ
to_int negative none = none
to_int false (some n) = if ltb n (2 ^ 63) then some (pos n) else none
to_int true (some zero) = some (pos 0)
to_int true (some (suc n)) = if ltb n (2 ^ 63) then some (negsuc n) else none

unfoldable pub atoi : String → Option ℤ
unfolding parse_nat to_int
atoi [] = none
atoi (c ∷ s) =
    if beq (code c) 45
    then to_int true (parse_nat s)
    else if beq (code c) 43
    then to_int false (parse_nat s)
    else to_int false (parse_nat (c ∷ s))

code-digit : (n : ℕ) → n < 10 → code (digit n) ≡ 48 + n
unfolding digit
code-digit zero h = refl
code-digit (suc zero) h = refl
code-digit (suc (suc zero)) h = refl
code-digit (suc (suc (suc zero))) h = refl
code-digit (suc (suc (suc (suc zero)))) h = refl
code-digit (suc (suc (suc (suc (suc zero))))) h = refl
code-digit (suc (suc (suc (suc (suc (suc zero)))))) h = refl
code-digit (suc (suc (suc (suc (suc (suc (suc zero))))))) h = refl
code-digit (suc (suc (suc (suc (suc (suc (suc (suc zero)))))))) h = refl
code-digit (suc (suc (suc (suc (suc (suc (suc (suc (suc zero))))))))) h = refl
code-digit (suc (suc (suc (suc (suc (suc (suc (suc (suc (suc n)))))))))) h = absurd (omega arith)

itoa_tests :
    (itoa (pos 120) ≡ "120")
    × (itoa (negsuc 6) ≡ "-7")
    × (atoi "-07" ≡ some (negsuc 6))
    × (atoi "1x" ≡ none)
unfolding itoa atoi
itoa_tests = (refl, refl, refl, refl)

in_range : (n : ℕ) → n < 10 → (leb 48 (48 + n) && leb (48 + n) 57) ≡ true
in_range n h = ground arith

scan-digit : (n a : ℕ) (out : String) → n < 10 → scan (digit n ∷ out) a ≡ scan out (a * 10 + n)
unfolding scan
scan-digit n a out h =
    rw (code-digit n h, in_range n h) (ap (λ k. scan out (a * 10 + k)) (omega arith))

scan-print_nat : (f n : ℕ) (out : String) → n < f → scan (print_nat f n out) 0 ≡ scan out n
unfolding print_nat
scan-print_nat zero n out h = elim h [ ]
scan-print_nat (suc f) n out h = elim (Bool-cases (ltb n 10)) [
  | inl small ↦
      rw (small, print_nat) (scan-digit n 0 out (ground arith) ∙ ap (scan out) (omega arith))
  | inr large ↦
      rw (large, print_nat)
        (scan-print_nat f (n / 10) (digit (n % 10) ∷ out) (ground arith)
          ∙ scan-digit (n % 10) (n / 10) out (omega arith)
          ∙ ap (scan out) (omega arith))
]

print_nat-head :
    (f n : ℕ) (out : String)
    → n < f
    → (d : ℕ) × (s : String) × (print_nat f n out ≡ digit d ∷ s) × (d < 10)
unfolding print_nat
print_nat-head zero n out h = elim h [ ]
print_nat-head (suc f) n out h = elim (Bool-cases (ltb n 10)) [
  | inl small ↦ (n, out, rw (small, print_nat), ground arith)
  | inr large ↦
      rw (large, print_nat) (print_nat-head f (n / 10) (digit (n % 10) ∷ out) (ground arith))
]

parse_nat-format_nat : (n : ℕ) → parse_nat (format_nat n) ≡ some n
unfolding format_nat parse_nat
parse_nat-format_nat n =
    let (d, s, e, h) = print_nat-head (suc n) n "" (omega arith) in
    ap parse_nat e ∙ ap (λ t. scan t 0) (sym e) ∙ scan-print_nat (suc n) n "" (omega arith)

unsigned : (d : ℕ) → d < 10 → (beq (48 + d) 45 ≡ false) × (beq (48 + d) 43 ≡ false)
unsigned d h = ground arith

-- The integers that an `int` holds.
abbrev pub InRange : ℤ → Type 0
InRange (pos n) = n < 2 ^ 63
InRange (negsuc n) = n < 2 ^ 63

atoi-unsigned :
    (d : ℕ) (s : String) → d < 10 → atoi (digit d ∷ s) ≡ to_int false (parse_nat (digit d ∷ s))
unfolding atoi
atoi-unsigned d s h = rw (code-digit d h) (ground (arith, unsigned d h))

-- A number in range reads back from its text.
pub atoi-itoa : (x : ℤ) → InRange x → atoi (itoa x) ≡ some x
unfolding itoa to_int
atoi-itoa (pos n) h =
    let (d, s, e, lt) = print_nat-head (suc n) n "" (omega arith) in
    unfold format_nat in
    ap atoi e
    ∙ atoi-unsigned d s lt
    ∙ ap (λ t. to_int false (parse_nat t)) (sym e)
    ∙ ap (to_int false) (parse_nat-format_nat n)
    ∙ ground arith
atoi-itoa (negsuc n) h =
    unfold atoi in ap (to_int true) (parse_nat-format_nat (suc n)) ∙ ground arith

-- fmt.Sprintf with the verbs replaced: the parts in a row
abbrev pub concat : List String → String
concat List.[] = ""
concat (List.◌∷◌ s List.[]) = s
concat (List.◌∷◌ s (List.◌∷◌ t ss)) = String.◌++◌ s (concat (List.◌∷◌ t ss))

-- A text of digits and minus signs.
abbrev pub all_numeric : String → Bool
all_numeric [] = true
all_numeric (c ∷ s) = (beq (code c) 45 || (leb 48 (code c) && leb (code c) 57)) && all_numeric s

digit-numeric :
    (n : ℕ) (s : String) → n < 10 → all_numeric s ≡ true → all_numeric (digit n ∷ s) ≡ true
digit-numeric n s h all = ground (arith, code-digit n h)

print_nat-numeric :
    (f n : ℕ) (out : String)
    → n < f
    → all_numeric out ≡ true
    → all_numeric (print_nat f n out) ≡ true
unfolding print_nat
print_nat-numeric zero n out h all = elim h [ ]
print_nat-numeric (suc f) n out h all = elim (Bool-cases (ltb n 10)) [
  | inl small ↦ rw (small, print_nat) (digit-numeric n out (ground arith) all)
  | inr large ↦
      rw (large, print_nat)
        (print_nat-numeric f (n / 10) (digit (n % 10) ∷ out) (ground arith)
          (digit-numeric (n % 10) out (omega arith) all))
]

pub itoa-numeric : (x : ℤ) → all_numeric (itoa x) ≡ true
unfolding itoa format_nat
itoa-numeric (pos n) = print_nat-numeric (suc n) n "" (omega arith) refl
itoa-numeric (negsuc n) = print_nat-numeric (suc (suc n)) (suc n) "" (omega arith) refl
