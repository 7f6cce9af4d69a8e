-- ===== src/Prelude/Decimal.antt =====
-- Numbers as text: `std::to_string`, `operator<<` and `std::stoi` of the C++ library.
use Prim.Native.Nat.{ℕ, zero, suc, ◌+◌, ◌-◌, ◌*◌, ◌/◌, ◌%◌, ◌<◌, ◌≤◌}
use mathlib.Core.Path.{◌≡◌, sym, ◌∙◌, ap}
use mathlib.Core.Logic.{inl, inr}
use mathlib.Core.Bool.{Bool, true, false, ◌&&◌, ◌||◌}
use mathlib.Core.List.{[], ◌∷◌}
use mathlib.Core.Option.{Option, none, some}
use native.Mathlib.Omega.{arith}
use fix4_0_demo.Prelude.Tests.{ltb, leb, ◌==◌, if◌then◌else◌, Bool-cases}
use fix4_0_demo.Prelude.Lists.{All}
use fix4_0_demo.Prelude.Int.{ℤ, pos, negsuc}
use fix4_0_demo.Prelude.Bytes.{Text}

-- The digits of `n` in front of `out`; the fuel is more than enough when it exceeds `n`.
unfoldable pub digits_onto : ℕ → ℕ → Text → Text
digits_onto zero n out = out
digits_onto (suc fuel) n out =
    let rest = digits_onto fuel (n / 10) ((b'0' + n % 10) ∷ out) in
    if ltb n 10 then (b'0' + n) ∷ out else rest

unfoldable pub print_ℕ : ℕ → Text
unfolding digits_onto
print_ℕ n = digits_onto (suc n) n []

unfoldable pub print_ℤ : ℤ → Text
unfolding print_ℕ
print_ℤ (pos n) = print_ℕ n
print_ℤ (negsuc n) = b'-' ∷ print_ℕ (suc n)

abbrev pub is_digit : ℕ → Bool
is_digit c = leb b'0' c && leb c b'9'

-- `isspace` in the "C" locale.
abbrev pub is_space : ℕ → Bool
is_space c = c == 32 || (leb 9 c && leb c 13)

-- The digits at the front, read onto `acc`; what follows them is ignored.
unfoldable pub scan_digits : Text → ℕ → ℕ
scan_digits [] acc = acc
scan_digits (c ∷ cs) acc =
    let rest = scan_digits cs (acc * 10 + (c - b'0')) in if is_digit c then rest else acc

abbrev pub int_max : ℕ
int_max = 2147483647

-- One digit at least, and a value in the range of `int`; anything else throws.
unfoldable pub stoi_magnitude : Bool → Text → Option ℤ
unfolding scan_digits
stoi_magnitude negative [] = none
stoi_magnitude negative (c ∷ cs) =
    let n = scan_digits (c ∷ cs) 0 in
    if is_digit c
    then (if negative
        then (if n == 0
            then some (pos 0)
            else if leb n (int_max + 1)
            then some (negsuc (n - 1))
            else none)
        else if leb n int_max
        then some (pos n)
        else none)
    else none

unfoldable pub stoi_sign : Text → Option ℤ
unfolding stoi_magnitude
stoi_sign [] = none
stoi_sign (c ∷ cs) =
    if c == b'-'
    then stoi_magnitude true cs
    else if c == b'+'
    then stoi_magnitude false cs
    else stoi_magnitude false (c ∷ cs)

unfoldable pub skip_space : Text → Text
skip_space [] = []
skip_space (c ∷ cs) = if is_space c then skip_space cs else c ∷ cs

unfoldable pub stoi : Text → Option ℤ
unfolding stoi_sign skip_space
stoi s = stoi_sign (skip_space s)

scan_digits-digit :
    (c : ℕ) (cs : Text) (acc : ℕ)
    → is_digit c ≡ true
    → scan_digits (c ∷ cs) acc ≡ scan_digits cs (acc * 10 + (c - b'0'))
unfolding scan_digits
scan_digits-digit c cs acc h = rw h

last_digit : (n : ℕ) → n / 10 * 10 + (b'0' + n % 10 - b'0') ≡ n
last_digit n = omega arith

is_digit-mod : (n : ℕ) → is_digit (b'0' + n % 10) ≡ true
is_digit-mod n = ground arith

-- Reading the digits back gives the number.
digits_onto-scan :
    (fuel n : ℕ) (out : Text)
    → n < fuel
    → scan_digits (digits_onto fuel n out) 0 ≡ scan_digits out n
unfolding digits_onto
digits_onto-scan zero n out h = elim h [ ]
digits_onto-scan (suc fuel) n out h = elim (Bool-cases (ltb n 10)) [
  | inl e ↦ rw e (
      scan_digits-digit (b'0' + n) out 0 (ground arith)
      ∙ ap (scan_digits out) (let e' : 0 * 10 + (b'0' + n - b'0') ≡ n = omega arith in e'))
  | inr e ↦ rw e (
      digits_onto-scan fuel (n / 10) ((b'0' + n % 10) ∷ out) (ground arith)
      ∙ scan_digits-digit (b'0' + n % 10) out (n / 10) (is_digit-mod n)
      ∙ ap (scan_digits out) (last_digit n))
]

abbrev pub IsDigits : Text → Type 0
IsDigits = All (λ c. is_digit c ≡ true)

-- A number is written by its digits, one at least.
digits_onto-cons :
    (fuel n : ℕ) (out : Text)
    → n < fuel
    → IsDigits out
    → (c : ℕ) × (cs : Text) × (digits_onto fuel n out ≡ c ∷ cs) × (is_digit c ≡ true) × IsDigits cs
unfolding digits_onto
digits_onto-cons zero n out h d = elim h [ ]
digits_onto-cons (suc fuel) n out h d = elim (Bool-cases (ltb n 10)) [
  | inl e ↦ (b'0' + n, out, rw e, ground arith, d)
  | inr e ↦
      let (c, cs, eq, first, rest) =
        digits_onto-cons fuel (n / 10) ((b'0' + n % 10) ∷ out) (ground arith) (is_digit-mod n, d) in
      (c, cs, rw e eq, first, rest)
]

pub print_ℕ-cons :
    (n : ℕ) → (c : ℕ) × (cs : Text) × (print_ℕ n ≡ c ∷ cs) × (is_digit c ≡ true) × IsDigits cs
unfolding print_ℕ
print_ℕ-cons n = digits_onto-cons (suc n) n [] (omega arith) tt

pub IsDigits-print_ℕ : (n : ℕ) → IsDigits (print_ℕ n)
IsDigits-print_ℕ n = let (c, cs, e, first, rest) = print_ℕ-cons n in rw e (first, rest)

scan-print_ℕ : (n : ℕ) → scan_digits (print_ℕ n) 0 ≡ n
unfolding print_ℕ scan_digits
scan-print_ℕ n = digits_onto-scan (suc n) n [] (omega arith)

stoi-digits :
    (c : ℕ) (cs : Text)
    → is_digit c ≡ true
    → scan_digits (c ∷ cs) 0 ≤ int_max
    → stoi (c ∷ cs) ≡ some (pos (scan_digits (c ∷ cs) 0))
unfolding stoi
stoi-digits c cs d h = ground arith

-- `std::stoi` reads back what `std::to_string` writes.
pub stoi-print_ℕ : (n : ℕ) → n ≤ int_max → stoi (print_ℕ n) ≡ some (pos n)
stoi-print_ℕ n h =
    let (c, cs, e, first, rest) = print_ℕ-cons n in
    let value : scan_digits (c ∷ cs) 0 ≡ n =
      ap (λ (s : Text). scan_digits s 0) (sym e) ∙ scan-print_ℕ n in
    rw e (stoi-digits c cs first (omega arith) ∙ ap (λ (k : ℕ). some (pos k)) value)
