-- ===== src/Prelude/Long.antt =====
-- `std::stoll`: as `std::stoi`, in the range of `int64_t`.
use Prim.Native.Nat.{ℕ, ◌+◌, ◌-◌}
use mathlib.Core.Bool.{Bool, true, false}
use mathlib.Core.List.{[], ◌∷◌}
use mathlib.Core.Option.{Option, none, some}
use fix4_0_demo.Prelude.Tests.{◌==◌, leb, if◌then◌else◌}
use fix4_0_demo.Prelude.Int.{ℤ, pos, negsuc}
use fix4_0_demo.Prelude.Bytes.{Text}
use fix4_0_demo.Prelude.Decimal.{is_digit, scan_digits, skip_space}

abbrev pub long_max : ℕ
long_max = 9223372036854775807

unfoldable pub stoll_magnitude : Bool → Text → Option ℤ
unfolding scan_digits
stoll_magnitude negative [] = none
stoll_magnitude negative (c ∷ cs) =
    let n = scan_digits (c ∷ cs) 0 in
    if is_digit c
    then (if negative
        then (if n == 0
            then some (pos 0)
            else if leb n (long_max + 1)
            then some (negsuc (n - 1))
            else none)
        else if leb n long_max
        then some (pos n)
        else none)
    else none

unfoldable pub stoll_sign : Text → Option ℤ
unfolding stoll_magnitude
stoll_sign [] = none
stoll_sign (c ∷ cs) =
    if c == b'-'
    then stoll_magnitude true cs
    else if c == b'+'
    then stoll_magnitude false cs
    else stoll_magnitude false (c ∷ cs)

unfoldable pub stoll : Text → Option ℤ
unfolding stoll_sign skip_space
stoll text = stoll_sign (skip_space text)
