-- ===== src/Shared/Numbers.antt =====
-- Python's `int(text)` and the decimal print of a number.
use Prim.Native.Nat.{ℕ, zero, suc, ◌+◌, ◌-◌, ◌*◌, ◌/◌, ◌%◌}
use mathlib.Core.Bool.{Bool, true, false}
use mathlib.Core.Option.{Option, none, some}
use mathlib.Core.List.{[], ◌∷◌}
use snmpy.Shared.Text.{Text, is_digit, strip}
use snmpy.Shared.Int.{negsuc, pos, ℤ}
use snmpy.Shared.Tests.{if◌then◌else◌, ltb, ◌==◌}
use snmpy.Shared.Results.{Result, ok, raise, value_error}

-- The digits of `n`, by as many rounds as `n` allows; `digits_fuel` below has enough of them.
digits_fuel : ℕ → ℕ → Text → Text
digits_fuel zero n out = out
digits_fuel (suc f) n out =
    let out' = (b'0' + n % 10) ∷ out in
    let rest = digits_fuel f (n / 10) out' in if ltb n 10 then out' else rest

-- str(n)
unfoldable pub digits : ℕ → Text
unfolding digits_fuel
digits n = digits_fuel (suc n) n []

unfoldable pub print_int : ℤ → Text
unfolding digits
print_int (pos n) = digits n
print_int (negsuc n) = b'-' ∷ digits (suc n)

-- The number that digits spell behind `n`; `none` at any other byte.
unfoldable pub scan_digits : Text → ℕ → Option ℕ
scan_digits [] n = some n
scan_digits (c ∷ s) n =
    let rest = scan_digits s (n * 10 + (c - b'0')) in if is_digit c then rest else none

digits_of : Text → Option ℕ
unfolding scan_digits
digits_of [] = none
digits_of (c ∷ s) = scan_digits (c ∷ s) 0

signed : Bool → Option ℕ → Result ℤ
signed minus none = raise value_error
signed false (some n) = ok (pos n)
signed true (some n) = ok (if n == 0 then pos 0 else negsuc (n - 1))

-- What stands between the sign and the end.
after_sign : Text → Result ℤ
unfolding digits_of signed
after_sign [] = raise value_error
after_sign (c ∷ s) =
    if c == b'-'
    then signed true (digits_of s)
    else if c == b'+'
    then signed false (digits_of s)
    else signed false (digits_of (c ∷ s))

-- int(text): white space on both sides, a sign, digits.
unfoldable pub parse_int : Text → Result ℤ
unfolding after_sign strip
parse_int s = after_sign (strip s)
