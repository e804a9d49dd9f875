-- ===== src/Plugins/FilesystemSpace/Devnum.antt =====
-- The device numbers of lib/snmpy/module/filesystem_space.py, through hexadecimal texts.
use snmpy.Shared.{
  Bool, List, Option, Result, [], drop, false, if◌then◌else◌, leb, ltb, map, none, ok, raise, some,
  suc, true, value_error, zero, ℕ, ◌%◌, ◌&&◌, ◌*◌, ◌++◌, ◌+◌, ◌-◌, ◌/◌, ◌==◌, ◌>>=◌, ◌∷◌,
}
use snmpy.Shared.Text.{Text, codes, is_digit, lower, split, starts_with, strip}
use snmpy.Shared.Int.{negsuc, pos, ℤ}

-- The value of a hexadecimal digit.
hex_value : ℕ → Option ℕ
hex_value c =
    if is_digit c
    then some (c - b'0')
    else if leb b'a' (lower c) && leb (lower c) b'f'
    then some (lower c - b'a' + 10)
    else none

scan_hex : Text → ℕ → Option ℕ
unfolding hex_value
scan_hex [] n = some n
scan_hex (c ∷ s) n = elim (hex_value c) [ none ↦ none | some d ↦ scan_hex s (n * 16 + d) ]

hex_digits : Text → Option ℕ
unfolding scan_hex
hex_digits [] = none
hex_digits (c ∷ s) = scan_hex (c ∷ s) 0

-- `0x` may stand before the digits, and before that a sign.
hex_prefixed : Text → Option ℕ
unfolding hex_digits
hex_prefixed s =
    if starts_with (map lower s) (codes "0x") then hex_digits (drop 2 s) else hex_digits s

hex_signed : Bool → Option ℕ → Result ℤ
hex_signed minus none = raise value_error
hex_signed false (some n) = ok (pos n)
hex_signed true (some n) = ok (if n == 0 then pos 0 else negsuc (n - 1))

after_hex_sign : Text → Result ℤ
unfolding hex_prefixed hex_signed
after_hex_sign [] = raise value_error
after_hex_sign (c ∷ s) =
    if c == b'-'
    then hex_signed true (hex_prefixed s)
    else if c == b'+'
    then hex_signed false (hex_prefixed s)
    else hex_signed false (hex_prefixed (c ∷ s))

-- int(text, 16)
unfoldable pub parse_hex : Text → Result ℤ
unfolding after_hex_sign
parse_hex s = after_hex_sign (strip s)

hex_char : ℕ → ℕ
hex_char d = if ltb d 10 then b'0' + d else b'a' + (d - 10)

print_hex_fuel : ℕ → ℕ → Text → Text
unfolding hex_char
print_hex_fuel zero n out = out
print_hex_fuel (suc f) n out =
    let out' = hex_char (n % 16) ∷ out in
    let rest = print_hex_fuel f (n / 16) out' in if ltb n 16 then out' else rest

-- '%02x' % n
unfoldable pub print_hex : ℤ → Text
unfolding print_hex_fuel
print_hex (pos n) =
    if ltb n 16 then b'0' ∷ print_hex_fuel (suc n) n [] else print_hex_fuel (suc n) n []
print_hex (negsuc n) = b'-' ∷ print_hex_fuel (suc (suc n)) (suc n) []

print_all : List Text → Result Text
print_all [] = ok []
print_all (i ∷ is) = do z ← parse_hex i; rest ← print_all is; ok (print_hex z ++ rest)

-- int(''.join('%02x' % int(i, 16) for i in d_id.split(':')), 16)
unfoldable pub devnum : Text → Result ℤ
unfolding print_all
devnum d_id = do t ← print_all (split b':' d_id); parse_hex t
