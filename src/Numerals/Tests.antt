-- ===== src/Numerals/Tests.antt =====
-- The text "-345" at 8, and "011" at 16.
use arm64_os.Base.{◌-◌, ◌^◌, ◌≡◌, refl, arith, true, false, some, inl, ◌==◌, if◌then◌else◌}
use arm64_os.Strings.{Memory, isspace}
use arm64_os.Base.Shifts.{int_bit}
use arm64_os.Numerals.{
  strtoll, skip_whitespaces, check_sign, detect_basis, is_x, is_digit_in, after_prefix,
  digits_value, value_2, count_digits, back_2, signed_value,
}
use arm64_os.Numerals.Decimal.{strtoll-decimal}

abbrev line : Memory
line p =
    if p == 8
    then 0x2d
    else if p == 9
    then 0x33
    else if p == 10
    then 0x34
    else if p == 11
    then 0x35
    else if p == 16
    then 0x30
    else if p == 17
    then 0x31
    else if p == 18
    then 0x31
    else 0

eleven_in_binary : strtoll 9 16 0 line ≡ some (3, 19)
unfolding strtoll skip_whitespaces check_sign detect_basis is_x is_digit_in after_prefix
    digits_value value_2 count_digits back_2 int_bit signed_value isspace
eleven_in_binary = refl

strtoll-decimal_example : strtoll 9 8 10 line ≡ some (2 ^ 64 - 345, 12)
strtoll-decimal_example =
    strtoll-decimal true 10 9 2 line 8 9 (inl refl) (refl, refl)
      ((omega arith, omega arith, (omega arith, omega arith, (omega arith, omega arith, tt))))
      (inl (omega arith)) (omega arith)

not_hex : is_x (line 17) ≡ false
unfolding is_x
not_hex = refl
