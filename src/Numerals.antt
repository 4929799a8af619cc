-- ===== src/Numerals.antt =====
-- lib/stringlib/strtol.c: numbers from text. A `long long` is its bit pattern of 64 bits. The walks to
-- the end of the digits are on fuel, and `none` is that they went on, or that `1 << order` has no
-- value: an `int` shifted by 32 or more.
pub mod Digits
pub mod Decimal
mod Tests
use arm64_os.Base.Shifts.{int_bit}
use arm64_os.Base.{
  ℕ, zero, suc, ◌+◌, ◌-◌, ◌*◌, ◌/◌, ◌%◌, ◌^◌, Bool, true, false, Option, none, some, ltb, leb, ◌==◌,
  not, ◌&&◌, ◌||◌, if◌then◌else◌, ◌>>=◌,
}
use arm64_os.Strings.{Memory, isspace}

-- `_isspace` is `isspace`.
unfoldable pub skip_whitespaces : ℕ → Memory → ℕ → Option ℕ
skip_whitespaces zero m ptr = none
skip_whitespaces (suc fuel) m ptr =
    let rest = skip_whitespaces fuel m (suc ptr) in
    if not (m ptr == 0) && isspace (m ptr) then rest else some ptr

-- The second test looks at the byte that the first may have moved to. The result says whether there
-- is a minus sign.
unfoldable pub check_sign : Memory → ℕ → Bool × ℕ
check_sign m ptr =
    let ptr1 = if m ptr == 0x2b then suc ptr else ptr in
    if m ptr1 == 0x2d then (true, suc ptr1) else (false, ptr1)

unfoldable pub is_x : ℕ → Bool
is_x c = (c == 0x78) || (c == 0x58)

unfoldable pub detect_basis : Memory → ℕ → ℕ → ℕ
unfolding is_x
detect_basis m ptr basis =
    if not (basis == 0)
    then basis
    else if m ptr == 0x30
    then (if is_x (m (ptr + 1)) then 16 else 2)
    else 10

-- `(unsigned char)(c - base)`
abbrev pub byte_diff : ℕ → ℕ → ℕ
byte_diff c base = (c + 256 - base) % 256

unfoldable pub is_digit_in : ℕ → ℕ → Bool
is_digit_in basis c =
    if basis == 2
    then leb (byte_diff c 0x30) 1
    else if basis == 10
    then leb (byte_diff c 0x30) 9
    else (leb (byte_diff c 0x30) 9 || leb (byte_diff c 0x61) 5) || leb (byte_diff c 0x41) 5

-- the forward walk: how many digits there are from `ptr`
unfoldable pub count_digits : ℕ → ℕ → Memory → ℕ → Option ℕ
count_digits basis zero m ptr = none
count_digits basis (suc fuel) m ptr =
    let rest = count_digits basis fuel m (suc ptr) in
    if m ptr == 0
    then some 0
    else if is_digit_in basis (m ptr)
    then rest >>= (λ n. some (suc n))
    else some 0

-- the backward walks, over the `n` digits from `ptr`, the last one first
unfoldable pub back_2 : Memory → ℕ → ℕ → ℕ → ℕ → Option ℕ
unfolding int_bit
back_2 m ptr zero order result = some result
back_2 m ptr (suc n) order result =
    let zero_bit = back_2 m ptr n (order + 1) result in
    if m (ptr + n) == 0x31
    then elim (int_bit order) [
      | none ↦ none
      | some b ↦ back_2 m ptr n (order + 1) ((result + b) % 2 ^ 64)
    ]
    else zero_bit

unfoldable pub back_10 : Memory → ℕ → ℕ → ℕ → ℕ → ℕ
back_10 m ptr zero order result = result
back_10 m ptr (suc n) order result =
    back_10 m ptr n (order * 10 % 2 ^ 64) ((result + order * (m (ptr + n) - 0x30)) % 2 ^ 64)

-- `c -= ('a' - 'A')`
abbrev pub to_upper : ℕ → ℕ
to_upper c = if leb 0x61 c then c - 0x20 else c

-- The walk stops at a byte that is no digit; no byte of it is below `0`, since the forward walk has
-- passed it.
unfoldable pub back_16 : Memory → ℕ → ℕ → ℕ → ℕ → ℕ
back_16 m ptr zero order result = result
back_16 m ptr (suc n) order result =
    let c = to_upper (m (ptr + n)) in
    let decimal = back_16 m ptr n (order * 16 % 2 ^ 64) ((result + order * (c - 0x30)) % 2 ^ 64) in
    let letter =
      back_16 m ptr n (order * 16 % 2 ^ 64) ((result + order * (10 + c - 0x41)) % 2 ^ 64) in
    if leb c 0x39 then decimal else if leb c 0x47 then letter else result

-- the three cases of the switch: the number and the end of its digits
unfoldable pub value_2 : ℕ → Memory → ℕ → Option (ℕ × ℕ)
unfolding count_digits back_2
value_2 fuel m ptr = do n ← count_digits 2 fuel m ptr; r ← back_2 m ptr n 0 0; some (r, ptr + n)

unfoldable pub value_10 : ℕ → Memory → ℕ → Option (ℕ × ℕ)
unfolding count_digits back_10
value_10 fuel m ptr = do n ← count_digits 10 fuel m ptr; some (back_10 m ptr n 1 0, ptr + n)

unfoldable pub value_16 : ℕ → Memory → ℕ → Option (ℕ × ℕ)
unfolding count_digits back_16
value_16 fuel m ptr = do n ← count_digits 16 fuel m ptr; some (back_16 m ptr n 1 0, ptr + n)

-- Any other basis gives no number.
unfoldable pub digits_value : ℕ → ℕ → Memory → ℕ → ℕ → Option (ℕ × ℕ)
unfolding value_2 value_10 value_16
digits_value fuel basis m str ptr =
    if basis == 2
    then value_2 fuel m ptr
    else if basis == 10
    then value_10 fuel m ptr
    else if basis == 16
    then value_16 fuel m ptr
    else some (0, str)

-- the prefix of a hexadecimal number; without it there is no number
unfoldable pub after_prefix : ℕ → ℕ → Memory → ℕ → ℕ → Option (ℕ × ℕ)
unfolding digits_value is_x
after_prefix fuel basis m str ptr =
    if not (basis == 16)
    then digits_value fuel basis m str ptr
    else if (m ptr == 0x30) && is_x (m (ptr + 1))
    then digits_value fuel basis m str (ptr + 2)
    else some (0, str)

abbrev pub negate_if : Bool → ℕ → ℕ
negate_if true r = (2 ^ 64 - r) % 2 ^ 64
negate_if false r = r

-- the statements after the white space, for a start that is known
unfoldable pub signed_value : ℕ → ℕ → ℕ → Memory → ℕ → Option (ℕ × ℕ)
unfolding check_sign detect_basis after_prefix
signed_value fuel str basis m start =
    let (negative, ptr) = check_sign m start in
    after_prefix fuel (detect_basis m ptr basis) m str ptr
    >>= (λ r. some (negate_if negative r.0, r.1))

-- the result and `*endptr`
unfoldable pub strtoll : ℕ → ℕ → ℕ → Memory → Option (ℕ × ℕ)
unfolding skip_whitespaces signed_value
strtoll fuel str basis m = do
  start ← skip_whitespaces fuel m str
  signed_value fuel str basis m start
