-- ===== src/Printing.antt =====
-- lib/stringlib/sprintf.c on a memory of bytes: the context of one call, and the printing of a number,
-- a text and a character. The build divides (no NODIV), on a machine with longs of 64 bits; a word is
-- its bit pattern, and `none` is that C gives no value.
pub mod Fields
pub mod Format
pub mod Loop
pub mod Outside
pub mod Inside
pub mod Printers
pub mod Bounds
pub mod Digits
pub mod Decimal
pub mod ReadBack
pub mod RoundTrip
pub mod Truncated
mod Tests
use arm64_os.Base.Ints.{ℤ, pos, negsuc, clamp, signed_div_64}
use arm64_os.Base.{
  ℕ, zero, suc, ◌+◌, ◌-◌, ◌*◌, ◌/◌, ◌%◌, ◌^◌, min, max, List, [], ◌∷◌, get_elem?, Bool, true, false,
  Option, none, some, ltb, leb, ◌==◌, not, ◌&&◌, ◌||◌, if◌then◌else◌, ◌>>=◌,
}
use arm64_os.Strings.{Memory, store, memset, isprint}

-- Those that the code names and never uses are left out.
pub data FmtSize : Type 0 where
  size_no size_long size_llong size_intmax size_size_t size_int64 size_half size_hhalf
        size_ptrdiff :
      FmtSize

-- `dst_virt` runs on where `dst` stops at `dst_end`.
pub record PrintfCtx : Type 0 where
  pub mem : Memory
  pub fmt : ℕ
  pub dst : ℕ
  pub dst_virt : ℕ
  pub dst_end : ℕ
  pub flag_plus : Bool
  pub flag_space : Bool
  pub flag_zero : Bool
  pub flag_left_align : Bool
  pub flag_hex_prefix : Bool
  pub width : ℤ
  pub precision : ℤ
  pub size : FmtSize
  pub ctype : ℕ
  pub arg : ℕ

pub record PrintNumSpec : Type 0 where
  pub space_padding : ℕ
  pub padding : ℕ
  pub wordlen : ℕ
  pub is_neg_sign : Bool

-- `uppercase` is 0 or 1.
unfoldable pub to_char_16 : ℕ → ℕ → ℕ
to_char_16 i uppercase = if leb 10 i then i + (1 - uppercase) * 0x20 + 0x41 - 10 else i + 0x30

-- `i` is the bit pattern of an `int`, the result a byte.
unfoldable pub to_char_8_10 : ℕ → ℕ → ℕ
to_char_8_10 i base = if ltb i (2 ^ 31) && leb base i then 0x23 else (i + 0x30) % 256

unfoldable pub dst_append_c : ℕ → PrintfCtx → PrintfCtx
dst_append_c ch c =
    if ltb c.dst c.dst_end
    then record c { mem = store c.dst ch c.mem; dst = suc c.dst; dst_virt = suc c.dst_virt }
    else record c { dst_virt = suc c.dst_virt }

unfoldable pub dst_append_s : List ℕ → PrintfCtx → PrintfCtx
unfolding dst_append_c
dst_append_s [] c = c
dst_append_s (ch ∷ chs) c = dst_append_s chs (dst_append_c ch c)

unfoldable pub dst_memset : ℕ → ℕ → PrintfCtx → PrintfCtx
unfolding memset
dst_memset val len c =
    let op_len = min len (c.dst_end - c.dst) in
    record c {
      mem = memset c.dst val op_len c.mem;
      dst = c.dst + op_len;
      dst_virt = c.dst_virt + len;
    }

abbrev pub decimal_table : List ℕ
decimal_table =
    1 ∷ 10 ∷ 100 ∷ 1000 ∷ 10000 ∷ 100000 ∷ 1000000 ∷ 10000000 ∷ 100000000 ∷ 1000000000 ∷ 10000000000
    ∷ 100000000000 ∷ 1000000000000 ∷ 10000000000000 ∷ 100000000000000 ∷ 1000000000000000
    ∷ 10000000000000000 ∷ 100000000000000000 ∷ 1000000000000000000 ∷ 10000000000000000000 ∷ []

-- The divider is a word of 64 bits, and wraps.
unfoldable pub round_loop : ℕ → ℕ → ℕ → ℕ → Option ℕ
round_loop zero val divider wordlen = none
round_loop (suc fuel) val divider wordlen =
    let more = round_loop fuel val (divider * 10 % 2 ^ 64) (suc wordlen) in
    if divider == 0 then none else if val / divider == 0 then some wordlen else more

-- Ten to the 64th wraps to 0, so there are at most 64 rounds.
unfoldable pub closest_round_base10_div : ℕ → Option ℕ
unfolding round_loop
closest_round_base10_div val = round_loop 65 val 10 1

abbrev pub one_if : Bool → ℕ
one_if true = 1
one_if false = 0

abbrev pub is_minus_one : ℤ → Bool
is_minus_one (negsuc zero) = true
is_minus_one x = false

-- the part after the length of the number is known
unfoldable pub spec_of : PrintfCtx → Bool → ℕ → PrintNumSpec
spec_of c neg digits =
    let wordlen = digits + one_if ((neg || c.flag_plus) || c.flag_space) in
    let padding = clamp c.width - wordlen in
    record {
      space_padding =
          if c.flag_zero && is_minus_one c.precision
          then 0
          else padding - (clamp c.precision - wordlen);
      padding = padding;
      wordlen = wordlen;
      is_neg_sign = neg;
    }

unfoldable pub print_fn_prep_spec : PrintfCtx → Bool → Option PrintNumSpec
unfolding closest_round_base10_div spec_of
print_fn_prep_spec c neg =
    closest_round_base10_div c.arg >>= (λ digits. some (spec_of c neg digits))

-- A divider of the table is down to 0 after at most 20 rounds.
unfoldable pub number_10_loop : ℕ → ℕ → PrintfCtx → PrintfCtx
unfolding to_char_8_10 dst_append_c signed_div_64
number_10_loop zero divider c = c
number_10_loop (suc fuel) divider c =
    let tmp = to_char_8_10 (signed_div_64 c.arg divider % 2 ^ 32) 10 in
    let c1 = dst_append_c tmp c in
    let rest = number_10_loop fuel (divider / 10) (record c1 { arg = c.arg % divider }) in
    if divider == 0 then c else rest

unfoldable pub print_fn_number_10_div : PrintfCtx → ℕ → Option PrintfCtx
unfolding number_10_loop
print_fn_number_10_div c wordlen =
    get_elem? decimal_table (wordlen - 1) >>= (λ divider. some (number_10_loop 20 divider c))

-- the sign, and how much of `wordlen` it takes
unfoldable pub print_sign : PrintNumSpec → PrintfCtx → PrintfCtx × ℕ
unfolding dst_append_c
print_sign s c =
    if s.is_neg_sign
    then (dst_append_c 0x2d c, 1)
    else if c.flag_plus
    then (dst_append_c 0x2b c, 1)
    else if c.flag_space
    then (dst_append_c 0x20 c, 1)
    else (c, 0)

unfoldable pub print_fn_number_10 : PrintfCtx → PrintNumSpec → Option PrintfCtx
unfolding dst_memset print_sign print_fn_number_10_div
print_fn_number_10 c s =
    let (c1, taken) = print_sign s (dst_memset 0x20 s.space_padding c) in
    print_fn_number_10_div (dst_memset 0x30 (s.padding - s.space_padding) c1) (s.wordlen - taken)

abbrev pub is_no : FmtSize → Bool
is_no size_no = true
is_no size = false

unfoldable pub print_fn_number_10_u : PrintfCtx → Option PrintfCtx
unfolding print_fn_prep_spec print_fn_number_10
print_fn_number_10_u c =
    let c1 : PrintfCtx = record c { arg = if is_no c.size then c.arg % 2 ^ 32 else c.arg } in
    print_fn_prep_spec c1 false >>= print_fn_number_10 c1

abbrev pub max_bit_pos : FmtSize → ℕ
max_bit_pos size_llong = 63
max_bit_pos size_long = 63
max_bit_pos size_int64 = 63
max_bit_pos size = 31

-- whether the sign bit is set, and the context with the magnitude
unfoldable pub take_sign : PrintfCtx → Bool × PrintfCtx
take_sign c =
    let masked = c.arg % (2 * 2 ^ max_bit_pos c.size) in
    if masked / 2 ^ max_bit_pos c.size % 2 == 1
    then (
      true,
      record c { arg = (2 ^ 64 - 1 - masked + 1) % 2 ^ 64 % (2 * 2 ^ max_bit_pos c.size) },
    )
    else (false, record c { arg = masked })

unfoldable pub print_fn_number_10_d : PrintfCtx → Option PrintfCtx
unfolding take_sign print_fn_prep_spec print_fn_number_10
print_fn_number_10_d c =
    let (neg, c1) = take_sign c in print_fn_prep_spec c1 neg >>= print_fn_number_10 c1
