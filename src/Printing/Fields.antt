-- ===== src/Printing/Fields.antt =====
-- lib/stringlib/sprintf.c: hexadecimal numbers, texts and characters, and the table of what prints
-- which type. A loop to the end of a text is on fuel.
use arm64_os.Base.Ints.{clamp}
use arm64_os.Base.{
  ℕ, zero, suc, ◌+◌, ◌-◌, ◌*◌, ◌/◌, ◌%◌, ◌^◌, max, [], ◌∷◌, true, Option, none, some, ltb, leb,
  ◌==◌, not, ◌&&◌, ◌||◌, if◌then◌else◌, ◌>>=◌,
}
use arm64_os.Strings.{Memory, store, isprint}
use arm64_os.Printing.{
  FmtSize, size_no, size_long, size_llong, PrintfCtx, to_char_16, dst_append_c, dst_append_s,
  dst_memset, is_minus_one, print_fn_number_10_u, print_fn_number_10_d,
}

-- the zero bits above the highest of the low `w` bits
unfoldable pub clz : ℕ → ℕ → ℕ
clz zero v = 0
clz (suc w) v = let below = clz w v in if v / 2 ^ w % 2 == 1 then 0 else suc below

-- `__builtin_clz` has no value at 0.
unfoldable pub leading_zeroes : ℕ → ℕ → Option ℕ
unfolding clz
leading_zeroes w v = if v % 2 ^ w == 0 then none else some (clz w v)

-- the index of the highest nibble, and the context after the `<>` of a size that is not known
unfoldable pub rightmost_nibble : PrintfCtx → FmtSize → Option (ℕ × PrintfCtx)
unfolding leading_zeroes dst_append_s
rightmost_nibble c size_llong = leading_zeroes 64 c.arg >>= (λ z. some ((64 - z - 1) / 4, c))
rightmost_nibble c size_long = leading_zeroes 64 c.arg >>= (λ z. some ((64 - z - 1) / 4, c))
rightmost_nibble c size_no = leading_zeroes 32 c.arg >>= (λ z. some ((32 - z - 1) / 4, c))
rightmost_nibble c size = some (0, dst_append_s (0x3c ∷ 0x3e ∷ []) c)

-- the nibbles from `n - 1` down to 0
unfoldable pub nibbles : ℕ → PrintfCtx → PrintfCtx
unfolding to_char_16 dst_append_c
nibbles zero c = c
nibbles (suc n) c =
    nibbles n
      (dst_append_c (to_char_16 (c.arg / 2 ^ (n * 4) % 16) (if ltb c.ctype 0x61 then 1 else 0)) c)

-- The spaces before the number. A negative length goes to `memset` as a huge one: `none`.
unfoldable pub hex_spaces : PrintfCtx → ℕ → ℕ → Option ℕ
hex_spaces c digits padding =
    if not (is_minus_one c.precision)
    then (if ltb padding (clamp c.precision - digits)
        then none
        else some (padding - (clamp c.precision - digits)))
    else some (if c.flag_zero then 0 else padding)

unfoldable pub append_prefix : PrintfCtx → PrintfCtx
unfolding dst_append_c
append_prefix c = if c.flag_hex_prefix then dst_append_c 0x78 (dst_append_c 0x30 c) else c

unfoldable pub print_fn_number_16 : PrintfCtx → Option PrintfCtx
unfolding rightmost_nibble hex_spaces append_prefix dst_memset nibbles
print_fn_number_16 c = do
  (r, c1) ← rightmost_nibble c c.size
  let padding0 = max (clamp c.width) (clamp c.precision) - (r + 1)
  let padding = if c.flag_hex_prefix then padding0 - 2 else padding0
  spaces ← hex_spaces c (r + 1) padding
  some (
      nibbles (r + 1)
        (dst_memset 0x30 (padding - spaces) (append_prefix (dst_memset 0x20 spaces c1))))

-- the new `dst`
unfoldable pub printf_strlcpy : ℕ → ℕ → ℕ → Memory → ℕ × Memory
printf_strlcpy dst src zero m = (dst, m)
printf_strlcpy dst src (suc n) m =
    let rest = printf_strlcpy (suc dst) (suc src) n (store dst (m src) m) in
    if m src == 0 then (dst, m) else rest

-- the walk that counts a text into `dst_virt`
unfoldable pub count_text : ℕ → ℕ → Memory → Option ℕ
count_text zero src m = none
count_text (suc fuel) src m =
    let rest = count_text fuel (suc src) m in
    if m src == 0 then some 0 else rest >>= (λ n. some (suc n))

-- The room is passed as an `int`; one that it cannot hold has no model.
unfoldable pub print_fn_string : ℕ → PrintfCtx → Option PrintfCtx
unfolding printf_strlcpy count_text
print_fn_string fuel c =
    if leb (2 ^ 31) (c.dst_end - c.dst)
    then none
    else let (dst1, m1) = printf_strlcpy c.dst c.arg (c.dst_end - c.dst) c.mem in
      count_text fuel c.arg m1
      >>= (λ n. some (record c { mem = m1; dst = dst1; dst_virt = c.dst_virt + n }))

-- `dst_virt` does not move.
unfoldable pub print_fn_char : PrintfCtx → PrintfCtx
unfolding isprint
print_fn_char c =
    let ch = if isprint (c.arg % 256) then c.arg % 256 else 0x2e in
    if ltb c.dst c.dst_end then record c { mem = store c.dst ch c.mem; dst = suc c.dst } else c

unfoldable pub print_fn_address : PrintfCtx → Option PrintfCtx
unfolding print_fn_number_16
print_fn_address c = print_fn_number_16 (record c { flag_hex_prefix = true })

-- The entry of the table at a letter; those that ignore the argument and those of floats and octal
-- numbers have an empty body.
unfoldable pub printf_fn_map : ℕ → ℕ → PrintfCtx → Option PrintfCtx
unfolding print_fn_char print_fn_number_10_d print_fn_address print_fn_string print_fn_number_10_u
    print_fn_number_16
printf_fn_map fuel letter c =
    if letter == 0x63
    then some (print_fn_char c)
    else if (letter == 0x64) || (letter == 0x69)
    then print_fn_number_10_d c
    else if letter == 0x70
    then print_fn_address c
    else if letter == 0x73
    then print_fn_string fuel c
    else if letter == 0x75
    then print_fn_number_10_u c
    else if ((letter == 0x78) || (letter == 0x79)) || (letter == 0x7a)
    then print_fn_number_16 c
    else some c

-- `c->type | 0x20`
abbrev pub to_lower : ℕ → ℕ
to_lower ch = if ch / 32 % 2 == 1 then ch else ch + 0x20

unfoldable pub fmt_print_type : ℕ → PrintfCtx → Option PrintfCtx
unfolding printf_fn_map
fmt_print_type fuel c =
    let gentype = to_lower c.ctype in
    if leb 0x61 gentype && leb gentype 0x78 then printf_fn_map fuel gentype c else some c
