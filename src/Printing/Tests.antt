-- ===== src/Printing/Tests.antt =====
-- Runs with the format at 0x1000 and the text at 8.
use arm64_os.Base.Ints.{int_of_word, sign_extend_32, signed_div_64}
use arm64_os.Base.{
  ℕ, ◌+◌, ◌-◌, ◌^◌, ◌≡◌, refl, arith, List, [], ◌∷◌, Option, none, some, leb, if◌then◌else◌, get_or,
  ◌>>=◌, inr,
}
use arm64_os.Strings.{Memory, memcpy, memset, memcpy_8aligned, copy_rest, copy_els, isprint}
use arm64_os.Numerals.{strtoll}
use arm64_os.Printing.{
  to_char_16, to_char_8_10, dst_append_c, dst_append_s, dst_memset, round_loop,
  closest_round_base10_div, spec_of, print_fn_prep_spec, number_10_loop, print_fn_number_10_div,
  print_sign, print_fn_number_10, print_fn_number_10_u, take_sign, print_fn_number_10_d,
}
use arm64_os.Printing.Fields.{
  clz, leading_zeroes, rightmost_nibble, nibbles, hex_spaces, append_prefix, print_fn_number_16,
  printf_strlcpy, count_text, print_fn_string, print_fn_char, print_fn_address, printf_fn_map,
  fmt_print_type,
}
use arm64_os.Printing.Format.{
  mem_find_any_byte_of_2, find_special_or_null, dst_memcpy, fmt_skip_to_special, fmt_handle_flag,
  read_digits, va_arg, star_argument, fmt_handle_star_or_digit, double_size, fmt_handle_size,
  arg_of, fmt_parse_field, fmt_parse_flags, parse_special, fmt_parse_token,
}
use arm64_os.Printing.Loop.{after_token, vsnprintf_loop, terminate, vsnprintf}
use arm64_os.Printing.Outside.{Outside}
use arm64_os.Printing.Bounds.{HasEnd}
use arm64_os.Printing.Truncated.{vsnprintf_lld_bounds}
use arm64_os.Printing.RoundTrip.{vsnprintf-strtoll}

abbrev with_format : List ℕ → Memory
with_format text p = if leb 0x1000 p then get_or text (p - 0x1000) 0 else 0xff

-- the result and the first six bytes of the text
abbrev printed : ℕ → List ℕ → List ℕ → Option (ℕ × List ℕ)
printed room text args =
    vsnprintf 40 8 room 0x1000 args (with_format text)
    >>= (λ r. some (r.0, r.1 8 ∷ r.1 9 ∷ r.1 10 ∷ r.1 11 ∷ r.1 12 ∷ r.1 13 ∷ []))

prints_int :
    printed 20 (97 ∷ 61 ∷ 37 ∷ 100 ∷ 46 ∷ []) (345 ∷ [])
    ≡ some (6, 97 ∷ 61 ∷ 51 ∷ 52 ∷ 53 ∷ 46 ∷ [])
unfolding int_of_word sign_extend_32 signed_div_64 memcpy memset memcpy_8aligned copy_rest copy_els
    isprint to_char_16 to_char_8_10 dst_append_c dst_append_s dst_memset round_loop
    closest_round_base10_div spec_of print_fn_prep_spec number_10_loop print_fn_number_10_div
    print_sign print_fn_number_10 print_fn_number_10_u take_sign print_fn_number_10_d clz
    leading_zeroes rightmost_nibble nibbles hex_spaces append_prefix print_fn_number_16
    printf_strlcpy count_text print_fn_string print_fn_char print_fn_address printf_fn_map
    fmt_print_type mem_find_any_byte_of_2 find_special_or_null dst_memcpy fmt_skip_to_special
    fmt_handle_flag read_digits va_arg star_argument fmt_handle_star_or_digit double_size
    fmt_handle_size arg_of fmt_parse_field fmt_parse_flags parse_special fmt_parse_token after_token
    vsnprintf_loop terminate vsnprintf
prints_int = refl

pads_with_spaces :
    printed 20 (37 ∷ 52 ∷ 100 ∷ []) ((2 ^ 64 - 7) ∷ []) ≡ some (4, 32 ∷ 32 ∷ 45 ∷ 55 ∷ 0 ∷ 255 ∷ [])
unfolding int_of_word sign_extend_32 signed_div_64 memcpy memset memcpy_8aligned copy_rest copy_els
    isprint to_char_16 to_char_8_10 dst_append_c dst_append_s dst_memset round_loop
    closest_round_base10_div spec_of print_fn_prep_spec number_10_loop print_fn_number_10_div
    print_sign print_fn_number_10 print_fn_number_10_u take_sign print_fn_number_10_d clz
    leading_zeroes rightmost_nibble nibbles hex_spaces append_prefix print_fn_number_16
    printf_strlcpy count_text print_fn_string print_fn_char print_fn_address printf_fn_map
    fmt_print_type mem_find_any_byte_of_2 find_special_or_null dst_memcpy fmt_skip_to_special
    fmt_handle_flag read_digits va_arg star_argument fmt_handle_star_or_digit double_size
    fmt_handle_size arg_of fmt_parse_field fmt_parse_flags parse_special fmt_parse_token after_token
    vsnprintf_loop terminate vsnprintf
pads_with_spaces = refl

prints_pointer :
    printed 20 (37 ∷ 112 ∷ []) (0xab ∷ []) ≡ some (4, 48 ∷ 120 ∷ 97 ∷ 98 ∷ 0 ∷ 255 ∷ [])
unfolding int_of_word sign_extend_32 signed_div_64 memcpy memset memcpy_8aligned copy_rest copy_els
    isprint to_char_16 to_char_8_10 dst_append_c dst_append_s dst_memset round_loop
    closest_round_base10_div spec_of print_fn_prep_spec number_10_loop print_fn_number_10_div
    print_sign print_fn_number_10 print_fn_number_10_u take_sign print_fn_number_10_d clz
    leading_zeroes rightmost_nibble nibbles hex_spaces append_prefix print_fn_number_16
    printf_strlcpy count_text print_fn_string print_fn_char print_fn_address printf_fn_map
    fmt_print_type mem_find_any_byte_of_2 find_special_or_null dst_memcpy fmt_skip_to_special
    fmt_handle_flag read_digits va_arg star_argument fmt_handle_star_or_digit double_size
    fmt_handle_size arg_of fmt_parse_field fmt_parse_flags parse_special fmt_parse_token after_token
    vsnprintf_loop terminate vsnprintf
prints_pointer = refl

cuts_text :
    printed 6 (97 ∷ 98 ∷ 99 ∷ 100 ∷ 101 ∷ 102 ∷ 37 ∷ 100 ∷ []) (12345 ∷ [])
    ≡ some (11, 97 ∷ 98 ∷ 99 ∷ 100 ∷ 101 ∷ 0 ∷ [])
unfolding int_of_word sign_extend_32 signed_div_64 memcpy memset memcpy_8aligned copy_rest copy_els
    isprint to_char_16 to_char_8_10 dst_append_c dst_append_s dst_memset round_loop
    closest_round_base10_div spec_of print_fn_prep_spec number_10_loop print_fn_number_10_div
    print_sign print_fn_number_10 print_fn_number_10_u take_sign print_fn_number_10_d clz
    leading_zeroes rightmost_nibble nibbles hex_spaces append_prefix print_fn_number_16
    printf_strlcpy count_text print_fn_string print_fn_char print_fn_address printf_fn_map
    fmt_print_type mem_find_any_byte_of_2 find_special_or_null dst_memcpy fmt_skip_to_special
    fmt_handle_flag read_digits va_arg star_argument fmt_handle_star_or_digit double_size
    fmt_handle_size arg_of fmt_parse_field fmt_parse_flags parse_special fmt_parse_token after_token
    vsnprintf_loop terminate vsnprintf
cuts_text = refl

no_hex_of_zero : printed 20 (37 ∷ 120 ∷ []) (0 ∷ []) ≡ none
unfolding int_of_word sign_extend_32 signed_div_64 memcpy memset memcpy_8aligned copy_rest copy_els
    isprint to_char_16 to_char_8_10 dst_append_c dst_append_s dst_memset round_loop
    closest_round_base10_div spec_of print_fn_prep_spec number_10_loop print_fn_number_10_div
    print_sign print_fn_number_10 print_fn_number_10_u take_sign print_fn_number_10_d clz
    leading_zeroes rightmost_nibble nibbles hex_spaces append_prefix print_fn_number_16
    printf_strlcpy count_text print_fn_string print_fn_char print_fn_address printf_fn_map
    fmt_print_type mem_find_any_byte_of_2 find_special_or_null dst_memcpy fmt_skip_to_special
    fmt_handle_flag read_digits va_arg star_argument fmt_handle_star_or_digit double_size
    fmt_handle_size arg_of fmt_parse_field fmt_parse_flags parse_special fmt_parse_token after_token
    vsnprintf_loop terminate vsnprintf
no_hex_of_zero = refl

abbrev lld : Memory
lld = with_format (37 ∷ 108 ∷ 108 ∷ 100 ∷ [])

vsnprintf-strtoll_example :
    (n : ℕ) × (m' : Memory) × (vsnprintf 2 8 32 0x1000 ((2 ^ 64 - 345) ∷ []) lld ≡ some (n, m'))
    × (strtoll 21 8 10 m' ≡ some (2 ^ 64 - 345, 8 + n))
vsnprintf-strtoll_example =
    vsnprintf-strtoll 0 21 lld 0x1000 8 32 (2 ^ 64 - 345) (refl, refl, refl, refl, refl)
      (inr (omega arith)) (omega arith) (omega arith) (omega arith) (omega arith)

vsnprintf_lld_bounds_example :
    (n : ℕ) × (m' : Memory) × (vsnprintf 2 8 3 0x1000 ((2 ^ 64 - 345) ∷ []) lld ≡ some (n, m'))
    × Outside 8 3 lld m'
    × HasEnd 8 3 m'
vsnprintf_lld_bounds_example =
    vsnprintf_lld_bounds 0 lld 0x1000 8 3 (2 ^ 64 - 345) (refl, refl, refl, refl, refl)
      (inr (omega arith)) (omega arith) (omega arith) (omega arith)
