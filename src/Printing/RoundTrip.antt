-- ===== src/Printing/RoundTrip.antt =====
-- A number that `snprintf` prints by `%lld` is read back by `strtoll`.
use arm64_os.Base.{
  ℕ, suc, ◌+◌, ◌-◌, ◌%◌, ◌^◌, min, ◌≤◌, ◌<◌, ◌≡◌, ◌≢◌, refl, arith, Option, some, [], ◌∷◌, Bool,
  true, false, ◌==◌, not, ◌||◌, if◌then◌else◌, ◌⊎◌, inl, inr, ◌∙◌, ap, ap₂, Bool-cases, ◌>>=◌,
}
use arm64_os.Strings.{Memory, store, copy_els, copy_rest, memcpy_8aligned, memcpy}
use arm64_os.Numerals.{strtoll}
use arm64_os.Printing.{PrintfCtx, number_10_loop, print_fn_number_10_d}
use arm64_os.Printing.Fields.{printf_fn_map, fmt_print_type}
use arm64_os.Printing.Format.{
  mem_find_any_byte_of_2, find_special_or_null, dst_memcpy, fmt_skip_to_special, fmt_handle_flag,
  fmt_parse_flags, fmt_parse_field, fmt_handle_star_or_digit, double_size, fmt_handle_size, va_arg,
  arg_of, field, parse_special, fmt_parse_token,
}
use arm64_os.Printing.Loop.{after_token, vsnprintf_loop, start_ctx, terminate, vsnprintf}
use arm64_os.Printing.ReadBack.{magnitude_back, magnitude_small, digits_at, number-IsPrinted}
use arm64_os.Printing.Decimal.{lld_ctx, signed_ctx, is_negative, print_fn_number_10_d-lld}

memcpy-nothing : (dst src : ℕ) (m : Memory) → memcpy dst src 0 m ≡ some m
unfolding memcpy memcpy_8aligned copy_rest copy_els
memcpy-nothing dst src m = elim (Bool-cases (not (dst % 8 == 0) || not (src % 8 == 0))) [
  | inl odd8 ↦ elim (Bool-cases (not (dst % 4 == 0) || not (src % 4 == 0))) [
    | inl odd4 ↦ rw (odd8, odd4) refl
    | inr even4 ↦ rw (odd8, even4) refl
  ]
  | inr even8 ↦ rw even8 refl
]

-- the format `%lld` at `fmt`
abbrev pub IsLld : Memory → ℕ → Type 0
IsLld m fmt =
    (m fmt ≡ 0x25)
    × (m (suc fmt) ≡ 0x6c)
    × (m (suc (suc fmt)) ≡ 0x6c)
    × (m (suc (suc (suc fmt))) ≡ 0x64)
    × (m (suc (suc (suc (suc fmt)))) ≡ 0)

found_percent :
    (m : Memory) (fmt : ℕ)
    → m fmt ≡ 0x25
    → mem_find_any_byte_of_2 fmt (fmt + 512 - fmt) 0 0x25 m ≡ fmt
unfolding mem_find_any_byte_of_2
found_percent m fmt h = let room : fmt + 512 - fmt ≡ suc 511 = omega arith in rw (room, h) refl

find-percent :
    (fuel : ℕ) (m : Memory) (fmt : ℕ)
    → m fmt ≡ 0x25
    → m (suc fmt) ≢ 0x25
    → find_special_or_null (suc fuel) fmt (fmt + 512) m ≡ some fmt
unfolding find_special_or_null
find-percent fuel m fmt h next =
    let next_place : fmt + 1 ≡ suc fmt = omega arith in
    let other : (m (suc fmt) == 0x25) ≡ false = ground arith in
    rw (found_percent m fmt h, next_place, other, h) refl

module _ (m : Memory) (fmt dst dst_len w : ℕ) (is_lld : IsLld m fmt) where
  memcpy_none :
      dst_memcpy fmt (fmt - fmt) (start_ctx dst dst_len fmt m) ≡ some (start_ctx dst dst_len fmt m)
  unfolding dst_memcpy
  memcpy_none =
      let nothing : min (fmt - fmt) (dst + dst_len - dst) ≡ 0 = omega arith in
      let same : dst + 0 ≡ dst = omega arith in rw (nothing, memcpy-nothing dst fmt m, same) refl

  skipped :
      (fuel : ℕ)
      → fmt_skip_to_special (suc fuel) (start_ctx dst dst_len fmt m)
        ≡ some (0x6c, start_ctx dst dst_len (suc fmt) m)
  unfolding fmt_skip_to_special
  skipped fuel =
      let (percent, letter, letter2, type_letter, end) = is_lld in
      rw (find-percent fuel m fmt percent (omega arith), memcpy_none, percent, letter) refl

  parsed :
      (fuel : ℕ)
      → parse_special fuel (start_ctx dst dst_len (suc fmt) m) 0x6c (w ∷ [])
        ≡ some (field (lld_ctx m (suc (suc (suc (suc fmt)))) dst (dst + dst_len) w) [])
  unfolding parse_special fmt_parse_flags fmt_handle_flag fmt_parse_field fmt_handle_star_or_digit
      fmt_handle_size double_size va_arg arg_of
  parsed fuel =
      let (percent, letter, letter2, type_letter, end) = is_lld in rw (letter2, type_letter) refl

  -- the round over the field, once it is printed as `c`
  pub one_field :
      (fuel : ℕ) (c : PrintfCtx)
      → print_fn_number_10_d (lld_ctx m (suc (suc (suc (suc fmt)))) dst (dst + dst_len) w) ≡ some c
      → c.mem c.fmt ≡ 0
      → vsnprintf_loop (suc (suc fuel)) (start_ctx dst dst_len fmt m) (w ∷ []) ≡ some c
  unfolding vsnprintf_loop fmt_parse_token after_token fmt_print_type printf_fn_map
  one_field fuel c printed at_end =
      let (percent, letter, letter2, type_letter, end) = is_lld in
      rw (percent, skipped fuel, parsed (suc fuel), printed, at_end) refl

terminated :
    (c : PrintfCtx) (dst_len dst : ℕ)
    → 0 < dst_len
    → c.dst < c.dst_end
    → terminate dst_len c ≡ store c.dst 0 c.mem
unfolding terminate
terminated c dst_len dst some_room spare =
    let room : (dst_len == 0) ≡ false = ground arith in
    let free : (c.dst == c.dst_end) ≡ false = ground arith in rw (room, free) refl

digits_at-le : (neg : Bool) (dst : ℕ) → (dst ≤ digits_at neg dst) × (digits_at neg dst ≤ suc dst)
digits_at-le true dst = omega arith
digits_at-le false dst = omega arith

far :
    (fmt dst dst_len : ℕ)
    → (suc (suc (suc (suc fmt))) < dst) ⊎ (dst + dst_len ≤ fmt)
    → (suc (suc (suc (suc fmt))) < dst) ⊎ (dst + dst_len ≤ suc (suc (suc (suc fmt))))
far fmt dst dst_len (inl lt) = inl lt
far fmt dst dst_len (inr le) = inr (omega arith)

-- Every `long long` but the least one is printed by `%lld` to a buffer of more than 20 bytes that the
-- format does not stand in, as a text that `strtoll` reads back with basis 10 as the same number, up to
-- its end, which is `n` bytes behind the start, `n` being the result of `vsnprintf`.
pub vsnprintf-strtoll :
    (fuel fuel' : ℕ) (m : Memory) (fmt dst dst_len w : ℕ)
    → IsLld m fmt
    → (suc (suc (suc (suc fmt))) < dst) ⊎ (dst + dst_len ≤ fmt)
    → 20 < dst_len
    → w < 2 ^ 64
    → w ≢ 2 ^ 63
    → 20 < fuel'
    → (n : ℕ) × (m' : Memory) × (vsnprintf (suc (suc fuel)) dst dst_len fmt (w ∷ []) m
        ≡ some (n, m'))
      × (strtoll fuel' dst 10 m' ≡ some (w, dst + n))
unfolding vsnprintf
vsnprintf-strtoll fuel fuel' m fmt dst dst_len w is_lld apart room small proper enough =
    let f = suc (suc (suc (suc fmt))) in
    let neg = is_negative w in
    let v = if neg then 2 ^ 64 - w else w in
    let (k, le, below, printed) =
      print_fn_number_10_d-lld m f dst (dst + dst_len) w small proper (omega arith) in
    let c = number_10_loop 20 (10 ^ k) (signed_ctx neg m f dst (dst + dst_len) v) in
    let h =
      number-IsPrinted m f dst dst_len v k fuel' is_lld.4 le below (magnitude_small w small proper)
        room enough neg (far fmt dst dst_len apart) in
    let (lo, hi) = digits_at-le neg dst in
    (
      c.dst_virt - dst,
      store c.dst 0 c.mem,
      ap (λ (o : Option PrintfCtx). o >>= (λ c. some (c.dst_virt - dst, terminate dst_len c)))
            (one_field m fmt dst dst_len w is_lld fuel c printed h.at_end)
          ∙ ap (λ (x : Memory). some (c.dst_virt - dst, x))
              (terminated c dst_len dst (omega arith) (omega (arith, h.end_moved, h.same_end))),
      h.read
          ∙ ap₂ (λ (x y : ℕ). some (x, y)) (magnitude_back w small) (omega (arith, h.virt_moved)),
    )
