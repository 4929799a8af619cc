-- ===== src/Printing/Printers.antt =====
-- Every printer of lib/stringlib/sprintf.c writes inside of the room only.
use arm64_os.Base.{
  ℕ, zero, suc, ◌+◌, ◌-◌, ◌*◌, ◌/◌, ◌%◌, ◌^◌, refl, arith, List, [], ◌∷◌, true, if◌then◌else◌,
  Option, none, some, ltb, leb, ◌==◌, ◌&&◌, ◌||◌, inl, inr, Bool-cases, ◌>>=◌,
}
use arm64_os.Strings.{Memory, store, isprint}
use arm64_os.Printing.{
  FmtSize, size_no, size_long, size_llong, size_intmax, size_size_t, size_int64, size_half,
  size_hhalf, size_ptrdiff, PrintfCtx, to_char_16, dst_append_c, dst_memset,
}
use arm64_os.Printing.Fields.{
  leading_zeroes, rightmost_nibble, nibbles, hex_spaces, append_prefix, print_fn_number_16,
  printf_strlcpy, count_text, print_fn_string, print_fn_char, print_fn_address, printf_fn_map,
  to_lower, fmt_print_type,
}
use arm64_os.Printing.Outside.{
  AllSome, AllSome-bind, if_cases, store-Outside, printf_strlcpy-Outside,
}
use arm64_os.Printing.Inside.{
  IsInside, IsInside-moved, MayInside, anything, dst_append_c-IsInside, dst_append_s-IsInside,
  dst_memset-IsInside, print_fn_number_10_u-MayInside, print_fn_number_10_d-MayInside,
}

-- the text of a size that is not known
abbrev unknown : List ℕ
unknown = 0x3c ∷ 0x3e ∷ []

module _ (m0 : Memory) (lo hi : ℕ) where
  abbrev SecondInside : Option (ℕ × PrintfCtx) → Type 0
  SecondInside o = AllSome (λ r. IsInside m0 lo hi r.1) o

  counted :
      (c : PrintfCtx) (o : Option ℕ) (f : ℕ → ℕ)
      → IsInside m0 lo hi c
      → SecondInside (o >>= (λ z. some (f z, c)))
  counted c none f h = tt
  counted c (some z) f h = h

  rightmost_nibble-SecondInside :
      (c : PrintfCtx) (size : FmtSize)
      → IsInside m0 lo hi c
      → SecondInside (rightmost_nibble c size)
  unfolding rightmost_nibble
  rightmost_nibble-SecondInside c size_llong h =
      counted c (leading_zeroes 64 c.arg) (λ z. (64 - z - 1) / 4) h
  rightmost_nibble-SecondInside c size_long h =
      counted c (leading_zeroes 64 c.arg) (λ z. (64 - z - 1) / 4) h
  rightmost_nibble-SecondInside c size_no h =
      counted c (leading_zeroes 32 c.arg) (λ z. (32 - z - 1) / 4) h
  rightmost_nibble-SecondInside c size_intmax h = dst_append_s-IsInside m0 lo hi unknown c h
  rightmost_nibble-SecondInside c size_size_t h = dst_append_s-IsInside m0 lo hi unknown c h
  rightmost_nibble-SecondInside c size_int64 h = dst_append_s-IsInside m0 lo hi unknown c h
  rightmost_nibble-SecondInside c size_half h = dst_append_s-IsInside m0 lo hi unknown c h
  rightmost_nibble-SecondInside c size_hhalf h = dst_append_s-IsInside m0 lo hi unknown c h
  rightmost_nibble-SecondInside c size_ptrdiff h = dst_append_s-IsInside m0 lo hi unknown c h

  nibbles-IsInside : (n : ℕ) (c : PrintfCtx) → IsInside m0 lo hi c → IsInside m0 lo hi (nibbles n c)
  unfolding nibbles
  nibbles-IsInside zero c h = h
  nibbles-IsInside (suc n) c h =
      let ch = to_char_16 (c.arg / 2 ^ (n * 4) % 16) (if ltb c.ctype 0x61 then 1 else 0) in
      nibbles-IsInside n (dst_append_c ch c) (dst_append_c-IsInside m0 lo hi ch c h)

  append_prefix-IsInside :
      (c : PrintfCtx) → IsInside m0 lo hi c → IsInside m0 lo hi (append_prefix c)
  unfolding append_prefix
  append_prefix-IsInside c h =
      if_cases (IsInside m0 lo hi) c.flag_hex_prefix
        (dst_append_c-IsInside m0 lo hi 0x78 (dst_append_c 0x30 c)
          (dst_append_c-IsInside m0 lo hi 0x30 c h))
        h

  -- the context after the spaces, the prefix and the zeroes
  filled-IsInside :
      (c : PrintfCtx) (spaces zeroes n : ℕ)
      → IsInside m0 lo hi c
      → IsInside m0 lo hi
          (nibbles n (dst_memset 0x30 zeroes (append_prefix (dst_memset 0x20 spaces c))))
  filled-IsInside c spaces zeroes n h =
      let c1 = dst_memset 0x20 spaces c in
      nibbles-IsInside n (dst_memset 0x30 zeroes (append_prefix c1)) (
        dst_memset-IsInside m0 lo hi 0x30 zeroes (append_prefix c1)
          (append_prefix-IsInside c1 (dst_memset-IsInside m0 lo hi 0x20 spaces c h)))

  print_fn_number_16-MayInside :
      (c : PrintfCtx) → IsInside m0 lo hi c → MayInside m0 lo hi (print_fn_number_16 c)
  unfolding print_fn_number_16
  print_fn_number_16-MayInside c h =
      AllSome-bind (λ (r : ℕ × PrintfCtx). IsInside m0 lo hi r.1) (IsInside m0 lo hi)
        (rightmost_nibble c c.size) _ (rightmost_nibble-SecondInside c c.size h)
        (λ r inside.
          AllSome-bind (λ s. Unit) (IsInside m0 lo hi) (hex_spaces c (r.0 + 1) _) _ (anything _)
            (λ s u. filled-IsInside r.1 s _ (r.0 + 1) inside))

  print_fn_string-MayInside :
      (fuel : ℕ) (c : PrintfCtx) → IsInside m0 lo hi c → MayInside m0 lo hi (print_fn_string fuel c)
  unfolding print_fn_string
  print_fn_string-MayInside fuel c h =
      let (ends, above, below, same) = h in
      let room = c.dst_end - c.dst in
      let (lo1, hi1, out) = printf_strlcpy-Outside c.dst c.arg room c.mem in
      let copied = printf_strlcpy c.dst c.arg room c.mem in
      if_cases (MayInside m0 lo hi) (leb (2 ^ 31) room) tt (
        AllSome-bind (λ n. Unit) (IsInside m0 lo hi) (count_text fuel c.arg copied.1) _ (anything _)
          (λ n u.
            IsInside-moved m0 lo hi c
              (record c { mem = copied.1; dst = copied.0; dst_virt = c.dst_virt + n }) room h
              (omega arith) refl lo1 hi1 out))

  print_fn_char-IsInside :
      (c : PrintfCtx) → IsInside m0 lo hi c → IsInside m0 lo hi (print_fn_char c)
  unfolding print_fn_char
  print_fn_char-IsInside c h = elim (Bool-cases (ltb c.dst c.dst_end)) [
    | inl room ↦ rw room (
        IsInside-moved m0 lo hi c
          (record c {
            mem = store c.dst (if isprint (c.arg % 256) then c.arg % 256 else 0x2e) c.mem;
            dst = suc c.dst;
          })
          1 h (ground (arith, h.0)) refl (omega arith) (omega arith)
          (store-Outside c.dst 1 _ c.mem (omega arith)))
    | inr full ↦ rw full h
  ]

  printf_fn_map-MayInside :
      (fuel letter : ℕ) (c : PrintfCtx)
      → IsInside m0 lo hi c
      → MayInside m0 lo hi (printf_fn_map fuel letter c)
  unfolding printf_fn_map print_fn_address
  printf_fn_map-MayInside fuel letter c h =
      if_cases (MayInside m0 lo hi) (letter == 0x63) (print_fn_char-IsInside c h) (
        if_cases (MayInside m0 lo hi) ((letter == 0x64) || (letter == 0x69))
          (print_fn_number_10_d-MayInside m0 lo hi c h)
          (if_cases (MayInside m0 lo hi) (letter == 0x70)
            (print_fn_number_16-MayInside (record c { flag_hex_prefix = true }) h)
            (if_cases (MayInside m0 lo hi) (letter == 0x73) (print_fn_string-MayInside fuel c h) (
              if_cases (MayInside m0 lo hi) (letter == 0x75)
                (print_fn_number_10_u-MayInside m0 lo hi c h)
                (if_cases (MayInside m0 lo hi)
                  (((letter == 0x78) || (letter == 0x79)) || (letter == 0x7a))
                  (print_fn_number_16-MayInside c h) h)))))

  pub fmt_print_type-MayInside :
      (fuel : ℕ) (c : PrintfCtx) → IsInside m0 lo hi c → MayInside m0 lo hi (fmt_print_type fuel c)
  unfolding fmt_print_type
  fmt_print_type-MayInside fuel c h =
      if_cases (MayInside m0 lo hi) (leb 0x61 (to_lower c.ctype) && leb (to_lower c.ctype) 0x78)
        (printf_fn_map-MayInside fuel (to_lower c.ctype) c h) h
