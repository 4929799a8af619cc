-- ===== src/Printing/Format.antt =====
-- lib/stringlib/sprintf.c: the scan of the format. `args` are the
-- words of the argument list; what is read past its end has no value. An `int` that does not hold
-- the digits of a width has none either.
use arm64_os.Base.Ints.{ℤ, pos, negsuc, int_of_word, sign_extend_32}
use arm64_os.Base.{
  ℕ, zero, suc, ◌+◌, ◌-◌, ◌*◌, ◌^◌, min, List, [], ◌∷◌, Bool, true, false, Option, none, some, leb,
  ◌==◌, not, ◌&&◌, ◌||◌, if◌then◌else◌, ◌>>=◌,
}
use arm64_os.Strings.{Memory, memcpy}
use arm64_os.Printing.{
  FmtSize, size_no, size_long, size_llong, size_intmax, size_size_t, size_int64, size_half,
  size_hhalf, size_ptrdiff, PrintfCtx,
}

unfoldable pub mem_find_any_byte_of_2 : ℕ → ℕ → ℕ → ℕ → Memory → ℕ
mem_find_any_byte_of_2 p zero a b m = p
mem_find_any_byte_of_2 p (suc n) a b m =
    let rest = mem_find_any_byte_of_2 (suc p) n a b m in
    if (m p == a) || (m p == b) then p else rest

unfoldable pub find_special_or_null : ℕ → ℕ → ℕ → Memory → Option ℕ
unfolding mem_find_any_byte_of_2
find_special_or_null zero from end m = none
find_special_or_null (suc fuel) from end m =
    let p = mem_find_any_byte_of_2 from (end - from) 0 0x25 m in
    let rest = find_special_or_null fuel (suc p) end m in
    if not (m p == 0) && not (m (p + 1) == 0x25) then some p else if m p == 0 then some p else rest

-- `dst_virt` moves by what is copied, not by `len`.
unfoldable pub dst_memcpy : ℕ → ℕ → PrintfCtx → Option PrintfCtx
unfolding memcpy
dst_memcpy src len c =
    let op_len = min len (c.dst_end - c.dst) in
    memcpy c.dst src op_len c.mem
    >>= (λ m. some (record c { mem = m; dst = c.dst + op_len; dst_virt = c.dst_virt + op_len }))

unfoldable pub fmt_skip_to_special : ℕ → PrintfCtx → Option (ℕ × PrintfCtx)
unfolding find_special_or_null dst_memcpy
fmt_skip_to_special fuel c = do
  fmt_pos ← find_special_or_null fuel c.fmt (c.fmt + 512) c.mem
  c1 ← dst_memcpy c.fmt (fmt_pos - c.fmt) c
  let fmt1 = if c1.mem fmt_pos == 0x25 then suc fmt_pos else fmt_pos
  some (c1.mem fmt1, record c1 { fmt = fmt1 })

-- what each of the four flags tests, whichever it is
unfoldable pub fmt_handle_flag : ℕ → ℕ → Memory → Bool × ℕ × ℕ
fmt_handle_flag special fmt m =
    if special == 0x30 then (true, m (suc fmt), suc fmt) else (false, special, fmt)

abbrev pub is_digit : ℕ → Bool
is_digit ch = leb 0x30 ch && leb ch 0x39

-- the loop over the digits: the number, the byte after it and where that stands
unfoldable pub read_digits : ℕ → ℕ → ℕ → ℕ → Memory → Option (ℕ × ℕ × ℕ)
read_digits zero v special fmt m = none
read_digits (suc fuel) v special fmt m =
    let v1 = v * 10 + (special - 0x30) in
    let rest = read_digits fuel v1 (m (suc fmt)) (suc fmt) m in
    if leb (2 ^ 31) v1
    then none
    else if is_digit (m (suc fmt))
    then rest
    else some (v1, m (suc fmt), suc fmt)

pub record Token : Type 0 where
  pub special : ℕ
  pub fmt : ℕ
  pub args : List ℕ

unfoldable pub va_arg : Token → Option (ℕ × Token)
va_arg t = elim t.args [ [] ↦ none | w ∷ ws ↦ some (w, record t { args = ws }) ]

abbrev pub fetch_special : Memory → Token → Token
fetch_special m t = record t { special = m (suc t.fmt); fmt = suc t.fmt }

unfoldable pub star_argument : Memory → Token → Option (ℤ × Token)
unfolding va_arg int_of_word
star_argument m t = do (w, t1) ← va_arg t; some (int_of_word w, fetch_special m t1)

unfoldable pub fmt_handle_star_or_digit : ℕ → Memory → Token → Option (ℤ × Token)
unfolding star_argument read_digits
fmt_handle_star_or_digit fuel m t =
    if t.special == 0x2a
    then star_argument m t
    else if is_digit t.special
    then read_digits fuel 0 t.special t.fmt m
      >>= (λ r. some (pos r.0, record t { special = r.1; fmt = r.2 }))
    else some (negsuc 0, t)

-- The switch; the second part says whether the letter was one of a size and is passed. At `c` the
-- format steps back, and the case falls through.
abbrev pub size_letter : ℕ → FmtSize × Bool
size_letter ch =
    if ch == 0x63
    then (size_long, false)
    else if ch == 0x6c
    then (size_long, true)
    else if ch == 0x68
    then (size_half, true)
    else if ch == 0x6a
    then (size_intmax, true)
    else if ch == 0x7a
    then (size_size_t, true)
    else if ch == 0x74
    then (size_ptrdiff, true)
    else if ch == 0x4c
    then (size_int64, true)
    else (size_no, false)

abbrev pub pointer_size : ℕ → FmtSize → FmtSize
pointer_size ch s = if (ch == 0x70) || (ch == 0x73) then size_llong else s

-- what follows the fetch after the switch
unfoldable pub double_size : Memory → FmtSize → Token → FmtSize × Token
double_size m size_long t =
    if t.special == 0x6c
    then (size_llong, fetch_special m t)
    else (pointer_size t.special size_long, t)
double_size m size_half t =
    if t.special == 0x68
    then (size_hhalf, fetch_special m t)
    else (pointer_size t.special size_half, t)
double_size m s t = (pointer_size t.special s, t)

unfoldable pub fmt_handle_size : Memory → Token → FmtSize × Token
unfolding double_size
fmt_handle_size m t =
    let (s, passed) = size_letter t.special in
    double_size m s (if passed then fetch_special m t else t)

-- the width of what is fetched, sign-extended from an `int`
unfoldable pub arg_of : FmtSize → ℕ → ℕ
unfolding sign_extend_32
arg_of size_size_t w = w
arg_of size_long w = w
arg_of size_llong w = w
arg_of s w = sign_extend_32 w

-- the part of `fmt_parse_token` after the flags
unfoldable pub fmt_parse_field : ℕ → PrintfCtx → Token → Option (PrintfCtx × List ℕ)
unfolding fmt_handle_star_or_digit fmt_handle_size va_arg arg_of
fmt_parse_field fuel c t = do
  (width, t1) ← fmt_handle_star_or_digit fuel c.mem t
  (precision, t2) ← fmt_handle_star_or_digit fuel c.mem t1
  let sized = fmt_handle_size c.mem t2
  (w, t3) ← va_arg sized.1
  some (
    record c {
      width = width;
      precision = precision;
      size = sized.0;
      arg = arg_of sized.0 w;
      ctype = t3.special;
      fmt = suc t3.fmt;
    },
    t3.args,
  )

unfoldable pub fmt_parse_flags : PrintfCtx → ℕ → PrintfCtx × ℕ
unfolding fmt_handle_flag
fmt_parse_flags c special =
    let (zero_set, s1, f1) = fmt_handle_flag special c.fmt c.mem in
    let (left, s2, f2) = fmt_handle_flag s1 f1 c.mem in
    let (plus, s3, f3) = fmt_handle_flag s2 f2 c.mem in
    let (space, s4, f4) = fmt_handle_flag s3 f3 c.mem in
    (
      record c {
        flag_zero = zero_set;
        flag_left_align = left;
        flag_plus = plus;
        flag_space = space;
        fmt = f4;
      },
      s4,
    )

pub data Parsed : Type 0 where
  stop : PrintfCtx → Parsed
  field : PrintfCtx → List ℕ → Parsed

unfoldable pub parse_special : ℕ → PrintfCtx → ℕ → List ℕ → Option Parsed
unfolding fmt_parse_flags fmt_parse_field
parse_special fuel c special args =
    if special == 0
    then some (stop c)
    else let (c1, s) = fmt_parse_flags c special in
      fmt_parse_field fuel c1 (record { special = s; fmt = c1.fmt; args = args })
      >>= (λ r. some (field r.0 r.1))

unfoldable pub fmt_parse_token : ℕ → PrintfCtx → List ℕ → Option Parsed
unfolding fmt_skip_to_special parse_special
fmt_parse_token fuel c args = do
  (special, c1) ← fmt_skip_to_special fuel c
  parse_special fuel c1 special args
