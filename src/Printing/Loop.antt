-- ===== src/Printing/Loop.antt =====
-- lib/stringlib/sprintf.c: the loop over the fields of a format, and `vsnprintf`.
use arm64_os.Base.Ints.{pos}
use arm64_os.Base.{
  ℕ, zero, suc, ◌+◌, ◌-◌, List, false, Option, none, some, ◌==◌, if◌then◌else◌, ◌>>=◌,
}
use arm64_os.Strings.{Memory, store}
use arm64_os.Printing.{PrintfCtx, size_no}
use arm64_os.Printing.Fields.{fmt_print_type}
use arm64_os.Printing.Format.{Parsed, stop, field, fmt_parse_token}

-- the part of a round after the token, and the rounds after it
unfoldable pub after_token : ℕ → (PrintfCtx → List ℕ → Option PrintfCtx) → Parsed → Option PrintfCtx
unfolding fmt_print_type
after_token fuel rounds (stop c) = some c
after_token fuel rounds (field c args) = fmt_print_type fuel c >>= (λ c1. rounds c1 args)

-- the loop of `__vsnprintf`
unfoldable pub vsnprintf_loop : ℕ → PrintfCtx → List ℕ → Option PrintfCtx
unfolding fmt_parse_token after_token
vsnprintf_loop zero c args = none
vsnprintf_loop (suc fuel) c args =
    let more = fmt_parse_token fuel c args >>= after_token fuel (vsnprintf_loop fuel) in
    if c.mem c.fmt == 0 then some c else more

abbrev pub start_ctx : ℕ → ℕ → ℕ → Memory → PrintfCtx
start_ctx dst dst_len fmt m = record {
  mem = m;
  fmt = fmt;
  dst = dst;
  dst_virt = dst;
  dst_end = dst + dst_len;
  flag_plus = false;
  flag_space = false;
  flag_zero = false;
  flag_left_align = false;
  flag_hex_prefix = false;
  width = pos 0;
  precision = pos 0;
  size = size_no;
  ctype = 0;
  arg = 0;
}

-- the zero after the text, or over its last byte
unfoldable pub terminate : ℕ → PrintfCtx → Memory
terminate dst_len c =
    if dst_len == 0
    then c.mem
    else if c.dst == c.dst_end
    then store (c.dst - 1) 0 c.mem
    else store c.dst 0 c.mem

-- the memory, and the result
unfoldable pub vsnprintf : ℕ → ℕ → ℕ → ℕ → List ℕ → Memory → Option (ℕ × Memory)
unfolding vsnprintf_loop terminate
vsnprintf fuel dst dst_len fmt args m = do
  c ← vsnprintf_loop fuel (start_ctx dst dst_len fmt m) args
  some (c.dst_virt - dst, terminate dst_len c)
