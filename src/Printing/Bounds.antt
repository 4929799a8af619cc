-- ===== src/Printing/Bounds.antt =====
-- `vsnprintf` of lib/stringlib/sprintf.c writes inside of its room only.
use arm64_os.Base.{
  ℕ, zero, suc, ◌+◌, ◌-◌, ◌≤◌, ◌<◌, ◌≡◌, ◌≢◌, refl, arith, List, min, Option, ◌==◌, ◌⊎◌, inl, inr,
  ◌∙◌, Bool-cases,
}
use arm64_os.Strings.{Memory, store, memcpy}
use arm64_os.Printing.{PrintfCtx}
use arm64_os.Printing.Fields.{fmt_print_type}
use arm64_os.Printing.Format.{
  find_special_or_null, dst_memcpy, fmt_skip_to_special, fmt_parse_flags, fmt_parse_field,
  fmt_handle_star_or_digit, fmt_handle_size, va_arg, Token, Parsed, stop, field, parse_special,
  fmt_parse_token,
}
use arm64_os.Printing.Loop.{after_token, vsnprintf_loop, start_ctx, terminate, vsnprintf}
use arm64_os.Printing.Outside.{
  AllSome, AllSome-bind, if_cases, Outside, IsOut, store-Outside, memcpy-Outside,
}
use arm64_os.Printing.Inside.{IsInside, IsInside-moved, MayInside, anything}
use arm64_os.Printing.Printers.{fmt_print_type-MayInside}

module _ (m0 : Memory) (lo hi : ℕ) where
  dst_memcpy-MayInside :
      (src len : ℕ) (c : PrintfCtx)
      → IsInside m0 lo hi c
      → MayInside m0 lo hi (dst_memcpy src len c)
  unfolding dst_memcpy
  dst_memcpy-MayInside src len c h =
      let (ends, above, below, same) = h in
      let n = min len (c.dst_end - c.dst) in
      AllSome-bind (Outside c.dst n c.mem) (IsInside m0 lo hi) (memcpy c.dst src n c.mem) _
        (memcpy-Outside c.dst src n c.mem)
        (λ m out.
          IsInside-moved m0 lo hi c
            (record c { mem = m; dst = c.dst + n; dst_virt = c.dst_virt + n }) n h (omega arith)
            refl (omega arith) (omega arith) out)

  abbrev ParsedInside : Parsed → Type 0
  ParsedInside (stop c) = IsInside m0 lo hi c
  ParsedInside (field c args) = IsInside m0 lo hi c

  skipped-IsInside :
      (fuel : ℕ) (c : PrintfCtx)
      → IsInside m0 lo hi c
      → AllSome (λ (r : ℕ × PrintfCtx). IsInside m0 lo hi r.1) (fmt_skip_to_special fuel c)
  unfolding fmt_skip_to_special
  skipped-IsInside fuel c h =
      AllSome-bind (λ p. Unit) (λ (r : ℕ × PrintfCtx). IsInside m0 lo hi r.1)
        (find_special_or_null fuel c.fmt (c.fmt + 512) c.mem) _ (anything _)
        (λ p u.
          AllSome-bind (IsInside m0 lo hi) (λ (r : ℕ × PrintfCtx). IsInside m0 lo hi r.1)
            (dst_memcpy c.fmt (p - c.fmt) c) _ (dst_memcpy-MayInside c.fmt (p - c.fmt) c h)
            (λ c1 inside. inside))

  field-IsInside :
      (fuel : ℕ) (c : PrintfCtx) (t : Token)
      → IsInside m0 lo hi c
      → AllSome (λ (r : PrintfCtx × List ℕ). IsInside m0 lo hi r.0) (fmt_parse_field fuel c t)
  unfolding fmt_parse_field
  field-IsInside fuel c t h =
      AllSome-bind (λ r. Unit) (λ (r : PrintfCtx × List ℕ). IsInside m0 lo hi r.0)
        (fmt_handle_star_or_digit fuel c.mem t) _ (anything _)
        (λ width u.
          AllSome-bind (λ r. Unit) (λ (r : PrintfCtx × List ℕ). IsInside m0 lo hi r.0)
            (fmt_handle_star_or_digit fuel c.mem width.1) _ (anything _)
            (λ precision v.
              AllSome-bind (λ r. Unit) (λ (r : PrintfCtx × List ℕ). IsInside m0 lo hi r.0)
                (va_arg (fmt_handle_size c.mem precision.1).1) _ (anything _) (λ w x. h)))

  after_token-inside :
      (fuel : ℕ) (rounds : PrintfCtx → List ℕ → Option PrintfCtx)
      → ((c : PrintfCtx) (args : List ℕ) → IsInside m0 lo hi c → MayInside m0 lo hi (rounds c args))
      → (p : Parsed) → ParsedInside p
      → MayInside m0 lo hi (after_token fuel rounds p)
  unfolding after_token
  after_token-inside fuel rounds k (stop c) h = h
  after_token-inside fuel rounds k (field c args) h =
      AllSome-bind (IsInside m0 lo hi) (IsInside m0 lo hi) (fmt_print_type fuel c)
        (λ c1. rounds c1 args) (fmt_print_type-MayInside m0 lo hi fuel c h) (λ c1. k c1 args)

  special-inside :
      (fuel : ℕ) (args : List ℕ) (special : ℕ) (c : PrintfCtx)
      → IsInside m0 lo hi c
      → AllSome ParsedInside (parse_special fuel c special args)
  unfolding parse_special fmt_parse_flags
  special-inside fuel args special c h =
      let flagged = fmt_parse_flags c special in
      let t : Token = record { special = flagged.1; fmt = flagged.0.fmt; args = args } in
      if_cases (AllSome ParsedInside) (special == 0) h (
        AllSome-bind (λ (r : PrintfCtx × List ℕ). IsInside m0 lo hi r.0) ParsedInside
          (fmt_parse_field fuel flagged.0 t) _ (field-IsInside fuel flagged.0 t h)
          (λ r later. later))

  token-inside :
      (fuel : ℕ) (c : PrintfCtx) (args : List ℕ)
      → IsInside m0 lo hi c
      → AllSome ParsedInside (fmt_parse_token fuel c args)
  unfolding fmt_parse_token
  token-inside fuel c args h =
      AllSome-bind (λ (r : ℕ × PrintfCtx). IsInside m0 lo hi r.1) ParsedInside
        (fmt_skip_to_special fuel c) _ (skipped-IsInside fuel c h)
        (λ r inside. special-inside fuel args r.0 r.1 inside)

  vsnprintf_loop-MayInside :
      (fuel : ℕ) (c : PrintfCtx) (args : List ℕ)
      → IsInside m0 lo hi c
      → MayInside m0 lo hi (vsnprintf_loop fuel c args)
  unfolding vsnprintf_loop
  vsnprintf_loop-MayInside zero c args h = tt
  vsnprintf_loop-MayInside (suc fuel) c args h =
      if_cases (MayInside m0 lo hi) (c.mem c.fmt == 0) h (
        AllSome-bind ParsedInside (IsInside m0 lo hi) (fmt_parse_token fuel c args)
          (after_token fuel (vsnprintf_loop fuel)) (token-inside fuel c args h)
          (after_token-inside fuel (vsnprintf_loop fuel) (vsnprintf_loop-MayInside fuel)))

store_at : (p v : ℕ) (m : Memory) → store p v m p ≡ v
store_at p v m = ground arith

at_end :
    (dst dst_len p q : ℕ)
    → p ≡ dst + dst_len
    → dst_len ≢ 0
    → IsOut dst dst_len q
    → IsOut (p - 1) 1 q
at_end dst dst_len p q e some_room (inl lt) = inl (omega arith)
at_end dst dst_len p q e some_room (inr le) = inr (omega arith)

in_room : (dst dst_len p q : ℕ) → dst ≤ p → p < dst + dst_len → IsOut dst dst_len q → IsOut p 1 q
in_room dst dst_len p q le lt (inl below) = inl (omega arith)
in_room dst dst_len p q le lt (inr above) = inr (omega arith)

abbrev pub HasEnd : ℕ → ℕ → Memory → Type 0
HasEnd dst dst_len m = (dst_len ≡ 0) ⊎ ((p : ℕ) × (dst ≤ p) × (p < dst + dst_len) × (m p ≡ 0))

terminate-HasEnd :
    (dst dst_len : ℕ) (m : Memory) (c : PrintfCtx)
    → IsInside m dst (dst + dst_len) c
    → Outside dst dst_len m (terminate dst_len c) × HasEnd dst dst_len (terminate dst_len c)
unfolding terminate
terminate-HasEnd dst dst_len m c (ends, above, below, same) = elim (Bool-cases (dst_len == 0)) [
  | inl empty ↦ rw empty (same, inl (ground arith))
  | inr some_room ↦ elim (Bool-cases (c.dst == c.dst_end)) [
    | inl full ↦
        let spot : c.dst ≡ dst + dst_len = ground (arith, ends) in
        let room : dst_len ≢ 0 = ground arith in
        rw (some_room, full)
          (
            λ q out.
                store-Outside (c.dst - 1) 1 0 c.mem (omega arith) q
                  (at_end dst dst_len c.dst q spot room out)
                ∙ same q out,
            inr (c.dst - 1, omega arith, omega arith, store_at (c.dst - 1) 0 c.mem),
          )
    | inr spare ↦
        let room : c.dst < dst + dst_len = ground (arith, ends) in
        rw (some_room, spare)
          (
            λ q out.
                store-Outside c.dst 1 0 c.mem (omega arith) q
                  (in_room dst dst_len c.dst q above room out)
                ∙ same q out,
            inr (c.dst, above, room, store_at c.dst 0 c.mem),
          )
  ]
]

-- Whatever the format and its arguments are, `vsnprintf` writes nothing outside of the `dst_len` bytes
-- at `dst`, if it returns; there then is a terminating zero among those, if there are any.
pub vsnprintf_bounds :
    (fuel dst dst_len fmt : ℕ) (args : List ℕ) (m : Memory)
    → AllSome
        (λ (r : ℕ × Memory). Outside dst dst_len m r.1 × HasEnd dst dst_len r.1)
        (vsnprintf fuel dst dst_len fmt args m)
unfolding vsnprintf
vsnprintf_bounds fuel dst dst_len fmt args m =
    AllSome-bind (IsInside m dst (dst + dst_len))
      (λ (r : ℕ × Memory). Outside dst dst_len m r.1 × HasEnd dst dst_len r.1)
      (vsnprintf_loop fuel (start_ctx dst dst_len fmt m) args) _
      (vsnprintf_loop-MayInside m dst (dst + dst_len) fuel (start_ctx dst dst_len fmt m) args
        (refl, omega arith, omega arith, λ q out. refl))
      (λ c inside. terminate-HasEnd dst dst_len m c inside)
