-- ===== src/Printing/Truncated.antt =====
-- `vsnprintf` of lib/stringlib/sprintf.c with the format `%lld`, in a room that may be too small.
use arm64_os.Base.{
  ℕ, zero, suc, ◌+◌, ◌-◌, ◌/◌, ◌%◌, ◌^◌, ◌≤◌, ◌<◌, ◌≡◌, ◌≢◌, refl, arith, Option, some, [], ◌∷◌,
  Bool, true, false, ltb, ◌==◌, if◌then◌else◌, ◌⊎◌, inl, inr, ◌∙◌, ap, subst, Bool-cases, ◌>>=◌,
}
use arm64_os.Strings.{Memory}
use arm64_os.Printing.{PrintfCtx, dst_append_c, number_10_loop, to_char_8_10}
use arm64_os.Base.Ints.{signed_div_64}
use arm64_os.Printing.Loop.{terminate, vsnprintf}
use arm64_os.Printing.Outside.{AllSome, Outside}
use arm64_os.Printing.Inside.{IsInside, print_fn_number_10_d-MayInside}
use arm64_os.Printing.Bounds.{HasEnd, vsnprintf_bounds}
use arm64_os.Printing.Decimal.{lld_ctx, signed_ctx, is_negative, print_fn_number_10_d-lld}
use arm64_os.Printing.RoundTrip.{IsLld, one_field}

append_fmt : (ch : ℕ) (c : PrintfCtx) → (dst_append_c ch c).fmt ≡ c.fmt
unfolding dst_append_c
append_fmt ch c = elim (Bool-cases (ltb c.dst c.dst_end)) [
  | inl room ↦ rw room refl
  | inr full ↦ rw full refl
]

loop_fmt : (fuel divider : ℕ) (c : PrintfCtx) → (number_10_loop fuel divider c).fmt ≡ c.fmt
unfolding number_10_loop
loop_fmt zero divider c = refl
loop_fmt (suc fuel) divider c = elim (Bool-cases (divider == 0)) [
  | inl done ↦ rw done refl
  | inr more ↦
      let ch = to_char_8_10 (signed_div_64 c.arg divider % 2 ^ 32) 10 in
      rw more (
        loop_fmt fuel (divider / 10) (record (dst_append_c ch c) { arg = c.arg % divider })
        ∙ append_fmt ch c)
]

signed_fmt :
    (neg : Bool) (m : Memory) (fmt dst dst_end v : ℕ)
    → (signed_ctx neg m fmt dst dst_end v).fmt ≡ fmt
signed_fmt true m fmt dst dst_end v = refl
signed_fmt false m fmt dst dst_end v = refl

-- the format's terminator, where the room is apart from the format
abbrev end_of : ℕ → ℕ
end_of fmt = suc (suc (suc (suc fmt)))

off_room :
    (fmt dst dst_len : ℕ)
    → (end_of fmt < dst) ⊎ (dst + dst_len ≤ fmt)
    → (end_of fmt < dst) ⊎ (dst + dst_len ≤ end_of fmt)
off_room fmt dst dst_len (inl lt) = inl lt
off_room fmt dst dst_len (inr le) = inr (omega arith)

-- Every `long long` but the least one is printed by `%lld` to a buffer of any size from 1 on that the
-- format does not stand in: `vsnprintf` returns, even if the number does not fit, writes nothing
-- outside of the `dst_len` bytes at `dst`, and leaves a terminating zero among those.
pub vsnprintf_lld_bounds :
    (fuel : ℕ) (m : Memory) (fmt dst dst_len w : ℕ)
    → IsLld m fmt
    → (end_of fmt < dst) ⊎ (dst + dst_len ≤ fmt)
    → 0 < dst_len
    → w < 2 ^ 64
    → w ≢ 2 ^ 63
    → (n : ℕ) × (m' : Memory) × (vsnprintf (suc (suc fuel)) dst dst_len fmt (w ∷ []) m
        ≡ some (n, m'))
      × Outside dst dst_len m m'
      × HasEnd dst dst_len m'
unfolding vsnprintf
vsnprintf_lld_bounds fuel m fmt dst dst_len w is_lld apart room small proper =
    let f = end_of fmt in
    let neg = is_negative w in
    let v = if neg then 2 ^ 64 - w else w in
    let (k, le, below, printed) =
      print_fn_number_10_d-lld m f dst (dst + dst_len) w small proper (omega arith) in
    let start = signed_ctx neg m f dst (dst + dst_len) v in
    let c = number_10_loop 20 (10 ^ k) start in
    let inside : IsInside m dst (dst + dst_len) c =
      subst (AllSome (IsInside m dst (dst + dst_len))) printed (
        print_fn_number_10_d-MayInside m dst (dst + dst_len) (lld_ctx m f dst (dst + dst_len) w)
          (refl, omega arith, omega arith, λ q out. refl)) in
    let same_fmt : c.fmt ≡ f =
      loop_fmt 20 (10 ^ k) start ∙ signed_fmt neg m f dst (dst + dst_len) v in
    let at_end : c.mem c.fmt ≡ 0 =
      ap c.mem same_fmt ∙ inside.3 f (off_room fmt dst dst_len apart) ∙ is_lld.4 in
    let returned =
      ap (λ (o : Option PrintfCtx). o >>= (λ c. some (c.dst_virt - dst, terminate dst_len c)))
        (one_field m fmt dst dst_len w is_lld fuel c printed at_end) in
    let (out, ends) =
      subst (AllSome (λ (r : ℕ × Memory). Outside dst dst_len m r.1 × HasEnd dst dst_len r.1))
        returned (vsnprintf_bounds (suc (suc fuel)) dst dst_len fmt (w ∷ []) m) in
    (c.dst_virt - dst, terminate dst_len c, returned, out, ends)
