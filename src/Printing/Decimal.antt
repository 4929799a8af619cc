-- ===== src/Printing/Decimal.antt =====
-- What `%lld` prints of a number.
use arm64_os.Base.Ints.{negsuc}
use arm64_os.Base.Tables.{all_below, all_below_lem}
use arm64_os.Base.{
  ℕ, zero, suc, ◌+◌, ◌-◌, ◌*◌, ◌/◌, ◌%◌, ◌^◌, min, ◌≤◌, ◌<◌, ◌≡◌, ◌≢◌, refl, arith, Option, none,
  some, Bool, true, false, ltb, leb, ◌==◌, if◌then◌else◌, inl, inr, ◌∙◌, ap, Bool-cases, get_elem?,
  ◌>>=◌,
}
use arm64_os.Strings.{Memory, store, memset}
use arm64_os.Printing.{
  PrintfCtx, PrintNumSpec, size_llong, dst_append_c, dst_memset, decimal_table, round_loop,
  closest_round_base10_div, one_if, spec_of, print_fn_prep_spec, number_10_loop,
  print_fn_number_10_div, print_sign, print_fn_number_10, take_sign, print_fn_number_10_d,
}
use arm64_os.Printing.Digits.{ten_pos, ten_le, pow_ten}

is_power : ℕ → Bool
is_power k = elim (get_elem? decimal_table k) [ none ↦ false | some d ↦ d == 10 ^ k ]

powers : all_below 20 is_power ≡ true
unfolding is_power
powers = refl

power_of : (k : ℕ) → is_power k ≡ true → get_elem? decimal_table k ≡ some (10 ^ k)
unfolding is_power
power_of k h =
    elim (get_elem? decimal_table k)
        as (λ o. elim o [ none ↦ false | some d ↦ d == 10 ^ k ] ≡ true → o ≡ some (10 ^ k)) [
          | none ↦ λ e. cc
          | some d ↦ λ e. ground arith
        ]
      h

table_power : (k : ℕ) → k ≤ 18 → get_elem? decimal_table k ≡ some (10 ^ k)
table_power k h = power_of k (all_below_lem 20 is_power k powers (omega arith))

next_divider : (j : ℕ) → j ≤ 17 → 10 ^ suc j * 10 % 2 ^ 64 ≡ 10 ^ suc (suc j)
next_divider j h = omega (arith, pow_ten (suc j), ten_le (suc (suc j)) 19 (omega arith))

-- a number and its length as the loop finds it
abbrev pub HasLength : ℕ → Option ℕ → Type 0
HasLength val o = (k : ℕ) × (k ≤ 18) × (val < 10 ^ suc k) × (o ≡ some (suc k))

below_divider : (val d : ℕ) → 0 < d → val / d ≡ 0 → val < d
below_divider val d h e = grind arith

above_divider : (val d : ℕ) → 0 < d → val / d ≢ 0 → d ≤ val
above_divider val d h e = grind arith

short : (val j : ℕ) → val < 10 ^ 19 → j ≤ 18 → 10 ^ suc j ≤ val → j ≤ 17
short val j small le above = elim (Bool-cases (j == 18)) [
  | inl same ↦
      let j_is : j ≡ 18 = ground arith in
      let top : 10 ^ suc j ≡ 10 ^ 19 = ap (λ (t : ℕ). 10 ^ suc t) j_is in
      absurd (omega (arith, top))
  | inr other ↦ ground arith
]

round_loop-HasLength :
    (fuel j val : ℕ)
    → val < 10 ^ 19
    → j ≤ 18
    → 18 < fuel + j
    → HasLength val (round_loop fuel val (10 ^ suc j) (suc j))
unfolding round_loop
round_loop-HasLength zero j val small le enough = absurd (omega arith)
round_loop-HasLength (suc fuel) j val small le enough =
    let pos_d = ten_pos (suc j) in
    let going : (10 ^ suc j == 0) ≡ false = ground arith in
    elim (Bool-cases (val / 10 ^ suc j == 0)) [
      | inl ends ↦
          rw (going, ends) (j, le, below_divider val (10 ^ suc j) pos_d (ground arith), refl)
      | inr more ↦
          let above = above_divider val (10 ^ suc j) pos_d (ground arith) in
          rw (going, more, next_divider j (short val j small le above))
            (round_loop-HasLength fuel (suc j) val small (omega (arith, short val j small le above))
              (omega arith))
    ]

length_of : (val : ℕ) → val < 2 ^ 63 → HasLength val (closest_round_base10_div val)
unfolding closest_round_base10_div
length_of val h = round_loop-HasLength 65 0 val (omega arith) (omega arith) (omega arith)

-- the context of `%lld` with the number `v`, for a text at `dst`
abbrev pub lld_ctx : Memory → ℕ → ℕ → ℕ → ℕ → PrintfCtx
lld_ctx m fmt dst dst_end v = record {
  mem = m;
  fmt = fmt;
  dst = dst;
  dst_virt = dst;
  dst_end = dst_end;
  flag_plus = false;
  flag_space = false;
  flag_zero = false;
  flag_left_align = false;
  flag_hex_prefix = false;
  width = negsuc 0;
  precision = negsuc 0;
  size = size_llong;
  ctype = 0x64;
  arg = v;
}

-- the sign in front
abbrev pub signed_ctx : Bool → Memory → ℕ → ℕ → ℕ → ℕ → PrintfCtx
signed_ctx false m fmt dst dst_end v = lld_ctx m fmt dst dst_end v
signed_ctx true m fmt dst dst_end v = record (lld_ctx m fmt dst dst_end v) {
  mem = store dst 0x2d m;
  dst = suc dst;
  dst_virt = suc dst;
}

dst_memset-none : (val : ℕ) (c : PrintfCtx) → dst_memset val 0 c ≡ c
unfolding dst_memset memset
dst_memset-none val c =
    let nothing : min 0 (c.dst_end - c.dst) ≡ 0 = omega arith in
    let same_dst : c.dst + 0 ≡ c.dst = omega arith in
    let same_virt : c.dst_virt + 0 ≡ c.dst_virt = omega arith in
    rw (nothing, same_dst, same_virt) refl

spec_of-lld :
    (m : Memory) (fmt dst dst_end v n : ℕ) (neg : Bool)
    → spec_of (lld_ctx m fmt dst dst_end v) neg n
      ≡ record { space_padding = 0; padding = 0; wordlen = n + one_if neg; is_neg_sign = neg }
unfolding spec_of
spec_of-lld m fmt dst dst_end v n true = ground arith
spec_of-lld m fmt dst dst_end v n false = ground arith

-- the specification of `%lld` for a number of `n` characters
abbrev lld_spec : Bool → ℕ → PrintNumSpec
lld_spec neg n = record { space_padding = 0; padding = 0; wordlen = n; is_neg_sign = neg }

sign_after :
    (neg : Bool) (m : Memory) (fmt dst dst_end v n : ℕ)
    → dst < dst_end
    → print_sign (lld_spec neg n) (lld_ctx m fmt dst dst_end v)
      ≡ (signed_ctx neg m fmt dst dst_end v, one_if neg)
unfolding print_sign dst_append_c
sign_after true m fmt dst dst_end v n room =
    let fits : ltb dst dst_end ≡ true = ground arith in rw fits refl
sign_after false m fmt dst dst_end v n room = refl

digits_left : (neg : Bool) (k : ℕ) → suc k + one_if neg - one_if neg - 1 ≡ k
digits_left true k = omega arith
digits_left false k = omega arith

printed_by :
    (s : PrintNumSpec) (c c1 c2 c3 : PrintfCtx) (taken : ℕ)
    → dst_memset 0x20 s.space_padding c ≡ c1
    → print_sign s c1 ≡ (c2, taken)
    → dst_memset 0x30 (s.padding - s.space_padding) c2 ≡ c3
    → print_fn_number_10 c s ≡ print_fn_number_10_div c3 (s.wordlen - taken)
unfolding print_fn_number_10
printed_by s c c1 c2 c3 taken e1 e2 e3 =
    let zeroes = s.padding - s.space_padding in
    ap
      (λ (x : PrintfCtx).
        print_fn_number_10_div (dst_memset 0x30 zeroes (print_sign s x).0)
          (s.wordlen - (print_sign s x).1))
      e1
    ∙ ap
        (λ (r : PrintfCtx × ℕ).
          print_fn_number_10_div (dst_memset 0x30 zeroes r.0) (s.wordlen - r.1))
        e2
    ∙ ap (λ (x : PrintfCtx). print_fn_number_10_div x (s.wordlen - taken)) e3

printed_as :
    (neg : Bool) (m : Memory) (fmt dst dst_end v k : ℕ)
    → dst < dst_end
    → k ≤ 18
    → print_fn_number_10 (lld_ctx m fmt dst dst_end v) (lld_spec neg (suc k + one_if neg))
      ≡ some (number_10_loop 20 (10 ^ k) (signed_ctx neg m fmt dst dst_end v))
unfolding print_fn_number_10_div
printed_as neg m fmt dst dst_end v k room small =
    printed_by (lld_spec neg (suc k + one_if neg)) (lld_ctx m fmt dst dst_end v) _ _ _ (one_if neg)
      (dst_memset-none 0x20 (lld_ctx m fmt dst dst_end v))
      (sign_after neg m fmt dst dst_end v (suc k + one_if neg) room)
      (dst_memset-none 0x30 (signed_ctx neg m fmt dst dst_end v))
    ∙ rw (digits_left neg k, table_power k small) refl

-- the magnitude of a word of 64 bits that is not the least `long long`
abbrev pub is_negative : ℕ → Bool
is_negative w = leb (2 ^ 63) w

take_sign-lld :
    (m : Memory) (fmt dst dst_end w : ℕ)
    → w < 2 ^ 64
    → take_sign (lld_ctx m fmt dst dst_end w)
      ≡ (is_negative w, lld_ctx m fmt dst dst_end (if is_negative w then 2 ^ 64 - w else w))
unfolding take_sign
take_sign-lld m fmt dst dst_end w small = elim (Bool-cases (leb (2 ^ 63) w)) [
  | inl neg ↦
      let whole : w % (2 * 2 ^ 63) ≡ w = omega arith in
      let top : (w / 2 ^ 63 % 2 == 1) ≡ true = ground arith in
      let mag : (2 ^ 64 - 1 - w + 1) % 2 ^ 64 % (2 * 2 ^ 63) ≡ 2 ^ 64 - w = ground arith in
      rw (whole, top, mag, neg) refl
  | inr not_neg ↦
      let whole : w % (2 * 2 ^ 63) ≡ w = omega arith in
      let top : (w / 2 ^ 63 % 2 == 1) ≡ false = ground arith in rw (whole, top, not_neg) refl
]

-- What `%lld` prints: the sign, then the digits of the magnitude.
pub print_fn_number_10_d-lld :
    (m : Memory) (fmt dst dst_end w : ℕ)
    → w < 2 ^ 64
    → w ≢ 2 ^ 63
    → dst < dst_end
    → (k : ℕ) × (k ≤ 18)
      × ((if is_negative w then 2 ^ 64 - w else w) < 10 ^ suc k)
      × (print_fn_number_10_d (lld_ctx m fmt dst dst_end w)
          ≡ some (
              number_10_loop 20 (10 ^ k) (
                signed_ctx
                  (is_negative w)
                  m
                  fmt
                  dst
                  dst_end
                  (if is_negative w then 2 ^ 64 - w else w))))
unfolding print_fn_number_10_d print_fn_prep_spec
print_fn_number_10_d-lld m fmt dst dst_end w small proper room =
    let v = if is_negative w then 2 ^ 64 - w else w in
    let neg = is_negative w in
    let (k, le, below, found) = length_of v (ground arith) in
    (
      k,
      le,
      below,
      ap (λ (r : Bool × PrintfCtx). print_fn_prep_spec r.1 r.0 >>= print_fn_number_10 r.1)
            (take_sign-lld m fmt dst dst_end w small)
          ∙ ap
              (λ (o : Option ℕ).
                o
                >>= (λ n. some (spec_of (lld_ctx m fmt dst dst_end v) neg n))
                >>= print_fn_number_10 (lld_ctx m fmt dst dst_end v))
              found
          ∙ ap (print_fn_number_10 (lld_ctx m fmt dst dst_end v))
              (spec_of-lld m fmt dst dst_end v (suc k) neg)
          ∙ printed_as neg m fmt dst dst_end v k room le,
    )
