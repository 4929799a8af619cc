-- ===== src/Printing/ReadBack.antt =====
-- What `strtoll` reads from a number that `%lld` has printed.
use arm64_os.Base.{
  ℕ, suc, ◌+◌, ◌-◌, ◌%◌, ◌^◌, ◌≤◌, ◌<◌, ◌≡◌, ◌≢◌, refl, arith, some, Bool, true, false, leb,
  if◌then◌else◌, ◌⊎◌, inl, inr, ◌∙◌, sym, ap, Bool-cases,
}
use arm64_os.Strings.{Memory, store}
use arm64_os.Numerals.{negate_if, strtoll}
use arm64_os.Numerals.Digits.{decimal}
use arm64_os.Numerals.Decimal.{AreDigits, HasSign, strtoll-decimal}
use arm64_os.Printing.{PrintfCtx, number_10_loop}
use arm64_os.Printing.Outside.{Outside, IsOut, store-Outside}
use arm64_os.Printing.Digits.{decimal-outside, AreDigits-outside, number_10_loop-HasDigits}
use arm64_os.Printing.Decimal.{lld_ctx, signed_ctx, is_negative}

pub magnitude_back :
    (w : ℕ)
    → w < 2 ^ 64
    → negate_if (is_negative w) ((if is_negative w then 2 ^ 64 - w else w) % 2 ^ 64) ≡ w
magnitude_back w h = elim (Bool-cases (leb (2 ^ 63) w)) [
  | inl neg ↦ let back : (2 ^ 64 - (2 ^ 64 - w) % 2 ^ 64) % 2 ^ 64 ≡ w = ground arith in rw neg back
  | inr not_neg ↦ let same : w % 2 ^ 64 ≡ w = omega arith in rw not_neg same
]

pub magnitude_small :
    (w : ℕ) → w < 2 ^ 64 → w ≢ 2 ^ 63 → (if is_negative w then 2 ^ 64 - w else w) < 2 ^ 63
magnitude_small w h proper = ground arith

HasSign-store :
    (neg : Bool) (m : Memory) (str p q : ℕ)
    → HasSign neg m str p
    → str < q
    → HasSign neg (store q 0 m) str p
HasSign-store false m str p q h lt = h
HasSign-store true m str p q h lt = (ground arith, h.1)

store_below : (m : Memory) (q p : ℕ) → p < q → store q 0 m p ≡ m p
store_below m q p h = ground arith

store_at_end : (m : Memory) (q p : ℕ) → p ≡ q → store q 0 m p ≡ 0
store_at_end m q p h = ground arith

-- a number at `dst` with its digits from `p`, once it is terminated
read_back :
    (neg : Bool) (c : PrintfCtx) (dst p k v fuel : ℕ)
    → c.dst ≡ p + suc k
    → dst ≤ p
    → HasSign neg c.mem dst p
    → AreDigits c.mem p (suc k)
    → decimal c.mem p (suc k) ≡ v
    → suc k < fuel
    → strtoll fuel dst 10 (store c.dst 0 c.mem) ≡ some (negate_if neg (v % 2 ^ 64), p + suc k)
read_back neg c dst p k v fuel end le sign digits value enough =
    let m' = store c.dst 0 c.mem in
    let same =
      λ (q : ℕ) (lo : p ≤ q) (hi : q < p + suc k). store_below c.mem c.dst q (omega arith) in
    let value' : decimal m' p (suc k) ≡ v = decimal-outside c.mem m' p (suc k) same ∙ value in
    strtoll-decimal neg 10 fuel k m' dst p (inl refl)
      (HasSign-store neg c.mem dst p c.dst sign (omega arith))
      (AreDigits-outside c.mem m' p (suc k) same digits)
      (inl (omega (arith, store_at_end c.mem c.dst (p + suc k) (sym end)))) enough
    ∙ ap (λ (x : ℕ). some (negate_if neg (x % 2 ^ 64), p + suc k)) value'

-- where the digits start
abbrev pub digits_at : Bool → ℕ → ℕ
digits_at true dst = suc dst
digits_at false dst = dst

one_later : (p k q : ℕ) → IsOut p (suc (suc k)) q → IsOut (suc p) (suc k) q
one_later p k q (inl lt) = inl (omega arith)
one_later p k q (inr le) = inr (omega arith)

sign_stored : (m : Memory) (p : ℕ) → store p 0x2d m p ≡ 0x2d
sign_stored m p = ground arith

-- what is known of the context after a number
pub record IsPrinted (c : PrintfCtx) (neg : Bool) (dst dst_len k v fuel : ℕ) : Type 0 where
  pub end_moved : c.dst ≡ digits_at neg dst + suc k
  pub virt_moved : c.dst_virt ≡ digits_at neg dst + suc k
  pub same_end : c.dst_end ≡ dst + dst_len
  pub at_end : c.mem c.fmt ≡ 0
  pub read :
      strtoll fuel dst 10 (store c.dst 0 c.mem)
      ≡ some (negate_if neg (v % 2 ^ 64), digits_at neg dst + suc k)

module _ (m : Memory) (f dst dst_len v k fuel : ℕ) (ends : m f ≡ 0) (small : k ≤ 18)
    (below : v < 10 ^ suc k) (narrow : v < 2 ^ 63) (room : 20 < dst_len) (enough : 20 < fuel) where
  untouched :
      (c : PrintfCtx) (p n : ℕ)
      → c.fmt ≡ f
      → Outside p n m c.mem
      → dst ≤ p
      → p + n ≤ dst + dst_len
      → (f < dst) ⊎ (dst + dst_len ≤ f)
      → c.mem c.fmt ≡ 0
  untouched c p n same out lo hi (inl lt) = ap c.mem same ∙ out f (inl (omega arith)) ∙ ends
  untouched c p n same out lo hi (inr ge) = ap c.mem same ∙ out f (inr (omega arith)) ∙ ends

  pub number-IsPrinted :
      (neg : Bool)
      → (f < dst) ⊎ (dst + dst_len ≤ f)
      → IsPrinted
          (number_10_loop 20 (10 ^ k) (signed_ctx neg m f dst (dst + dst_len) v))
          neg
          dst
          dst_len
          k
          v
          fuel
  number-IsPrinted false apart =
      let start = lld_ctx m f dst (dst + dst_len) v in
      let c = number_10_loop 20 (10 ^ k) start in
      let h = number_10_loop-HasDigits k 20 start small (omega arith) below narrow (omega arith) in
      record {
        end_moved = h.end_moved;
        virt_moved = h.virt_moved;
        same_end = h.same_end;
        at_end = untouched c dst (suc k) h.same_fmt h.outside (omega arith) (omega arith) apart;
        read =
            read_back false c dst dst k v fuel h.end_moved (omega arith) refl h.digits h.value
              (omega arith);
      }
  number-IsPrinted true apart =
      let start = signed_ctx true m f dst (dst + dst_len) v in
      let c = number_10_loop 20 (10 ^ k) start in
      let h = number_10_loop-HasDigits k 20 start small (omega arith) below narrow (omega arith) in
      record {
        end_moved = h.end_moved;
        virt_moved = h.virt_moved;
        same_end = h.same_end;
        at_end =
            untouched c dst (suc (suc k)) h.same_fmt
              (λ q out.
                h.outside q (one_later dst k q out)
                ∙ store-Outside dst (suc (suc k)) 0x2d m (omega arith) q out)
              (omega arith) (omega arith) apart;
        read =
            read_back true c dst (suc dst) k v fuel h.end_moved (omega arith)
              (h.outside dst (inl (omega arith)) ∙ sign_stored m dst, refl) h.digits h.value
              (omega arith);
      }
