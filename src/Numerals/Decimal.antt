-- ===== src/Numerals/Decimal.antt =====
-- What `strtoll` makes of a decimal number, and of a number that starts with 0.
use arm64_os.Base.{
  ℕ, zero, suc, ◌+◌, ◌%◌, ◌^◌, ◌≤◌, ◌<◌, ◌≡◌, ◌≢◌, refl, arith, Bool, true, false, none, some, ◌==◌,
  ◌⊎◌, inl, inr, ◌∙◌, ap, sym, subst,
}
use arm64_os.Strings.{Memory, isspace}
use arm64_os.Numerals.{
  skip_whitespaces, check_sign, is_x, detect_basis, is_digit_in, count_digits, value_10,
  digits_value, after_prefix, negate_if, signed_value, strtoll,
}
use arm64_os.Numerals.Digits.{decimal, back_10-decimal}

abbrev pub AreDigits : Memory → ℕ → ℕ → Type 0
AreDigits m p zero = Unit
AreDigits m p (suc n) = (0x30 ≤ m p) × (m p ≤ 0x39) × AreDigits m (suc p) n

-- a byte that is no digit
abbrev pub IsEnd : Memory → ℕ → Type 0
IsEnd m q = (m q < 0x30) ⊎ ((0x39 < m q) × (m q < 256))

-- a minus sign or none, with the digits at `p`
abbrev pub HasSign : Bool → Memory → ℕ → ℕ → Type 0
HasSign false m str p = p ≡ str
HasSign true m str p = (m str ≡ 0x2d) × (p ≡ suc str)

digit_in : (c : ℕ) → 0x30 ≤ c → c ≤ 0x39 → is_digit_in 10 c ≡ true
unfolding is_digit_in
digit_in c lo hi = ground arith

digit_out : (c : ℕ) → (c < 0x30) ⊎ ((0x39 < c) × (c < 256)) → is_digit_in 10 c ≡ false
unfolding is_digit_in
digit_out c (inl lt) = ground arith
digit_out c (inr gt) = ground arith

count_end : (fuel : ℕ) (m : Memory) (p : ℕ) → IsEnd m p → count_digits 10 (suc fuel) m p ≡ some 0
unfolding count_digits
count_end fuel m p e = let out = digit_out (m p) e in ground arith

count_step :
    (fuel n : ℕ) (m : Memory) (p : ℕ)
    → 0x30 ≤ m p
    → m p ≤ 0x39
    → count_digits 10 fuel m (suc p) ≡ some n
    → count_digits 10 (suc fuel) m p ≡ some (suc n)
unfolding count_digits
count_step fuel n m p lo hi e =
    let more : (m p == 0) ≡ false = ground arith in rw (more, digit_in (m p) lo hi, e) refl

count_digits-eq :
    (n fuel : ℕ) (m : Memory) (p : ℕ)
    → AreDigits m p n
    → IsEnd m (p + n)
    → n < fuel
    → count_digits 10 fuel m p ≡ some n
count_digits-eq n zero m p d e lt = absurd (omega arith)
count_digits-eq zero (suc fuel) m p d e lt = count_end fuel m p (subst (IsEnd m) (omega arith) e)
count_digits-eq (suc n) (suc fuel) m p d e lt =
    count_step fuel n m p d.0 d.1
      (count_digits-eq n fuel m (suc p) d.2 (subst (IsEnd m) (omega arith) e) (omega arith))

value_10-decimal :
    (n fuel : ℕ) (m : Memory) (p : ℕ)
    → AreDigits m p n
    → IsEnd m (p + n)
    → n < fuel
    → value_10 fuel m p ≡ some (decimal m p n % 2 ^ 64, p + n)
unfolding value_10
value_10-decimal n fuel m p d e lt =
    rw (count_digits-eq n fuel m p d e lt)
      (ap (λ r. some (r, p + n)) (back_10-decimal m p n 1 0 (omega arith) ∙ omega arith))

no_space : (fuel : ℕ) (m : Memory) (p : ℕ) → 0x21 ≤ m p → skip_whitespaces (suc fuel) m p ≡ some p
unfolding skip_whitespaces isspace
no_space fuel m p h = ground arith

sign_of :
    (neg : Bool) (m : Memory) (str p : ℕ)
    → HasSign neg m str p
    → 0x30 ≤ m p
    → check_sign m str ≡ (neg, p)
unfolding check_sign
sign_of false m str p h lo = ground arith
sign_of true m str p h lo = ground arith

starts_dark :
    (neg : Bool) (m : Memory) (str p : ℕ) → HasSign neg m str p → 0x30 ≤ m p → 0x21 ≤ m str
starts_dark false m str p h lo = ground arith
starts_dark true m str p h lo = ground arith

after_basis :
    (fuel basis : ℕ) (m : Memory) (str p : ℕ)
    → (basis ≡ 10) ⊎ ((basis ≡ 0) × (m p ≢ 0x30))
    → after_prefix fuel (detect_basis m p basis) m str p ≡ value_10 fuel m p
unfolding after_prefix detect_basis digits_value
after_basis fuel basis m str p (inl ten) = rw ten refl
after_basis fuel basis m str p (inr (auto, nonzero)) =
    let other : (m p == 0x30) ≡ false = ground arith in rw (auto, other) refl

-- A decimal number of at least one digit, with a minus sign or none, is read as its value modulo 2^64,
-- and the end that is returned is that of its digits: with basis 10, and with basis 0 if it does not
-- start with the digit 0.
pub strtoll-decimal :
    (neg : Bool) (basis fuel n : ℕ) (m : Memory) (str p : ℕ)
    → (basis ≡ 10) ⊎ ((basis ≡ 0) × (m p ≢ 0x30))
    → HasSign neg m str p
    → AreDigits m p (suc n)
    → IsEnd m (p + suc n)
    → suc n < fuel
    → strtoll fuel str basis m ≡ some (negate_if neg (decimal m p (suc n) % 2 ^ 64), p + suc n)
unfolding strtoll signed_value
strtoll-decimal neg basis zero n m str p b s d e lt = absurd (omega arith)
strtoll-decimal neg basis (suc fuel) n m str p b s d e lt =
    rw
      (
        no_space fuel m str (starts_dark neg m str p s d.0),
        sign_of neg m str p s d.0,
        after_basis (suc fuel) basis m str p b,
        value_10-decimal (suc n) (suc fuel) m p d e lt,
      )
      refl

strtoll_no_fuel : (m : Memory) (str basis : ℕ) → strtoll 0 str basis m ≡ none
unfolding strtoll skip_whitespaces
strtoll_no_fuel m str basis = refl

detect_zero :
    (m : Memory) (p : ℕ)
    → m p ≡ 0x30
    → is_x (m (p + 1)) ≡ false
    → detect_basis m p 0 ≡ detect_basis m p 2
unfolding detect_basis
detect_zero m p h x = rw (h, x) refl

signed_zero :
    (neg : Bool) (fuel : ℕ) (m : Memory) (str p : ℕ)
    → HasSign neg m str p
    → m p ≡ 0x30
    → is_x (m (p + 1)) ≡ false
    → signed_value fuel str 0 m str ≡ signed_value fuel str 2 m str
unfolding signed_value
signed_zero neg fuel m str p s h x =
    rw (sign_of neg m str p s (omega arith), detect_zero m p h x) refl

-- With basis 0, a number that starts with the digit 0 and no x after it is read as a binary number.
pub strtoll_leading_zero :
    (neg : Bool) (fuel : ℕ) (m : Memory) (str p : ℕ)
    → HasSign neg m str p
    → m p ≡ 0x30
    → is_x (m (p + 1)) ≡ false
    → strtoll fuel str 0 m ≡ strtoll fuel str 2 m
unfolding strtoll
strtoll_leading_zero neg zero m str p s h x =
    strtoll_no_fuel m str 0 ∙ sym (strtoll_no_fuel m str 2)
strtoll_leading_zero neg (suc fuel) m str p s h x =
    rw (no_space fuel m str (starts_dark neg m str p s (omega arith)))
      (signed_zero neg (suc fuel) m str p s h x)
