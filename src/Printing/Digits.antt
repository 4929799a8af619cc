-- ===== src/Printing/Digits.antt =====
-- The loop over the digits of a number writes them, the highest first.
use arm64_os.Base.Ints.{signed_div_64}
use arm64_os.Base.{
  ℕ, zero, suc, ◌+◌, ◌-◌, ◌*◌, ◌/◌, ◌%◌, ◌^◌, ◌≤◌, ◌<◌, ◌≡◌, refl, arith, true, false, ltb, ◌==◌,
  inl, inr, ◌∙◌, sym, ap, subst,
}
use arm64_os.Strings.{Memory, store}
use arm64_os.Numerals.Digits.{decimal}
use arm64_os.Numerals.Decimal.{AreDigits}
use arm64_os.Printing.{PrintfCtx, to_char_8_10, dst_append_c, number_10_loop}
use arm64_os.Printing.Outside.{Outside, IsOut, store-Outside}
use native.Mathlib.Nat.{pow-suc, pow-le-pow_right}

pub pow_ten : (k : ℕ) → 10 ^ suc k ≡ 10 * 10 ^ k
pow_ten k = grind (arith, pow-suc 10 k)

pub ten_pos : (k : ℕ) → 0 < 10 ^ k
ten_pos zero = omega arith
ten_pos (suc k) = omega (arith, pow_ten k, ten_pos k)

pub ten_le : (k n : ℕ) → k ≤ n → 10 ^ k ≤ 10 ^ n
ten_le k n h = pow-le-pow_right {n = 10} (omega arith) {i = k} {j = n} h

as_digit : (q : ℕ) → q < 10 → to_char_8_10 (q % 2 ^ 32) 10 ≡ 0x30 + q
unfolding to_char_8_10
as_digit q h = ground arith

pub quotient_lt : (a d n : ℕ) → 0 < d → a < n * d → a / d < n
quotient_lt a d n hd h = grind arith

pub rest_lt : (a d : ℕ) → 0 < d → a % d < d
rest_lt a d hd = grind arith

pub rest_eq : (a d : ℕ) → 0 < d → a / d * d + a % d ≡ a
rest_eq a d hd = grind arith

digit_char :
    (a d : ℕ)
    → d < 2 ^ 63
    → a < 2 ^ 63
    → a / d < 10
    → to_char_8_10 (signed_div_64 a d % 2 ^ 32) 10 ≡ 0x30 + a / d
unfolding to_char_8_10 signed_div_64
digit_char a d hd ha small =
    let not_a : ltb a (2 ^ 63) ≡ true = ground arith in
    let not_d : ltb d (2 ^ 63) ≡ true = ground arith in rw (not_a, not_d) (as_digit (a / d) small)

times_ten : (x y : ℕ) → x * (10 * y) ≡ x * y * 10
times_ten x y = grind arith

-- The lowest place moved to the front.
decimal-front :
    (m : Memory) (p n : ℕ) → decimal m p (suc n) ≡ (m p - 0x30) * 10 ^ n + decimal m (suc p) n
decimal-front m p zero = let same_place : p + 0 ≡ p = omega arith in omega (arith, ap m same_place)
decimal-front m p (suc n) =
    let same_place : p + suc n ≡ suc p + n = omega arith in
    let shift : (m p - 0x30) * 10 ^ suc n ≡ (m p - 0x30) * 10 ^ n * 10 =
      ap (λ (t : ℕ). (m p - 0x30) * t) (pow_ten n) ∙ times_ten (m p - 0x30) (10 ^ n) in
    omega (arith, decimal-front m p n, ap m same_place, shift)

pub decimal-outside :
    (m m' : Memory) (p n : ℕ)
    → ((q : ℕ) → p ≤ q → q < p + n → m' q ≡ m q)
    → decimal m' p n ≡ decimal m p n
decimal-outside m m' p zero h = refl
decimal-outside m m' p (suc n) h = omega (
  arith,
  decimal-outside m m' p n (λ q lo hi. h q lo (omega arith)),
  h (p + n) (omega arith) (omega arith),
)

pub AreDigits-outside :
    (m m' : Memory) (p n : ℕ)
    → ((q : ℕ) → p ≤ q → q < p + n → m' q ≡ m q)
    → AreDigits m p n
    → AreDigits m' p n
AreDigits-outside m m' p zero h d = tt
AreDigits-outside m m' p (suc n) h d =
    let same = h p (omega arith) (omega arith) in
    (
      omega (arith, same, d.0),
      omega (arith, same, d.1),
      AreDigits-outside m m' (suc p) n (λ q lo hi. h q (omega arith) (omega arith)) d.2,
    )

-- what the loop did: `n` digits that write `v`
pub record HasDigits (c c' : PrintfCtx) (n v : ℕ) : Type 0 where
  pub end_moved : c'.dst ≡ c.dst + n
  pub virt_moved : c'.dst_virt ≡ c.dst_virt + n
  pub same_end : c'.dst_end ≡ c.dst_end
  pub same_fmt : c'.fmt ≡ c.fmt
  pub outside : Outside c.dst n c.mem c'.mem
  pub digits : AreDigits c'.mem c.dst n
  pub value : decimal c'.mem c.dst n ≡ v

HasDigits-none : (c : PrintfCtx) → HasDigits c c 0 0
HasDigits-none c = record {
  end_moved = omega arith;
  virt_moved = omega arith;
  same_end = refl;
  same_fmt = refl;
  outside = λ q out. refl;
  digits = tt;
  value = refl;
}

after_first : (p n q : ℕ) → IsOut p (suc n) q → IsOut (suc p) n q
after_first p n q (inl lt) = inl (omega arith)
after_first p n q (inr le) = inr (omega arith)

-- One digit more in front.
HasDigits-front :
    (c c' : PrintfCtx) (q r n : ℕ)
    → q < 10
    → HasDigits
        (record c {
          mem = store c.dst (0x30 + q) c.mem;
          dst = suc c.dst;
          dst_virt = suc c.dst_virt;
          arg = r;
        })
        c'
        n
        r
    → HasDigits c c' (suc n) (q * 10 ^ n + r)
HasDigits-front c c' q r n small h =
    let first : c'.mem c.dst ≡ 0x30 + q = h.outside c.dst (inl (omega arith)) ∙ ground arith in
    let digit : (c'.mem c.dst - 0x30) * 10 ^ n ≡ q * 10 ^ n = ap (λ t. t * 10 ^ n) (omega arith) in
    record {
      end_moved = omega (arith, h.end_moved);
      virt_moved = omega (arith, h.virt_moved);
      same_end = h.same_end;
      same_fmt = h.same_fmt;
      outside = λ p out.
          h.outside p (after_first c.dst n p out)
          ∙ store-Outside c.dst (suc n) (0x30 + q) c.mem (omega arith) p out;
      digits = (omega arith, omega arith, h.digits);
      value = decimal-front c'.mem c.dst n ∙ omega (arith, digit, h.value);
    }

-- one round of the loop
loop_step :
    (fuel d : ℕ) (c : PrintfCtx)
    → 0 < d
    → d < 2 ^ 63
    → c.arg < 2 ^ 63
    → c.arg / d < 10
    → c.dst < c.dst_end
    → number_10_loop (suc fuel) d c
      ≡ number_10_loop fuel (d / 10) (record c {
        mem = store c.dst (0x30 + c.arg / d) c.mem;
        dst = suc c.dst;
        dst_virt = suc c.dst_virt;
        arg = c.arg % d;
      })
unfolding number_10_loop dst_append_c
loop_step fuel d c pos_d hd ha small room =
    let going : (d == 0) ≡ false = ground arith in
    let fits : ltb c.dst c.dst_end ≡ true = ground arith in
    rw (going, fits, digit_char c.arg d hd ha small) refl

loop_done : (fuel : ℕ) (c : PrintfCtx) → number_10_loop fuel 0 c ≡ c
unfolding number_10_loop
loop_done zero c = refl
loop_done (suc fuel) c = refl

-- the context after the first digit
abbrev after_digit : ℕ → PrintfCtx → PrintfCtx
after_digit d c = record c {
  mem = store c.dst (0x30 + c.arg / d) c.mem;
  dst = suc c.dst;
  dst_virt = suc c.dst_virt;
  arg = c.arg % d;
}

one_more :
    (n fuel : ℕ) (c : PrintfCtx)
    → n ≤ 18
    → c.arg < 10 ^ suc n
    → c.arg < 2 ^ 63
    → c.dst < c.dst_end
    → HasDigits
        (after_digit (10 ^ n) c)
        (number_10_loop fuel (10 ^ n / 10) (after_digit (10 ^ n) c))
        n
        (c.arg % 10 ^ n)
    → HasDigits c (number_10_loop (suc fuel) (10 ^ n) c) (suc n) c.arg
one_more n fuel c small below wide room h =
    let lead = quotient_lt c.arg (10 ^ n) 10 (ten_pos n) (omega (arith, pow_ten n)) in
    let stepped =
      loop_step fuel (10 ^ n) c (ten_pos n) (omega (arith, ten_le n 18 small)) wide lead room in
    subst (λ c'. HasDigits c c' (suc n) c.arg) (sym stepped)
      (subst (HasDigits c _ (suc n)) (rest_eq c.arg (10 ^ n) (ten_pos n))
        (HasDigits-front c _ (c.arg / 10 ^ n) (c.arg % 10 ^ n) n lead h))

-- With room for its `k + 1` digits, a number is written whole.
pub number_10_loop-HasDigits :
    (k fuel : ℕ) (c : PrintfCtx)
    → k ≤ 18
    → k < fuel
    → c.arg < 10 ^ suc k
    → c.arg < 2 ^ 63
    → c.dst + suc k ≤ c.dst_end
    → HasDigits c (number_10_loop fuel (10 ^ k) c) (suc k) c.arg
number_10_loop-HasDigits k zero c small lt below wide room = absurd (omega arith)
number_10_loop-HasDigits zero (suc fuel) c small lt below wide room =
    let rest = after_digit 1 c in
    let none_left : 0 ≡ c.arg % 1 = omega arith in
    one_more 0 fuel c small below wide (omega arith) (
      subst (λ c'. HasDigits rest c' 0 (c.arg % 1)) (sym (loop_done fuel rest))
        (subst (HasDigits rest rest 0) none_left (HasDigits-none rest)))
number_10_loop-HasDigits (suc k) (suc fuel) c small lt below wide room =
    let rest = after_digit (10 ^ suc k) c in
    let tenth : 10 ^ k ≡ 10 ^ suc k / 10 = omega (arith, pow_ten k) in
    let less = rest_lt c.arg (10 ^ suc k) (ten_pos (suc k)) in
    one_more (suc k) fuel c small below wide (omega arith) (
      subst (λ d. HasDigits rest (number_10_loop fuel d rest) (suc k) (c.arg % 10 ^ suc k)) tenth
        (number_10_loop-HasDigits k fuel rest (omega arith) (omega arith) less
          (omega (arith, less, ten_le (suc k) 18 small)) (omega arith)))
