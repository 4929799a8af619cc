-- ===== src/Numerals/Digits.antt =====
-- The backward walk over decimal digits computes the number that they write.
use arm64_os.Base.{ℕ, zero, suc, ◌+◌, ◌-◌, ◌*◌, ◌%◌, ◌^◌, ◌<◌, ◌≡◌, arith, ◌∙◌}
use arm64_os.Strings.{Memory}
use arm64_os.Numerals.{back_10}

-- the number that `n` digits at `p` write, the highest first
abbrev pub decimal : Memory → ℕ → ℕ → ℕ
decimal m p zero = 0
decimal m p (suc n) = decimal m p n * 10 + (m (p + n) - 0x30)

mul_wrap : (a v : ℕ) → a % 2 ^ 64 * v % 2 ^ 64 ≡ a * v % 2 ^ 64
mul_wrap a zero = omega arith
mul_wrap a (suc v) =
    let left : a % 2 ^ 64 * suc v ≡ a % 2 ^ 64 * v + a % 2 ^ 64 = grind arith in
    let right : a * suc v ≡ a * v + a = grind arith in omega (arith, left, right, mul_wrap a v)

wraps_once :
    (result order d v : ℕ)
    → ((result + order * d) % 2 ^ 64 + order * 10 % 2 ^ 64 * v) % 2 ^ 64
      ≡ (result + order * (v * 10 + d)) % 2 ^ 64
wraps_once result order d v =
    let spread : order * (v * 10 + d) ≡ order * 10 * v + order * d = grind arith in
    omega (arith, spread, mul_wrap (order * 10) v)

pub back_10-decimal :
    (m : Memory) (p n order result : ℕ)
    → result < 2 ^ 64
    → back_10 m p n order result ≡ (result + order * decimal m p n) % 2 ^ 64
unfolding back_10
back_10-decimal m p zero order result lt = omega arith
back_10-decimal m p (suc n) order result lt =
    back_10-decimal m p n (order * 10 % 2 ^ 64) ((result + order * (m (p + n) - 0x30)) % 2 ^ 64)
      (omega arith)
    ∙ wraps_once result order (m (p + n) - 0x30) (decimal m p n)
