-- ===== src/Base/Bits.antt =====
-- `&` and `|` of words by a recursion on the count of digits: `&` is symmetric, and `|` joins fields that
-- do not overlap.
use Prim.Native.Nat.{
  ℕ, zero, suc, ◌+◌, ◌*◌, ◌/◌, ◌%◌, ◌≤◌, ◌<◌, ◌^◌, min, max, bit_and, bit_or, digits,
  bit_and-bitwise, bit_or-bitwise,
}
use mathlib.Core.Path.{◌≡◌, refl, sym, ap, ◌∙◌}
use native.Mathlib.Nat.{pow-suc}
use native.Mathlib.Omega.{arith}

abbrev word_and : ℕ → ℕ → ℕ → ℕ
word_and zero a b = 0
word_and (suc n) a b = word_and n (a / 2) (b / 2) * 2 + min (a % 2) (b % 2)

zero-word_and : (n b : ℕ) → word_and n 0 b ≡ 0
zero-word_and zero b = refl
zero-word_and (suc n) b = omega (arith, zero-word_and n (b / 2))

word_and_comm : (n a b : ℕ) → word_and n a b ≡ word_and n b a
word_and_comm zero a b = refl
word_and_comm (suc n) a b = omega (arith, word_and_comm n (a / 2) (b / 2))

digits-word_and : (m n a b : ℕ) → a ≤ m → a ≤ n → digits (λ b. zero) min m a b ≡ word_and n a b
digits-word_and zero n zero b p q = sym (zero-word_and n b)
digits-word_and zero n (suc a) b p q = absurd (omega arith)
digits-word_and (suc m) n zero b p q = sym (zero-word_and n b)
digits-word_and (suc m) zero (suc a) b p q = absurd (omega arith)
digits-word_and (suc m) (suc n) (suc a) b p q =
    omega (arith, digits-word_and m n (suc a / 2) (b / 2) (omega arith) (omega arith))

bit_and-word_and : (n a b : ℕ) → a ≤ n → bit_and a b ≡ word_and n a b
bit_and-word_and n a b h = bit_and-bitwise a b ∙ digits-word_and a n a b (omega arith) h

pub bit_and_comm : (a b : ℕ) → bit_and a b ≡ bit_and b a
bit_and_comm a b =
    bit_and-word_and (a + b) a b (omega arith)
    ∙ word_and_comm (a + b) a b
    ∙ sym (bit_and-word_and (a + b) b a (omega arith))

abbrev word_or : ℕ → ℕ → ℕ → ℕ
word_or zero a b = b
word_or (suc n) a b = word_or n (a / 2) (b / 2) * 2 + max (a % 2) (b % 2)

zero-word_or : (n b : ℕ) → word_or n 0 b ≡ b
zero-word_or zero b = refl
zero-word_or (suc n) b = omega (arith, zero-word_or n (b / 2))

word_or-zero : (n a : ℕ) → a ≤ n → word_or n a 0 ≡ a
word_or-zero zero a h = omega arith
word_or-zero (suc n) a h = omega (arith, word_or-zero n (a / 2) (omega arith))

digits-word_or : (m n a b : ℕ) → a ≤ m → a ≤ n → digits (λ b. b) max m a b ≡ word_or n a b
digits-word_or zero n zero b p q = sym (zero-word_or n b)
digits-word_or zero n (suc a) b p q = absurd (omega arith)
digits-word_or (suc m) n zero b p q = sym (zero-word_or n b)
digits-word_or (suc m) zero (suc a) b p q = absurd (omega arith)
digits-word_or (suc m) (suc n) (suc a) b p q =
    omega (arith, digits-word_or m n (suc a / 2) (b / 2) (omega arith) (omega arith))

halved : (q k : ℕ) → q * 2 ^ suc k ≡ q * 2 ^ k * 2
halved q k = grind (arith, pow-suc 2 k)

word_or_fields : (k q r n : ℕ) → r < 2 ^ k → q * 2 ^ k ≤ n → word_or n (q * 2 ^ k) r ≡ q * 2 ^ k + r
word_or_fields zero q r n hr hn =
    let none_left : r ≡ 0 = omega arith in
    rw none_left (word_or-zero n (q * 2 ^ 0) hn ∙ omega arith)
word_or_fields (suc k) q r zero hr hn = omega arith
word_or_fields (suc k) q r (suc n) hr hn =
    let half : q * 2 ^ suc k / 2 ≡ q * 2 ^ k = omega (arith, halved q k) in
    omega (
      arith,
      halved q k,
      ap (λ (t : ℕ). word_or n t (r / 2)) half,
      word_or_fields k q (r / 2) n (omega (arith, pow-suc 2 k)) (omega (arith, halved q k)),
    )

-- A field of `k` bits below another one.
pub bit_or_fields : (k q r : ℕ) → r < 2 ^ k → bit_or (q * 2 ^ k) r ≡ q * 2 ^ k + r
bit_or_fields k q r h =
    bit_or-bitwise (q * 2 ^ k) r
    ∙ digits-word_or (q * 2 ^ k) (q * 2 ^ k) (q * 2 ^ k) r (omega arith) (omega arith)
    ∙ word_or_fields k q r (q * 2 ^ k) h (omega arith)

pub zero-bit_or : (b : ℕ) → bit_or 0 b ≡ b
zero-bit_or b = bit_or-bitwise 0 b
