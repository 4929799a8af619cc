-- ===== src/Kmalloc/Log.antt =====
-- `get_biggest_log2` rounds up to a power of two.
use arm64_os.Base.{
  ℕ, zero, suc, ◌+◌, ◌-◌, ◌*◌, ◌/◌, ◌^◌, ◌≤◌, ◌<◌, ◌≡◌, arith, ltb, if◌then◌else◌, ◌∙◌, ap,
  Bool-cases, inl, inr,
}
use native.Mathlib.Nat.{pow-suc}
use arm64_os.Kmalloc.{halve, get_biggest_log2}

-- Enough fuel: the loop ends at 1, having counted the binary digits.
halve_lem :
    (n t res : ℕ)
    → 1 ≤ t
    → t ≤ n
    → (k : ℕ) × (halve n t res ≡ (1, res + k)) × (2 ^ k ≤ t) × (t < 2 ^ suc k)
unfolding halve
halve_lem zero t res lo hi = absurd (omega arith)
halve_lem (suc n) t res lo hi = elim (Bool-cases (ltb 1 t)) [
  | inr last ↦ (0, ground arith, omega arith, ground arith)
  | inl more ↦
      let (k, e, below, above) = halve_lem n (t / 2) (res + 1) (ground arith) (ground arith) in
      (
        suc k,
        rw more (e ∙ ap (λ r. (1, r)) (omega arith)),
        omega (arith, pow-suc 2 k),
        omega (arith, pow-suc 2 k, pow-suc 2 (suc k)),
      )
]

round_up :
    (num k : ℕ) → 2 ^ k < num → (if ltb (1 * 2 ^ (0 + k)) num then 0 + k + 1 else 0 + k) ≡ suc k
round_up num k h = let same : 0 + k ≡ k = omega arith in rw same (ground arith)

-- For every number from 2 on, the result is the least exponent of a power of two that is not below
-- the number.
pub get_biggest_log2_lem :
    (num : ℕ)
    → 2 ≤ num
    → (k : ℕ) × (get_biggest_log2 num ≡ suc k) × (2 ^ k < num) × (num ≤ 2 ^ suc k)
unfolding get_biggest_log2
get_biggest_log2_lem num lo =
    let (k, e, below, above) = halve_lem num (num - 1) 0 (omega arith) (omega arith) in
    (k, rw e (round_up num k (omega arith)), omega arith, omega arith)
