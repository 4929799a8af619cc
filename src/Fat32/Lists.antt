-- ===== src/Fat32/Lists.antt =====
-- Prefixes of sequences of sectors.
use arm64_os.Base.{ℕ, zero, suc, ◌-◌, ◌≤◌, ◌≡◌, refl, arith, List, [], ◌∷◌, ◌++◌, take, length, ap}

abbrev pub up_from : ℕ → ℕ → List ℕ
up_from a zero = []
up_from a (suc n) = a ∷ up_from (suc a) n

pub length-up_from : (a n : ℕ) → length (up_from a n) ≡ n
length-up_from a zero = refl
length-up_from a (suc n) = ap suc (length-up_from (suc a) n)

-- a prefix that takes all of the first part
pub take_past :
    (n k : ℕ) (xs ys : List ℕ) → length xs ≡ k → k ≤ n → take n (xs ++ ys) ≡ xs ++ take (n - k) ys
take_past n k [] ys e le = let same : n - k ≡ n = omega arith in rw same refl
take_past zero k (x ∷ xs) ys e le = absurd (omega arith)
take_past (suc n) zero (x ∷ xs) ys e le = absurd (omega arith)
take_past (suc n) (suc k) (x ∷ xs) ys e le =
    let same : suc n - suc k ≡ n - k = omega arith in
    rw (same, take_past n k xs ys (omega arith) (omega arith)) refl

-- a prefix of the first part
pub take-up_from : (n m a : ℕ) (ys : List ℕ) → n ≤ m → take n (up_from a m ++ ys) ≡ up_from a n
take-up_from zero m a ys le = refl
take-up_from (suc n) zero a ys le = absurd (omega arith)
take-up_from (suc n) (suc m) a ys le = ap (λ xs. a ∷ xs) (take-up_from n m (suc a) ys (omega arith))
