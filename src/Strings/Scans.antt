-- ===== src/Strings/Scans.antt =====
-- Terminated strings in memory: their length and their comparison.
use arm64_os.Base.{
  ℕ, zero, suc, ◌+◌, ◌<◌, ◌≡◌, ◌≢◌, ◌↔◌, refl, arith, List, [], ◌∷◌, false, some, ◌==◌, ◌∙◌, ap,
  ap₂, length, Bool-cases, inl, inr, min,
}
use arm64_os.Strings.{Memory, diff, strlen_from, strlen, strnlen_from, strnlen, strcmp, memcmp}

-- at `p` stand the bytes of a string, none of them 0, and then a 0
abbrev pub HasString : Memory → ℕ → List ℕ → Type 0
HasString m p [] = m p ≡ 0
HasString m p (c ∷ cs) = (m p ≡ c) × (c ≢ 0) × (c < 256) × HasString m (suc p) cs

strlen_from-HasString :
    (s : List ℕ) (fuel p res : ℕ) (m : Memory)
    → HasString m p s
    → length s < fuel
    → strlen_from fuel p res m ≡ some (res + length s)
unfolding strlen_from
strlen_from-HasString [] zero p res m h lt = absurd (omega arith)
strlen_from-HasString [] (suc fuel) p res m h lt = ground arith
strlen_from-HasString (c ∷ s) zero p res m h lt = absurd (omega arith)
strlen_from-HasString (c ∷ s) (suc fuel) p res m h lt =
    let (at_p, nonzero, small, rest) = h in
    let more : (m p == 0) ≡ false = ground arith in
    rw more
      (strlen_from-HasString s fuel (suc p) (res + 1) m rest (omega arith) ∙ ap some (omega arith))

strnlen_from-HasString :
    (s : List ℕ) (n p res : ℕ) (m : Memory)
    → HasString m p s
    → strnlen_from p n res m ≡ res + min n (length s)
unfolding strnlen_from
strnlen_from-HasString s zero p res m h = omega arith
strnlen_from-HasString [] (suc n) p res m h = ground arith
strnlen_from-HasString (c ∷ s) (suc n) p res m h =
    let (at_p, nonzero, small, rest) = h in
    let more : (m p == 0) ≡ false = ground arith in
    rw more (strnlen_from-HasString s n (suc p) (res + 1) m rest ∙ omega arith)

-- On a terminated string, `strlen` ends and returns its length, and `strnlen` returns the smaller of
-- the length and its bound.
pub strlen-HasString :
    (s : List ℕ) (fuel n p : ℕ) (m : Memory)
    → HasString m p s
    → length s < fuel
    → (strlen fuel p m ≡ some (length s)) × (strnlen p n m ≡ min n (length s))
unfolding strlen strnlen
strlen-HasString s fuel n p m h lt = (
  strlen_from-HasString s fuel p 0 m h lt ∙ ap some (omega arith),
  strnlen_from-HasString s n p 0 m h ∙ omega arith,
)

diff-zero : (a b : ℕ) → a < 256 → b < 256 → (diff a b ≡ 0) ↔ (a ≡ b)
diff-zero a b ha hb = ground arith

-- On two terminated strings, `strcmp` ends, and its result is 0 exactly when they are equal.
pub strcmp-HasString :
    (s t : List ℕ) (fuel p q : ℕ) (m : Memory)
    → HasString m p s
    → HasString m q t
    → length s < fuel
    → (r : ℕ) × (strcmp fuel p q m ≡ some r) × ((r ≡ 0) ↔ (s ≡ t))
unfolding strcmp
strcmp-HasString s t zero p q m h k lt = absurd (omega arith)
strcmp-HasString [] [] (suc fuel) p q m h k lt =
    (diff (m p) (m q), ground arith, (λ e. refl, λ e. ground arith))
strcmp-HasString [] (d ∷ t) (suc fuel) p q m h k lt =
    let (at_q, nonzero, small, rest) = k in
    (diff (m p) (m q), ground arith, (λ e. absurd (nonzero (ground arith)), λ e. cc))
strcmp-HasString (c ∷ s) [] (suc fuel) p q m h k lt =
    let (at_p, nonzero, small, rest) = h in
    (diff (m p) (m q), ground arith, (λ e. absurd (nonzero (ground arith)), λ e. cc))
strcmp-HasString (c ∷ s) (d ∷ t) (suc fuel) p q m h k lt =
    let (at_p, nonzero, small, rest) = h in
    let (at_q, nonzero', small', rest') = k in
    elim (Bool-cases (c == d)) [
      | inl same ↦
          let (r, e, iff) = strcmp-HasString s t fuel (suc p) (suc q) m rest rest' (omega arith) in
          (r, ground arith, (λ z. ap₂ (λ x xs. x ∷ xs) (ground arith) (iff.0 z), λ z. iff.1 cc))
      | inr other ↦
          let differ : c ≢ d = ground arith in
          (
            diff (m p) (m q),
            ground arith,
            (λ e. absurd (differ (ground arith)), λ e. absurd (differ cc)),
          )
    ]

-- `memcmp` looks at the first byte only: whatever follows, its result is the difference of those.
pub memcmp_first :
    (p q n : ℕ) (m : Memory) → 0 < n → m p < 256 → m q < 256 → memcmp p q n m ≡ diff (m p) (m q)
unfolding memcmp
memcmp_first p q zero m h a b = absurd (omega arith)
memcmp_first p q (suc zero) m h a b = ground arith
memcmp_first p q (suc (suc n)) m h a b =
    ground (arith, memcmp_first p q (suc n) m (omega arith) a b)
