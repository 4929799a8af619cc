-- ===== src/Strings/Copies.antt =====
-- The copies against a copy of all bytes at once.
use arm64_os.Base.{
  ℕ, zero, suc, ◌+◌, ◌-◌, ◌*◌, ◌/◌, ◌%◌, ◌^◌, ◌≤◌, ◌<◌, ◌≡◌, refl, arith, false, some, ltb, leb,
  ◌==◌, not, ◌&&◌, ◌||◌, ◌⊎◌, inl, inr, ◌∙◌, ap, sym, Bool-cases,
}
use arm64_os.Strings.{Memory, copy_el, copy_els, copy_bytes, copy_rest, memcpy_8aligned, memcpy}

-- A forward copy does not read what it has written.
abbrev pub IsApart : ℕ → ℕ → ℕ → Type 0
IsApart dst src n = (dst ≤ src) ⊎ (src + n ≤ dst)

not_written :
    (dst src j n k : ℕ)
    → IsApart dst src n
    → j ≤ k
    → k < n
    → (leb dst (src + k) && ltb (src + k) (dst + j)) ≡ false
not_written dst src j n k (inl le) lo hi = ground arith
not_written dst src j n k (inr le) lo hi = ground arith

-- `copy_el` also is the copy of a whole range
copy_el-more :
    (dst src j size n : ℕ) (m : Memory) (q : ℕ)
    → IsApart dst src n
    → j + size ≤ n
    → copy_el size (dst + j) (src + j) (copy_el j dst src m) q ≡ copy_el (j + size) dst src m q
copy_el-more dst src j size n m q apart h = elim (Bool-cases (leb (dst + j) q)) [
  | inl late ↦ elim (Bool-cases (ltb q (dst + j + size))) [
    | inl inside ↦
        let lo : dst + j ≤ q = ground arith in
        let hi : q < dst + j + size = ground arith in
        let new : (src + j) + (q - (dst + j)) ≡ src + (q - dst) = omega arith in
        let unread : (leb dst (src + (q - dst)) && ltb (src + (q - dst)) (dst + j)) ≡ false =
          not_written dst src j n (q - dst) apart (omega arith) (omega arith) in
        rw (late, inside, new, unread) ground arith
    | inr beyond ↦ ground arith
  ]
  | inr early ↦ ground arith
]

-- memories that agree everywhere
abbrev pub Same : Memory → Memory → Type 0
Same m m' = (q : ℕ) → m q ≡ m' q

copy_el-Same :
    (size dst src : ℕ) {m m' : Memory}
    → Same m m'
    → Same (copy_el size dst src m) (copy_el size dst src m')
copy_el-Same size dst src h q = ground (arith, h q, h (src + (q - dst)))

size-Same :
    (dst src : ℕ) (m : Memory) {a b : ℕ} → a ≡ b → Same (copy_el a dst src m) (copy_el b dst src m)
size-Same dst src m e q = ap (λ n. copy_el n dst src m q) e

module _ (dst src total : ℕ) (m0 : Memory) (apart : IsApart dst src total) where
  copy_els-Same :
      (size i n : ℕ) (m : Memory)
      → i * size + n * size ≤ total
      → Same m (copy_el (i * size) dst src m0)
      → Same (copy_els size dst src i n m) (copy_el (i * size + n * size) dst src m0)
  unfolding copy_els
  copy_els-Same size i zero m fits h q = h q ∙ size-Same dst src m0 (omega arith) q
  copy_els-Same size i (suc n) m fits h q =
      let next : suc i * size ≡ i * size + size = grind arith in
      let more : suc n * size ≡ size + n * size = grind arith in
      copy_els-Same size (suc i) n (copy_el size (dst + i * size) (src + i * size) m) (omega arith)
        (λ p.
          copy_el-Same size (dst + i * size) (src + i * size) h p
          ∙ copy_el-more dst src (i * size) size total m0 p apart (omega arith)
          ∙ size-Same dst src m0 (sym next) p)
        q
      ∙ size-Same dst src m0 (omega arith) q

  copy_bytes-Same :
      (from n : ℕ) (m : Memory)
      → from ≤ n
      → n ≤ total
      → Same m (copy_el from dst src m0)
      → Same (copy_bytes dst src from n m) (copy_el n dst src m0)
  copy_bytes-Same from n m le fits h q =
      copy_els-Same 1 from (n - from) m (omega arith)
        (λ p. h p ∙ size-Same dst src m0 (omega arith) p) q
      ∙ size-Same dst src m0 (omega arith) q

nothing_copied : (dst src : ℕ) (m : Memory) → Same m (copy_el 0 dst src m)
nothing_copied dst src m q = ground arith

-- The elements of a copy by `size`, then its last bytes.
by_size :
    (size dst src n : ℕ) (m : Memory)
    → IsApart dst src n
    → n / size * size ≤ n
    → Same
        (copy_bytes dst src (n / size * size) n (copy_els size dst src 0 (n / size) m))
        (copy_el n dst src m)
by_size size dst src n m apart le =
    copy_bytes-Same dst src n m apart (n / size * size) n _ le (omega arith) (λ q.
      copy_els-Same dst src n m apart size 0 (n / size) m (omega arith)
        (λ p. nothing_copied dst src m p ∙ size-Same dst src m (omega arith) p) q
      ∙ size-Same dst src m (omega arith) q)

module _ (dst src n : ℕ) (m : Memory) (apart : IsApart dst src n) where
  by_bytes : Same (copy_bytes dst src 0 n m) (copy_el n dst src m)
  by_bytes =
      copy_bytes-Same dst src n m apart 0 n m (omega arith) (omega arith) (nothing_copied dst src m)

  -- Whatever the alignment of its arguments is, `memcpy` of fewer than 2^32 bytes does not panic, and
  -- the memory after it is the one before with the `n` bytes at `src` at `dst`, as long as the ranges do
  -- not overlap or the target does not start behind the source.
  pub memcpy-eq :
      n < 2 ^ 32 → (m' : Memory) × (memcpy dst src n m ≡ some m') × Same m' (copy_el n dst src m)
  unfolding memcpy memcpy_8aligned copy_rest
  memcpy-eq small =
      let ends : leb (2 ^ 32) n ≡ false = ground arith in
      elim (Bool-cases (not (dst % 8 == 0) || not (src % 8 == 0))) [
        | inl odd8 ↦ elim (Bool-cases (not (dst % 4 == 0) || not (src % 4 == 0))) [
          | inl odd4 ↦ (_, rw (odd8, odd4, ends) refl, by_bytes)
          | inr even4 ↦ (
            copy_bytes dst src (n / 4 * 4) n (copy_els 4 dst src 0 (n / 4) m),
            (let quot : n / 4 * 4 % 2 ^ 32 / 4 ≡ n / 4 = omega arith in
                rw (odd8, even4, quot, ends) refl),
            by_size 4 dst src n m apart (omega arith),
          )
        ]
        | inr even8 ↦ (
          copy_bytes dst src (n / 8 * 8) n (copy_els 8 dst src 0 (n / 8) m),
          (let quot : n / 8 * 8 / 8 ≡ n / 8 = omega arith in
              let whole : n / 8 * 8 % 8 ≡ 0 = omega arith in
              let fits : leb (2 ^ 31) (n / 8) ≡ false = ground arith in
              rw (even8, whole, quot, fits, ends) refl),
          by_size 8 dst src n m apart (omega arith),
        )
      ]
