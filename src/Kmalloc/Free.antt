-- ===== src/Kmalloc/Free.antt =====
-- Freeing a chunk.
use arm64_os.Base.{
  ℕ, zero, suc, ◌+◌, ◌-◌, ◌*◌, ◌/◌, ◌%◌, ◌^◌, ◌≤◌, ◌≡◌, refl, arith, List, ◌∷◌, false, none, some,
  leb, ◌∙◌, ap, ap₂, get_elem?, replicate, ◌⊎◌, inl, inr,
}
use native.Mathlib.Nat.{pow-le-pow_right, pow-suc}
use arm64_os.Kmalloc.{Descriptor, bitword_bit_is_set, bitmap_bit_is_set, kfree_common}

abbrev pub no_words : ℕ → List ℕ
no_words n = replicate n 0

zero_word : (n i : ℕ) → (get_elem? (no_words n) i ≡ none) ⊎ (get_elem? (no_words n) i ≡ some 0)
zero_word zero i = inl refl
zero_word (suc n) zero = inr refl
zero_word (suc n) (suc i) = zero_word n i

clear_bit : bitword_bit_is_set 0 0 ≡ some false
unfolding bitword_bit_is_set
clear_bit = refl

-- A bit of a word after the first is not set, or outside of the bitmap.
far_bit :
    (w n idx j : ℕ)
    → idx / 64 ≡ suc j
    → idx % 64 ≡ 0
    → (bitmap_bit_is_set (w ∷ no_words n) idx ≡ none)
      ⊎ (bitmap_bit_is_set (w ∷ no_words n) idx ≡ some false)
unfolding bitmap_bit_is_set
far_bit w n idx j far whole = elim (zero_word n j) [
  | inl outside ↦ inl (rw (far, outside) refl)
  | inr clear ↦ inr (rw (far, clear, whole) clear_bit)
]

-- The index that the code computes for chunk `i` of `8 * r` bytes: the offset shifted once more.
shifted_index :
    (i r : ℕ)
    → 1 ≤ i
    → i ≤ 8
    → 1 ≤ r
    → r ≤ 1024
    → (i * (8 * r) * (8 * r) ≡ 64 * (i * r * r)) × (1 ≤ i * r * r) × (i * r * r ≤ 8388608)
shifted_index i r lo hi small big =
    let one : i * r ≤ 8 * 1024 = grind arith in
    let two : i * r * r ≤ 8 * 1024 * 1024 = grind arith in
    let least : 1 ≤ i * r = grind arith in
    let least2 : 1 ≤ i * r * r = grind arith in (grind arith, least2, omega arith)

eighth : (log : ℕ) → 3 ≤ log → log ≤ 13 → (r : ℕ) × (2 ^ log ≡ 8 * r) × (1 ≤ r) × (r ≤ 1024)
eighth log lo hi =
    let e = log - 3 in
    let same : log ≡ suc (suc (suc e)) = omega arith in
    let low = pow-le-pow_right {n = 2} (omega arith) {i = 0} {j = e} (omega arith) in
    let high = pow-le-pow_right {n = 2} (omega arith) {i = e} {j = 10} (omega arith) in
    (
      2 ^ e,
      ap (λ l. 2 ^ l) same ∙ omega (arith, pow-suc 2 (suc (suc e)), pow-suc 2 (suc e), pow-suc 2 e),
      omega (arith, low),
      omega (arith, high),
    )

-- With the words after the first all clear, as `kmalloc` leaves them, freeing one of the chunks 1 to 8
-- of a class of 8 to 8192 bytes never succeeds: the bit that the code looks at is that of another
-- chunk, which is not taken, or no bit of the bitmap.
pub kfree_common_fails :
    (d : Descriptor) (w n i : ℕ)
    → d.bitmap ≡ w ∷ no_words n
    → 3 ≤ d.chunk_size_log
    → d.chunk_size_log ≤ 13
    → 1 ≤ i
    → i ≤ 8
    → kfree_common d (d.offset + i * 2 ^ d.chunk_size_log) ≡ none
unfolding kfree_common
kfree_common_fails d w n i bits lo hi from to =
    let (r, size, small, big) = eighth d.chunk_size_log lo hi in
    let (index, least, most) = shifted_index i r from to small big in
    let t = i * r * r in
    let back : d.offset + i * 2 ^ d.chunk_size_log - d.offset ≡ i * (8 * r) =
      omega arith ∙ ap (λ q. i * q) size in
    let idx : (d.offset + i * 2 ^ d.chunk_size_log - d.offset) * 2 ^ d.chunk_size_log % 2 ^ 32
        ≡ 64 * t =
      ap₂ (λ a b. a * b % 2 ^ 32) back size ∙ ap (λ a. a % 2 ^ 32) index ∙ omega (arith, most) in
    let inside : leb (2 ^ 31) (64 * t) ≡ false = ground (arith, most) in
    elim (far_bit w n (64 * t) (t - 1) (omega (arith, least)) (omega arith)) [
      | inl outside ↦ rw (idx, inside, bits, outside) refl
      | inr clear ↦ rw (idx, inside, bits, clear) refl
    ]
