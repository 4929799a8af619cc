-- ===== src/Ringbuf/Copy.antt =====
-- The byte loop of `ring_memcpy` against a block copy.
use arm64_os.Base.{
  ℕ, zero, suc, ◌+◌, ◌≤◌, List, ◌++◌, ◌≡◌, sym, ◌∙◌, ap, ap₂, length, arith, get_or, set, take, ◌-◌,
}
use arm64_os.Base.Slices.{
  slice, blit, blit-set, blit-nil, slice_step, slice-blit_self, slice-blit_below, length-slice,
  length-blit, take-add, drop-blit_above, slice-add,
}
use arm64_os.Ringbuf.{ring_memcpy}

-- `ring_memcpy` copies the `n` bytes at `s` in `src` over those at `d` in `dst`.
pub ring_memcpy-blit :
    (n : ℕ) (dst : List ℕ) (d : ℕ) (src : List ℕ) (s : ℕ)
    → s + n ≤ length src
    → ring_memcpy dst d src s n ≡ blit dst d (slice src s n)
unfolding ring_memcpy
ring_memcpy-blit zero dst d src s h = sym (blit-nil dst d)
ring_memcpy-blit (suc n) dst d src s h =
    ring_memcpy-blit n (set dst d (get_or src s 0)) (suc d) src (suc s) (omega arith)
    ∙ blit-set dst d _ (slice src (suc s) n)
    ∙ ap (blit dst d) (sym (slice_step src s n 0 (omega arith)))

pub length-ring_memcpy :
    (n : ℕ) (dst : List ℕ) (d : ℕ) (src : List ℕ) (s : ℕ)
    → s + n ≤ length src
    → length (ring_memcpy dst d src s n) ≡ length dst
length-ring_memcpy n dst d src s h =
    ap length (ring_memcpy-blit n dst d src s h) ∙ length-blit dst d (slice src s n)

-- What was copied is read back at its place.
pub slice-ring_memcpy :
    (n : ℕ) (dst : List ℕ) (d : ℕ) (src : List ℕ) (s : ℕ)
    → s + n ≤ length src
    → d + n ≤ length dst
    → slice (ring_memcpy dst d src s n) d n ≡ slice src s n
slice-ring_memcpy n dst d src s h k =
    let len = length-slice src s n h in
    ap (λ m. slice m d n) (ring_memcpy-blit n dst d src s h)
    ∙ ap (λ j. slice (blit dst d (slice src s n)) d j) (sym len)
    ∙ slice-blit_self dst d (slice src s n) (omega (arith, len))

-- The cells before the copy are kept.
pub slice-ring_memcpy_below :
    (n : ℕ) (dst : List ℕ) (d : ℕ) (src : List ℕ) (s : ℕ) (j k : ℕ)
    → s + n ≤ length src
    → j + k ≤ d
    → slice (ring_memcpy dst d src s n) j k ≡ slice dst j k
slice-ring_memcpy_below n dst d src s j k h b =
    ap (λ m. slice m j k) (ring_memcpy-blit n dst d src s h)
    ∙ slice-blit_below dst d (slice src s n) j k b

-- Two copies one after the other spell both blocks.
pub take_two_copies :
    (a b : ℕ) (dst src : List ℕ) (s t : ℕ)
    → s + a ≤ length src
    → t + b ≤ length src
    → a + b ≤ length dst
    → take (a + b) (ring_memcpy (ring_memcpy dst 0 src s a) a src t b)
      ≡ slice src s a ++ slice src t b
take_two_copies a b dst src s t h k room =
    let first = ring_memcpy dst 0 src s a in
    take-add a b (ring_memcpy first a src t b)
    ∙ ap₂ ◌++◌
        (slice-ring_memcpy_below b first a src t 0 a k (omega arith)
          ∙ slice-ring_memcpy a dst 0 src s h (omega arith))
        (slice-ring_memcpy b first a src t k (omega (arith, length-ring_memcpy a dst 0 src s h)))

-- The cells after the copy are kept.
pub slice-ring_memcpy_above :
    (n : ℕ) (dst : List ℕ) (d : ℕ) (src : List ℕ) (s : ℕ) (j k : ℕ)
    → s + n ≤ length src
    → d + n ≤ j
    → slice (ring_memcpy dst d src s n) j k ≡ slice dst j k
slice-ring_memcpy_above n dst d src s j k h b =
    ap (λ m. slice m j k) (ring_memcpy-blit n dst d src s h)
    ∙ ap (take k) (drop-blit_above dst d (slice src s n) j (omega (arith, length-slice src s n h)))

-- A copy to the end of a window extends the window by what was copied.
pub slice_grows :
    (n : ℕ) (m : List ℕ) (w rd : ℕ) (src : List ℕ)
    → rd ≤ w
    → w + n ≤ length m
    → n ≤ length src
    → slice (ring_memcpy m w src 0 n) rd (w + n - rd) ≡ slice m rd (w - rd) ++ take n src
slice_grows n m w rd src h1 h2 h =
    let e : w + n - rd ≡ (w - rd) + n = omega arith in
    let at : rd + (w - rd) ≡ w = omega arith in
    let m' = ring_memcpy m w src 0 n in
    ap (slice m' rd) e
    ∙ slice-add m' rd (w - rd) n
    ∙ ap₂ ◌++◌ (slice-ring_memcpy_below n m w src 0 rd (w - rd) (omega arith) (omega arith))
        (ap (λ i. slice m' i n) at ∙ slice-ring_memcpy n m w src 0 (omega arith) h2)
