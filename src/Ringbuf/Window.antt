-- ===== src/Ringbuf/Window.antt =====
-- The representation invariant of the ring, the bytes that it holds, and how they split.
use arm64_os.Base.{
  ℕ, ◌+◌, ◌-◌, ◌≤◌, ◌≡◌, List, ◌++◌, Bool, true, false, arith, length, length-append, append_assoc,
  sym, ap, ap₂, ◌∙◌,
}
use arm64_os.Base.Slices.{slice, slice-add, length-slice}
use arm64_os.Ringbuf.{Ringbuf, buf_end, ringbuf_init}

-- The pointers lie in the buffer, the read pointer before the write pointer unless the writer
-- has gone round; then some bytes stand before the write pointer.
abbrev pub IsPlaced : Bool → ℕ → ℕ → ℕ → Type 0
IsPlaced true w rd cap = (1 ≤ w) × (w ≤ rd) × (rd ≤ cap)
IsPlaced false w rd cap = (rd ≤ w) × (w ≤ cap)

abbrev pub IsValid : Ringbuf → Type 0
IsValid r = IsPlaced r.read_is_ahead r.write_ptr r.read_ptr (buf_end r)

abbrev pub window : Bool → List ℕ → ℕ → ℕ → List ℕ
window true m w rd = slice m rd (length m - rd) ++ slice m 0 w
window false m w rd = slice m rd (w - rd)

-- the bytes in the ring, oldest first
abbrev pub contents : Ringbuf → List ℕ
contents r = window r.read_is_ahead r.buf r.write_ptr r.read_ptr

-- A fresh ring is valid and empty.
pub ringbuf_init-IsValid :
    (m : List ℕ) → IsValid (ringbuf_init m) × (length (contents (ringbuf_init m)) ≡ 0)
unfolding ringbuf_init
ringbuf_init-IsValid m = omega arith

pub split_behind :
    (m : List ℕ) (w rd n : ℕ)
    → n ≤ w - rd
    → slice m rd (w - rd) ≡ slice m rd n ++ slice m (rd + n) (w - (rd + n))
split_behind m w rd n h =
    let e : w - rd ≡ n + (w - (rd + n)) = omega arith in
    ap (λ k. slice m rd k) e ∙ slice-add m rd n (w - (rd + n))

-- the number of bytes on both sides of the gap
pub length-window_ahead :
    (m : List ℕ) (w rd : ℕ)
    → w ≤ rd
    → rd ≤ length m
    → length (window true m w rd) ≡ length m - rd + w
length-window_ahead m w rd h1 h2 = omega (
  arith,
  length-append (slice m rd (length m - rd)) (slice m 0 w),
  length-slice m rd (length m - rd) (omega arith),
  length-slice m 0 w (omega arith),
)

pub short_ahead :
    (m : List ℕ) (w rd n : ℕ)
    → n ≤ length m - rd
    → window true m w rd ≡ slice m rd n ++ (slice m (rd + n) (length m - (rd + n)) ++ slice m 0 w)
short_ahead m w rd n h =
    ap (λ l. l ++ slice m 0 w) (split_behind m (length m) rd n h)
    ∙ append_assoc (slice m rd n) (slice m (rd + n) (length m - (rd + n))) (slice m 0 w)

split_low : (m : List ℕ) (w b : ℕ) → b ≤ w → slice m 0 w ≡ slice m 0 b ++ slice m b (w - b)
split_low m w b h =
    let e : w ≡ b + (w - b) = omega arith in
    let z : 0 + b ≡ b = omega arith in
    ap (slice m 0) e ∙ slice-add m 0 b (w - b) ∙ ap (λ i. slice m 0 b ++ slice m i (w - b)) z

pub long_ahead :
    (m : List ℕ) (w rd a b : ℕ)
    → a ≡ length m - rd
    → b ≤ w
    → window true m w rd ≡ (slice m rd a ++ slice m 0 b) ++ slice m b (w - b)
long_ahead m w rd a b h k =
    ap₂ (λ i l. slice m rd i ++ l) (sym h) (split_low m w b k)
    ∙ sym (append_assoc (slice m rd a) (slice m 0 b) (slice m b (w - b)))
