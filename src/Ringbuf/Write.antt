-- ===== src/Ringbuf/Write.antt =====
-- `ringbuf_write` appends to the queue, unless the writer is round the end of the buffer.
use arm64_os.Base.{
  ℕ, ◌+◌, ◌-◌, ◌≤◌, ◌≡◌, List, ◌++◌, Bool, true, false, not, ◌==◌, arith, length, take, min,
  Bool-cases, pos_of_test, zero_of_test, inl, inr, sym, ap, ap₂, ◌∙◌, append_assoc,
}
use arm64_os.Base.Slices.{slice, length-slice, take-add}
use arm64_os.Ringbuf.{Ringbuf, ringbuf_write, write_ahead, write_behind, ring_memcpy}
use arm64_os.Ringbuf.Copy.{
  slice-ring_memcpy, length-ring_memcpy, slice-ring_memcpy_above, slice-ring_memcpy_below,
  slice_grows,
}
use arm64_os.Ringbuf.Window.{IsPlaced, IsValid, contents, window, length-window_ahead}

-- the outcome of a write of the first `sz` bytes of `src`
pub record Writes (r : Ringbuf) (src : List ℕ) (sz : ℕ) (out : Ringbuf × ℕ) : Type 0 where
  pub valid : IsValid out.0
  pub count : out.1 ≡ min sz (length r.buf - length (contents r))
  pub bytes : contents out.0 ≡ contents r ++ take out.1 src

slice_wraps :
    (m : List ℕ) (w rd : ℕ) (src : List ℕ) (a b : ℕ)
    → rd ≤ w
    → w + a ≡ length m
    → b ≤ rd
    → a + b ≤ length src
    → window true (ring_memcpy (ring_memcpy m w src 0 a) 0 src a b) b rd
      ≡ slice m rd (w - rd) ++ take (a + b) src
slice_wraps m w rd src a b h1 h2 h3 h =
    let m1 = ring_memcpy m w src 0 a in
    let m2 = ring_memcpy m1 0 src a b in
    let len1 : length m1 ≡ length m = length-ring_memcpy a m w src 0 (omega arith) in
    let len2 : length m2 ≡ w + a = length-ring_memcpy b m1 0 src a (omega arith) ∙ len1 ∙ sym h2 in
    ap₂ ◌++◌
      (ap (λ k. slice m2 rd (k - rd)) len2
        ∙ slice-ring_memcpy_above b m1 0 src a rd (w + a - rd) h (omega arith)
        ∙ slice_grows a m w rd src h1 (omega arith) (omega arith))
      (slice-ring_memcpy b m1 0 src a h (omega (arith, len1)))
    ∙ append_assoc (slice m rd (w - rd)) (take a src) (slice src a b)
    ∙ ap (λ l. slice m rd (w - rd) ++ l) (sym (take-add a b src))

write_behind-Writes :
    (m : List ℕ) (w rd : ℕ) (src : List ℕ) (sz : ℕ)
    → rd ≤ w
    → w ≤ length m
    → sz ≤ length src
    → let r : Ringbuf = record { buf = m; write_ptr = w; read_ptr = rd; read_is_ahead = false } in
      Writes r src sz (write_behind r src sz)
unfolding write_behind
write_behind-Writes m w rd src sz h1 h2 h =
    let io1 = min (length m - w) sz in
    let io2 = min rd (sz - io1) in
    let held = length-slice m rd (w - rd) (omega arith) in
    let len1 = length-ring_memcpy io1 m w src 0 (omega arith) in
    elim (Bool-cases (not (io2 == 0))) [
      | inl more ↦
          let pos = pos_of_test io2 more in
          let len2 = length-ring_memcpy io2 (ring_memcpy m w src 0 io1) 0 src io1 (omega arith) in
          rw more (record {
            valid = omega (arith, len1, len2);
            count = omega (arith, held);
            bytes = slice_wraps m w rd src io1 io2 h1 (omega arith) (omega arith) (omega arith);
          })
      | inr done ↦
          let zero = zero_of_test io2 done in
          rw done (record {
            valid = omega (arith, len1);
            count = omega (arith, held);
            bytes = slice_grows io1 m w rd src h1 (omega arith) (omega arith);
          })
    ]

by_side-Writes :
    (ahead : Bool) (m : List ℕ) (w rd : ℕ) (src : List ℕ) (sz : ℕ)
    → IsPlaced ahead w rd (length m)
    → ahead ≡ false
    → sz ≤ length src
    → let r : Ringbuf = record { buf = m; write_ptr = w; read_ptr = rd; read_is_ahead = ahead } in
      Writes r src sz (ringbuf_write r src sz)
unfolding ringbuf_write
by_side-Writes true m w rd src sz v e h = cc
by_side-Writes false m w rd src sz v e h = write_behind-Writes m w rd src sz v.0 v.1 h

by_side_loses :
    (ahead : Bool) (m : List ℕ) (w rd : ℕ) (src : List ℕ) (sz : ℕ)
    → IsPlaced ahead w rd (length m)
    → ahead ≡ true
    → sz ≤ length src
    → let r : Ringbuf = record { buf = m; write_ptr = w; read_ptr = rd; read_is_ahead = ahead } in
      ((ringbuf_write r src sz).1 ≡ min sz (length m - length (contents r)))
      × (contents (ringbuf_write r src sz).0 ≡ contents r)
unfolding ringbuf_write write_ahead
by_side_loses false m w rd src sz v e h = cc
by_side_loses true m w rd src sz v e h =
    let n = min (rd - w) sz in
    (
      omega (arith, length-window_ahead m w rd v.1 v.2),
      ap₂ ◌++◌
          (ap (λ k. slice (ring_memcpy m w src 0 n) rd (k - rd))
              (length-ring_memcpy n m w src 0 (omega arith))
            ∙ slice-ring_memcpy_above n m w src 0 rd (length m - rd) (omega arith) (omega arith))
          (slice-ring_memcpy_below n m w src 0 0 w (omega arith) (omega arith)),
    )

-- A write of `sz` bytes while the writer is not round the end of the buffer keeps the ring valid,
-- returns the smaller of `sz` and the free room, and appends exactly that many bytes of the source
-- to those that the ring holds.
pub ringbuf_write-Writes :
    (r : Ringbuf) (src : List ℕ) (sz : ℕ)
    → IsValid r
    → r.read_is_ahead ≡ false
    → sz ≤ length src
    → Writes r src sz (ringbuf_write r src sz)
ringbuf_write-Writes r src sz v e h =
    by_side-Writes r.read_is_ahead r.buf r.write_ptr r.read_ptr src sz v e h

-- A write while the writer is round the end of the buffer returns the smaller of `sz` and the
-- free room, and loses every byte that it counts: the ring holds the same bytes as before.
pub ringbuf_write_loses :
    (r : Ringbuf) (src : List ℕ) (sz : ℕ)
    → IsValid r
    → r.read_is_ahead ≡ true
    → sz ≤ length src
    → ((ringbuf_write r src sz).1 ≡ min sz (length r.buf - length (contents r)))
      × (contents (ringbuf_write r src sz).0 ≡ contents r)
ringbuf_write_loses r src sz v e h =
    by_side_loses r.read_is_ahead r.buf r.write_ptr r.read_ptr src sz v e h
