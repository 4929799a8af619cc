-- ===== src/Ringbuf/Read.antt =====
-- `ringbuf_read` takes from the front of the queue.
use arm64_os.Base.{
  ℕ, ◌-◌, ◌≤◌, ◌≡◌, refl, List, ◌++◌, Bool, true, false, not, ◌==◌, arith, length, take, min,
  Bool-cases, pos_of_test, zero_of_test, inl, inr, zero, suc, set, get_or, length-set, ◌∙◌,
}
use arm64_os.Base.Slices.{length-slice}
use arm64_os.Ringbuf.{Ringbuf, buf_end, ring_memcpy, ringbuf_read, read_ahead, read_behind}
use arm64_os.Ringbuf.Copy.{slice-ring_memcpy, take_two_copies}
use arm64_os.Ringbuf.Window.{
  IsPlaced, IsValid, contents, split_behind, length-window_ahead, short_ahead, long_ahead,
}

-- the outcome of a read of `sz` bytes into `dst`
pub record Reads (r : Ringbuf) (sz : ℕ) (out : Ringbuf × List ℕ × ℕ) : Type 0 where
  pub valid : IsValid out.0
  pub count : out.2 ≡ min sz (length (contents r))
  pub bytes : contents r ≡ take out.2 out.1 ++ contents out.0
  pub storage : out.0.buf ≡ r.buf

read_behind-Reads :
    (m : List ℕ) (w rd : ℕ) (dst : List ℕ) (sz : ℕ)
    → rd ≤ w
    → w ≤ length m
    → sz ≤ length dst
    → let r : Ringbuf = record { buf = m; write_ptr = w; read_ptr = rd; read_is_ahead = false } in
      Reads r sz (read_behind r dst sz)
unfolding read_behind
read_behind-Reads m w rd dst sz h1 h2 h =
    let n = min (w - rd) sz in
    let copied = slice-ring_memcpy n dst 0 m rd (omega arith) (omega arith) in
    record {
      valid = omega arith;
      count = omega (arith, length-slice m rd (w - rd) (omega arith));
      bytes = rw copied (split_behind m w rd n (omega arith));
      storage = refl;
    }

read_ahead-Reads :
    (m : List ℕ) (w rd : ℕ) (dst : List ℕ) (sz : ℕ)
    → IsPlaced true w rd (length m)
    → sz ≤ length dst
    → let r : Ringbuf = record { buf = m; write_ptr = w; read_ptr = rd; read_is_ahead = true } in
      Reads r sz (read_ahead r dst sz)
unfolding read_ahead
read_ahead-Reads m w rd dst sz v h =
    let io1 = min (length m - rd) sz in
    let io2 = min w (sz - io1) in
    let len = length-window_ahead m w rd v.1 v.2 in
    elim (Bool-cases (not (io2 == 0))) [
      | inl more ↦
          let pos = pos_of_test io2 more in
          let full : io1 ≡ length m - rd = omega arith in
          rw more (record {
            valid = omega arith;
            count = omega (arith, len);
            bytes =
                rw (take_two_copies io1 io2 dst m rd 0 (omega arith) (omega arith) (omega arith))
                  (long_ahead m w rd io1 io2 full (omega arith));
            storage = refl;
          })
      | inr done ↦
          let zero = zero_of_test io2 done in
          rw done (record {
            valid = omega arith;
            count = omega (arith, len);
            bytes =
                rw (slice-ring_memcpy io1 dst 0 m rd (omega arith) (omega arith))
                  (short_ahead m w rd io1 (omega arith));
            storage = refl;
          })
    ]

by_side-Reads :
    (ahead : Bool) (m : List ℕ) (w rd : ℕ) (dst : List ℕ) (sz : ℕ)
    → IsPlaced ahead w rd (length m)
    → sz ≤ length dst
    → let r : Ringbuf = record { buf = m; write_ptr = w; read_ptr = rd; read_is_ahead = ahead } in
      Reads r sz (ringbuf_read r dst sz)
unfolding ringbuf_read
by_side-Reads true m w rd dst sz v h = read_ahead-Reads m w rd dst sz v h
by_side-Reads false m w rd dst sz v h = read_behind-Reads m w rd dst sz v.0 v.1 h

-- A read into a buffer of at least `sz` bytes returns the smaller of `sz` and the number of bytes
-- held, and the bytes that it stores, followed by those left in the ring, are the ones that the
-- ring held, in order; the ring stays valid and its buffer is not written.
pub ringbuf_read-Reads :
    (r : Ringbuf) (dst : List ℕ) (sz : ℕ)
    → IsValid r
    → sz ≤ length dst
    → Reads r sz (ringbuf_read r dst sz)
ringbuf_read-Reads r dst sz v h =
    by_side-Reads r.read_is_ahead r.buf r.write_ptr r.read_ptr dst sz v h

ring_memcpy_keeps :
    (n : ℕ) (dst : List ℕ) (d : ℕ) (src : List ℕ) (s : ℕ)
    → length (ring_memcpy dst d src s n) ≡ length dst
unfolding ring_memcpy
ring_memcpy_keeps zero dst d src s = refl
ring_memcpy_keeps (suc n) dst d src s =
    ring_memcpy_keeps n (set dst d (get_or src s 0)) (suc d) src (suc s)
    ∙ length-set dst d (get_or src s 0)

-- The buffer of the caller keeps its length.
pub length-ringbuf_read :
    (r : Ringbuf) (dst : List ℕ) (sz : ℕ) → length (ringbuf_read r dst sz).1 ≡ length dst
unfolding ringbuf_read read_ahead read_behind
length-ringbuf_read r dst sz = elim (Bool-cases r.read_is_ahead) [
  | inl ahead ↦
      let io1 = min (buf_end r - r.read_ptr) sz in
      let io2 = min r.write_ptr (sz - io1) in
      let first = ring_memcpy_keeps io1 dst 0 r.buf r.read_ptr in
      elim (Bool-cases (not (io2 == 0))) [
        | inl more ↦
            rw (ahead, more)
              (ring_memcpy_keeps io2 (ring_memcpy dst 0 r.buf r.read_ptr io1) io1 r.buf 0 ∙ first)
        | inr no_more ↦ rw (ahead, no_more) first
      ]
  | inr behind ↦
      rw behind (ring_memcpy_keeps (min (r.write_ptr - r.read_ptr) sz) dst 0 r.buf r.read_ptr)
]
