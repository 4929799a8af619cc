-- ===== src/Ringbuf.antt =====
-- ringbuf.c: a ring of bytes over a buffer that the caller gives. The pointers are offsets from
-- `buf`, so `buf_end` is the length of the buffer. `char` is unsigned on this machine, and bytes
-- are only moved. Sizes are the non-negative ones: for a negative `sz` the loop of `ring_memcpy`
-- compares with a huge `size_t`.
pub mod Copy
pub mod Window
pub mod Read
pub mod Write
mod Tests
use arm64_os.Base.{ℕ, zero, suc, ◌+◌, ◌-◌, List, Bool, true, false, ltb, if◌then◌else◌, min}
use arm64_os.Base.{length, set, get_or, ◌==◌, not}

pub record Ringbuf : Type 0 where
  pub buf : List ℕ
  pub write_ptr : ℕ
  pub read_ptr : ℕ
  pub read_is_ahead : Bool

pub ringbuf_init : List ℕ → Ringbuf
ringbuf_init buf = record { buf = buf; write_ptr = 0; read_ptr = 0; read_is_ahead = false }

abbrev pub buf_end : Ringbuf → ℕ
buf_end r = length r.buf

-- the byte loop: `d` and `s` are the offsets of the two pointers, the last argument the rounds left
pub ring_memcpy : List ℕ → ℕ → List ℕ → ℕ → ℕ → List ℕ
ring_memcpy dst d src s zero = dst
ring_memcpy dst d src s (suc n) = ring_memcpy (set dst d (get_or src s 0)) (suc d) src (suc s) n

-- The new ring, the buffer at `dst`, and `progress`, in each branch of the source.
pub read_ahead : Ringbuf → List ℕ → ℕ → Ringbuf × List ℕ × ℕ
read_ahead r dst sz =
    let io1 = min (buf_end r - r.read_ptr) sz in
    let dst1 = ring_memcpy dst 0 r.buf r.read_ptr io1 in
    let io2 = min r.write_ptr (sz - io1) in
    if not (io2 == 0)
    then (
      record r { read_ptr = io2; read_is_ahead = false },
      ring_memcpy dst1 io1 r.buf 0 io2,
      io1 + io2,
    )
    else (record r { read_ptr = r.read_ptr + io1 }, dst1, io1)

pub read_behind : Ringbuf → List ℕ → ℕ → Ringbuf × List ℕ × ℕ
read_behind r dst sz =
    let io = min (r.write_ptr - r.read_ptr) sz in
    (record r { read_ptr = r.read_ptr + io }, ring_memcpy dst 0 r.buf r.read_ptr io, io)

pub ringbuf_read : Ringbuf → List ℕ → ℕ → Ringbuf × List ℕ × ℕ
ringbuf_read r dst sz = if r.read_is_ahead then read_ahead r dst sz else read_behind r dst sz

pub write_ahead : Ringbuf → List ℕ → ℕ → Ringbuf × ℕ
write_ahead r src sz =
    let io = min (r.read_ptr - r.write_ptr) sz in
    (record r { buf = ring_memcpy r.buf r.write_ptr src 0 io }, io)

pub write_behind : Ringbuf → List ℕ → ℕ → Ringbuf × ℕ
write_behind r src sz =
    let io1 = min (buf_end r - r.write_ptr) sz in
    let buf1 = ring_memcpy r.buf r.write_ptr src 0 io1 in
    let io2 = min r.read_ptr (sz - io1) in
    if not (io2 == 0)
    then (
      record r { buf = ring_memcpy buf1 0 src io1 io2; write_ptr = io2; read_is_ahead = true },
      io1 + io2,
    )
    else (record r { buf = buf1; write_ptr = r.write_ptr + io1 }, io1)

pub ringbuf_write : Ringbuf → List ℕ → ℕ → Ringbuf × ℕ
ringbuf_write r src sz = if r.read_is_ahead then write_ahead r src sz else write_behind r src sz
