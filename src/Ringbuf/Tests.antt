-- ===== src/Ringbuf/Tests.antt =====
-- Runs of the ring, and instances of its theorems.
use arm64_os.Base.{ℕ, ◌≡◌, refl, List, [], ◌∷◌, true, false, arith, length, min, ◌-◌}
use arm64_os.Ringbuf.{Ringbuf, ringbuf_read, ringbuf_write, read_ahead, write_behind}
use arm64_os.Ringbuf.{ring_memcpy}
use arm64_os.Ringbuf.Window.{contents}
use arm64_os.Ringbuf.Read.{Reads, ringbuf_read-Reads}
use arm64_os.Ringbuf.Write.{Writes, ringbuf_write-Writes, ringbuf_write_loses}

-- the bytes 8, 9 stand at the end of the buffer
abbrev behind : Ringbuf
behind = record { buf = 5 ∷ 6 ∷ 7 ∷ 8 ∷ 9 ∷ []; write_ptr = 5; read_ptr = 3; read_is_ahead = false }

-- 8, 9 at the end, then 1
abbrev ahead : Ringbuf
ahead = record { buf = 1 ∷ 6 ∷ 7 ∷ 8 ∷ 9 ∷ []; write_ptr = 1; read_ptr = 3; read_is_ahead = true }

abbrev zeros : List ℕ
zeros = 0 ∷ 0 ∷ 0 ∷ 0 ∷ []

write_wraps : ringbuf_write behind (1 ∷ []) 1 ≡ (ahead, 1)
unfolding ringbuf_write write_behind ring_memcpy
write_wraps = refl

read_wraps : (ringbuf_read ahead zeros 4).1 ≡ 8 ∷ 9 ∷ 1 ∷ 0 ∷ []
unfolding ringbuf_read read_ahead ring_memcpy
read_wraps = refl

ringbuf_read-Reads_example : Reads ahead 2 (ringbuf_read ahead zeros 2)
ringbuf_read-Reads_example = ringbuf_read-Reads ahead zeros 2 (omega arith) (omega arith)

ringbuf_write-Writes_example : Writes behind (1 ∷ 2 ∷ []) 2 (ringbuf_write behind (1 ∷ 2 ∷ []) 2)
ringbuf_write-Writes_example =
    ringbuf_write-Writes behind (1 ∷ 2 ∷ []) 2 (omega arith) refl (omega arith)

ringbuf_write_loses_example :
    ((ringbuf_write ahead (2 ∷ []) 1).1 ≡ min 1 (length ahead.buf - length (contents ahead)))
    × (contents (ringbuf_write ahead (2 ∷ []) 1).0 ≡ contents ahead)
ringbuf_write_loses_example = ringbuf_write_loses ahead (2 ∷ []) 1 (omega arith) refl (omega arith)
