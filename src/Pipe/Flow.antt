-- ===== src/Pipe/Flow.antt =====
-- What a pipe hands on, in terms of the queue in its ring.
use arm64_os.Base.{
  ℕ, ◌<◌, ◌≡◌, refl, arith, List, [], ◌∷◌, ◌++◌, length, take, true, false, ◌==◌, get_or, sym, ◌∙◌,
  ap,
}
use arm64_os.Base.Maps.{update}
use arm64_os.Ringbuf.{ringbuf_read, ringbuf_write}
use arm64_os.Ringbuf.Window.{IsValid, contents}
use arm64_os.Ringbuf.Read.{ringbuf_read-Reads, length-ringbuf_read}
use arm64_os.Ringbuf.Write.{ringbuf_write-Writes}
use arm64_os.Sched.{Scheduler, wakeup_waitflag, wait_on_waitflag}
use arm64_os.Pipe.{Pipe, Popped, pops, waits, panics, pipe_push, pipe_pop, take_char}

-- There was a character `x`, the ring now holds `xs`, and the flag is reset.
abbrev pub HasPopped : ℕ → List ℕ → Popped → Type 0
HasPopped x xs (waits s) = ⊥
HasPopped x xs panics = ⊥
HasPopped x xs (pops c p s) = (c ≡ x) × (contents p.ringbuf ≡ xs) × (s.flags p.waitflag ≡ 0)

abbrev drop_one : List ℕ → List ℕ
drop_one [] = []
drop_one (y ∷ ys) = ys

head_of :
    (x : ℕ) (xs dst rest : List ℕ)
    → length dst ≡ 1
    → x ∷ xs ≡ take 1 dst ++ rest
    → (get_or dst 0 0 ≡ x) × (rest ≡ xs)
head_of x xs [] rest len e = absurd (omega (arith, len))
head_of x xs (y ∷ ys) rest len e =
    (ap (λ (l : List ℕ). get_or l 0 0) (sym e), ap (λ (l : List ℕ). drop_one l) (sym e))

take_char-HasPopped :
    (p : Pipe) (s : Scheduler) (x : ℕ) (xs : List ℕ)
    → IsValid p.ringbuf
    → contents p.ringbuf ≡ x ∷ xs
    → s.flags p.waitflag ≡ 0
    → HasPopped x xs (take_char p s)
unfolding take_char
take_char-HasPopped p s x xs valid holds reset =
    let reads = ringbuf_read-Reads p.ringbuf (0 ∷ []) 1 valid (omega arith) in
    let one : (ringbuf_read p.ringbuf (0 ∷ []) 1).2 ≡ 1 = reads.count ∙ rw holds (omega arith) in
    let counted : ((ringbuf_read p.ringbuf (0 ∷ []) 1).2 == 1) ≡ true = ground arith in
    let both =
      head_of x xs (ringbuf_read p.ringbuf (0 ∷ []) 1).1
        (contents (ringbuf_read p.ringbuf (0 ∷ []) 1).0) (length-ringbuf_read p.ringbuf (0 ∷ []) 1)
        (sym holds
          ∙ reads.bytes
          ∙ ap
              (λ (n : ℕ).
                take n (ringbuf_read p.ringbuf (0 ∷ []) 1).1
                ++ contents (ringbuf_read p.ringbuf (0 ∷ []) 1).0)
              one) in
    rw counted (both.0, both.1, reset)

-- A character that goes into a pipe with room, whose writer is not round the end of the buffer, is
-- appended to what the ring holds, and the flag is set.
pushed-Writes :
    (p : Pipe) (c : ℕ) (s : Scheduler)
    → IsValid p.ringbuf
    → p.ringbuf.read_is_ahead ≡ false
    → length (contents p.ringbuf) < length p.ringbuf.buf
    → IsValid (pipe_push p c s).0.ringbuf
      × (contents (pipe_push p c s).0.ringbuf ≡ contents p.ringbuf ++ (c ∷ []))
      × ((pipe_push p c s).1.flags p.waitflag ≡ 1)
unfolding pipe_push wakeup_waitflag
pushed-Writes p c s valid near room =
    let writes = ringbuf_write-Writes p.ringbuf (c ∷ []) 1 valid near (omega arith) in
    let one : (ringbuf_write p.ringbuf (c ∷ []) 1).1 ≡ 1 = writes.count ∙ omega arith in
    let same : (p.waitflag == p.waitflag) ≡ true = ground arith in
    (
      writes.valid,
      writes.bytes ∙ ap (λ (n : ℕ). contents p.ringbuf ++ take n (c ∷ [])) one,
      rw same refl,
    )

pop_now :
    (later x : ℕ) (xs : List ℕ) (p : Pipe) (s : Scheduler)
    → IsValid p.ringbuf
    → contents p.ringbuf ≡ x ∷ xs
    → s.flags p.waitflag ≡ 1
    → HasPopped x xs (pipe_pop later p s)
unfolding pipe_pop wait_on_waitflag
pop_now later x xs p s valid holds flag =
    let is_set : (s.flags p.waitflag == 1) ≡ true = ground arith in
    let same : (p.waitflag == p.waitflag) ≡ true = ground arith in
    rw is_set (
      take_char-HasPopped p (record s { flags = update s.flags p.waitflag 0 }) x xs valid holds
        (rw same refl))

-- A character that is pushed into a pipe with room, whose writer is not round the end of the buffer,
-- makes the next `pipe_pop` return the oldest character without waiting. The rest stays in the
-- ring, and the flag is reset.
pub pipe_pop-pipe_push :
    (later x c : ℕ) (xs : List ℕ) (p : Pipe) (s : Scheduler)
    → IsValid p.ringbuf
    → p.ringbuf.read_is_ahead ≡ false
    → length (contents p.ringbuf) < length p.ringbuf.buf
    → contents p.ringbuf ++ (c ∷ []) ≡ x ∷ xs
    → HasPopped x xs (pipe_pop later (pipe_push p c s).0 (pipe_push p c s).1)
unfolding pipe_push
pipe_pop-pipe_push later x c xs p s valid near room oldest =
    let (valid', holds, flag) = pushed-Writes p c s valid near room in
    pop_now later x xs (pipe_push p c s).0 (pipe_push p c s).1 valid' (holds ∙ oldest) flag
