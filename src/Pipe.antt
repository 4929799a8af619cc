-- ===== src/Pipe.antt =====
-- pipe.c: a ring of bytes whose reader waits on a flag. The spinlock is an atomic section.
pub mod Flow
mod Tests
use arm64_os.Base.{
  ℕ, zero, suc, List, [], ◌∷◌, Bool, Option, none, some, ◌==◌, not, if◌then◌else◌, get_or,
}
use arm64_os.Ringbuf.{Ringbuf, ringbuf_read, ringbuf_write, ringbuf_init}
use arm64_os.Sched.{Scheduler, wakeup_waitflag, wait_on_waitflag}

-- The flag is its index in the flags of the scheduler.
pub record Pipe : Type 0 where
  pub waitflag : ℕ
  pub ringbuf : Ringbuf

pub pipe_init : ℕ → List ℕ → Pipe
pipe_init flag buf = record { waitflag = flag; ringbuf = ringbuf_init buf }

unfoldable pub pipe_push : Pipe → ℕ → Scheduler → Pipe × Scheduler
pipe_push p c s =
    let p' : Pipe = record {
      waitflag = p.waitflag;
      ringbuf = (ringbuf_write p.ringbuf (c ∷ []) 1).0;
    } in
    (p', wakeup_waitflag p.waitflag s)

-- The caller waits, or gets a character, or panics.
pub data Popped : Type 0 where
  waits : Option Scheduler → Popped
  pops : ℕ → Pipe → Scheduler → Popped
  panics : Popped

-- what is done after the wait
unfoldable pub take_char : Pipe → Scheduler → Popped
take_char p s =
    let (r, dst, n) = ringbuf_read p.ringbuf (0 ∷ []) 1 in
    if not (n == 1)
    then panics
    else pops (get_or dst 0 0) (record { waitflag = p.waitflag; ringbuf = r }) s

abbrev pub after_wait : Pipe → Option Scheduler → Popped
after_wait p none = waits none
after_wait p (some s) = take_char p s

-- A caller that waits goes on at `take_char` when it runs again.
unfoldable pub pipe_pop : ℕ → Pipe → Scheduler → Popped
unfolding take_char wait_on_waitflag
pipe_pop later p s =
    let waited = wait_on_waitflag p.waitflag later s in
    if s.flags p.waitflag == 1 then after_wait p waited else waits waited
