-- ===== src/Semaphore.antt =====
-- semaphore.c: the critical sections under the lock are single steps. A waiter is named by the
-- address of its record on the stack of the task; its flag starts with what the stack holds, since
-- `waitflag_init` assigns to its own parameter. `count` is a `uint32_t`.
pub mod Steps
pub mod Trylock
mod Tests
use arm64_os.Base.Maps.{update}
use arm64_os.Base.{
  ℕ, ◌+◌, ◌-◌, ◌%◌, ◌^◌, List, [], ◌∷◌, ◌++◌, Bool, true, false, ltb, ◌==◌, if◌then◌else◌,
}

-- where a task is in `semaphore_down`: before it, asleep in `wait_on_waitflag`, at the test after
-- it, or through
pub data Phase : Type 0 where
  outside asleep awake passed : Phase

pub record Semaphore : Type 0 where
  pub count : ℕ
  pub wait_list : List ℕ
  pub waitflag : ℕ → ℕ
  pub phase : ℕ → Phase

pub semaphore_init : ℕ → Semaphore → Semaphore
semaphore_init val s = record s { count = val; wait_list = [] }

-- `semaphore_down` up to the first sleep; `stack` is what the waiter's flag holds before
unfoldable pub semaphore_down : ℕ → ℕ → Semaphore → Semaphore
semaphore_down w stack s =
    if ltb 0 s.count
    then record s { count = s.count - 1; phase = update s.phase w passed }
    else record s {
      wait_list = s.wait_list ++ (w ∷ []);
      waitflag = update s.waitflag w stack;
      phase = update s.phase w asleep;
    }

-- `wait_on_waitflag` returns with the flag lowered.
unfoldable pub wait_returns : ℕ → Semaphore → Semaphore
wait_returns w s = record s { waitflag = update s.waitflag w 0; phase = update s.phase w awake }

-- `if (waiter.waitflag) break;` or another round
unfoldable pub test_waitflag : ℕ → Semaphore → Semaphore
test_waitflag w s =
    if s.waitflag w == 0
    then record s { phase = update s.phase w asleep }
    else record s { phase = update s.phase w passed }

-- The first waiter is woken and stays on the list.
unfoldable pub up_on : List ℕ → Semaphore → Semaphore
up_on [] s = record s { count = (s.count + 1) % 2 ^ 32 }
up_on (w ∷ ws) s = record s { waitflag = update s.waitflag w 1 }

unfoldable pub semaphore_up : Semaphore → Semaphore
unfolding up_on
semaphore_up s = up_on s.wait_list s

-- The new count is computed in 32 bits and then kept in 64, where it is never negative.
unfoldable pub down_trylock : Semaphore → Semaphore × ℕ
down_trylock s =
    let count = (s.count + 2 ^ 32 - 1) % 2 ^ 32 in
    let negative = ltb count 0 in
    (if negative then s else record s { count = count }, if negative then 1 else 0)
