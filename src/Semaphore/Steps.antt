-- ===== src/Semaphore/Steps.antt =====
-- Tasks that use a semaphore as a step relation: who gets through, and when.
use arm64_os.Base.{ℕ, ◌≤◌, ◌≢◌, ◌≡◌, ◌⊎◌, List, ◌++◌}
use arm64_os.Semaphore.{
  Semaphore, outside, asleep, awake, semaphore_down, wait_returns, test_waitflag, semaphore_up,
}

-- One step of some task. A task sleeps until its flag is up.
pub data Step (s : Semaphore) : Semaphore → Type 0 where
  down : (w stack : ℕ) → s.phase w ≡ outside → Step s (semaphore_down w stack s)
  returns : (w : ℕ) → s.phase w ≡ asleep → s.waitflag w ≢ 0 → Step s (wait_returns w s)
  test : (w : ℕ) → s.phase w ≡ awake → Step s (test_waitflag w s)
  up : Step s (semaphore_up s)

-- No task raises the semaphore while `w` stands between the return of its wait and its test.
abbrev pub IsQuiet : ℕ → {s t : Semaphore} → Step s t → Type 0
IsQuiet w (down v stack h) = Unit
IsQuiet w (returns v h k) = Unit
IsQuiet w (test v h) = Unit
IsQuiet w {s = s} up = s.phase w ≢ awake

-- `w` waits: it sleeps, or it is at the test and its flag is down
abbrev pub IsStuck : ℕ → Semaphore → Type 0
IsStuck w s = (s.phase w ≡ asleep) ⊎ ((s.phase w ≡ awake) × (s.waitflag w ≡ 0))

pub data Reach (w : ℕ) (s : Semaphore) : Semaphore → Type 0 where
  here : Reach w s s
  next : {t u : Semaphore} → Reach w s t → (st : Step t u) → IsQuiet w st → Reach w s u

-- any number of steps of `semaphore_down` and `semaphore_up`, by any tasks
pub data Run (s : Semaphore) : Semaphore → Type 0 where
  start : Run s s
  step : {t u : Semaphore} → Run s t → Step t u → Run s u

-- The list of waiters has at most grown at its end, and the count has not risen.
abbrev pub HasKept : Semaphore → Semaphore → Type 0
HasKept s t = (later : List ℕ) × (t.wait_list ≡ s.wait_list ++ later) × (t.count ≤ s.count)
