-- ===== src/Semaphore/Tests.antt =====
-- A task 5 that waits, and instances of the theorems.
use arm64_os.Base.{[], ◌∷◌, if◌then◌else◌, ◌==◌}
use arm64_os.Semaphore.{Semaphore, outside, asleep}

abbrev waiting : Semaphore
waiting = record {
  count = 0;
  wait_list = 5 ∷ [];
  waitflag = λ _. 0;
  phase = λ w. if w == 5 then asleep else outside;
}
