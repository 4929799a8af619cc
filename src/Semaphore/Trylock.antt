-- ===== src/Semaphore/Trylock.antt =====
-- `down_trylock` on a count of zero.
use arm64_os.Base.{◌-◌, ◌^◌, ◌<◌, ◌≡◌, arith, ltb, if◌then◌else◌}
use arm64_os.Semaphore.{Semaphore, down_trylock}

-- `down_trylock` reports success whatever the count is; on a count of zero it leaves a count of
-- 2 ^ 32 - 1, and on any other it takes one off.
pub down_trylock_lem :
    (s : Semaphore)
    → s.count < 2 ^ 32
    → ((down_trylock s).1 ≡ 0)
      × ((down_trylock s).0.count ≡ (if ltb 0 s.count then s.count - 1 else 2 ^ 32 - 1))
      × ((down_trylock s).0.wait_list ≡ s.wait_list)
unfolding down_trylock
down_trylock_lem s h = ground arith
