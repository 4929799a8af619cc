-- ===== src/Timer.antt =====
-- timer.c: the registry of timers. A timer is its address; an entry past `num_timers` holds zeroes.
pub mod Registry
mod Tests
use arm64_os.Base.{ℕ, zero, suc, ◌+◌, List, [], ◌∷◌, Option, none, some, ◌==◌, if◌then◌else◌, set}
use arm64_os.Base.Errors.{ErrorCode, err_ok, err_busy, err_no_resource}

pub record TimerEntry : Type 0 where
  pub t : ℕ
  pub id : ℕ

abbrev pub max_timers : ℕ
max_timers = 8

pub record Timers : Type 0 where
  pub timers : List TimerEntry
  pub num_timers : ℕ

-- the loop that both operations run: the first `n` entries
unfoldable pub find_timer : ℕ → ℕ → List TimerEntry → Option ℕ
find_timer timer_id zero es = none
find_timer timer_id (suc n) [] = none
find_timer timer_id (suc n) (e ∷ es) =
    let rest = find_timer timer_id n es in if e.id == timer_id then some e.t else rest

unfoldable pub timer_get : ℕ → Timers → Option ℕ
timer_get timer_id s = find_timer timer_id s.num_timers s.timers

unfoldable pub add_timer : ℕ → ℕ → Option ℕ → Timers → Timers × ErrorCode
add_timer t timer_id (some other) s = (s, err_busy)
add_timer t timer_id none s = if s.num_timers == max_timers then (s, err_no_resource) else (
  record {
    timers = set s.timers s.num_timers (record { t = t; id = timer_id });
    num_timers = s.num_timers + 1;
  },
  err_ok,
)

unfoldable pub timer_register : ℕ → ℕ → Timers → Timers × ErrorCode
unfolding add_timer
timer_register t timer_id s = add_timer t timer_id (find_timer timer_id s.num_timers s.timers) s
