-- ===== src/Timer/Tests.antt =====
-- A registry with one timer, and a second registered.
use arm64_os.Base.{◌≡◌, refl, arith, ◌∷◌, replicate, some}
use arm64_os.Base.Errors.{err_busy}
use arm64_os.Timer.{Timers, timer_get, timer_register, add_timer, find_timer}
use arm64_os.Timer.Registry.{Registers, timer_register-Registers}

abbrev one_timer : Timers
one_timer = record {
  timers = (record { t = 0x80; id = 2 }) ∷ replicate 7 (record { t = 0; id = 0 });
  num_timers = 1;
}

second_found : timer_get 3 (timer_register 0xa0 3 one_timer).0 ≡ some 0xa0
unfolding timer_get timer_register add_timer find_timer
second_found = refl

id_taken : (timer_register 0xa0 2 one_timer).1 ≡ err_busy
unfolding timer_register add_timer find_timer
id_taken = refl

timer_register-Registers_example : Registers 0xa0 3 one_timer (timer_register 0xa0 3 one_timer)
timer_register-Registers_example =
    timer_register-Registers 0xa0 3 one_timer (record { size = refl; count = omega arith })
