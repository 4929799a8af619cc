-- ===== src/Pipe/Tests.antt =====
-- A pipe of four bytes.
use arm64_os.Base.{refl, arith, [], ◌∷◌, false}
use arm64_os.Sched.{Scheduler, running}
use arm64_os.Pipe.{Pipe, pipe_push, pipe_pop}
use arm64_os.Pipe.Flow.{HasPopped, pipe_pop-pipe_push}

abbrev scheduler : Scheduler
scheduler = record {
  runlist = 1 ∷ [];
  timer_waiting = [];
  flag_waiting = [];
  waitflag_is_set = 0;
  tasks = λ t. record {
    ticks_left = 10;
    ticks_total = 0;
    task_state = running;
    timer_wait_until = 0;
    waitflag = 0;
  };
  flags = λ f. 0;
  current = 1;
  idle_task = 0;
}

-- the character 0x61 is in the ring already
abbrev holds_one : Pipe
holds_one = record {
  waitflag = 3;
  ringbuf = record {
    buf = 0x61 ∷ 0 ∷ 0 ∷ 0 ∷ [];
    write_ptr = 1;
    read_ptr = 0;
    read_is_ahead = false;
  };
}

pipe_pop-pipe_push_example :
    HasPopped 0x61
      (0x62 ∷ [])
      (pipe_pop 9 (pipe_push holds_one 0x62 scheduler).0 (pipe_push holds_one 0x62 scheduler).1)
pipe_pop-pipe_push_example =
    pipe_pop-pipe_push 9 0x61 0x62 (0x62 ∷ []) holds_one scheduler (omega arith) refl (omega arith)
      refl
