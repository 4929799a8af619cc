-- ===== src/Sched/Tests.antt =====
-- A scheduler with a running task 1, a runnable task 2, the idle task 9 behind it, a task 3 that
-- waits until 50, and a task 4 that waits for the flag at 100.
use arm64_os.Base.{ℕ, ◌<◌, [], ◌∷◌, ◌≡◌, refl, arith, ◌==◌, if◌then◌else◌, some, ◌&&◌}
use arm64_os.Base.Count.{count}
use arm64_os.Sched.{
  Task, Scheduler, running, scheduled, timewaiting, flagwaiting, schedule_handle_timer_waiting,
  schedule_handle_flag_waiting, schedule, wakeup_waitflag,
}
use arm64_os.Sched.Timers.{expired, pending, woken, handle_timer_waiting-eq}
use arm64_os.Sched.Flags.{signalled, silent, lowered, freed, counted}
use arm64_os.Sched.FlagLoop.{handle_flag_waiting-eq}
use arm64_os.Sched.Invariant.{IsValid, queued, goes_on}
use arm64_os.Sched.Rounds.{schedule_lem}
use arm64_os.Sched.Turns.{Runs, first?, schedule_round}
use arm64_os.Sched.Waits.{schedule-wakeup_waitflag}

abbrev example_task : ℕ → Task
example_task t = record {
  ticks_left = 4;
  ticks_total = 0;
  task_state =
      if t == 1
      then running
      else if t == 3
      then timewaiting
      else if t == 4
      then flagwaiting
      else scheduled;
  timer_wait_until = if t == 3 then 50 else 0;
  waitflag = if t == 4 then 100 else 0;
}

abbrev busy : Scheduler
busy = record {
  runlist = 1 ∷ 2 ∷ 9 ∷ [];
  timer_waiting = 3 ∷ [];
  flag_waiting = 4 ∷ [];
  waitflag_is_set = 0;
  tasks = example_task;
  flags = λ _. 0;
  current = 1;
  idle_task = 9;
}

-- the flag at 100 has been raised
abbrev raised : Scheduler
raised = record busy { flags = λ a. if a == 100 then 1 else 0; waitflag_is_set = 1 }

abbrev no_waiters : Scheduler
no_waiters = record busy { flag_waiting = []; runlist = 1 ∷ 2 ∷ 4 ∷ 9 ∷ [] }

busy-IsValid : IsValid busy
busy-IsValid = record {
  once = λ a. ground arith;
  timed = λ a h. ground arith;
  flagged = λ a h. ground arith;
  has_flag = λ a h. ground arith;
  idle_runs = refl;
}

no_waiters-IsValid : IsValid no_waiters
no_waiters-IsValid = record {
  once = λ a. ground arith;
  timed = λ a h. ground arith;
  flagged = λ a h. ground arith;
  has_flag = λ a h. ground arith;
  idle_runs = refl;
}

handle_timer_waiting-eq_example : schedule_handle_timer_waiting 60 busy ≡ record busy {
  runlist = 1 ∷ 2 ∷ 9 ∷ 3 ∷ [];
  timer_waiting = [];
  tasks = woken (3 ∷ []) example_task;
}
unfolding expired pending
handle_timer_waiting-eq_example = handle_timer_waiting-eq 60 busy busy-IsValid.once

handle_flag_waiting-eq_example :
    schedule_handle_flag_waiting raised
    ≡ some (record raised {
      runlist = 1 ∷ 2 ∷ 9 ∷ 4 ∷ [];
      flag_waiting = [];
      tasks = freed (4 ∷ []) example_task;
      flags = lowered raised.flags example_task (4 ∷ []);
      waitflag_is_set = 0;
    })
unfolding signalled silent counted
handle_flag_waiting-eq_example =
    handle_flag_waiting-eq raised (λ a. ground arith) (omega arith) (omega arith) (omega arith)

schedule_lem_example :
    (s' : Scheduler) × (schedule 60 busy ≡ some s')
    × IsValid s'
    × ((a : ℕ) → queued a s' ≡ (if goes_on running && (a == 1) then 1 else queued a busy))
schedule_lem_example = schedule_lem 60 busy busy-IsValid (omega arith)

schedule_round_example :
    (s' : Scheduler) × (t : ℕ) × (schedule 60 busy ≡ some s')
    × (s'.runlist ≡ 2 ∷ 9 ∷ 1 ∷ 3 ∷ [])
    × (first? s'.runlist ≡ some t)
    × Runs s' t
unfolding expired
schedule_round_example = schedule_round 60 busy (2 ∷ 9 ∷ []) busy-IsValid refl refl refl

schedule-wakeup_waitflag_example :
    (s' : Scheduler) × (schedule 20 (wakeup_waitflag 100 busy) ≡ some s')
    × (0 < count 4 s'.runlist)
    × (count 4 s'.flag_waiting ≡ 0)
schedule-wakeup_waitflag_example =
    schedule-wakeup_waitflag 20 4 busy busy-IsValid refl ((λ h. absurd (h refl)), tt) (omega arith)
