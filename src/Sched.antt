-- ===== src/Sched.antt =====
-- sched.c on one core. A task is its index in `tasks`; the three queues are the sequences of tasks
-- whose nodes stand on the three lists (see ListHead for the links); `flags` is the memory that
-- waitflags point to, and 0 is NULL. `ticks_left` is an `int` by its bit pattern. A panic is `none`.
pub mod Timers
pub mod Flags
pub mod FlagLoop
pub mod FlagFacts
pub mod Invariant
pub mod Rounds
pub mod Turns
pub mod Waits
mod Tests
use arm64_os.Base.Maps.{update}
use arm64_os.Base.{
  ℕ, suc, ◌+◌, ◌-◌, ◌*◌, ◌/◌, ◌%◌, ◌^◌, List, [], ◌∷◌, ◌++◌, Bool, true, false, Option, none, some,
  ◌>>=◌, ltb, leb, ◌==◌, not, ◌||◌, if◌then◌else◌,
}
use arm64_os.Base.Count.{remove}

pub data TaskState : Type 0 where
  stopped scheduled running timewaiting flagwaiting : TaskState

pub record Task : Type 0 where
  pub ticks_left : ℕ
  pub ticks_total : ℕ
  pub task_state : TaskState
  pub timer_wait_until : ℕ
  pub waitflag : ℕ

pub record Scheduler : Type 0 where
  pub runlist : List ℕ
  pub timer_waiting : List ℕ
  pub flag_waiting : List ℕ
  pub waitflag_is_set : ℕ
  pub tasks : ℕ → Task
  pub flags : ℕ → ℕ
  pub current : ℕ
  pub idle_task : ℕ

abbrev pub preempt_ticks : ℕ
preempt_ticks = 10

abbrev pub set_state : TaskState → Task → Task
set_state st t = record t { task_state = st }

-- `list_del_init` takes the node off the list that it is on, whichever that is.
abbrev pub detached : ℕ → Scheduler → Scheduler
detached t s = record s {
  runlist = remove t s.runlist;
  timer_waiting = remove t s.timer_waiting;
  flag_waiting = remove t s.flag_waiting;
}

unfoldable pub queue_runnable_task : ℕ → Scheduler → Scheduler
queue_runnable_task t s =
    let s1 = detached t s in
    record s1 {
      runlist = s1.runlist ++ (t ∷ []);
      tasks = update s1.tasks t (set_state scheduled (s1.tasks t));
    }

unfoldable pub queue_timewait_task : ℕ → Scheduler → Scheduler
queue_timewait_task t s =
    let s1 = detached t s in
    record s1 {
      timer_waiting = s1.timer_waiting ++ (t ∷ []);
      tasks = update s1.tasks t (set_state timewaiting (s1.tasks t));
    }

unfoldable pub queue_flagwait_task : ℕ → Scheduler → Scheduler
queue_flagwait_task t s =
    let s1 = detached t s in
    record s1 {
      flag_waiting = s1.flag_waiting ++ (t ∷ []);
      tasks = update s1.tasks t (set_state flagwaiting (s1.tasks t));
    }

-- the body of the loop over `timer_waiting`
unfoldable pub wake_timer : ℕ → ℕ → Scheduler → Scheduler
unfolding queue_runnable_task
wake_timer now t s = if leb (s.tasks t).timer_wait_until now then queue_runnable_task t s else s

-- The loop keeps the next node before it moves one, so it visits the list as it was.
unfoldable pub wake_timers : ℕ → List ℕ → Scheduler → Scheduler
wake_timers now [] s = s
wake_timers now (t ∷ ts) s = wake_timers now ts (wake_timer now t s)

unfoldable pub schedule_handle_timer_waiting : ℕ → Scheduler → Scheduler
schedule_handle_timer_waiting now s = wake_timers now s.timer_waiting s

-- the statements for a task whose flag is set
unfoldable pub wake_flag : ℕ → Scheduler → Scheduler
unfolding queue_runnable_task
wake_flag t s =
    let s1 = record s { flags = update s.flags (s.tasks t).waitflag 0 } in
    let s2 = record s1 { tasks = update s1.tasks t (record (s1.tasks t) { waitflag = 0 }) } in
    let s3 = queue_runnable_task t s2 in
    record s3 { waitflag_is_set = (s3.waitflag_is_set + 2 ^ 64 - 1) % 2 ^ 64 }

-- the body of the loop over `flag_waiting`: a task with no flag is a panic
unfoldable pub check_flag : ℕ → Scheduler → Option Scheduler
check_flag t s =
    if (s.tasks t).waitflag == 0
    then none
    else if s.flags (s.tasks t).waitflag == 0
    then some s
    else some (wake_flag t s)

unfoldable pub check_flags : List ℕ → Scheduler → Option Scheduler
check_flags [] s = some s
check_flags (t ∷ ts) s = do s' ← check_flag t s; check_flags ts s'

unfoldable pub schedule_handle_flag_waiting : Scheduler → Option Scheduler
schedule_handle_flag_waiting s =
    if ltb 0xffffffffffff0000 s.waitflag_is_set
    then none
    else if s.waitflag_is_set == 0
    then some s
    else check_flags s.flag_waiting s

-- `scheduler_pick_next_task` by the runlist; `none` is no task
unfoldable pub pick_from : List ℕ → Scheduler → Scheduler × Option ℕ
pick_from [] s = (s, none)
pick_from (t ∷ ts) s = (
  record s { tasks = update s.tasks t (record (s.tasks t) { ticks_left = preempt_ticks }) },
  some t,
)

unfoldable pub pick_next_task : Scheduler → Scheduler × Option ℕ
unfolding pick_from
pick_next_task s = pick_from s.runlist s

-- Put the task that was executing to the end of the list, unless it waits. The count of ticks is
-- an `int`.
unfoldable pub requeue_by : TaskState → Scheduler → Scheduler
requeue_by timewaiting s = s
requeue_by flagwaiting s = s
requeue_by _ s =
    let t = s.tasks s.current in
    let total = (t.ticks_total + preempt_ticks + 2 ^ 32 - t.ticks_left) % 2 ^ 32 in
    queue_runnable_task s.current
      (record s { tasks = update s.tasks s.current (record t { ticks_total = total }) })

unfoldable pub requeue_prev : Scheduler → Scheduler
requeue_prev s = requeue_by (s.tasks s.current).task_state s

-- `next_task->task_state = TASK_STATE_RUNNING` and `set_current`
unfoldable pub run_task : ℕ → Scheduler → Scheduler
run_task t s = record s { tasks = update s.tasks t (set_state running (s.tasks t)); current = t }

-- The idle task runs when there is no other.
unfoldable pub run_next : Scheduler × Option ℕ → Scheduler
run_next (s, none) = run_task s.idle_task s
run_next (s, some t) = run_task t s

unfoldable pub switch_task : Scheduler → Scheduler
unfolding pick_next_task run_next
switch_task s = run_next (pick_next_task s)

-- `now` is the counter that `schedule_handle_timer_waiting` reads.
unfoldable pub schedule : ℕ → Scheduler → Option Scheduler
schedule now s = do
  s' ← schedule_handle_flag_waiting (schedule_handle_timer_waiting now (requeue_prev s))
  some (switch_task s')

unfoldable pub needs_resched : Scheduler → Bool
needs_resched s = if not (s.waitflag_is_set == 0) then true else (s.tasks s.current).ticks_left == 0

-- The decrement comes first, and wraps below 0.
unfoldable pub schedule_from_irq : ℕ → Scheduler → Option Scheduler
unfolding needs_resched
schedule_from_irq now s =
    let t = s.tasks s.current in
    let left = (t.ticks_left + 2 ^ 32 - 1) % 2 ^ 32 in
    let s1 = record s { tasks = update s.tasks s.current (record t { ticks_left = left }) } in
    if needs_resched s1 then schedule now s1 else some s1

-- The call yields by a system call, whose handler runs `schedule` at the time `later`.
unfoldable pub wait_on_timer_ms : ℕ → ℕ → ℕ → ℕ → Scheduler → Option Scheduler
unfolding queue_timewait_task
wait_on_timer_ms msec now cnt_per_sec later s =
    let until = (now + cnt_per_sec / 1000 * msec) % 2 ^ 64 in
    let t = s.tasks s.current in
    schedule later (
      queue_timewait_task s.current
        (record s { tasks = update s.tasks s.current (record t { timer_wait_until = until }) }))

unfoldable pub wait_on_waitflag : ℕ → ℕ → Scheduler → Option Scheduler
unfolding queue_flagwait_task
wait_on_waitflag flag later s =
    if s.flags flag == 1
    then some (record s { flags = update s.flags flag 0 })
    else schedule later (
        queue_flagwait_task s.current (record s {
          tasks = update s.tasks s.current (record (s.tasks s.current) { waitflag = flag });
        }))

unfoldable pub wakeup_waitflag : ℕ → Scheduler → Scheduler
wakeup_waitflag flag s = record s {
  flags = update s.flags flag 1;
  waitflag_is_set = (s.waitflag_is_set + 1) % 2 ^ 64;
}
