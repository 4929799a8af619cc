-- ===== src/Sched/Invariant.antt =====
-- The invariant of the scheduler's queues, kept by the first stages of `schedule`.
use arm64_os.Base.{
  ℕ, ◌+◌, ◌-◌, ◌%◌, ◌^◌, ◌<◌, ◌≢◌, List, [], ◌∷◌, ◌≡◌, refl, arith, ◌==◌, if◌then◌else◌, true,
  false, Bool, ◌&&◌,
}
use arm64_os.Base.Count.{count, remove, count-append, count-remove}
use arm64_os.Base.Maps.{update}
use arm64_os.Sched.{
  Task, Scheduler, TaskState, timewaiting, flagwaiting, queue_runnable_task,
  schedule_handle_timer_waiting, requeue_by, preempt_ticks,
}
use arm64_os.Sched.Timers.{
  IsOnce, expired, handle_timer_waiting-eq, count-expired, task_state-woken, waitflag-woken,
}
use arm64_os.Sched.Flags.{HasFlags}

abbrev pub queued : ℕ → Scheduler → ℕ
queued a s = count a s.runlist + count a s.timer_waiting + count a s.flag_waiting

-- No task stands twice on the queues; a waiting task says in its state what it waits for, and one
-- that waits for a flag has one.
pub record IsValid (s : Scheduler) : Type 0 where
  pub once : IsOnce s.runlist s.timer_waiting s.flag_waiting
  pub timed : (a : ℕ) → 0 < count a s.timer_waiting → (s.tasks a).task_state ≡ timewaiting
  pub flagged : (a : ℕ) → 0 < count a s.flag_waiting → (s.tasks a).task_state ≡ flagwaiting
  pub has_flag : (a : ℕ) → 0 < count a s.flag_waiting → (s.tasks a).waitflag ≢ 0
  pub idle_runs : count s.idle_task s.timer_waiting + count s.idle_task s.flag_waiting ≡ 0

pub HasFlags-of_all :
    (tasks : ℕ → Task) (ts : List ℕ)
    → ((a : ℕ) → 0 < count a ts → (tasks a).waitflag ≢ 0)
    → HasFlags tasks ts
HasFlags-of_all tasks [] all = tt
HasFlags-of_all tasks (t ∷ ts) all =
    (all t (ground arith), HasFlags-of_all tasks ts (λ a h. all a (ground arith)))

pub queue_runnable_task-IsValid :
    (t : ℕ) (s : Scheduler) → IsValid s → IsValid (queue_runnable_task t s)
unfolding queue_runnable_task
queue_runnable_task-IsValid t s v =
    let r = remove t s.runlist in
    record {
      once = λ a. ground (
        arith,
        v.once a,
        count-append a r (t ∷ []),
        count-remove a t s.runlist,
        count-remove a t s.timer_waiting,
        count-remove a t s.flag_waiting,
      );
      timed = λ a h. ground (arith, v.timed a, count-remove a t s.timer_waiting);
      flagged = λ a h. ground (arith, v.flagged a, count-remove a t s.flag_waiting);
      has_flag = λ a h. ground (arith, v.has_flag a, count-remove a t s.flag_waiting);
      idle_runs = ground (
        arith,
        v.idle_runs,
        count-remove s.idle_task t s.timer_waiting,
        count-remove s.idle_task t s.flag_waiting,
      );
    }

queued-queue_runnable_task :
    (t a : ℕ) (s : Scheduler)
    → queued a (queue_runnable_task t s) ≡ (if a == t then 1 else queued a s)
unfolding queue_runnable_task
queued-queue_runnable_task t a s = ground (
  arith,
  count-append a (remove t s.runlist) (t ∷ []),
  count-remove a t s.runlist,
  count-remove a t s.timer_waiting,
  count-remove a t s.flag_waiting,
)

-- A change of one task that keeps its state and its flag.
pub keep-IsValid :
    (s : Scheduler) (t : ℕ) (w : Task)
    → w.task_state ≡ (s.tasks t).task_state
    → w.waitflag ≡ (s.tasks t).waitflag
    → IsValid s
    → IsValid (record s { tasks = update s.tasks t w })
keep-IsValid s t w p q v = record {
  once = v.once;
  timed = λ a h. ground (arith, v.timed a h);
  flagged = λ a h. ground (arith, v.flagged a h);
  has_flag = λ a h. ground (arith, v.has_flag a h);
  idle_runs = v.idle_runs;
}

-- whether `schedule` puts the task back on the runlist
abbrev pub goes_on : TaskState → Bool
goes_on timewaiting = false
goes_on flagwaiting = false
goes_on _ = true

pub requeue_by-IsValid : (st : TaskState) (s : Scheduler) → IsValid s → IsValid (requeue_by st s)
unfolding requeue_by
requeue_by-IsValid timewaiting s v = v
requeue_by-IsValid flagwaiting s v = v
requeue_by-IsValid _ s v =
    let t = s.tasks s.current in
    let total = (t.ticks_total + preempt_ticks + 2 ^ 32 - t.ticks_left) % 2 ^ 32 in
    queue_runnable_task-IsValid s.current
      (record s { tasks = update s.tasks s.current (record t { ticks_total = total }) })
      (keep-IsValid s s.current (record t { ticks_total = total }) refl refl v)

pub queued-requeue_by :
    (st : TaskState) (a : ℕ) (s : Scheduler)
    → queued a (requeue_by st s) ≡ (if goes_on st && (a == s.current) then 1 else queued a s)
unfolding requeue_by
queued-requeue_by timewaiting a s = refl
queued-requeue_by flagwaiting a s = refl
queued-requeue_by _ a s = queued-queue_runnable_task s.current a _

pub timers-IsValid :
    (now : ℕ) (s : Scheduler) → IsValid s → IsValid (schedule_handle_timer_waiting now s)
timers-IsValid now s v =
    let due = expired now s.tasks s.timer_waiting in
    let parts = λ (a : ℕ). count-expired now a s.tasks s.timer_waiting in
    rw (handle_timer_waiting-eq now s v.once) (record {
      once = λ a. omega (arith, v.once a, parts a, count-append a s.runlist due);
      timed = λ a h. ground (arith, v.timed a, v.once a, parts a, task_state-woken a due s.tasks);
      flagged =
          λ a h. ground (arith, v.flagged a, v.once a, parts a, task_state-woken a due s.tasks);
      has_flag = λ a h. ground (arith, v.has_flag a, waitflag-woken a due s.tasks);
      idle_runs = omega (arith, v.idle_runs, parts s.idle_task);
    })

pub queued-timers :
    (now a : ℕ) (s : Scheduler)
    → IsValid s
    → queued a (schedule_handle_timer_waiting now s) ≡ queued a s
queued-timers now a s v =
    let due = expired now s.tasks s.timer_waiting in
    rw (handle_timer_waiting-eq now s v.once)
      (omega (arith, count-append a s.runlist due, count-expired now a s.tasks s.timer_waiting))
