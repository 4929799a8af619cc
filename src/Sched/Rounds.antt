-- ===== src/Sched/Rounds.antt =====
-- `schedule` as a whole: what it keeps, and whom it runs next.
use arm64_os.Base.{
  ℕ, ◌+◌, ◌≤◌, ◌<◌, List, [], ◌∷◌, ◌≡◌, refl, ap, ◌∙◌, arith, ◌==◌, if◌then◌else◌, Bool-cases, inl,
  inr, Option, some, ◌&&◌,
}
use arm64_os.Base.Count.{count, count-append}
use arm64_os.Base.Maps.{update}
use arm64_os.Sched.{
  Task, Scheduler, TaskState, scheduled, timewaiting, flagwaiting, queue_runnable_task,
  schedule_handle_timer_waiting, schedule_handle_flag_waiting, requeue_prev, requeue_by,
  preempt_ticks, switch_task, run_task, pick_from, run_next, schedule,
}
use arm64_os.Sched.Timers.{handle_timer_waiting-eq}
use arm64_os.Sched.Flags.{signalled, freed}
use arm64_os.Sched.FlagLoop.{handle_flag_waiting-eq}
use arm64_os.Sched.Invariant.{
  queued, IsValid, HasFlags-of_all, goes_on, requeue_by-IsValid, queued-requeue_by, timers-IsValid,
  queued-timers, keep-IsValid,
}
use arm64_os.Sched.FlagFacts.{count-signalled}

freed_none : (a : ℕ) (ts : List ℕ) (tasks : ℕ → Task) → count a ts ≡ 0 → freed ts tasks a ≡ tasks a
unfolding freed
freed_none a [] tasks h = refl
freed_none a (t ∷ ts) tasks h =
    let v : Task = record (tasks t) { waitflag = 0; task_state = scheduled } in
    freed_none a ts (update tasks t v) (ground arith) ∙ ground arith

-- the outcome of a stage that cannot fail
pub record Stage (s : Scheduler) (out : Option Scheduler) : Type 0 where
  pub after : Scheduler
  pub result : out ≡ some after
  pub valid : IsValid after
  pub kept : (a : ℕ) → queued a after ≡ queued a s

pub set_flags-Stage :
    (s : Scheduler)
    → IsValid s
    → 0 < s.waitflag_is_set
    → s.waitflag_is_set ≤ 0xffffffffffff0000
    → Stage s (schedule_handle_flag_waiting s)
set_flags-Stage s v pos low =
    let up = signalled s.flags s.tasks s.flag_waiting in
    let parts = λ (a : ℕ). count-signalled a s.flags s.tasks s.flag_waiting in
    record {
      after = _;
      result =
          handle_flag_waiting-eq s (λ a. omega (arith, v.once a))
            (HasFlags-of_all s.tasks s.flag_waiting v.has_flag) pos low;
      valid = record {
        once = λ a. omega (arith, v.once a, parts a, count-append a s.runlist up);
        timed = λ a h. ground (arith, v.timed a, v.once a, parts a, freed_none a up s.tasks);
        flagged = λ a h. ground (arith, v.flagged a, v.once a, parts a, freed_none a up s.tasks);
        has_flag = λ a h. ground (arith, v.has_flag a, v.once a, parts a, freed_none a up s.tasks);
        idle_runs = omega (arith, v.idle_runs, parts s.idle_task);
      };
      kept = λ a. omega (arith, parts a, count-append a s.runlist up);
    }

pub flags-Stage :
    (s : Scheduler)
    → IsValid s
    → s.waitflag_is_set ≤ 0xffffffffffff0000
    → Stage s (schedule_handle_flag_waiting s)
flags-Stage s v low = elim (Bool-cases (s.waitflag_is_set == 0)) [
  | inl none_set ↦ record {
    after = s;
    result = unfold schedule_handle_flag_waiting in ground arith;
    valid = v;
    kept = λ a. refl;
  }
  | inr more ↦ set_flags-Stage s v (ground arith) low
]

run_task-IsValid :
    (t : ℕ) (s : Scheduler)
    → count t s.timer_waiting + count t s.flag_waiting ≡ 0
    → IsValid s
    → IsValid (run_task t s)
unfolding run_task
run_task-IsValid t s out v = record {
  once = v.once;
  timed = λ a h. ground (arith, v.timed a h);
  flagged = λ a h. ground (arith, v.flagged a h);
  has_flag = λ a h. ground (arith, v.has_flag a h);
  idle_runs = v.idle_runs;
}

pub switch_task-nil : (s : Scheduler) → s.runlist ≡ [] → switch_task s ≡ run_task s.idle_task s
unfolding switch_task
switch_task-nil s e = ap (λ r. run_next (pick_from r s)) e

-- a task with a fresh share of ticks
abbrev pub with_ticks : ℕ → Scheduler → Scheduler
with_ticks t s = record s {
  tasks = update s.tasks t (record (s.tasks t) { ticks_left = preempt_ticks });
}

pub switch_task-cons :
    (t : ℕ) (ts : List ℕ) (s : Scheduler)
    → s.runlist ≡ t ∷ ts
    → switch_task s ≡ run_task t (with_ticks t s)
unfolding switch_task
switch_task-cons t ts s e = ap (λ r. run_next (pick_from r s)) e

switch_by-IsValid :
    (r : List ℕ) (s : Scheduler) → s.runlist ≡ r → IsValid s → IsValid (switch_task s)
switch_by-IsValid [] s e v = rw (switch_task-nil s e) (run_task-IsValid s.idle_task s v.idle_runs v)
switch_by-IsValid (t ∷ ts) s e v =
    let first : 0 < count t s.runlist = rw e (ground arith) in
    rw (switch_task-cons t ts s e) (
      run_task-IsValid t (with_ticks t s) (omega (arith, v.once t))
        (keep-IsValid s t (record (s.tasks t) { ticks_left = preempt_ticks }) refl refl v))

queued-switch_by :
    (r : List ℕ) (a : ℕ) (s : Scheduler) → s.runlist ≡ r → queued a (switch_task s) ≡ queued a s
unfolding run_task
queued-switch_by [] a s e = rw (switch_task-nil s e)
queued-switch_by (t ∷ ts) a s e = rw (switch_task-cons t ts s e)

pub waitflag_is_set-requeue_by :
    (st : TaskState) (s : Scheduler) → (requeue_by st s).waitflag_is_set ≡ s.waitflag_is_set
unfolding requeue_by queue_runnable_task
waitflag_is_set-requeue_by timewaiting s = refl
waitflag_is_set-requeue_by flagwaiting s = refl
waitflag_is_set-requeue_by _ s = refl

-- `schedule` does not panic as long as the counter of flags is not above its limit. It keeps the
-- invariant, loses and doubles no task: the task that was executing stands once on the queues if
-- it does not wait, and every other task stands on them as often as before.
pub schedule_lem :
    (now : ℕ) (s : Scheduler)
    → IsValid s
    → s.waitflag_is_set ≤ 0xffffffffffff0000
    → (s' : Scheduler) × (schedule now s ≡ some s')
      × IsValid s'
      × ((a : ℕ)
          → queued a s' ≡ (
              if goes_on (s.tasks s.current).task_state && (a == s.current) then 1 else queued a s))
unfolding schedule requeue_prev
schedule_lem now s v low =
    let st = (s.tasks s.current).task_state in
    let s1 = requeue_by st s in
    let v1 = requeue_by-IsValid st s v in
    let s2 = schedule_handle_timer_waiting now s1 in
    let v2 = timers-IsValid now s1 v1 in
    let same : s2.waitflag_is_set ≡ s.waitflag_is_set =
      ap (λ (x : Scheduler). x.waitflag_is_set) (handle_timer_waiting-eq now s1 v1.once)
      ∙ waitflag_is_set-requeue_by st s in
    let stage = flags-Stage s2 v2 (rw same low) in
    let s3 = stage.after in
    (
      switch_task s3,
      rw stage.result,
      switch_by-IsValid s3.runlist s3 refl stage.valid,
      (λ a.
          queued-switch_by s3.runlist a s3 refl
          ∙ stage.kept a
          ∙ queued-timers now a s1 v1
          ∙ queued-requeue_by st a s),
    )
