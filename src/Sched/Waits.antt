-- ===== src/Sched/Waits.antt =====
-- Wakeups by a flag over a whole call of `schedule`.
use arm64_os.Base.{
  ◌>>=◌, ℕ, ◌+◌, ◌≤◌, ◌<◌, List, [], ◌∷◌, ◌≡◌, refl, ap, ap₂, ◌∙◌, arith, ltb, true, false, some,
}
use arm64_os.Base.Count.{count, count-append, remove_none}
use arm64_os.Base.Maps.{update}
use arm64_os.Sched.{
  Task, Scheduler, TaskState, timewaiting, flagwaiting, schedule_handle_timer_waiting,
  schedule_handle_flag_waiting, requeue_prev, requeue_by, queue_runnable_task, switch_task,
  run_task, schedule, check_flags, needs_resched, wait_on_waitflag, wakeup_waitflag,
}
use arm64_os.Sched.Timers.{expired, handle_timer_waiting-eq, waitflag-woken}
use arm64_os.Sched.Flags.{signalled, silent, WaitsAlone}
use arm64_os.Sched.FlagLoop.{handle_flag_waiting-eq, flags_done}
use arm64_os.Sched.FlagFacts.{signalled_alone, count-signalled}
use arm64_os.Sched.Invariant.{IsValid, HasFlags-of_all, requeue_by-IsValid, timers-IsValid}
use arm64_os.Sched.Rounds.{switch_task-nil, switch_task-cons, waitflag_is_set-requeue_by}
use arm64_os.Sched.Turns.{runlist-switch_by}

-- what the selection of signalled tasks reads of the tasks
signalled-ext :
    (flags : ℕ → ℕ) (f g : ℕ → Task) (ts : List ℕ)
    → ((a : ℕ) → (f a).waitflag ≡ (g a).waitflag)
    → signalled flags f ts ≡ signalled flags g ts
unfolding signalled
signalled-ext flags f g [] same = refl
signalled-ext flags f g (t ∷ ts) same = ground (
  arith,
  same t,
  signalled-ext flags f g ts same,
  signalled-ext (update flags (f t).waitflag 0) f g ts same,
)

-- What the first two stages of `schedule` leave to the third.
record Front (now : ℕ) (s : Scheduler) : Type 0 where
  waiting : (schedule_handle_timer_waiting now (requeue_prev s)).flag_waiting ≡ s.flag_waiting
  flags : (schedule_handle_timer_waiting now (requeue_prev s)).flags ≡ s.flags
  counter : (schedule_handle_timer_waiting now (requeue_prev s)).waitflag_is_set ≡ s.waitflag_is_set
  waitflags :
      (a : ℕ)
      → ((schedule_handle_timer_waiting now (requeue_prev s)).tasks a).waitflag
        ≡ (s.tasks a).waitflag
  valid : IsValid (schedule_handle_timer_waiting now (requeue_prev s))

requeue_by-Front :
    (st : TaskState) (s : Scheduler)
    → (s.tasks s.current).task_state ≡ st
    → IsValid s
    → ((requeue_by st s).flag_waiting ≡ s.flag_waiting)
      × ((requeue_by st s).flags ≡ s.flags)
      × ((a : ℕ) → ((requeue_by st s).tasks a).waitflag ≡ (s.tasks a).waitflag)
unfolding requeue_by queue_runnable_task
requeue_by-Front timewaiting s e v = (refl, refl, λ a. refl)
requeue_by-Front flagwaiting s e v = (refl, refl, λ a. refl)
requeue_by-Front _ s e v =
    let out : count s.current s.flag_waiting ≡ 0 = ground (arith, v.flagged s.current) in
    (remove_none s.current s.flag_waiting out, refl, λ a. ground arith)

stages-Front : (now : ℕ) (s : Scheduler) → IsValid s → Front now s
unfolding requeue_prev
stages-Front now s v =
    let st = (s.tasks s.current).task_state in
    let s1 = requeue_by st s in
    let (waiting, flags, same) = requeue_by-Front st s refl v in
    let v1 = requeue_by-IsValid st s v in
    let stage = handle_timer_waiting-eq now s1 v1.once in
    record {
      waiting = ap (λ (x : Scheduler). x.flag_waiting) stage ∙ waiting;
      flags = ap (λ (x : Scheduler). x.flags) stage ∙ flags;
      counter = ap (λ (x : Scheduler). x.waitflag_is_set) stage ∙ waitflag_is_set-requeue_by st s;
      waitflags = λ a.
          ap (λ (x : Scheduler). (x.tasks a).waitflag) stage
          ∙ waitflag-woken a (expired now s1.tasks s1.timer_waiting) s1.tasks
          ∙ same a;
      valid = timers-IsValid now s1 v1;
    }

flag_waiting-switch_by :
    (r : List ℕ) (s : Scheduler) → s.runlist ≡ r → (switch_task s).flag_waiting ≡ s.flag_waiting
unfolding run_task
flag_waiting-switch_by [] s e = rw (switch_task-nil s e)
flag_waiting-switch_by (t ∷ ts) s e = rw (switch_task-cons t ts s e)

waitflag_is_set-switch_by :
    (r : List ℕ) (s : Scheduler)
    → s.runlist ≡ r
    → (switch_task s).waitflag_is_set ≡ s.waitflag_is_set
unfolding run_task
waitflag_is_set-switch_by [] s e = rw (switch_task-nil s e)
waitflag_is_set-switch_by (t ∷ ts) s e = rw (switch_task-cons t ts s e)

wakeup_waitflag-IsValid : (f : ℕ) (s : Scheduler) → IsValid s → IsValid (wakeup_waitflag f s)
unfolding wakeup_waitflag
wakeup_waitflag-IsValid f s v = record {
  once = v.once;
  timed = v.timed;
  flagged = v.flagged;
  has_flag = v.has_flag;
  idle_runs = v.idle_runs;
}

-- No wakeup is lost: after `wakeup_waitflag` of the flag that a task waits for, the next call of
-- `schedule` puts the task on the runlist, if no other task waits for this flag and the counter of
-- flags stays within its limit.
pub schedule-wakeup_waitflag :
    (now t : ℕ) (s : Scheduler)
    → IsValid s
    → count t s.flag_waiting ≡ 1
    → WaitsAlone t (s.tasks t).waitflag s.tasks s.flag_waiting
    → s.waitflag_is_set < 0xffffffffffff0000
    → (s' : Scheduler) × (schedule now (wakeup_waitflag (s.tasks t).waitflag s) ≡ some s')
      × (0 < count t s'.runlist)
      × (count t s'.flag_waiting ≡ 0)
unfolding schedule wakeup_waitflag
schedule-wakeup_waitflag now t s v waits alone low =
    let f = (s.tasks t).waitflag in
    let s0 = wakeup_waitflag f s in
    let front = stages-Front now s0 (wakeup_waitflag-IsValid f s v) in
    let s2 = schedule_handle_timer_waiting now (requeue_prev s0) in
    let up = signalled s2.flags s2.tasks s2.flag_waiting in
    let seen : up ≡ signalled s0.flags s.tasks s.flag_waiting =
      signalled-ext s2.flags s2.tasks s.tasks s2.flag_waiting front.waitflags
      ∙ ap₂ (λ q ts. signalled q s.tasks ts) front.flags front.waiting in
    let found : count t up ≡ 1 =
      ap (count t) seen
      ∙ signalled_alone t s0.flags s.tasks s.flag_waiting (ground arith) alone (omega arith)
      ∙ waits in
    let gone : count t (silent s2.flags s2.tasks s2.flag_waiting) ≡ 0 = omega (
      arith,
      count-signalled t s2.flags s2.tasks s2.flag_waiting,
      found,
      ap (count t) front.waiting,
    ) in
    let counter : s2.waitflag_is_set ≡ s.waitflag_is_set + 1 = omega (arith, front.counter) in
    let stage =
      handle_flag_waiting-eq s2 (λ a. omega (arith, front.valid.once a))
        (HasFlags-of_all s2.tasks s2.flag_waiting front.valid.has_flag) (omega arith)
        (omega arith) in
    let s3 = flags_done s2 in
    let list = runlist-switch_by s3.runlist s3 refl in
    (
      switch_task s3,
      ap (λ m. m >>= λ x. some (switch_task x)) stage,
      omega (arith, ap (count t) list, count-append t s2.runlist up),
      ap (count t) (flag_waiting-switch_by s3.runlist s3 refl) ∙ gone,
    )

-- the counter when no task waits for a flag
idle_count :
    (now : ℕ) (s : Scheduler)
    → IsValid s
    → s.flag_waiting ≡ []
    → s.waitflag_is_set ≤ 0xffffffffffff0000
    → (s' : Scheduler) × (schedule now s ≡ some s')
      × (s'.waitflag_is_set ≡ s.waitflag_is_set)
      × (s'.flag_waiting ≡ [])
unfolding schedule schedule_handle_flag_waiting check_flags
idle_count now s v empty low =
    let front = stages-Front now s v in
    let s2 = schedule_handle_timer_waiting now (requeue_prev s) in
    let below : ltb 0xffffffffffff0000 s2.waitflag_is_set ≡ false = ground (arith, front.counter) in
    let no_tasks : check_flags s2.flag_waiting s2 ≡ some s2 =
      ap (λ ts. check_flags ts s2) (front.waiting ∙ empty) in
    let done : schedule_handle_flag_waiting s2 ≡ some s2 = ground (arith, no_tasks) in
    (
      switch_task s2,
      ap (λ m. m >>= λ x. some (switch_task x)) done,
      waitflag_is_set-switch_by s2.runlist s2 refl ∙ front.counter,
      flag_waiting-switch_by s2.runlist s2 refl ∙ front.waiting ∙ empty,
    )

-- A wakeup that comes before the wait is counted for good: the wait returns at once and lowers the
-- flag, but the counter stays up, and when no task waits for a flag no call of `schedule` takes it
-- down: every tick of the timer asks for another task, whatever ticks are left.
pub wait_after_wakeup :
    (f now later : ℕ) (s : Scheduler)
    → IsValid s
    → s.flag_waiting ≡ []
    → s.waitflag_is_set < 0xffffffffffff0000
    → (s' s'' : Scheduler) × (wait_on_waitflag f later (wakeup_waitflag f s) ≡ some s')
      × (s'.flags f ≡ 0)
      × (s'.runlist ≡ s.runlist)
      × (schedule now s' ≡ some s'')
      × (s''.waitflag_is_set ≡ s.waitflag_is_set + 1)
      × (needs_resched s'' ≡ true)
unfolding wait_on_waitflag wakeup_waitflag needs_resched
wait_after_wakeup f now later s v empty low =
    let s0 = wakeup_waitflag f s in
    let s1 = record s0 { flags = update s0.flags f 0 } in
    let v1 : IsValid s1 = record {
      once = v.once;
      timed = v.timed;
      flagged = v.flagged;
      has_flag = v.has_flag;
      idle_runs = v.idle_runs;
    } in
    let (s2, run, counter, rest) = idle_count now s1 v1 empty (omega arith) in
    let up : s2.waitflag_is_set ≡ s.waitflag_is_set + 1 = omega (arith, counter) in
    (s1, s2, ground arith, ground arith, refl, run, up, ground (arith, up))
