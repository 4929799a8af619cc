-- ===== src/Sched/Turns.antt =====
-- The turns of the runnable tasks over a whole call of `schedule`.
use arm64_os.Base.{
  ◌>>=◌, ℕ, ◌+◌, ◌≤◌, List, [], ◌∷◌, ◌++◌, ◌≡◌, refl, ap, ap₂, ◌∙◌, arith, true, subst, Option,
  none, some,
}
use arm64_os.Base.Count.{count, remove, remove_none, remove_one}
use arm64_os.Sched.{
  Scheduler, TaskState, running, timewaiting, flagwaiting, preempt_ticks,
  schedule_handle_timer_waiting, schedule_handle_flag_waiting, requeue_prev, requeue_by,
  queue_runnable_task, switch_task, run_task, schedule,
}
use arm64_os.Sched.Timers.{expired, expired-update, handle_timer_waiting-eq}
use arm64_os.Sched.Invariant.{IsValid, goes_on, requeue_by-IsValid}
use arm64_os.Sched.Rounds.{switch_task-nil, switch_task-cons, waitflag_is_set-requeue_by}

abbrev pub first? : List ℕ → Option ℕ
first? [] = none
first? (x ∷ xs) = some x

-- what a task finds that gets the processor
pub record Runs (s : Scheduler) (t : ℕ) : Type 0 where
  pub chosen : s.current ≡ t
  pub fresh : (s.tasks t).ticks_left ≡ preempt_ticks
  pub state : (s.tasks t).task_state ≡ running

pub runlist-switch_by :
    (r : List ℕ) (s : Scheduler) → s.runlist ≡ r → (switch_task s).runlist ≡ s.runlist
unfolding run_task
runlist-switch_by [] s e = rw (switch_task-nil s e)
runlist-switch_by (t ∷ ts) s e = rw (switch_task-cons t ts s e)

switch_task-Runs :
    (t : ℕ) (ts : List ℕ) (s : Scheduler) → s.runlist ≡ t ∷ ts → Runs (switch_task s) t
unfolding run_task
switch_task-Runs t ts s e = rw (switch_task-cons t ts s e) (ground arith)

-- the runlist and the other tasks after the executing task went to its end
requeue_by-front :
    (st : TaskState) (ts : List ℕ) (s : Scheduler)
    → goes_on st ≡ true
    → IsValid s
    → s.runlist ≡ s.current ∷ ts
    → ((requeue_by st s).runlist ≡ ts ++ (s.current ∷ []))
      × ((requeue_by st s).timer_waiting ≡ s.timer_waiting)
      × ((now : ℕ)
          → expired now (requeue_by st s).tasks s.timer_waiting
            ≡ expired now s.tasks s.timer_waiting)
unfolding requeue_by queue_runnable_task
requeue_by-front timewaiting ts s g v e = cc
requeue_by-front flagwaiting ts s g v e = cc
requeue_by-front _ ts s g v e =
    let c = s.current in
    let once : count c (c ∷ ts) + count c s.timer_waiting + count c s.flag_waiting ≤ 1 =
      subst (λ q. count c q + count c s.timer_waiting + count c s.flag_waiting ≤ 1) e (v.once c) in
    let ct : count c ts ≡ 0 = ground arith in
    let cw : count c s.timer_waiting ≡ 0 = ground arith in
    (
      ap (λ q. remove c q ++ (c ∷ [])) e ∙ ap (λ q. q ++ (c ∷ [])) (remove_one c [] ts refl ct),
      remove_none c s.timer_waiting cw,
      (λ now.
          expired-update now _ c _ s.timer_waiting cw
          ∙ expired-update now _ c _ s.timer_waiting cw),
    )

nonempty :
    (ts us : List ℕ) (c : ℕ) → (t : ℕ) × (rest : List ℕ) × ((ts ++ (c ∷ [])) ++ us ≡ t ∷ rest)
nonempty [] us c = (c, us, refl)
nonempty (x ∷ ts) us c = (x, (ts ++ (c ∷ [])) ++ us, refl)

pub flags_idle : (s : Scheduler) → s.waitflag_is_set ≡ 0 → schedule_handle_flag_waiting s ≡ some s
unfolding schedule_handle_flag_waiting
flags_idle s e = ground arith

-- Round robin: when a task that does not wait gives up the processor and no flag was set, it goes
-- behind the other runnable tasks, the tasks whose time has come follow it in their order, and the
-- first task of the runlist runs with a full share of ticks.
pub schedule_round :
    (now : ℕ) (s : Scheduler) (ts : List ℕ)
    → IsValid s
    → s.runlist ≡ s.current ∷ ts
    → goes_on (s.tasks s.current).task_state ≡ true
    → s.waitflag_is_set ≡ 0
    → (s' : Scheduler) × (t : ℕ) × (schedule now s ≡ some s')
      × (s'.runlist ≡ (ts ++ (s.current ∷ [])) ++ expired now s.tasks s.timer_waiting)
      × (first? s'.runlist ≡ some t)
      × Runs s' t
unfolding schedule requeue_prev
schedule_round now s ts v e g z =
    let st = (s.tasks s.current).task_state in
    let s1 = requeue_by st s in
    let s2 = schedule_handle_timer_waiting now s1 in
    let (order, timers, due) = requeue_by-front st ts s g v e in
    let stage = handle_timer_waiting-eq now s1 (requeue_by-IsValid st s v).once in
    let none_set : s2.waitflag_is_set ≡ 0 =
      ap (λ (x : Scheduler). x.waitflag_is_set) stage ∙ waitflag_is_set-requeue_by st s ∙ z in
    let runs : s2.runlist ≡ (ts ++ (s.current ∷ [])) ++ expired now s.tasks s.timer_waiting =
      ap (λ (x : Scheduler). x.runlist) stage
      ∙ ap (λ q. s1.runlist ++ expired now s1.tasks q) timers
      ∙ ap₂ ◌++◌ order (due now) in
    let (t, rest, front) = nonempty ts (expired now s.tasks s.timer_waiting) s.current in
    let list = runlist-switch_by s2.runlist s2 refl in
    (
      switch_task s2,
      t,
      ap (λ m. m >>= λ x. some (switch_task x)) (flags_idle s2 none_set),
      list ∙ runs,
      ap first? (list ∙ runs ∙ front),
      switch_task-Runs t rest s2 (runs ∙ front),
    )
