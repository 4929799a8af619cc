-- ===== src/Sched/Timers.antt =====
-- The tasks that wait for the timer: which of them the scheduler wakes.
use arm64_os.Base.{
  ℕ, ◌+◌, ◌≤◌, List, [], ◌∷◌, ◌++◌, ◌≡◌, refl, sym, ap, ◌∙◌, arith, leb, ◌==◌, if◌then◌else◌,
  append-nil, append_assoc, Bool-cases, false, subst, inl, inr, true,
}
use arm64_os.Base.Count.{count, count-append, remove_none, remove_one}
use arm64_os.Base.Maps.{update}
use arm64_os.Sched.{
  Task, Scheduler, set_state, scheduled, wake_timer, wake_timers, schedule_handle_timer_waiting,
}

-- No task stands twice on the queues.
abbrev pub IsOnce : List ℕ → List ℕ → List ℕ → Type 0
IsOnce r t f = (a : ℕ) → count a r + count a t + count a f ≤ 1

module _ (now : ℕ) where
  -- the tasks of a list whose time has come, and the others
  unfoldable pub expired : (ℕ → Task) → List ℕ → List ℕ
  expired tasks [] = []
  expired tasks (t ∷ ts) =
      let rest = expired tasks ts in if leb (tasks t).timer_wait_until now then t ∷ rest else rest

  unfoldable pub pending : (ℕ → Task) → List ℕ → List ℕ
  pending tasks [] = []
  pending tasks (t ∷ ts) =
      let rest = pending tasks ts in if leb (tasks t).timer_wait_until now then rest else t ∷ rest

-- the tasks with those of a list made runnable
unfoldable pub woken : List ℕ → (ℕ → Task) → ℕ → Task
woken [] tasks = tasks
woken (t ∷ ts) tasks = woken ts (update tasks t (set_state scheduled (tasks t)))

module _ (now : ℕ) (tasks : ℕ → Task) (t : ℕ) (v : Task) where
  pub expired-update :
      (ts : List ℕ) → count t ts ≡ 0 → expired now (update tasks t v) ts ≡ expired now tasks ts
  unfolding expired
  expired-update [] h = refl
  expired-update (x ∷ ts) h = ground (arith, expired-update ts)

  pending-update :
      (ts : List ℕ) → count t ts ≡ 0 → pending now (update tasks t v) ts ≡ pending now tasks ts
  unfolding pending
  pending-update [] h = refl
  pending-update (x ∷ ts) h = ground (arith, pending-update ts)

-- a state of the loop: `kept` has been visited and stays, `ts` is to come
abbrev at_timer : Scheduler → List ℕ → List ℕ → List ℕ → (ℕ → Task) → Scheduler
at_timer s r kept ts tasks = record s { runlist = r; timer_waiting = kept ++ ts; tasks = tasks }

-- the parts of a queue around a task that stands once
pub once_parts :
    (r kept : List ℕ) (t : ℕ) (ts f : List ℕ)
    → IsOnce r (kept ++ (t ∷ ts)) f
    → (count t r ≡ 0) × (count t kept ≡ 0) × (count t ts ≡ 0) × (count t f ≡ 0)
once_parts r kept t ts f once = ground (arith, once t, count-append t kept (t ∷ ts))

-- a task that moves to the end of the first queue
pub IsOnce-moved :
    (r kept : List ℕ) (t : ℕ) (ts f : List ℕ)
    → IsOnce r (kept ++ (t ∷ ts)) f
    → IsOnce (r ++ (t ∷ [])) (kept ++ ts) f
IsOnce-moved r kept t ts f once a =
    ground (
      arith,
      once a,
      count-append a kept (t ∷ ts),
      count-append a kept ts,
      count-append a r (t ∷ []),
    )

wake_timer-due :
    (now t : ℕ) (ts : List ℕ) (s : Scheduler) (r kept : List ℕ) (tasks : ℕ → Task)
    → IsOnce r (kept ++ (t ∷ ts)) s.flag_waiting
    → leb (tasks t).timer_wait_until now ≡ true
    → wake_timer now t (at_timer s r kept (t ∷ ts) tasks)
      ≡ at_timer s (r ++ (t ∷ [])) kept ts (update tasks t (set_state scheduled (tasks t)))
unfolding wake_timer
wake_timer-due now t ts s r kept tasks once due =
    let (cr, ck, ct, cf) = once_parts r kept t ts s.flag_waiting once in
    rw (due, remove_none t r cr, remove_one t kept ts ck ct, remove_none t s.flag_waiting cf) refl

wake_timer-late :
    (now t : ℕ) (ts : List ℕ) (s : Scheduler) (r kept : List ℕ) (tasks : ℕ → Task)
    → leb (tasks t).timer_wait_until now ≡ false
    → wake_timer now t (at_timer s r kept (t ∷ ts) tasks) ≡ at_timer s r (kept ++ (t ∷ [])) ts tasks
unfolding wake_timer
wake_timer-late now t ts s r kept tasks late = rw (late, append_assoc)

wake_timers-eq :
    (now : ℕ) (ts : List ℕ) (s : Scheduler) (r kept : List ℕ) (tasks : ℕ → Task)
    → IsOnce r (kept ++ ts) s.flag_waiting
    → wake_timers now ts (at_timer s r kept ts tasks) ≡ record s {
      runlist = r ++ expired now tasks ts;
      timer_waiting = kept ++ pending now tasks ts;
      tasks = woken (expired now tasks ts) tasks;
    }
unfolding wake_timers expired pending woken
wake_timers-eq now [] s r kept tasks once = rw (append-nil, append-nil)
wake_timers-eq now (t ∷ ts) s r kept tasks once =
    let (cr, ck, ct, cf) = once_parts r kept t ts s.flag_waiting once in
    let v = set_state scheduled (tasks t) in
    elim (Bool-cases (leb (tasks t).timer_wait_until now)) [
      | inl due ↦
          ap (wake_timers now ts) (wake_timer-due now t ts s r kept tasks once due)
          ∙ wake_timers-eq now ts s (r ++ (t ∷ [])) kept (update tasks t v)
              (IsOnce-moved r kept t ts s.flag_waiting once)
          ∙ rw (
            due,
            expired-update now tasks t v ts ct,
            pending-update now tasks t v ts ct,
            append_assoc,
          )
      | inr late ↦
          ap (wake_timers now ts) (wake_timer-late now t ts s r kept tasks late)
          ∙ wake_timers-eq now ts s r (kept ++ (t ∷ [])) tasks
              (subst (λ q. IsOnce r q s.flag_waiting) (sym (append_assoc kept (t ∷ []) ts)) once)
          ∙ rw (late, append_assoc)
    ]

-- The scheduler moves exactly the tasks whose time has come to the end of the runlist, in the
-- order in which they wait, and makes them runnable; the others stay waiting in their order, and
-- nothing else changes. No task may stand twice on the queues.
pub handle_timer_waiting-eq :
    (now : ℕ) (s : Scheduler)
    → IsOnce s.runlist s.timer_waiting s.flag_waiting
    → schedule_handle_timer_waiting now s ≡ record s {
      runlist = s.runlist ++ expired now s.tasks s.timer_waiting;
      timer_waiting = pending now s.tasks s.timer_waiting;
      tasks = woken (expired now s.tasks s.timer_waiting) s.tasks;
    }
unfolding schedule_handle_timer_waiting
handle_timer_waiting-eq now s once = wake_timers-eq now s.timer_waiting s s.runlist [] s.tasks once

-- The two parts of the waiting tasks hold what the whole holds.
pub count-expired :
    (now a : ℕ) (tasks : ℕ → Task) (ts : List ℕ)
    → count a (expired now tasks ts) + count a (pending now tasks ts) ≡ count a ts
unfolding expired pending
count-expired now a tasks [] = omega arith
count-expired now a tasks (t ∷ ts) = ground (arith, count-expired now a tasks ts)

-- A task is left waiting exactly if its time has not come.
pub count-pending :
    (now a : ℕ) (tasks : ℕ → Task) (ts : List ℕ)
    → count a (pending now tasks ts)
      ≡ (if leb (tasks a).timer_wait_until now then 0 else count a ts)
unfolding pending
count-pending now a tasks [] = ground arith
count-pending now a tasks (t ∷ ts) = ground (arith, count-pending now a tasks ts)

pub task_state-woken :
    (a : ℕ) (ts : List ℕ) (tasks : ℕ → Task)
    → (woken ts tasks a).task_state ≡ (if count a ts == 0 then (tasks a).task_state else scheduled)
unfolding woken
task_state-woken a [] tasks = ground arith
task_state-woken a (t ∷ ts) tasks =
    ground (arith, task_state-woken a ts (update tasks t (set_state scheduled (tasks t))))

-- Waking by the timer does not touch the waitflags of the tasks.
pub waitflag-woken :
    (a : ℕ) (ts : List ℕ) (tasks : ℕ → Task) → (woken ts tasks a).waitflag ≡ (tasks a).waitflag
unfolding woken
waitflag-woken a [] tasks = refl
waitflag-woken a (t ∷ ts) tasks =
    ground (arith, waitflag-woken a ts (update tasks t (set_state scheduled (tasks t))))
