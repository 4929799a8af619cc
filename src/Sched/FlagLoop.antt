-- ===== src/Sched/FlagLoop.antt =====
-- The loop over the tasks that wait for a flag.
use arm64_os.Base.{
  ◌>>=◌, ℕ, ◌+◌, ◌-◌, ◌%◌, ◌^◌, List, [], ◌∷◌, ◌++◌, ◌≡◌, refl, sym, ap, ◌∙◌, arith, ◌==◌,
  append-nil, append_assoc, Bool-cases, inl, inr, true, false, subst, some, length, ltb, ◌≤◌, ◌<◌,
}
use mathlib.Core.Path.{fun_ext}
use arm64_os.Base.Count.{remove_none, remove_one}
use arm64_os.Base.Maps.{update}
use arm64_os.Sched.{
  Task, Scheduler, set_state, scheduled, wake_flag, check_flag, check_flags,
  schedule_handle_flag_waiting,
}
use arm64_os.Sched.Timers.{IsOnce, once_parts, IsOnce-moved}
use arm64_os.Sched.Flags.{
  signalled, silent, lowered, freed, counted, HasFlags, signalled-update, silent-update,
  lowered-update, HasFlags-update,
}

abbrev at_flag : Scheduler → List ℕ → List ℕ → List ℕ → (ℕ → Task) → (ℕ → ℕ) → ℕ → Scheduler
at_flag s r kept ts tasks flags n = record s {
  runlist = r;
  flag_waiting = kept ++ ts;
  tasks = tasks;
  flags = flags;
  waitflag_is_set = n;
}

update_twice :
    (tasks : ℕ → Task) (t : ℕ) (v : Task) (w : Task → Task)
    → update (update tasks t v) t (w (update tasks t v t)) ≡ update tasks t (w v)
update_twice tasks t v w = fun_ext λ q. ground arith

abbrev free : Task → Task
free t = record t { waitflag = 0; task_state = scheduled }

check_flag-set :
    (t : ℕ) (ts : List ℕ) (s : Scheduler) (r kept : List ℕ) (tasks : ℕ → Task) (flags : ℕ → ℕ)
    (n : ℕ)
    → IsOnce r (kept ++ (t ∷ ts)) s.timer_waiting
    → ((tasks t).waitflag == 0) ≡ false
    → (flags (tasks t).waitflag == 0) ≡ false
    → check_flag t (at_flag s r kept (t ∷ ts) tasks flags n)
      ≡ some (
          at_flag s
            (r ++ (t ∷ []))
            kept
            ts
            (update tasks t (free (tasks t)))
            (update flags (tasks t).waitflag 0)
            ((n + 2 ^ 64 - 1) % 2 ^ 64))
unfolding check_flag wake_flag
check_flag-set t ts s r kept tasks flags n once has raised =
    let (cr, ck, ct, cf) = once_parts r kept t ts s.timer_waiting once in
    rw
      (
        has,
        raised,
        remove_none t r cr,
        remove_one t kept ts ck ct,
        remove_none t s.timer_waiting cf,
        update_twice tasks t (record (tasks t) { waitflag = 0 }) (set_state scheduled),
      )
      refl

check_flag-clear :
    (t : ℕ) (ts : List ℕ) (s : Scheduler) (r kept : List ℕ) (tasks : ℕ → Task) (flags : ℕ → ℕ)
    (n : ℕ)
    → ((tasks t).waitflag == 0) ≡ false
    → (flags (tasks t).waitflag == 0) ≡ true
    → check_flag t (at_flag s r kept (t ∷ ts) tasks flags n)
      ≡ some (at_flag s r (kept ++ (t ∷ [])) ts tasks flags n)
unfolding check_flag
check_flag-clear t ts s r kept tasks flags n has clear = rw (has, clear, append_assoc)

check_flags-eq :
    (ts : List ℕ) (s : Scheduler) (r kept : List ℕ) (tasks : ℕ → Task) (flags : ℕ → ℕ) (n : ℕ)
    → IsOnce r (kept ++ ts) s.timer_waiting
    → HasFlags tasks ts
    → check_flags ts (at_flag s r kept ts tasks flags n)
      ≡ some (record s {
        runlist = r ++ signalled flags tasks ts;
        flag_waiting = kept ++ silent flags tasks ts;
        tasks = freed (signalled flags tasks ts) tasks;
        flags = lowered flags tasks ts;
        waitflag_is_set = counted (length (signalled flags tasks ts)) n;
      })
unfolding check_flags signalled silent lowered freed counted
check_flags-eq [] s r kept tasks flags n once has = rw (append-nil, append-nil)
check_flags-eq (t ∷ ts) s r kept tasks flags n once has =
    let (cr, ck, ct, cf) = once_parts r kept t ts s.timer_waiting once in
    let v = free (tasks t) in
    let f = (tasks t).waitflag in
    let present : (f == 0) ≡ false = ground arith in
    elim (Bool-cases (flags f == 0)) [
      | inl clear ↦
          ap (λ m. m >>= check_flags ts)
            (check_flag-clear t ts s r kept tasks flags n present clear)
          ∙ check_flags-eq ts s r (kept ++ (t ∷ [])) tasks flags n
              (subst (λ q. IsOnce r q s.timer_waiting) (sym (append_assoc kept (t ∷ []) ts)) once)
              has.1
          ∙ rw (clear, append_assoc)
      | inr raised ↦
          ap (λ m. m >>= check_flags ts)
            (check_flag-set t ts s r kept tasks flags n once present raised)
          ∙ check_flags-eq ts s (r ++ (t ∷ [])) kept (update tasks t v) (update flags f 0)
              ((n + 2 ^ 64 - 1) % 2 ^ 64) (IsOnce-moved r kept t ts s.timer_waiting once)
              (HasFlags-update tasks t v ts ct has.1)
          ∙ rw (
            raised,
            signalled-update tasks t v ts (update flags f 0) ct,
            silent-update tasks t v ts (update flags f 0) ct,
            lowered-update tasks t v ts (update flags f 0) ct,
            append_assoc,
          )
    ]

-- the state after the loop
abbrev pub flags_done : Scheduler → Scheduler
flags_done s =
    let up = signalled s.flags s.tasks s.flag_waiting in
    record s {
      runlist = s.runlist ++ up;
      flag_waiting = silent s.flags s.tasks s.flag_waiting;
      tasks = freed up s.tasks;
      flags = lowered s.flags s.tasks s.flag_waiting;
      waitflag_is_set = counted (length up) s.waitflag_is_set;
    }

-- When the counter says that flags were set, the scheduler moves exactly the tasks that find their
-- flag set to the end of the runlist, in the order in which they wait, lowers each flag that it
-- finds and forgets it in the task, and takes the number of these tasks off the counter; the other
-- tasks stay waiting in their order, and nothing else changes. No task may stand twice on the
-- queues, every waiting task has a flag, and the counter is not above its limit.
pub handle_flag_waiting-eq :
    (s : Scheduler)
    → IsOnce s.runlist s.flag_waiting s.timer_waiting
    → HasFlags s.tasks s.flag_waiting
    → 0 < s.waitflag_is_set
    → s.waitflag_is_set ≤ 0xffffffffffff0000
    → schedule_handle_flag_waiting s
      ≡ some (record s {
        runlist = s.runlist ++ signalled s.flags s.tasks s.flag_waiting;
        flag_waiting = silent s.flags s.tasks s.flag_waiting;
        tasks = freed (signalled s.flags s.tasks s.flag_waiting) s.tasks;
        flags = lowered s.flags s.tasks s.flag_waiting;
        waitflag_is_set =
            counted (length (signalled s.flags s.tasks s.flag_waiting)) s.waitflag_is_set;
      })
unfolding schedule_handle_flag_waiting
handle_flag_waiting-eq s once has pos low =
    let below : ltb 0xffffffffffff0000 s.waitflag_is_set ≡ false = ground arith in
    let some_set : (s.waitflag_is_set == 0) ≡ false = ground arith in
    rw (below, some_set)
      (check_flags-eq s.flag_waiting s s.runlist [] s.tasks s.flags s.waitflag_is_set once has)
