-- ===== src/Tasks/Create.antt =====
-- Any sequence of creations after the start of the scheduler.
use arm64_os.Base.{
  ℕ, ◌+◌, ◌%◌, ◌^◌, ◌≤◌, ◌<◌, ◌≡◌, refl, arith, List, [], ◌∷◌, true, false, Option, none, some, ltb,
  sym, subst, length, Bool-cases, inl, inr,
}
use arm64_os.Tasks.{TaskPool, NewTask, reset_pool, task_create}

abbrev pub add_some : Option NewTask → List NewTask → List NewTask
add_some none ts = ts
add_some (some t) ts = t ∷ ts

-- the tasks that a sequence of calls creates, by the lengths of their names
abbrev pub create_all : List ℕ → TaskPool → List NewTask
create_all [] p = []
create_all (n ∷ ns) p = add_some (task_create n p).1 (create_all ns (task_create n p).0)

-- Indices, numbers and stacks strictly rise, and stay in the arrays of 40 tasks and 10 stacks.
abbrev pub AreFresh : ℕ → ℕ → ℕ → List NewTask → Type 0
AreFresh i pid s [] = Unit
AreFresh i pid s (t ∷ ts) =
    (i ≤ t.index)
    × (t.index < 40)
    × (pid ≤ t.pid)
    × (s < t.stack)
    × (t.stack ≤ 10)
    × AreFresh (t.index + 1) (t.pid + 1) t.stack ts

AreFresh-le :
    (i j pid pid' s : ℕ) (ts : List NewTask)
    → j ≤ i
    → pid' ≤ pid
    → AreFresh i pid s ts
    → AreFresh j pid' s ts
AreFresh-le i j pid pid' s [] le le' h = tt
AreFresh-le i j pid pid' s (t ∷ ts) le le' h =
    let (a, b, c, d, e, f) = h in (omega arith, b, omega arith, d, e, f)

-- the pool after a call whose name is too long, and after one that succeeds
abbrev skipped : TaskPool → TaskPool
skipped p = record {
  task_idx = p.task_idx + 1;
  pid_counter = (p.pid_counter + 1) % 2 ^ 64;
  stack_idx = p.stack_idx;
}

abbrev used : TaskPool → TaskPool
used p = record (skipped p) { stack_idx = (p.stack_idx + 1) % 256 }

abbrev new_task : TaskPool → NewTask
new_task p = record {
  index = p.task_idx;
  pid = p.pid_counter;
  stack = (p.stack_idx + 1) % 256;
  ticks_left = 10;
}

create_long : (n : ℕ) (p : TaskPool) → ltb 64 n ≡ true → task_create n p ≡ (skipped p, none)
unfolding task_create
create_long n p h = rw h refl

create_short :
    (n : ℕ) (p : TaskPool) → ltb 64 n ≡ false → task_create n p ≡ (used p, some (new_task p))
unfolding task_create
create_short n p h = rw h refl

abbrev GoesOn : List ℕ → TaskPool → TaskPool × Option NewTask → Type 0
GoesOn ns p r = AreFresh p.task_idx p.pid_counter p.stack_idx (add_some r.1 (create_all ns r.0))

create_all-AreFresh :
    (ns : List ℕ) (p : TaskPool)
    → p.task_idx + length ns ≤ 40
    → p.stack_idx + length ns ≤ 10
    → p.pid_counter + length ns < 2 ^ 64
    → AreFresh p.task_idx p.pid_counter p.stack_idx (create_all ns p)
create_all-AreFresh [] p a b c = tt
create_all-AreFresh (n ∷ ns) p a b c =
    let pid : (p.pid_counter + 1) % 2 ^ 64 ≡ p.pid_counter + 1 = omega arith in
    let stack : (p.stack_idx + 1) % 256 ≡ p.stack_idx + 1 = omega arith in
    elim (Bool-cases (ltb 64 n)) [
      | inl long ↦ subst (GoesOn ns p) (sym (create_long n p long)) (
          AreFresh-le _ _ _ _ _ _ (omega arith) (omega (arith, pid))
            (create_all-AreFresh ns (skipped p) (omega arith) (omega arith) (omega (arith, pid))))
      | inr short ↦ subst (GoesOn ns p) (sym (create_short n p short)) (
        omega arith,
        omega arith,
        omega arith,
        omega (arith, stack),
        omega (arith, stack),
        AreFresh-le _ _ _ _ _ _ (omega arith) (omega (arith, pid)) (
            create_all-AreFresh ns (used p) (omega arith) (omega (arith, stack))
              (omega (arith, pid))),
      )
    ]

-- From the start of the scheduler on, up to ten calls of `task_create`, whatever their names are,
-- create tasks that have different places, numbers and stacks, all of them within their arrays.
pub task_create-AreFresh :
    (ns : List ℕ) (p : TaskPool)
    → p.pid_counter ≡ 0
    → length ns ≤ 10
    → AreFresh 0 0 0 (create_all ns (reset_pool p))
unfolding reset_pool
task_create-AreFresh ns p first few =
    AreFresh-le 0 0 p.pid_counter 0 0 _ (omega arith) (omega arith) (
      create_all-AreFresh ns (record p { task_idx = 0; stack_idx = 0 }) (omega arith) (omega arith)
        (omega arith))
