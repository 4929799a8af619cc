-- ===== src/Tasks.antt =====
-- sched.c: the creation of tasks. A task is its index in `tasks`, and a stack the number of its end, in
-- units of STACK_SIZE from the start of `stacks`; stacks grow down. A name is its length. The context
-- that the assembler prepares is not observed here.
pub mod Create
mod Tests
use arm64_os.Base.{ℕ, ◌+◌, ◌%◌, ◌^◌, List, [], ◌∷◌, Option, none, some, ltb, if◌then◌else◌}

pub record TaskPool : Type 0 where
  pub task_idx : ℕ
  pub pid_counter : ℕ
  pub stack_idx : ℕ

pub record NewTask : Type 0 where
  pub index : ℕ
  pub pid : ℕ
  pub stack : ℕ
  pub ticks_left : ℕ

-- the assignments of `scheduler_init`
unfoldable pub reset_pool : TaskPool → TaskPool
reset_pool p = record p { task_idx = 0; stack_idx = 0 }

unfoldable pub alloc_task : TaskPool → TaskPool × ℕ
alloc_task p = (record p { task_idx = p.task_idx + 1 }, p.task_idx)

-- `stack_idx` is a `char`.
unfoldable pub alloc_stack : TaskPool → TaskPool × ℕ
alloc_stack p = let next = (p.stack_idx + 1) % 256 in (record p { stack_idx = next }, next)

-- A name that is too long gives back neither the task nor the number; no pointer is ever NULL.
unfoldable pub task_create : ℕ → TaskPool → TaskPool × Option NewTask
unfolding alloc_task alloc_stack
task_create name_len p =
    let (p1, t) = alloc_task p in
    let p2 : TaskPool = record p1 { pid_counter = (p1.pid_counter + 1) % 2 ^ 64 } in
    let (p3, stack) = alloc_stack p2 in
    if ltb 64 name_len
    then (p2, none)
    else (p3, some (record { index = t; pid = p.pid_counter; stack = stack; ticks_left = 10 }))
