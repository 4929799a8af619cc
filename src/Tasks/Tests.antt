-- ===== src/Tasks/Tests.antt =====
-- Three calls, the second with a name that is too long.
use arm64_os.Base.{◌≡◌, refl, arith, [], ◌∷◌, map}
use arm64_os.Tasks.{TaskPool, NewTask, reset_pool, task_create, alloc_task, alloc_stack}
use arm64_os.Tasks.Create.{create_all, AreFresh, task_create-AreFresh}

abbrev boot_pool : TaskPool
boot_pool = record { task_idx = 7; pid_counter = 0; stack_idx = 7 }

names :
    map (λ (t : NewTask). t.stack) (create_all (4 ∷ 65 ∷ 64 ∷ []) (reset_pool boot_pool))
    ≡ 1 ∷ 2 ∷ []
unfolding task_create alloc_task alloc_stack reset_pool
names = refl

task_create-AreFresh_example : AreFresh 0 0 0 (create_all (4 ∷ 65 ∷ 64 ∷ []) (reset_pool boot_pool))
task_create-AreFresh_example = task_create-AreFresh (4 ∷ 65 ∷ 64 ∷ []) boot_pool refl (omega arith)
