-- ===== src/Sched/Flags.antt =====
-- What the flags select among the tasks that wait for them.
use arm64_os.Base.{
  ℕ, suc, zero, ◌+◌, ◌-◌, ◌%◌, ◌^◌, ◌≢◌, List, [], ◌∷◌, ◌≡◌, refl, arith, ◌==◌, if◌then◌else◌,
}
use arm64_os.Base.Count.{count}
use arm64_os.Base.Maps.{update}
use arm64_os.Sched.{Task, scheduled}

-- the tasks of a list that find their flag set, when each one lowers the flag that it finds; the
-- others; and the flags that are left
unfoldable pub signalled : (ℕ → ℕ) → (ℕ → Task) → List ℕ → List ℕ
signalled flags tasks [] = []
signalled flags tasks (t ∷ ts) =
    let f = (tasks t).waitflag in
    let quiet = signalled flags tasks ts in
    let rest = signalled (update flags f 0) tasks ts in if flags f == 0 then quiet else t ∷ rest

unfoldable pub silent : (ℕ → ℕ) → (ℕ → Task) → List ℕ → List ℕ
silent flags tasks [] = []
silent flags tasks (t ∷ ts) =
    let f = (tasks t).waitflag in
    let quiet = silent flags tasks ts in
    let rest = silent (update flags f 0) tasks ts in if flags f == 0 then t ∷ quiet else rest

unfoldable pub lowered : (ℕ → ℕ) → (ℕ → Task) → List ℕ → ℕ → ℕ
lowered flags tasks [] = flags
lowered flags tasks (t ∷ ts) =
    let f = (tasks t).waitflag in
    let quiet = lowered flags tasks ts in
    let rest = lowered (update flags f 0) tasks ts in if flags f == 0 then quiet else rest

-- the tasks with those of a list made runnable, their flags forgotten
unfoldable pub freed : List ℕ → (ℕ → Task) → ℕ → Task
freed [] tasks = tasks
freed (t ∷ ts) tasks =
    freed ts (update tasks t (record (tasks t) { waitflag = 0; task_state = scheduled }))

-- the counter after so many decrements
unfoldable pub counted : ℕ → ℕ → ℕ
counted zero n = n
counted (suc k) n = counted k ((n + 2 ^ 64 - 1) % 2 ^ 64)

-- every task of the list waits for a flag
abbrev pub HasFlags : (ℕ → Task) → List ℕ → Type 0
HasFlags tasks [] = Unit
HasFlags tasks (t ∷ ts) = ((tasks t).waitflag ≢ 0) × HasFlags tasks ts

module _ (tasks : ℕ → Task) (t : ℕ) (v : Task) where
  pub signalled-update :
      (ts : List ℕ) (flags : ℕ → ℕ)
      → count t ts ≡ 0
      → signalled flags (update tasks t v) ts ≡ signalled flags tasks ts
  unfolding signalled
  signalled-update [] flags h = refl
  signalled-update (x ∷ ts) flags h =
      ground
        (arith, signalled-update ts flags, signalled-update ts (update flags (tasks x).waitflag 0))

  pub silent-update :
      (ts : List ℕ) (flags : ℕ → ℕ)
      → count t ts ≡ 0
      → silent flags (update tasks t v) ts ≡ silent flags tasks ts
  unfolding silent
  silent-update [] flags h = refl
  silent-update (x ∷ ts) flags h =
      ground (arith, silent-update ts flags, silent-update ts (update flags (tasks x).waitflag 0))

  pub lowered-update :
      (ts : List ℕ) (flags : ℕ → ℕ)
      → count t ts ≡ 0
      → lowered flags (update tasks t v) ts ≡ lowered flags tasks ts
  unfolding lowered
  lowered-update [] flags h = refl
  lowered-update (x ∷ ts) flags h =
      ground (arith, lowered-update ts flags, lowered-update ts (update flags (tasks x).waitflag 0))

  pub HasFlags-update :
      (ts : List ℕ) → count t ts ≡ 0 → HasFlags tasks ts → HasFlags (update tasks t v) ts
  HasFlags-update [] h all = tt
  HasFlags-update (x ∷ ts) h all = (ground arith, HasFlags-update ts (ground arith) all.1)

-- no task of the list but `t` waits for the flag `f`
abbrev pub WaitsAlone : ℕ → ℕ → (ℕ → Task) → List ℕ → Type 0
WaitsAlone t f tasks [] = Unit
WaitsAlone t f tasks (x ∷ ts) = (x ≢ t → (tasks x).waitflag ≢ f) × WaitsAlone t f tasks ts
