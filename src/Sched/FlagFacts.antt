-- ===== src/Sched/FlagFacts.antt =====
-- Who is woken by a flag and who stays.
use arm64_os.Base.{
  ℕ, ◌+◌, ◌≢◌, List, [], ◌∷◌, ◌≡◌, refl, arith, ◌==◌, Bool-cases, inl, inr, ◌≤◌, ◌<◌,
}
use arm64_os.Base.Count.{count}
use arm64_os.Base.Maps.{update}
use arm64_os.Sched.{Task}
use arm64_os.Sched.Flags.{signalled, silent, lowered, WaitsAlone}

-- The two parts of the waiting tasks hold what the whole holds.
pub count-signalled :
    (a : ℕ) (flags : ℕ → ℕ) (tasks : ℕ → Task) (ts : List ℕ)
    → count a (signalled flags tasks ts) + count a (silent flags tasks ts) ≡ count a ts
unfolding signalled silent
count-signalled a flags tasks [] = omega arith
count-signalled a flags tasks (t ∷ ts) = ground (
  arith,
  count-signalled a flags tasks ts,
  count-signalled a (update flags (tasks t).waitflag 0) tasks ts,
)

lowered_zero :
    (f : ℕ) (flags : ℕ → ℕ) (tasks : ℕ → Task) (ts : List ℕ)
    → flags f ≡ 0
    → lowered flags tasks ts f ≡ 0
unfolding lowered
lowered_zero f flags tasks [] z = z
lowered_zero f flags tasks (t ∷ ts) z = ground (
  arith,
  lowered_zero f flags tasks ts,
  lowered_zero f (update flags (tasks t).waitflag 0) tasks ts,
)

-- No task is left waiting for a flag that is set.
pub lowered-silent :
    (a : ℕ) (flags : ℕ → ℕ) (tasks : ℕ → Task) (ts : List ℕ)
    → 0 < count a (silent flags tasks ts)
    → lowered flags tasks ts (tasks a).waitflag ≡ 0
unfolding lowered silent
lowered-silent a flags tasks [] h = absurd (omega arith)
lowered-silent a flags tasks (t ∷ ts) h = ground (
  arith,
  lowered-silent a flags tasks ts,
  lowered-silent a (update flags (tasks t).waitflag 0) tasks ts,
  lowered_zero (tasks a).waitflag flags tasks ts,
)

-- The only task that waits for a flag that is set finds it.
pub signalled_alone :
    (t : ℕ) (flags : ℕ → ℕ) (tasks : ℕ → Task) (ts : List ℕ)
    → flags (tasks t).waitflag ≢ 0
    → WaitsAlone t (tasks t).waitflag tasks ts
    → count t ts ≤ 1
    → count t (signalled flags tasks ts) ≡ count t ts
unfolding signalled
signalled_alone t flags tasks [] raised alone once = refl
signalled_alone t flags tasks (x ∷ ts) raised alone once =
    let f = (tasks x).waitflag in
    elim (Bool-cases (x == t)) [
      | inl same ↦
          let e : x ≡ t = ground arith in
          ground (arith, count-signalled t (update flags f 0) tasks ts)
      | inr other ↦
          let apart : f ≢ (tasks t).waitflag = alone.0 (ground arith) in
          ground (
            arith,
            signalled_alone t flags tasks ts raised alone.1,
            signalled_alone t (update flags f 0) tasks ts (ground arith) alone.1,
          )
    ]
