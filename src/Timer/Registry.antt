-- ===== src/Timer/Registry.antt =====
-- timer.c as a map from ids to timers.
use arm64_os.Base.{
  ℕ, zero, suc, ◌+◌, ◌≤◌, ◌<◌, ◌≢◌, ◌≡◌, refl, inl, inr, List, [], ◌∷◌, arith, Option, none, some,
  ◌==◌, if◌then◌else◌, ◌∙◌, subst, set, length, length-set, Bool-cases,
}
use arm64_os.Base.Errors.{ErrorCode, err_ok, err_busy, err_no_resource}
use arm64_os.Timer.{
  TimerEntry, Timers, max_timers, find_timer, timer_get, timer_register, add_timer,
}

pub record IsValid (s : Timers) : Type 0 where
  pub size : length s.timers ≡ max_timers
  pub count : s.num_timers ≤ max_timers

abbrev pub or_else {ℓ} : {A : Type ℓ} → Option A → Option A → Option A
or_else none b = b
or_else (some a) b = some a

find_timer-set :
    (q : ℕ) (n : ℕ) (es : List TimerEntry) (e : TimerEntry)
    → n < length es
    → find_timer q (suc n) (set es n e)
      ≡ or_else (find_timer q n es) (if e.id == q then some e.t else none)
unfolding find_timer
find_timer-set q zero [] e lt = absurd (omega arith)
find_timer-set q zero (x ∷ es) e lt = refl
find_timer-set q (suc n) [] e lt = absurd (omega arith)
find_timer-set q (suc n) (x ∷ es) e lt = elim (Bool-cases (x.id == q)) [
  | inl same ↦ rw same refl
  | inr other ↦ rw other (find_timer-set q n es e (omega arith))
]

-- what a registration of `t` under `timer_id` does: an id that is taken stays as it is, a full
-- table takes nothing, and otherwise exactly the one id is added
abbrev pub Registers : ℕ → ℕ → Timers → Timers × ErrorCode → Type 0
Registers t timer_id s (s', err_ok) =
    (timer_get timer_id s ≡ none)
    × (s.num_timers < max_timers)
    × IsValid s'
    × (s'.num_timers ≡ s.num_timers + 1)
    × (timer_get timer_id s' ≡ some t)
    × ((q : ℕ) → q ≢ timer_id → timer_get q s' ≡ timer_get q s)
Registers t timer_id s (s', err_busy) = (timer_get timer_id s ≢ none) × (s' ≡ s)
Registers t timer_id s (s', err_no_resource) =
    (timer_get timer_id s ≡ none) × (s.num_timers ≡ max_timers) × (s' ≡ s)
Registers t timer_id s (s', _) = ⊥

module _ (t timer_id : ℕ) (s : Timers) (v : IsValid s) where
  get_added :
      (q : ℕ)
      → s.num_timers < max_timers
      → find_timer q
          (s.num_timers + 1)
          (set s.timers s.num_timers (record { t = t; id = timer_id }))
        ≡ or_else (timer_get q s) (if timer_id == q then some t else none)
  unfolding timer_get
  get_added q lt =
      subst
        (λ n.
          find_timer q n (set s.timers s.num_timers (record { t = t; id = timer_id }))
          ≡ or_else (timer_get q s) (if timer_id == q then some t else none))
        (omega arith)
        (find_timer-set q s.num_timers s.timers (record { t = t; id = timer_id })
          (omega (arith, v.size)))

  added-IsValid :
      s.num_timers < max_timers
      → IsValid (record {
        timers = set s.timers s.num_timers (record { t = t; id = timer_id });
        num_timers = s.num_timers + 1;
      })
  added-IsValid lt = record {
    size = length-set s.timers s.num_timers _ ∙ v.size;
    count = omega arith;
  }

  add_timer-Registers :
      (o : Option ℕ) → timer_get timer_id s ≡ o → Registers t timer_id s (add_timer t timer_id o s)
  unfolding add_timer timer_get
  add_timer-Registers (some other) h = (λ e. cc, refl)
  add_timer-Registers none h = elim (Bool-cases (s.num_timers == max_timers)) [
    | inl full ↦ rw full (h, ground arith, refl)
    | inr free ↦
        let lt : s.num_timers < max_timers = ground (arith, v.count) in
        rw free (
          h,
          lt,
          added-IsValid lt,
          refl,
          ground (arith, get_added timer_id lt),
          λ q ne. ground (arith, get_added q lt),
        )
  ]

-- In a valid registry, a registration fails exactly when the id is taken or all places are, and
-- then changes nothing. Otherwise the registry stays valid, the timer is found under its id, and
-- every other id finds what it did.
pub timer_register-Registers :
    (t timer_id : ℕ) (s : Timers) → IsValid s → Registers t timer_id s (timer_register t timer_id s)
unfolding timer_register timer_get
timer_register-Registers t timer_id s v = add_timer-Registers t timer_id s v _ refl
