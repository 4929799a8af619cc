-- ===== src/GpioSet/Sets.antt =====
-- The invariant of the table of sets: no two active sets share a pin, and the counter is never
-- below the number of active sets.
use Prim.Native.Nat.{bit_and}
use arm64_os.Base.{
  get_elem?, some, refl, ℕ, zero, suc, ◌≤◌, ◌<◌, ◌≢◌, ◌≡◌, List, [], ◌∷◌, arith, false, ◌==◌,
  if◌then◌else◌, ◌∙◌, set, length, Bool-cases, inl, inr,
}
use arm64_os.Base.Bits.{bit_and_comm}
use arm64_os.GpioSet.{PinSet, GpioSets, num_sets, is_busy, first_free}

-- no active set has a pin of `m`
abbrev pub IsFree : ℕ → List PinSet → Type 0
IsFree m [] = Unit
IsFree m (g ∷ gs) = (g.active ≢ 0 → bit_and g.mask m ≡ 0) × IsFree m gs

abbrev pub IsDisjoint : List PinSet → Type 0
IsDisjoint [] = Unit
IsDisjoint (g ∷ gs) = (g.active ≢ 0 → IsFree g.mask gs) × IsDisjoint gs

abbrev pub num_active : List PinSet → ℕ
num_active [] = 0
num_active (g ∷ gs) = if g.active == 0 then num_active gs else suc (num_active gs)

pub record IsValid (s : GpioSets) : Type 0 where
  pub size : length s.gpio_sets ≡ num_sets
  pub disjoint : IsDisjoint s.gpio_sets
  pub counted : num_active s.gpio_sets ≤ s.active_count
  pub limit : s.active_count ≤ num_sets

pub is_busy-IsFree : (m : ℕ) (gs : List PinSet) → is_busy m gs ≡ false → IsFree m gs
unfolding is_busy
is_busy-IsFree m [] h = tt
is_busy-IsFree m (g ∷ gs) h = (ground arith, is_busy-IsFree m gs (ground arith))

IsFree-set :
    (m i : ℕ) (gs : List PinSet) (g : PinSet)
    → IsFree m gs
    → (g.active ≢ 0 → bit_and g.mask m ≡ 0)
    → IsFree m (set gs i g)
IsFree-set m i [] g free h = tt
IsFree-set m zero (x ∷ gs) g free h = (h, free.1)
IsFree-set m (suc i) (x ∷ gs) g free h = (free.0, IsFree-set m i gs g free.1 h)

-- A set that is disjoint from all active ones may take the place of a free one.
pub first_free-IsDisjoint :
    (gs : List PinSet) (new : PinSet)
    → IsFree new.mask gs
    → IsDisjoint gs
    → IsDisjoint (set gs (first_free gs) new)
unfolding first_free
first_free-IsDisjoint [] new free d = tt
first_free-IsDisjoint (g ∷ gs) new free d = elim (Bool-cases (g.active == 0)) [
  | inl idle ↦ rw idle (λ _. free.1, d.1)
  | inr busy ↦ rw busy (
    λ ne.
        IsFree-set g.mask (first_free gs) gs new (d.0 ne)
          (λ _. bit_and_comm new.mask g.mask ∙ free.0 ne),
    first_free-IsDisjoint gs new free.1 d.1,
  )
]

pub first_free-lt : (gs : List PinSet) → num_active gs < length gs → first_free gs < length gs
unfolding first_free
first_free-lt [] h = h
first_free-lt (g ∷ gs) h = ground (arith, first_free-lt gs)

pub first_free-idle :
    (gs : List PinSet)
    → first_free gs < length gs
    → (g : PinSet) × (get_elem? gs (first_free gs) ≡ some g) × (g.active ≡ 0)
unfolding first_free
first_free-idle [] h = absurd (omega arith)
first_free-idle (g ∷ gs) h = elim (Bool-cases (g.active == 0)) [
  | inl idle ↦ rw idle (g, refl, ground arith)
  | inr busy ↦ rw busy (first_free-idle gs (ground arith))
]

pub num_active-first_free :
    (gs : List PinSet) (new : PinSet)
    → num_active (set gs (first_free gs) new) ≤ suc (num_active gs)
unfolding first_free
num_active-first_free [] new = omega arith
num_active-first_free (g ∷ gs) new = ground (arith, num_active-first_free gs new)

-- Turning a set off keeps the others apart.
pub off-IsDisjoint :
    (i : ℕ) (gs : List PinSet) (g : PinSet) → g.active ≡ 0 → IsDisjoint gs → IsDisjoint (set gs i g)
off-IsDisjoint i [] g off d = tt
off-IsDisjoint zero (x ∷ gs) g off d = (λ ne. absurd (ne off), d.1)
off-IsDisjoint (suc i) (x ∷ gs) g off d =
    (λ ne. IsFree-set x.mask i gs g (d.0 ne) (λ on. absurd (on off)), off-IsDisjoint i gs g off d.1)

pub num_active-off :
    (i : ℕ) (gs : List PinSet) (g : PinSet) → g.active ≡ 0 → num_active (set gs i g) ≤ num_active gs
num_active-off i [] g off = omega arith
num_active-off zero (x ∷ gs) g off = ground arith
num_active-off (suc i) (x ∷ gs) g off = ground (arith, num_active-off i gs g off)
