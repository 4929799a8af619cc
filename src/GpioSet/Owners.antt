-- ===== src/GpioSet/Owners.antt =====
-- What a request and a release do to a valid table.
use arm64_os.Base.{
  ℕ, zero, suc, ◌+◌, ◌<◌, ◌≢◌, ◌≡◌, refl, ◌⊎◌, List, [], ◌∷◌, ◌++◌, arith, true, false, Option,
  none, some, ◌==◌, ◌∙◌, sym, ap, subst, set, length, length-set, get_elem?, get_elem?-set_self,
  get_elem?-set_ne, Bool-cases, inl, inr,
}
use arm64_os.Base.Errors.{
  ErrorCode, err_ok, err_not_init, err_inval_arg, err_no_resource, err_busy, err_not_found,
}
use arm64_os.GpioSet.{
  PinSet, GpioSets, num_sets, key_len, is_busy, first_free, slot, gpio_set_request,
  gpio_set_release, release_set, num_owners,
}
use arm64_os.GpioSet.Sets.{
  IsFree, IsValid, is_busy-IsFree, first_free-IsDisjoint, first_free-idle, first_free-lt,
  num_active-first_free, off-IsDisjoint, num_active-off,
}

-- the set of pins `m` is granted at the index `i`
pub record Granted (m : ℕ) (key : List ℕ) (s s' : GpioSets) (i : ℕ) : Type 0 where
  pub bound : i < num_sets
  pub apart : IsFree m s.gpio_sets
  pub free : (g : PinSet) × (get_elem? s.gpio_sets i ≡ some g) × (g.active ≡ 0)
  pub owned :
      get_elem? s'.gpio_sets i ≡ some (record { active = 1; owner_key = key ++ (0 ∷ []); mask = m })
  pub others : (j : ℕ) → i ≢ j → get_elem? s'.gpio_sets j ≡ get_elem? s.gpio_sets j
  pub valid : IsValid s'

-- the outcomes of a request
abbrev pub Requests : ℕ → List ℕ → GpioSets → GpioSets × (ErrorCode × Option ℕ) → Type 0
Requests m key s (s', (err_ok, some i)) = Granted m key s s' i
Requests m key s (s', (code, none)) =
    (s' ≡ s)
    × (((code ≡ err_not_init) × (s.initialized ≡ 0))
        ⊎ ((code ≡ err_inval_arg) × (length key ≢ key_len))
        ⊎ ((code ≡ err_no_resource) × (s.active_count ≡ num_sets))
        ⊎ ((code ≡ err_busy) × (is_busy m s.gpio_sets ≡ true)))
Requests m key s (s', (code, some i)) = ⊥

module _ (m : ℕ) (key : List ℕ) (s : GpioSets) (v : IsValid s) where
  abbrev place : ℕ
  place = first_free s.gpio_sets

  abbrev granted : PinSet
  granted = record { active = 1; owner_key = key ++ (0 ∷ []); mask = m }

  abbrev after : ℕ → GpioSets
  after i = record s { gpio_sets = set s.gpio_sets i granted; active_count = s.active_count + 1 }

  place-lt : s.active_count ≢ num_sets → place < num_sets
  place-lt ne =
      let found : place < length s.gpio_sets =
        first_free-lt s.gpio_sets (ground (arith, v.size, v.counted, v.limit)) in
      ground (arith, v.size)

  after-Granted :
      s.active_count ≢ num_sets
      → is_busy m s.gpio_sets ≡ false
      → Granted m key s (after (slot place)) place
  after-Granted ne idle =
      let lt : place < num_sets = place-lt ne in
      let at_place : place ≡ slot place = ground arith in
      subst (λ i. Granted m key s (after i) place) at_place
        (record {
          bound = lt;
          apart = is_busy-IsFree m s.gpio_sets idle;
          free = first_free-idle s.gpio_sets (omega (arith, v.size));
          owned = get_elem?-set_self s.gpio_sets place granted (omega (arith, v.size));
          others = λ j ne. get_elem?-set_ne s.gpio_sets granted ne;
          valid = record {
            size = length-set s.gpio_sets place granted ∙ v.size;
            disjoint =
                first_free-IsDisjoint s.gpio_sets granted (is_busy-IsFree m s.gpio_sets idle)
                  v.disjoint;
            counted = omega (arith, v.counted, num_active-first_free s.gpio_sets granted);
            limit = omega (arith, v.limit);
          };
        })

  -- A request on a valid table either is granted or changes nothing. It is granted a place below 32
  -- that was free, for pins that no active set has, all other places stay as they are, and the
  -- table stays valid: active sets are disjoint. It fails only for one of the four reasons.
  pub gpio_set_request-Requests : Requests m key s (gpio_set_request m key s)
  unfolding gpio_set_request
  gpio_set_request-Requests = elim (Bool-cases (s.initialized == 0)) [
    | inl fresh ↦ rw fresh (refl, inl (refl, ground arith))
    | inr ready ↦ rw ready elim (Bool-cases (length key == key_len)) [
      | inr odd ↦ rw odd (refl, inr (inl (refl, ground arith)))
      | inl fits ↦ rw fits elim (Bool-cases (s.active_count == num_sets)) [
        | inl full ↦ rw full (refl, inr (inr (inl (refl, ground arith))))
        | inr room ↦ rw room elim (Bool-cases (is_busy m s.gpio_sets)) [
          | inl busy ↦ rw busy (refl, inr (inr (inr (refl, busy))))
          | inr idle ↦ rw idle (after-Granted (ground arith) idle)
        ]
      ]
    ]
  ]

num_owners-off :
    (m i : ℕ) (gs : List PinSet) (g : PinSet)
    → get_elem? gs i ≡ some g
    → num_owners m (set gs i (record g { active = 0 })) ≡ num_owners m gs
unfolding num_owners
num_owners-off m i [] g h = refl
num_owners-off m zero (x ∷ gs) g h = let e : x ≡ g = cc in rw e refl
num_owners-off m (suc i) (x ∷ gs) g h = rw (num_owners-off m i gs g h) refl

-- what a release of a handle does, where the set was on or off
pub record Released (handle : ℕ) (s s' : GpioSets) (code : ErrorCode) : Type 0 where
  pub outcome : (code ≡ err_ok) ⊎ ((code ≡ err_not_found) × (s' ≡ s))
  pub idle : (g : PinSet) → get_elem? s'.gpio_sets handle ≡ some g → g.active ≡ 0
  pub others : (j : ℕ) → handle ≢ j → get_elem? s'.gpio_sets j ≡ get_elem? s.gpio_sets j
  pub valid : IsValid s'
  pub count : s'.active_count ≡ s.active_count
  pub owners : (m : ℕ) → num_owners m s'.gpio_sets ≡ num_owners m s.gpio_sets

get_elem?-lt :
    {A : Type 0} (xs : List A) (i : ℕ) → i < length xs → (a : A) × (get_elem? xs i ≡ some a)
get_elem?-lt [] i h = absurd (omega arith)
get_elem?-lt (x ∷ xs) zero h = (x, refl)
get_elem?-lt (x ∷ xs) (suc i) h = get_elem?-lt xs i (omega arith)

abbrev turned_off : ℕ → PinSet → GpioSets → GpioSets
turned_off handle g s = record s { gpio_sets = set s.gpio_sets handle (record g { active = 0 }) }

turned_off-Released :
    (handle : ℕ) (s : GpioSets) (g : PinSet)
    → IsValid s
    → get_elem? s.gpio_sets handle ≡ some g
    → handle < num_sets
    → Released handle s (turned_off handle g s) err_ok
turned_off-Released handle s g v h lt =
    let off : PinSet = record g { active = 0 } in
    record {
      outcome = inl refl;
      idle = λ g' e.
          let same : some off ≡ some g' =
            sym (get_elem?-set_self s.gpio_sets handle off (omega (arith, v.size))) ∙ e in
          cc;
      others = λ j ne. get_elem?-set_ne s.gpio_sets off ne;
      valid = record {
        size = length-set s.gpio_sets handle off ∙ v.size;
        disjoint = off-IsDisjoint handle s.gpio_sets off refl v.disjoint;
        counted = omega (arith, v.counted, num_active-off handle s.gpio_sets off refl);
        limit = v.limit;
      };
      count = refl;
      owners = λ m. num_owners-off m handle s.gpio_sets g h;
    }

release_set-Released :
    (handle : ℕ) (s : GpioSets) (g : PinSet)
    → IsValid s
    → get_elem? s.gpio_sets handle ≡ some g
    → handle < num_sets
    → (s' : GpioSets) × (code : ErrorCode) × (release_set handle (some g) s ≡ some (s', code))
      × Released handle s s' code
unfolding release_set
release_set-Released handle s g v h lt = elim (Bool-cases (g.active == 0)) [
  | inl off ↦ (
    s,
    err_not_found,
    rw off refl,
    record {
      outcome = inr (refl, refl);
      idle = λ g' e. let same : some g ≡ some g' = sym h ∙ e in ground arith;
      others = λ j ne. refl;
      valid = v;
      count = refl;
      owners = λ m. refl;
    },
  )
  | inr on ↦ (turned_off handle g s, err_ok, ground arith, turned_off-Released handle s g v h lt)
]

-- On a valid table and a handle below 32, a release is total. It succeeds, or finds the set idle and
-- changes nothing. The set at the handle is idle after it, all others are as before, and the table
-- stays valid. But the counter of active sets and the number of owners that any mask of pins has do
-- not change: both still count the released set.
pub gpio_set_release-Released :
    (handle : ℕ) (key : List ℕ) (s : GpioSets)
    → IsValid s
    → handle < num_sets
    → (s' : GpioSets) × (code : ErrorCode) × (gpio_set_release handle key s ≡ some (s', code))
      × Released handle s s' code
unfolding gpio_set_release
gpio_set_release-Released handle key s v lt =
    let (g, h) = get_elem?-lt s.gpio_sets handle (omega (arith, v.size)) in
    let (s', code, e, r) = release_set-Released handle s g v h lt in
    (s', code, ap (λ o. release_set handle o s) h ∙ e, r)
