-- ===== src/Fat32/Dentry/Next.antt =====
-- What `dentry_next` finds, and which long name goes with it.
use arm64_os.Base.{
  ℕ, zero, suc, ◌+◌, ◌≤◌, ◌<◌, ◌≡◌, refl, arith, Bool, true, false, Option, none, some, leb, not,
  if◌then◌else◌, subst, Bool-cases, ◌⊎◌, inl, inr,
}
use arm64_os.Fat32.{Bytes}
use arm64_os.Fat32.Dentry.{
  entry, dentry_is_valid, dentry_is_deleted, dentry_is_vfat_lfn, dentry_is_end_mark, or_first,
  dentry_next,
}

abbrev pub is_lfn : Bytes → ℕ → Bool
is_lfn buf j = dentry_is_vfat_lfn (entry buf j)

-- an entry that the search passes over: of a long name, deleted, or of no use
abbrev pub is_passed : Bytes → ℕ → Bool
is_passed buf j =
    if is_lfn buf j
    then true
    else if dentry_is_deleted (entry buf j)
    then true
    else not (if dentry_is_valid (entry buf j) then true else dentry_is_end_mark (entry buf j))

-- `l` is the start of the run of long-name entries that ends at `i`, if there is one, where `from` is
-- the entry before all that are searched
abbrev pub IsRun : Bytes → ℕ → ℕ → Option ℕ → Type 0
IsRun buf from i none = (i ≡ from) ⊎ (is_lfn buf i ≡ false)
IsRun buf from i (some s) =
    (from < s)
    × (s ≤ i)
    × ((q : ℕ) → s ≤ q → q ≤ i → is_lfn buf q ≡ true)
    × ((s ≡ from + 1) ⊎ ((p : ℕ) × (s ≡ suc p) × (is_lfn buf p ≡ false)))

-- the outcomes of a search from `from` up to `end`
abbrev pub Finds : Bytes → ℕ → ℕ → Option ℕ × Option ℕ → Type 0
Finds buf from end (none, l) =
    (j : ℕ) × (from < j)
    × (j ≤ end)
    × (dentry_is_end_mark (entry buf j) ≡ true)
    × ((q : ℕ) → from < q → q < j → is_passed buf q ≡ true)
Finds buf from end (some j, l) =
    (from ≤ j)
    × (j ≤ end)
    × ((q : ℕ) → from < q → q < j → is_passed buf q ≡ true)
    × (((j ≡ end) × (from < end → is_passed buf end ≡ true))
        ⊎ ((dentry_is_valid (entry buf j) ≡ true)
            × (dentry_is_deleted (entry buf j) ≡ false)
            × (is_lfn buf j ≡ false)
            × ((i : ℕ) × (j ≡ suc i) × IsRun buf from i l)))

IsRun-on :
    (buf : Bytes) (from i : ℕ) (l : Option ℕ)
    → from ≤ i
    → IsRun buf from i l
    → is_lfn buf (suc i) ≡ true
    → IsRun buf from (suc i) (or_first l (suc i))
IsRun-on buf from i none le r h = (omega arith, omega arith, one_lfn, start r)
  where
    one_lfn : (q : ℕ) → suc i ≤ q → q ≤ suc i → is_lfn buf q ≡ true
    one_lfn q a b = let e : suc i ≡ q = omega arith in subst (λ j. is_lfn buf j ≡ true) e h

    start :
        (i ≡ from) ⊎ (is_lfn buf i ≡ false)
        → (suc i ≡ from + 1) ⊎ ((p : ℕ) × (suc i ≡ suc p) × (is_lfn buf p ≡ false))
    start (inl e) = inl (omega arith)
    start (inr e) = inr (i, refl, e)
IsRun-on buf from i (some s) le r h = (r.0, omega (arith, r.1), longer, r.3)
  where
    longer : (q : ℕ) → s ≤ q → q ≤ suc i → is_lfn buf q ≡ true
    longer q a b = elim (Bool-cases (leb q i)) [
      | inl old ↦ r.2 q a (ground arith)
      | inr new ↦ let e : suc i ≡ q = ground arith in subst (λ j. is_lfn buf j ≡ true) e h
    ]

-- all entries after `from` up to `i` are passed
abbrev ArePassed : Bytes → ℕ → ℕ → Type 0
ArePassed buf from i = (q : ℕ) → from < q → q ≤ i → is_passed buf q ≡ true

pass_on :
    (buf : Bytes) (from i : ℕ)
    → ArePassed buf from i
    → is_passed buf (suc i) ≡ true
    → ArePassed buf from (suc i)
pass_on buf from i h new q a b = elim (Bool-cases (leb q i)) [
  | inl old ↦ h q a (ground arith)
  | inr last ↦ let e : suc i ≡ q = ground arith in subst (λ j. is_passed buf j ≡ true) e new
]

module _ (buf : Bytes) (i : ℕ) where
  lfn_passed : is_lfn buf (suc i) ≡ true → is_passed buf (suc i) ≡ true
  lfn_passed h = rw h refl

  deleted_passed :
      is_lfn buf (suc i) ≡ false
      → dentry_is_deleted (entry buf (suc i)) ≡ true
      → is_passed buf (suc i) ≡ true
  deleted_passed h g = rw (h, g) refl

  useless_passed :
      is_lfn buf (suc i) ≡ false
      → dentry_is_deleted (entry buf (suc i)) ≡ false
      → dentry_is_valid (entry buf (suc i)) ≡ false
      → dentry_is_end_mark (entry buf (suc i)) ≡ false
      → is_passed buf (suc i) ≡ true
  useless_passed h g f e = rw (h, g, f, e) refl

dentry_next_from :
    (buf : Bytes) (from k i : ℕ) (l : Option ℕ)
    → from ≤ i
    → IsRun buf from i l
    → ArePassed buf from i
    → Finds buf from (i + k) (dentry_next buf k i l)
unfolding dentry_next
dentry_next_from buf from zero i l le r h = (
  le,
  omega arith,
  λ q a b. h q a (omega arith),
  inl (omega arith, λ lt. h (i + 0) lt (omega arith)),
)
dentry_next_from buf from (suc k) i l le r h =
    let same : suc i + k ≡ i + suc k = omega arith in
    elim (Bool-cases (is_lfn buf (suc i))) [
      | inl name ↦ rw name (
          subst (λ e. Finds buf from e (dentry_next buf k (suc i) (or_first l (suc i)))) same
            (dentry_next_from buf from k (suc i) (or_first l (suc i)) (omega arith)
              (IsRun-on buf from i l le r name) (pass_on buf from i h (lfn_passed buf i name))))
      | inr entry_proper ↦ elim (Bool-cases (dentry_is_deleted (entry buf (suc i)))) [
        | inl gone ↦
            rw (entry_proper, gone)
              (subst (λ e. Finds buf from e (dentry_next buf k (suc i) none)) same
                (dentry_next_from buf from k (suc i) none (omega arith) (inr entry_proper)
                  (pass_on buf from i h (deleted_passed buf i entry_proper gone))))
        | inr there ↦ elim (Bool-cases (dentry_is_valid (entry buf (suc i)))) [
          | inl live ↦
              rw (entry_proper, there, live)
                (
                  omega arith,
                  omega arith,
                  λ q a b. h q a (omega arith),
                  inr (live, there, entry_proper, (i, refl, r)),
                )
          | inr dead ↦ elim (Bool-cases (dentry_is_end_mark (entry buf (suc i)))) [
            | inl stop ↦
                rw (entry_proper, there, dead, stop)
                  (suc i, omega arith, omega arith, stop, λ q a b. h q a (omega arith))
            | inr bad ↦
                rw (entry_proper, there, dead, bad)
                  (subst (λ e. Finds buf from e (dentry_next buf k (suc i) none)) same
                    (dentry_next_from buf from k (suc i) none (omega arith) (inr entry_proper)
                      (pass_on buf from i h (useless_passed buf i entry_proper there dead bad))))
          ]
        ]
      ]
    ]

-- A search for the next entry ends. It passes over the entries of long names, the deleted ones and
-- those of no use, and finds the first that is valid, or NULL at the first end mark, or the end of the
-- sector. A valid entry comes with the start of the whole run of long-name entries right before it,
-- or with none if there is no such run.
pub dentry_next-Finds : (buf : Bytes) (k i : ℕ) → Finds buf i (i + k) (dentry_next buf k i none)
dentry_next-Finds buf k i =
    dentry_next_from buf i k i none (omega arith) (inl refl) (λ q a b. absurd (omega arith))
