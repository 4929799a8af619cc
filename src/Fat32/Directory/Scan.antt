-- ===== src/Fat32/Directory/Scan.antt =====
-- The nested loops over the entries of a sector against one pass over them.
use arm64_os.Base.{
  ℕ, zero, suc, ◌+◌, ◌-◌, ◌≤◌, ◌<◌, ◌≡◌, refl, arith, Bool, true, false, Option, none, some, ◌==◌,
  not, if◌then◌else◌, ◌⊎◌, inl, inr, ◌∙◌, ap, sym, Bool-cases,
}
use arm64_os.Fat32.{Bytes}
use arm64_os.Fat32.Dentry.{
  entry, dentry_is_valid, dentry_is_deleted, dentry_is_vfat_lfn, dentry_is_end_mark, zero_from,
  or_first, dentry_next,
}
use arm64_os.Fat32.Directory.{unless_stopped, after_next, entries_loop, iterate_sector}

zero_step :
    (n at : ℕ) (d : Bytes)
    → zero_from d at (suc n) ≡ true
    → (d at ≡ 0) × (zero_from d (suc at) n ≡ true)
unfolding zero_from
zero_step n at d h = elim (Bool-cases (not (d at == 0))) [
  | inl other ↦ cc (rw other at h)
  | inr is_zero ↦ (ground arith, rw is_zero at h)
]

zero_byte : (n at i : ℕ) (d : Bytes) → zero_from d at n ≡ true → i < n → d (at + i) ≡ 0
zero_byte zero at i d h lt = absurd (omega arith)
zero_byte (suc n) at zero d h lt =
    let same : at + 0 ≡ at = omega arith in ap d same ∙ (zero_step n at d h).0
zero_byte (suc n) at (suc i) d h lt =
    let same : at + suc i ≡ suc at + i = omega arith in
    ap d same ∙ zero_byte n (suc at) i d (zero_step n at d h).1 (omega arith)

module _ {S : Type 0} (cb : Bytes → ℕ → Option ℕ → S → Bool × S) (buf : Bytes) where
  -- One pass from the entry `i`, with `k` more in the sector: each entry that is in use is handed over with
  -- the start of the long-name entries just before it. The pass is over at an end mark, which the
  -- loops also look for behind the last entry.
  abbrev pub scan : ℕ → ℕ → Option ℕ → S → Bool × S
  scan zero i first_le st = (dentry_is_end_mark (entry buf i), st)
  scan (suc k) i first_le st =
      let d = entry buf i in
      let after_lfn = scan k (suc i) (or_first first_le i) st in
      let after_other = scan k (suc i) none st in
      let after_valid = unless_stopped cb (cb buf i first_le st) (scan k (suc i) none) in
      if dentry_is_vfat_lfn d
      then after_lfn
      else if dentry_is_deleted d
      then after_other
      else if dentry_is_valid d
      then after_valid
      else if dentry_is_end_mark d
      then (true, st)
      else after_other

  end_byte : (i q : ℕ) → dentry_is_end_mark (entry buf i) ≡ true → q < 32 → entry buf i q ≡ 0
  unfolding dentry_is_end_mark
  end_byte i q h lt =
      let same : 0 + q ≡ q = omega arith in
      ap (entry buf i) (sym same) ∙ zero_byte 32 0 q (entry buf i) h lt

  -- An entry that is used for something is no end mark.
  used :
      (i : ℕ)
      → (dentry_is_vfat_lfn (entry buf i) ≡ true)
        ⊎ ((dentry_is_deleted (entry buf i) ≡ true) ⊎ (dentry_is_valid (entry buf i) ≡ true))
      → dentry_is_end_mark (entry buf i) ≡ false
  unfolding dentry_is_vfat_lfn dentry_is_deleted dentry_is_valid
  used i h = elim (Bool-cases (dentry_is_end_mark (entry buf i))) [
    | inl all_zero ↦
        absurd
          (by_kind h (end_byte i 0 all_zero (omega arith)) (end_byte i 11 all_zero (omega arith)))
    | inr other ↦ other
  ]
    where
      by_kind :
          (dentry_is_vfat_lfn (entry buf i) ≡ true)
            ⊎ ((dentry_is_deleted (entry buf i) ≡ true) ⊎ (dentry_is_valid (entry buf i) ≡ true))
          → entry buf i 0 ≡ 0
          → entry buf i 11 ≡ 0
          → ⊥
      by_kind (inl lfn) z w = ground arith
      by_kind (inr (inl deleted)) z w = ground arith
      by_kind (inr (inr valid)) z w = ground arith

  unless_same :
      (r : Bool × S) (f g : S → Bool × S)
      → ((st : S) → f st ≡ g st)
      → unless_stopped cb r f ≡ unless_stopped cb r g
  unless_same r f g h = ap (λ (x : Bool × S). if r.0 then (true, r.1) else x) (h r.1)

  module _ (end : ℕ) (more : ℕ → Option ℕ → S → Bool × S) (from : ℕ)
      (goes_on : (j : ℕ) (st : S)
        → from < j
        → j < end
        → more j none st ≡ scan (end - suc j) (suc j) none st) where
    next_scan :
        (k i : ℕ) (first_le : Option ℕ) (st : S)
        → end ≡ i + suc k
        → from ≤ i
        → after_next cb buf end more st (dentry_next buf (suc k) i first_le)
          ≡ scan k (suc i) first_le st
    unfolding dentry_next
    next_scan zero i first_le st e le =
        let at_end : (suc i == end) ≡ true = ground arith in
        elim (Bool-cases (dentry_is_vfat_lfn (entry buf (suc i)))) [
          | inl lfn ↦ rw (lfn, at_end, used (suc i) (inl lfn)) refl
          | inr no_lfn ↦ elim (Bool-cases (dentry_is_deleted (entry buf (suc i)))) [
            | inl deleted ↦ rw (no_lfn, deleted, at_end, used (suc i) (inr (inl deleted))) refl
            | inr there ↦ elim (Bool-cases (dentry_is_valid (entry buf (suc i)))) [
              | inl valid ↦ rw (no_lfn, there, valid, at_end, used (suc i) (inr (inr valid))) refl
              | inr invalid ↦ elim (Bool-cases (dentry_is_end_mark (entry buf (suc i)))) [
                | inl mark ↦ rw (no_lfn, there, invalid, mark) refl
                | inr other ↦ rw (no_lfn, there, invalid, other, at_end) refl
              ]
            ]
          ]
        ]
    next_scan (suc k) i first_le st e le =
        let inside : (suc i == end) ≡ false = ground arith in
        let left : end - suc (suc i) ≡ k = omega arith in
        elim (Bool-cases (dentry_is_vfat_lfn (entry buf (suc i)))) [
          | inl lfn ↦
              rw lfn
                (next_scan k (suc i) (or_first first_le (suc i)) st (omega arith) (omega arith))
          | inr no_lfn ↦ elim (Bool-cases (dentry_is_deleted (entry buf (suc i)))) [
            | inl deleted ↦
                rw (no_lfn, deleted) (next_scan k (suc i) none st (omega arith) (omega arith))
            | inr there ↦ elim (Bool-cases (dentry_is_valid (entry buf (suc i)))) [
              | inl valid ↦
                  rw (no_lfn, there, valid, inside)
                    (unless_same (cb buf (suc i) first_le st) (more (suc i) none)
                      (scan k (suc (suc i)) none)
                      (λ st'.
                        goes_on (suc i) st' (omega arith) (omega arith)
                        ∙ ap (λ (n : ℕ). scan n (suc (suc i)) none st') left))
              | inr invalid ↦ elim (Bool-cases (dentry_is_end_mark (entry buf (suc i)))) [
                | inl mark ↦ rw (no_lfn, there, invalid, mark) refl
                | inr other ↦
                    rw (no_lfn, there, invalid, other)
                      (next_scan k (suc i) none st (omega arith) (omega arith))
              ]
            ]
          ]
        ]

  entries_loop-scan :
      (fuel end i : ℕ) (first_le : Option ℕ) (st : S)
      → i < end
      → end - i ≤ fuel
      → entries_loop cb fuel buf end i first_le st ≡ scan (end - suc i) (suc i) first_le st
  unfolding entries_loop
  entries_loop-scan zero end i first_le st lt le = absurd (omega arith)
  entries_loop-scan (suc fuel) end i first_le st lt le =
      let left : end - i ≡ suc (end - suc i) = omega arith in
      ap
        (λ (n : ℕ).
          after_next cb buf end (entries_loop cb fuel buf end) st (dentry_next buf n i first_le))
        left
      ∙ next_scan end (entries_loop cb fuel buf end) i
          (λ j st' from below. entries_loop-scan fuel end j none st' below (omega arith))
          (end - suc i) i first_le st (omega arith) (omega arith)

  starts_lfn :
      (n : ℕ) (st : S)
      → dentry_is_vfat_lfn (entry buf 0) ≡ true
      → iterate_sector cb buf (suc n) st ≡ scan (suc n) 0 none st
  unfolding iterate_sector
  starts_lfn n st lfn =
      let left : suc n - 1 ≡ n = omega arith in
      rw lfn (
        entries_loop-scan (suc (suc n)) (suc n) 0 (some 0) st (omega arith) (omega arith)
        ∙ ap (λ (k : ℕ). scan k 1 (some 0) st) left)

  starts_used :
      (n : ℕ) (st : S)
      → dentry_is_vfat_lfn (entry buf 0) ≡ false
      → dentry_is_valid (entry buf 0) ≡ true
      → dentry_is_deleted (entry buf 0) ≡ false
      → iterate_sector cb buf (suc n) st ≡ scan (suc n) 0 none st
  unfolding iterate_sector
  starts_used n st no_lfn valid there =
      let left : suc n - 1 ≡ n = omega arith in
      rw (no_lfn, there, valid)
        (unless_same (cb buf 0 none st) (entries_loop cb (suc (suc n)) buf (suc n) 0 none)
          (scan n 1 none)
          (λ st'.
            entries_loop-scan (suc (suc n)) (suc n) 0 none st' (omega arith) (omega arith)
            ∙ ap (λ (k : ℕ). scan k 1 none st') left))

  -- The walk over a sector whose first entry is one of a long name, or in use, hands over the entries that
  -- one pass over the sector does, with the same long names and in the same order, and says alike
  -- whether the walk over the directory ends with this sector.
  pub iterate_sector-scan :
      (end : ℕ) (st : S)
      → 0 < end
      → (dentry_is_vfat_lfn (entry buf 0) ≡ true)
        ⊎ ((dentry_is_valid (entry buf 0) ≡ true) × (dentry_is_deleted (entry buf 0) ≡ false))
      → iterate_sector cb buf end st ≡ scan end 0 none st
  iterate_sector-scan zero st lt h = absurd (omega arith)
  iterate_sector-scan (suc n) st lt (inl lfn) = starts_lfn n st lfn
  iterate_sector-scan (suc n) st lt (inr (valid, there)) =
      elim (Bool-cases (dentry_is_vfat_lfn (entry buf 0))) [
        | inl lfn ↦ starts_lfn n st lfn
        | inr no_lfn ↦ starts_used n st no_lfn valid there
      ]
