-- ===== src/Mmu/Walk.antt =====
-- What the architecture translates a page to, by four levels of tables.
use arm64_os.Base.{
  ℕ, ◌+◌, ◌*◌, ◌/◌, ◌%◌, ◌^◌, ◌≤◌, ◌<◌, ◌≡◌, refl, arith, List, Option, none, some, ◌==◌,
  if◌then◌else◌, ◌>>=◌, inl, inr, ◌∙◌, ap,
}
use arm64_os.Mmu.{
  Words, PtMemRange, PtConfig, make_page_pte, make_table_pte, map_table_ptes, map_ranges,
}
use arm64_os.Mmu.Descriptors.{
  page_of, lower_attributes, is_table_or_page, make_page_pte_lem, make_table_pte_lem,
}
use arm64_os.Mmu.Tables.{table_ptes-at, table_ptes-beside, map_ranges-below}

-- A walk with a granule of 4 KB, as the head of mmu.c tells it: nine bits of the page for each of four
-- levels. The table that entry `i` of the table at `t` leads to:
unfoldable pub next_table : Words → ℕ → ℕ → Option ℕ
next_table w t i =
    let d = w (t + 8 * i) in if is_table_or_page d == 3 then some (page_of d * 2 ^ 12) else none

-- the physical page and its lower attributes
unfoldable pub page_at : Words → ℕ → ℕ → Option (ℕ × ℕ)
page_at w t i =
    let d = w (t + 8 * i) in
    if is_table_or_page d == 3 then some (page_of d, lower_attributes d) else none

unfoldable pub walk : Words → ℕ → ℕ → Option (ℕ × ℕ)
unfolding next_table page_at
walk w ttbr page = do
  t1 ← next_table w ttbr (page / 2 ^ 27 % 512)
  t2 ← next_table w t1 (page / 2 ^ 18 % 512)
  t3 ← next_table w t2 (page / 2 ^ 9 % 512)
  page_at w t3 (page % 512)

-- An entry that leads to a table of a level leads on to entry `j` of the level.
next_table-entry :
    (w : Words) (t i below k : ℕ)
    → below % 4096 ≡ 0
    → below / 4096 + k < 2 ^ 36
    → w (t + 8 * i) ≡ make_table_pte 0 0 0 0 (below / 4096 + k)
    → next_table w t i ≡ some (below + 4096 * k)
unfolding next_table
next_table-entry w t i below k aligned small e =
    let (page, kind) = make_table_pte_lem (below / 4096 + k) small in
    let place : (below / 4096 + k) * 2 ^ 12 ≡ below + 4096 * k = omega arith in
    rw (e, kind, page, place) refl

page_at-entry :
    (w : Words) (t i page lo : ℕ)
    → page < 2 ^ 36
    → w (t + 8 * i) ≡ make_page_pte 0 page lo
    → page_at w t i ≡ some (page, lo % 2 ^ 10)
unfolding page_at
page_at-entry w t i page lo small e =
    let (same, lower, kind) = make_page_pte_lem page lo small in rw (e, kind, same, lower) refl

-- four levels of tables, each of them behind the one above it
pub record AreLevels (w : Words) (b0 b1 b2 b3 c0 c1 c2 : ℕ) : Type 0 where
  pub entry0 : (i : ℕ) → i < c0 → w (b0 + 8 * i) ≡ make_table_pte 0 0 0 0 (b1 / 4096 + i)
  pub entry1 : (i : ℕ) → i < c1 → w (b1 + 8 * i) ≡ make_table_pte 0 0 0 0 (b2 / 4096 + i)
  pub entry2 : (i : ℕ) → i < c2 → w (b2 + 8 * i) ≡ make_table_pte 0 0 0 0 (b3 / 4096 + i)

module _ (w : Words) (b0 b1 b2 b3 c0 c1 c2 : ℕ) where
  pub map_levels-AreLevels :
      (c : PtConfig) (rs : List PtMemRange)
      → c.page_size ≡ 4096
      → b0 + 8 * c0 ≤ b1
      → b1 + 8 * c1 ≤ b2
      → b2 + 8 * c2 ≤ b3
      → AreLevels
          (map_ranges b3 rs
            (map_table_ptes b1 c1 b2 c (map_table_ptes b2 c2 b3 c (map_table_ptes b0 c0 b1 c w))))
          b0
          b1
          b2
          b3
          c0
          c1
          c2
  unfolding map_table_ptes
  map_levels-AreLevels c rs four le0 le1 le2 = rw four record {
    entry0 = λ i lt.
        map_ranges-below rs b3 (b0 + 8 * i) _ (omega arith)
        ∙ table_ptes-beside c1 b1 (b2 / 4096) _ (b0 + 8 * i) (inl (omega arith))
        ∙ table_ptes-beside c2 b2 (b3 / 4096) _ (b0 + 8 * i) (inl (omega arith))
        ∙ table_ptes-at c0 i b0 (b1 / 4096) w lt;
    entry1 = λ i lt.
        map_ranges-below rs b3 (b1 + 8 * i) _ (omega arith)
        ∙ table_ptes-at c1 i b1 (b2 / 4096) _ lt;
    entry2 = λ i lt.
        map_ranges-below rs b3 (b2 + 8 * i) _ (omega arith)
        ∙ table_ptes-beside c1 b1 (b2 / 4096) _ (b2 + 8 * i) (inr (omega arith))
        ∙ table_ptes-at c2 i b2 (b3 / 4096) _ lt;
  }

  -- The walk finds entry `p` of the level of pages.
  pub walk-levels :
      (p page lo : ℕ)
      → AreLevels w b0 b1 b2 b3 c0 c1 c2
      → (b1 % 4096 ≡ 0) × (b2 % 4096 ≡ 0) × (b3 % 4096 ≡ 0)
      → (b1 < 2 ^ 47) × (b2 < 2 ^ 47) × (b3 < 2 ^ 47)
      → p < 2 ^ 31
      → (p / 2 ^ 27 < c0) × (p / 2 ^ 18 < c1) × (p / 2 ^ 9 < c2)
      → page < 2 ^ 36
      → w (b3 + 8 * p) ≡ make_page_pte 0 page lo
      → walk w b0 p ≡ some (page, lo % 2 ^ 10)
  unfolding walk
  walk-levels p page lo h (al1, al2, al3) (s1, s2, s3) small (in0, in1, in2) fits leaf =
      let i0 : p / 2 ^ 27 % 512 ≡ p / 2 ^ 27 = omega arith in
      let at1 : (b1 + 4096 * (p / 2 ^ 27)) + 8 * (p / 2 ^ 18 % 512) ≡ b1 + 8 * (p / 2 ^ 18) =
        omega arith in
      let at2 : (b2 + 4096 * (p / 2 ^ 18)) + 8 * (p / 2 ^ 9 % 512) ≡ b2 + 8 * (p / 2 ^ 9) =
        omega arith in
      let at3 : (b3 + 4096 * (p / 2 ^ 9)) + 8 * (p % 512) ≡ b3 + 8 * p = omega arith in
      rw
        (
          i0,
          next_table-entry w b0 (p / 2 ^ 27) b1 (p / 2 ^ 27) al1 (omega arith)
              (h.entry0 (p / 2 ^ 27) in0),
          next_table-entry w (b1 + 4096 * (p / 2 ^ 27)) (p / 2 ^ 18 % 512) b2 (p / 2 ^ 18) al2
              (omega arith) (ap w at1 ∙ h.entry1 (p / 2 ^ 18) in1),
          next_table-entry w (b2 + 4096 * (p / 2 ^ 18)) (p / 2 ^ 9 % 512) b3 (p / 2 ^ 9) al3
              (omega arith) (ap w at2 ∙ h.entry2 (p / 2 ^ 9) in2),
          page_at-entry w (b3 + 4096 * (p / 2 ^ 9)) (p % 512) page lo fits (ap w at3 ∙ leaf),
        )
        refl
