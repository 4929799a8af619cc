-- ===== src/Mmu/Linear.antt =====
-- `map_linear_range` of arch/armv8/mmu.c against a walk through the tables that it builds.
use arm64_os.Base.{
  ℕ, ◌+◌, ◌-◌, ◌*◌, ◌/◌, ◌%◌, ◌^◌, max, ◌≤◌, ◌<◌, ◌≡◌, refl, arith, List, ◌∷◌, ◌++◌, some, true,
  false, leb, ◌==◌, ◌∙◌, ap,
}
use arm64_os.Mmu.{
  Words, PtMemRange, PtConfig, page_lo_attr, map_table_ptes, map_ranges, level_above, l3_pte_count,
  table_behind, map_levels, counts_fit, map_linear_range,
}
use arm64_os.Mmu.Tables.{IsIn, IsOff, map_ranges-at}
use arm64_os.Mmu.Walk.{walk, map_levels-AreLevels, walk-levels}

level_bounds :
    (c : PtConfig) (count : ℕ)
    → c.num_entries_per_pt ≡ 512
    → (count ≤ 512 * level_above c count) × (level_above c count ≤ count / 512 + 1)
level_bounds c count e =
    let as_512 : level_above c count ≡ max ((count + 512 - 1) / 512) 1 =
      ap (λ (n : ℕ). max ((count + n - 1) / n) 1) e in
    (omega (arith, as_512), omega (arith, as_512))

behind_bounds :
    (c : PtConfig) (pt count : ℕ)
    → c.num_entries_per_pt ≡ 512
    → (pt + 8 * count ≤ table_behind c pt count)
      × (table_behind c pt count ≤ pt + 8 * count + 4096)
      × (table_behind c pt count % 4096 ≡ pt % 4096)
behind_bounds c pt count e =
    let as_512 : table_behind c pt count ≡ pt + 8 * ((count + 512 - 1) / 512 * 512) =
      ap (λ (n : ℕ). pt + 8 * ((count + n - 1) / n * n)) e in
    (omega (arith, as_512), omega (arith, as_512), omega (arith, as_512))

-- a configuration of pages of 4 KB for tables that lie below 2^46, in a range of at most 2^42 bytes
abbrev pub Is4k : PtConfig → Type 0
Is4k c =
    (c.page_size ≡ 4096)
    × (c.num_entries_per_pt ≡ 512)
    × (c.base_address % 4096 ≡ 0)
    × (c.base_address < 2 ^ 46)
    × (c.pa_end % 4096 ≡ 0)
    × (c.pa_start ≤ c.pa_end)
    × (c.pa_end < 2 ^ 42)

abbrev pages_of : PtConfig → ℕ
pages_of c = max ((c.pa_end - c.pa_start) / 4096) 1

l3_pte_count-pages_of : (c : PtConfig) → Is4k c → l3_pte_count c ≡ pages_of c
unfolding l3_pte_count
l3_pte_count-pages_of c h =
    let (four, entries, aligned, low, whole, order, high) = h in
    let span : (c.pa_end + 2 ^ 64 - c.pa_start) % 2 ^ 64 ≡ c.pa_end - c.pa_start = omega arith in
    rw (four, span) refl

mapped :
    (c : PtConfig) (w : Words)
    → Is4k c
    → counts_fit c.mem_ranges ≡ true
    → map_linear_range c w
      ≡ some (
          map_levels c
            (level_above c (level_above c (pages_of c)))
            (level_above c (pages_of c))
            (pages_of c)
            w)
unfolding map_linear_range
mapped c w h counts =
    let (four, entries, aligned, low, whole, order, high) = h in
    let unaligned : (c.pa_end % c.page_size == 0) ≡ true =
      ap (λ (n : ℕ). c.pa_end % n == 0) four ∙ ap (λ (n : ℕ). n == 0) whole in
    let fits : leb (2 ^ 31) (pages_of c) ≡ false = ground arith in
    rw (unaligned, l3_pte_count-pages_of c h, fits, counts) refl

-- The counts of four levels for `c3` pages, and the places of their tables.
record AreSized (b0 b1 b2 b3 c0 c1 c2 c3 : ℕ) : Type 0 where
  up2 : c3 ≤ 512 * c2
  down2 : c2 ≤ c3 / 512 + 1
  up1 : c2 ≤ 512 * c1
  down1 : c1 ≤ c2 / 512 + 1
  up0 : c1 ≤ 512 * c0
  down0 : c0 ≤ c1 / 512 + 1
  behind1 : (b0 + 8 * c0 ≤ b1) × (b1 ≤ b0 + 8 * c0 + 4096) × (b1 % 4096 ≡ b0 % 4096)
  behind2 : (b1 + 8 * c1 ≤ b2) × (b2 ≤ b1 + 8 * c1 + 4096) × (b2 % 4096 ≡ b1 % 4096)
  behind3 : (b2 + 8 * c2 ≤ b3) × (b3 ≤ b2 + 8 * c2 + 4096) × (b3 % 4096 ≡ b2 % 4096)

sized_walk :
    (c : PtConfig) (before : List PtMemRange) (r : PtMemRange) (after : List PtMemRange)
    (b0 b1 b2 b3 c0 c1 c2 c3 p : ℕ) (w : Words)
    → AreSized b0 b1 b2 b3 c0 c1 c2 c3
    → c.page_size ≡ 4096
    → b0 % 4096 ≡ 0
    → b0 < 2 ^ 46
    → c3 < 2 ^ 31
    → p < c3
    → IsIn r p
    → IsOff p after
    → r.pa_start_page + r.num_pages ≤ 2 ^ 36
    → walk
        (map_ranges b3
          (before ++ (r ∷ after))
          (map_table_ptes b1 c1 b2 c (map_table_ptes b2 c2 b3 c (map_table_ptes b0 c0 b1 c w))))
        b0
        p
      ≡ some
          (r.pa_start_page + (p - r.va_start_page), page_lo_attr r.mem_attr_idx r.sh_bits % 2 ^ 10)
sized_walk c before r after b0 b1 b2 b3 c0 c1 c2 c3 p w s four aligned low few below in_range off
      fits =
    let (le1, ge1, al1) = s.behind1 in
    let (le2, ge2, al2) = s.behind2 in
    let (le3, ge3, al3) = s.behind3 in
    walk-levels _ b0 b1 b2 b3 c0 c1 c2 p (r.pa_start_page + (p - r.va_start_page))
      (page_lo_attr r.mem_attr_idx r.sh_bits)
      (map_levels-AreLevels w b0 b1 b2 b3 c0 c1 c2 c (before ++ (r ∷ after)) four le1 le2 le3)
      (omega arith) (omega arith) (omega arith) (omega arith) (omega arith)
      (map_ranges-at before r after b3 p _ in_range off)

sizes :
    (c : PtConfig)
    → c.num_entries_per_pt ≡ 512
    → (b0 c3 : ℕ)
    → (let c2 = level_above c c3 in
        let c1 = level_above c c2 in
        let c0 = level_above c c1 in
        let b1 = table_behind c b0 c0 in
        let b2 = table_behind c b1 c1 in AreSized b0 b1 b2 (table_behind c b2 c2) c0 c1 c2 c3)
sizes c e b0 c3 =
    let c2 = level_above c c3 in
    let c1 = level_above c c2 in
    let c0 = level_above c c1 in
    let b1 = table_behind c b0 c0 in
    let b2 = table_behind c b1 c1 in
    record {
      up2 = (level_bounds c c3 e).0;
      down2 = (level_bounds c c3 e).1;
      up1 = (level_bounds c c2 e).0;
      down1 = (level_bounds c c2 e).1;
      up0 = (level_bounds c c1 e).0;
      down0 = (level_bounds c c1 e).1;
      behind1 = behind_bounds c b0 c0 e;
      behind2 = behind_bounds c b1 c1 e;
      behind3 = behind_bounds c b2 c2 e;
    }

-- Take pages of 4 KB, tables of 512 entries, the first of them at a multiple of 4096 below 2^46, an
-- address range up to `pa_end`, a multiple of 4096 below 2^42 and not below `pa_start`, and memory
-- ranges of fewer than 2^31 pages each. Then `map_linear_range` does not panic, and a walk through the
-- tables that it builds translates each virtual page of the address range that one of the memory ranges
-- has: to the physical page at the same place of the last such range, if that range ends at physical
-- page 2^36 at most, with the attributes of that range.
pub map_linear_range-walk :
    (c : PtConfig) (before : List PtMemRange) (r : PtMemRange) (after : List PtMemRange) (p : ℕ)
    (w : Words)
    → Is4k c
    → counts_fit c.mem_ranges ≡ true
    → c.mem_ranges ≡ before ++ (r ∷ after)
    → IsIn r p
    → IsOff p after
    → p < (c.pa_end - c.pa_start) / 4096
    → r.pa_start_page + r.num_pages ≤ 2 ^ 36
    → (w' : Words) × (map_linear_range c w ≡ some w')
      × (walk w' c.base_address p
          ≡ some (
            r.pa_start_page + (p - r.va_start_page),
            page_lo_attr r.mem_attr_idx r.sh_bits % 2 ^ 10,
          ))
unfolding map_levels
map_linear_range-walk c before r after p w h counts ranges in_range off below fits =
    let (four, entries, aligned, low, whole, order, high) = h in
    let c3 = pages_of c in
    let c2 = level_above c c3 in
    let c1 = level_above c c2 in
    let c0 = level_above c c1 in
    let b0 = c.base_address in
    let b1 = table_behind c b0 c0 in
    let b2 = table_behind c b1 c1 in
    let b3 = table_behind c b2 c2 in
    (
      map_levels c c1 c2 c3 w,
      mapped c w h counts,
      rw ranges (
          sized_walk c before r after b0 b1 b2 b3 c0 c1 c2 c3 p w (sizes c entries b0 c3) four
            aligned low (omega arith) (omega arith) in_range off fits),
    )
