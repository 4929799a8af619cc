-- ===== src/Mmu.antt =====
-- arch/armv8/mmu.c, include/bits_api.h and arch/armv8/mmu_memattr.h: the descriptors, the tables and the
-- ranges that the kernel maps. The memory of the tables holds one word of 64 bits at each address that
-- is a multiple of 8; `none` is a BUG, or a count that an `int` does not hold.
pub mod Descriptors
pub mod Tables
pub mod Walk
pub mod Linear
pub mod Init
pub mod Identity
mod Tests
use Prim.Native.Nat.{bit_or}
use arm64_os.Base.Maps.{update}
use arm64_os.Base.{
  Bool, true, false, ℕ, zero, suc, ◌+◌, ◌-◌, ◌*◌, ◌/◌, ◌%◌, ◌^◌, max, List, [], ◌∷◌, Option, none,
  some, leb, ◌==◌, not, if◌then◌else◌,
}

-- the memory of the tables
abbrev pub Words : Type 0
Words = ℕ → ℕ

-- The mask is given by the number of its ones.
abbrev pub bits_at_pos : ℕ → ℕ → ℕ → ℕ
bits_at_pos bits pos ones = bits % 2 ^ ones * 2 ^ pos

unfoldable pub pte_out_addr : ℕ → ℕ
pte_out_addr phys_page_idx = bits_at_pos phys_page_idx 12 40

unfoldable pub make_page_pte : ℕ → ℕ → ℕ → ℕ
unfolding pte_out_addr
make_page_pte up_attr phys_page_idx lo_attr =
    bit_or
      (bit_or (bit_or (bits_at_pos up_attr 51 13) (pte_out_addr phys_page_idx))
        (bits_at_pos lo_attr 2 10))
      3

unfoldable pub make_page_pte_lo_attr : ℕ → ℕ → ℕ → ℕ → ℕ → ℕ → ℕ
make_page_pte_lo_attr attr_idx ns ap sh af ng =
    bit_or
      (bit_or
        (bit_or
          (bit_or (bit_or (bits_at_pos attr_idx 0 3) (bits_at_pos ns 3 1)) (bits_at_pos ap 4 2))
          (bits_at_pos sh 6 2))
        (bits_at_pos af 8 1))
      (bits_at_pos ng 9 1)

unfoldable pub make_table_pte : ℕ → ℕ → ℕ → ℕ → ℕ → ℕ
unfolding pte_out_addr
make_table_pte ns_table ap_table xn_table pxn_table next_lvl_table_page =
    bit_or
      (bit_or
        (bit_or
          (bit_or (bit_or (bits_at_pos ns_table 63 1) (bits_at_pos ap_table 61 2))
            (bits_at_pos xn_table 60 1))
          (bits_at_pos pxn_table 59 1))
        (pte_out_addr next_lvl_table_page))
      3

pub record PtMemRange : Type 0 where
  pub pa_start_page : ℕ
  pub va_start_page : ℕ
  pub num_pages : ℕ
  pub mem_attr_idx : ℕ
  pub sh_bits : ℕ

-- `mem_ranges` are the first `num_ranges` elements of the array.
pub record PtConfig : Type 0 where
  pub base_address : ℕ
  pub page_size : ℕ
  pub num_entries_per_pt : ℕ
  pub pa_start : ℕ
  pub pa_end : ℕ
  pub mem_ranges : List PtMemRange

-- the lower attributes of the pages of a range
unfoldable pub page_lo_attr : ℕ → ℕ → ℕ
unfolding make_page_pte_lo_attr
page_lo_attr mem_attr_idx sh_bits = make_page_pte_lo_attr mem_attr_idx 1 0 sh_bits 1 0

unfoldable pub map_page_ptes : ℕ → ℕ → ℕ → ℕ → Words → Words
unfolding make_page_pte
map_page_ptes page_pte phys_page_idx zero lo_attr w = w
map_page_ptes page_pte phys_page_idx (suc num_pages) lo_attr w =
    map_page_ptes (page_pte + 8) (phys_page_idx + 1) num_pages lo_attr
      (update w page_pte (make_page_pte 0 phys_page_idx lo_attr))

-- the loop over the entries, the next of which is for the table in the page `next`
unfoldable pub table_ptes : ℕ → ℕ → ℕ → Words → Words
unfolding make_table_pte
table_ptes pt zero next w = w
table_ptes pt (suc pte_count) next w =
    table_ptes (pt + 8) pte_count (next + 1) (update w pt (make_table_pte 0 0 0 0 next))

unfoldable pub map_table_ptes : ℕ → ℕ → ℕ → PtConfig → Words → Words
unfolding table_ptes
map_table_ptes pt pte_count next_level_pte c w =
    table_ptes pt pte_count (next_level_pte / c.page_size) w

unfoldable pub map_ranges : ℕ → List PtMemRange → Words → Words
unfolding map_page_ptes page_lo_attr
map_ranges l3_pt [] w = w
map_ranges l3_pt (r ∷ rs) w = map_ranges l3_pt rs (
    map_page_ptes (l3_pt + 8 * r.va_start_page) r.pa_start_page r.num_pages
      (page_lo_attr r.mem_attr_idx r.sh_bits) w)

-- The loop index of `map_page_ptes` is an `int`: whether it holds the count of each range.
unfoldable pub counts_fit : List PtMemRange → Bool
counts_fit [] = true
counts_fit (r ∷ rs) = let rest = counts_fit rs in if leb (2 ^ 31) r.num_pages then false else rest

abbrev pub div_round_up : ℕ → ℕ → ℕ
div_round_up val by = (val + by - 1) / by

abbrev pub round_up_to : ℕ → ℕ → ℕ
round_up_to val to = (val + to - 1) / to * to

-- how many entries the level above `count` entries has
abbrev pub level_above : PtConfig → ℕ → ℕ
level_above c count = max (div_round_up count c.num_entries_per_pt) 1

unfoldable pub l3_pte_count : PtConfig → ℕ
l3_pte_count c = max ((c.pa_end + 2 ^ 64 - c.pa_start) % 2 ^ 64 / c.page_size) 1

-- the table behind the one at `pt` with `count` entries
abbrev pub table_behind : PtConfig → ℕ → ℕ → ℕ
table_behind c pt count = pt + 8 * round_up_to count c.num_entries_per_pt

-- the writes, for the counts of the three lower levels
unfoldable pub map_levels : PtConfig → ℕ → ℕ → ℕ → Words → Words
unfolding map_table_ptes map_ranges
map_levels c l1_count l2_count l3_count w =
    let l0_count = level_above c l1_count in
    let l0_pt = c.base_address in
    let l1_pt = table_behind c l0_pt l0_count in
    let l2_pt = table_behind c l1_pt l1_count in
    let l3_pt = table_behind c l2_pt l2_count in
    map_ranges l3_pt c.mem_ranges (
      map_table_ptes l1_pt l1_count l2_pt c
        (map_table_ptes l2_pt l2_count l3_pt c (map_table_ptes l0_pt l0_count l1_pt c w)))

unfoldable pub map_linear_range : PtConfig → Words → Option Words
unfolding l3_pte_count map_levels counts_fit
map_linear_range c w =
    let l3_count = l3_pte_count c in
    let l2_count = level_above c l3_count in
    if not (c.pa_end % c.page_size == 0)
    then none
    else if leb (2 ^ 31) l3_count
    then none
    else if not (counts_fit c.mem_ranges)
    then none
    else some (map_levels c (level_above c l2_count) l2_count l3_count w)
