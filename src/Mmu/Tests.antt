-- ===== src/Mmu/Tests.antt =====
-- Two ranges that overlap, with tables at 0x8000 for 4 MB.
use arm64_os.Base.{◌%◌, ◌^◌, ◌≡◌, refl, arith, [], ◌∷◌, some, ◌>>=◌}
use arm64_os.Mmu.{
  Words, PtMemRange, PtConfig, pte_out_addr, make_page_pte, make_page_pte_lo_attr, make_table_pte,
  page_lo_attr, map_page_ptes, table_ptes, map_table_ptes, map_ranges, l3_pte_count, map_levels,
  map_linear_range, counts_fit,
}
use arm64_os.Mmu.Walk.{next_table, page_at, walk}
use arm64_os.Mmu.Linear.{map_linear_range-walk}
use arm64_os.Mmu.Init.{MmuState, mmu_init}
use arm64_os.Mmu.Identity.{MapsToItself, is_device_page, mmu_init-MapsToItself}

abbrev first_range : PtMemRange
first_range = record {
  pa_start_page = 0x100;
  va_start_page = 0;
  num_pages = 8;
  mem_attr_idx = 1;
  sh_bits = 2;
}

abbrev second_range : PtMemRange
second_range = record {
  pa_start_page = 0x200;
  va_start_page = 6;
  num_pages = 4;
  mem_attr_idx = 0;
  sh_bits = 3;
}

abbrev two_ranges : PtConfig
two_ranges = record {
  base_address = 0x8000;
  page_size = 4096;
  num_entries_per_pt = 512;
  pa_start = 0;
  pa_end = 0x400000;
  mem_ranges = first_range ∷ second_range ∷ [];
}

abbrev no_words : Words
no_words a = 0

shared_page : map_linear_range two_ranges no_words >>= (λ w. walk w 0x8000 7) ≡ some (0x201, 0x1c8)
unfolding map_linear_range counts_fit map_levels l3_pte_count map_ranges map_table_ptes table_ptes
    map_page_ptes page_lo_attr make_page_pte_lo_attr make_page_pte make_table_pte pte_out_addr walk
    next_table page_at
shared_page = refl

map_linear_range-walk_example :
    (w' : Words) × (map_linear_range two_ranges no_words ≡ some w')
    × (walk w' 0x8000 7 ≡ some (0x201, page_lo_attr 0 3 % 2 ^ 10))
unfolding counts_fit
map_linear_range-walk_example =
    map_linear_range-walk two_ranges (first_range ∷ []) second_range [] 7 no_words
      (refl, refl, refl, omega arith, refl, omega arith, omega arith) refl refl
      (omega arith, omega arith) tt (omega arith) (omega arith)

mmu_init-MapsToItself_example :
    (s : MmuState) × (mmu_init 0x1c00000 0x400000 0x800000 no_words ≡ some s)
    × MapsToItself s (is_device_page 0x400000 0x800000 0x500) 0x500
mmu_init-MapsToItself_example =
    mmu_init-MapsToItself 0x1c00000 0x400000 0x800000 0x500 no_words refl (omega arith)
      (omega arith) (omega arith) (omega arith)
