-- ===== src/Mmu/Init.antt =====
-- The ranges and the memory attributes that `mmu_init` of arch/armv8/mmu.c sets up. The addresses of the
-- DMA memory and of the tables are those of the linker.
use Prim.Native.Nat.{bit_or}
use arm64_os.Base.{
  ℕ, ◌+◌, ◌-◌, ◌*◌, ◌/◌, ◌%◌, ◌^◌, List, [], ◌∷◌, Option, none, some, ◌==◌, if◌then◌else◌, get_or,
  ◌>>=◌,
}
use arm64_os.Mmu.{Words, PtMemRange, PtConfig, bits_at_pos, map_linear_range}

abbrev pub mmu_page_granule : ℕ
mmu_page_granule = 4096

abbrev pub mmu_ptes_per_level : ℕ
mmu_ptes_per_level = 512

-- MEMATTR_IDX_NORMAL, _DEV_NGNRE, _NORMAL2 and _MMIO
abbrev pub idx_normal : ℕ
idx_normal = 0

abbrev pub idx_dev_ngnre : ℕ
idx_dev_ngnre = 1

abbrev pub idx_normal2 : ℕ
idx_normal2 = 2

abbrev pub idx_mmio : ℕ
idx_mmio = 3

-- SH_BITS_OUTER_SHAREABLE
abbrev pub outer_shareable : ℕ
outer_shareable = 2

abbrev pub peripheral_start : ℕ
peripheral_start = 0x3f000000

abbrev pub peripheral_end : ℕ
peripheral_end = 0x40000000

abbrev pub local_periph_start : ℕ
local_periph_start = 0x40000000

abbrev pub local_periph_end : ℕ
local_periph_end = 0x40002000

-- DECL_RANGE: the pages are mapped to themselves.
abbrev pub decl_range : ℕ → ℕ → ℕ → PtMemRange
decl_range start num memattr = record {
  pa_start_page = start;
  va_start_page = start;
  num_pages = num;
  mem_attr_idx = memattr;
  sh_bits = outer_shareable;
}

-- from the first address of the DMA memory and the one behind its last
unfoldable pub init_ranges : ℕ → ℕ → List PtMemRange
init_ranges dma_start dma_end =
    let pg_norm_num = dma_start / mmu_page_granule in
    let pg_dma_off = pg_norm_num in
    let pg_dma_num = dma_end / mmu_page_granule - pg_dma_off in
    let pg_shar_off = pg_dma_off + pg_dma_num in
    let pg_shar_num = peripheral_start / mmu_page_granule - pg_shar_off in
    let pg_peri_off = peripheral_start / mmu_page_granule in
    let pg_peri_num = (peripheral_end - peripheral_start) / mmu_page_granule in
    let pg_locl_off = local_periph_start / mmu_page_granule in
    let pg_locl_num = (local_periph_end - local_periph_start) / mmu_page_granule in
    decl_range 0 pg_norm_num idx_normal
    ∷ decl_range pg_dma_off pg_dma_num idx_mmio
    ∷ decl_range pg_shar_off pg_shar_num idx_normal2
    ∷ decl_range pg_peri_off pg_peri_num idx_dev_ngnre
    ∷ decl_range pg_locl_off pg_locl_num idx_dev_ngnre
    ∷ []

unfoldable pub init_config : ℕ → ℕ → ℕ → PtConfig
unfolding init_ranges
init_config table_base dma_start dma_end = record {
  base_address = table_base;
  page_size = mmu_page_granule;
  num_entries_per_pt = mmu_ptes_per_level;
  pa_start = 0;
  pa_end = local_periph_end;
  mem_ranges = init_ranges dma_start dma_end;
}

-- MEMATTR_WRITEBACK_NONTRANS
unfoldable pub writeback_nontrans : ℕ → ℕ → ℕ
writeback_nontrans r w = bit_or (bit_or 12 (bits_at_pos r 1 1)) (bits_at_pos w 0 1)

-- MAKE_MEMATTR_NORMAL
unfoldable pub make_memattr_normal : ℕ → ℕ → ℕ
make_memattr_normal oooo iiii = bit_or (oooo % 2 ^ 4 * 2 ^ 4) (iiii % 2 ^ 4)

abbrev pub memattr_device_ngnre : ℕ
memattr_device_ngnre = 4

-- the byte of each index
unfoldable pub init_memattrs : List ℕ
unfolding writeback_nontrans make_memattr_normal
init_memattrs =
    make_memattr_normal (writeback_nontrans 1 1) (writeback_nontrans 1 1)
    ∷ memattr_device_ngnre
    ∷ make_memattr_normal (writeback_nontrans 1 1) (writeback_nontrans 1 1)
    ∷ memattr_device_ngnre
    ∷ 0
    ∷ 0
    ∷ 0
    ∷ 0
    ∷ []

abbrev pub mair_put : List ℕ → ℕ → ℕ
mair_put memattrs i = get_or memattrs i 0 * 2 ^ (8 * i)

unfoldable pub mair_repr_64_to_value : List ℕ → ℕ
mair_repr_64_to_value r =
    bit_or
      (bit_or
        (bit_or
          (bit_or
            (bit_or (bit_or (bit_or (mair_put r 0) (mair_put r 1)) (mair_put r 2)) (mair_put r 3))
            (mair_put r 4))
          (mair_put r 5))
        (mair_put r 6))
      (mair_put r 7)

-- The registers MAIR_EL1 and TTBR0_EL1, which TTBR1_EL1 equals, and the memory of the tables.
pub record MmuState : Type 0 where
  pub mair_el1 : ℕ
  pub ttbr : ℕ
  pub words : Words

unfoldable pub mmu_init : ℕ → ℕ → ℕ → Words → Option MmuState
unfolding init_config init_memattrs mair_repr_64_to_value map_linear_range
mmu_init table_base dma_start dma_end w =
    map_linear_range (init_config table_base dma_start dma_end) w >>= (λ w'.
      some
        (record { mair_el1 = mair_repr_64_to_value init_memattrs; ttbr = table_base; words = w' }))

-- The start of another processor, from what `mmu_init` has left in `mmu_info`: MAIR_EL1 and the table.
unfoldable pub mmu_enable_configured : ℕ → List ℕ → Option (ℕ × ℕ)
unfolding mair_repr_64_to_value
mmu_enable_configured base_address memattrs =
    if base_address == 0 then none else some (mair_repr_64_to_value memattrs, base_address)
