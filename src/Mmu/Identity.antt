-- ===== src/Mmu/Identity.antt =====
-- The translation that is on after `mmu_init` of arch/armv8/mmu.c.
use arm64_os.Base.{
  ℕ, ◌+◌, ◌-◌, ◌*◌, ◌/◌, ◌%◌, ◌^◌, ◌≤◌, ◌<◌, ◌≡◌, refl, arith, List, [], ◌∷◌, ◌++◌, Option, some,
  Bool, true, false, ltb, leb, ◌&&◌, ◌||◌, if◌then◌else◌, inl, inr, ◌∙◌, ap, ◌>>=◌, Bool-cases,
}
use arm64_os.Mmu.{Words, PtMemRange, make_page_pte_lo_attr, page_lo_attr, counts_fit}
use arm64_os.Mmu.Tables.{IsIn, IsOff}
use arm64_os.Mmu.Walk.{walk}
use arm64_os.Mmu.Linear.{Is4k, map_linear_range-walk}
use arm64_os.Mmu.Init.{
  decl_range, idx_normal, idx_dev_ngnre, idx_normal2, idx_mmio, outer_shareable, init_ranges,
  init_config, writeback_nontrans, make_memattr_normal, init_memattrs, mair_repr_64_to_value,
  MmuState, mmu_init,
}

-- what the architecture takes from MAIR_EL1 for a page with these lower attributes
abbrev pub memory_attribute : ℕ → ℕ → ℕ
memory_attribute mair attrs = mair / 2 ^ (8 * (attrs % 8)) % 256

-- the DMA memory and the devices
abbrev pub is_device_page : ℕ → ℕ → ℕ → Bool
is_device_page dma_start dma_end p =
    (leb (dma_start / 4096) p && ltb p (dma_end / 4096)) || leb 0x3f000 p

-- The page is mapped to itself, as Device-nGnRE memory or as normal write-back memory.
abbrev pub MapsToItself : MmuState → Bool → ℕ → Type 0
MapsToItself s device p =
    (attrs : ℕ) × (walk s.words s.ttbr p ≡ some (p, attrs))
    × (memory_attribute s.mair_el1 attrs ≡ (if device then 4 else 0xff))

AttributeOf : ℕ → Bool → Type 0
AttributeOf idx device =
    memory_attribute (mair_repr_64_to_value init_memattrs)
      (page_lo_attr idx outer_shareable % 2 ^ 10)
    ≡ (if device then 4 else 0xff)

normal_attribute : AttributeOf idx_normal false
unfolding AttributeOf mair_repr_64_to_value init_memattrs page_lo_attr make_page_pte_lo_attr
    writeback_nontrans make_memattr_normal
normal_attribute = refl

normal2_attribute : AttributeOf idx_normal2 false
unfolding AttributeOf mair_repr_64_to_value init_memattrs page_lo_attr make_page_pte_lo_attr
    writeback_nontrans make_memattr_normal
normal2_attribute = refl

device_attribute : AttributeOf idx_dev_ngnre true
unfolding AttributeOf mair_repr_64_to_value init_memattrs page_lo_attr make_page_pte_lo_attr
    writeback_nontrans make_memattr_normal
device_attribute = refl

mmio_attribute : AttributeOf idx_mmio true
unfolding AttributeOf mair_repr_64_to_value init_memattrs page_lo_attr make_page_pte_lo_attr
    writeback_nontrans make_memattr_normal
mmio_attribute = refl

module _ (base ds de p : ℕ) (w : Words) (aligned : base % 4096 ≡ 0) (low : base < 2 ^ 46)
    (order : ds ≤ de) (inside : de ≤ 0x3f000000) (below : p < 0x40002) where
  config_Is4k : Is4k (init_config base ds de)
  unfolding init_config
  config_Is4k = (refl, refl, aligned, low, refl, omega arith, omega arith)

  config_fits : counts_fit (init_ranges ds de) ≡ true
  unfolding counts_fit init_ranges
  config_fits = ground arith

  by_range :
      (before : List PtMemRange) (start num idx : ℕ) (after : List PtMemRange) (device : Bool)
      → init_ranges ds de ≡ before ++ (decl_range start num idx ∷ after)
      → IsIn (decl_range start num idx) p
      → IsOff p after
      → start + num ≤ 0x40002
      → AttributeOf idx device
      → (s : MmuState) × (mmu_init base ds de w ≡ some s) × MapsToItself s device p
  unfolding mmu_init init_config AttributeOf
  by_range before start num idx after device ranges in_range off small kind =
      let (w', done, found) =
        map_linear_range-walk (init_config base ds de) before (decl_range start num idx) after p w
          config_Is4k config_fits ranges in_range off (omega arith) (omega arith) in
      let itself : start + (p - start) ≡ p = omega arith in
      (
        record { mair_el1 = mair_repr_64_to_value init_memattrs; ttbr = base; words = w' },
        ap
            (λ (o : Option Words). o >>= (λ w'.
              some (record {
                mair_el1 = mair_repr_64_to_value init_memattrs;
                ttbr = base;
                words = w';
              })))
            done,
        (
          page_lo_attr idx outer_shareable % 2 ^ 10,
          found ∙ ap (λ (q : ℕ). some (q, page_lo_attr idx outer_shareable % 2 ^ 10)) itself,
          kind,
        ),
      )

  abbrev Itself : Type 0
  Itself =
      (s : MmuState) × (mmu_init base ds de w ≡ some s) × MapsToItself s (is_device_page ds de p) p

  in_normal : p < ds / 4096 → Itself
  unfolding init_ranges
  in_normal lt =
      let ram : is_device_page ds de p ≡ false = ground arith in
      rw ram (
        by_range [] 0 (ds / 4096) idx_normal _ false refl (omega arith, omega arith)
          (inl (omega arith), (inl (omega arith), (inl (omega arith), (inl (omega arith), tt))))
          (omega arith) normal_attribute)

  in_dma : ds / 4096 ≤ p → p < de / 4096 → Itself
  unfolding init_ranges
  in_dma le lt =
      let device : is_device_page ds de p ≡ true = ground arith in
      rw device (
        by_range (decl_range 0 (ds / 4096) idx_normal ∷ []) (ds / 4096) (de / 4096 - ds / 4096)
          idx_mmio _ true refl (omega arith, omega arith)
          (inl (omega arith), (inl (omega arith), (inl (omega arith), tt))) (omega arith)
          mmio_attribute)

  -- the range of DMA memory
  abbrev dma_range : PtMemRange
  dma_range = decl_range (ds / 4096) (de / 4096 - ds / 4096) idx_mmio

  -- the first page behind it
  abbrev shared_start : ℕ
  shared_start = ds / 4096 + (de / 4096 - ds / 4096)

  in_normal2 : de / 4096 ≤ p → p < 0x3f000 → Itself
  unfolding init_ranges
  in_normal2 le lt =
      let ram : is_device_page ds de p ≡ false = ground arith in
      rw ram (
        by_range (decl_range 0 (ds / 4096) idx_normal ∷ dma_range ∷ []) shared_start
          (0x3f000 - shared_start) idx_normal2 _ false refl (omega arith, omega arith)
          (inl (omega arith), (inl (omega arith), tt)) (omega arith) normal2_attribute)

  abbrev shared_range : PtMemRange
  shared_range = decl_range shared_start (0x3f000 - shared_start) idx_normal2

  in_peripherals : 0x3f000 ≤ p → p < 0x40000 → Itself
  unfolding init_ranges
  in_peripherals le lt =
      let device : is_device_page ds de p ≡ true = ground arith in
      rw device (
        by_range (decl_range 0 (ds / 4096) idx_normal ∷ dma_range ∷ shared_range ∷ []) 0x3f000
          0x1000 idx_dev_ngnre _ true refl (omega arith, omega arith) (inl (omega arith), tt)
          (omega arith) device_attribute)

  in_local : 0x40000 ≤ p → Itself
  unfolding init_ranges
  in_local le =
      let device : is_device_page ds de p ≡ true = ground arith in
      rw device (
        by_range
          (decl_range 0 (ds / 4096) idx_normal
            ∷ dma_range
            ∷ shared_range
            ∷ decl_range 0x3f000 0x1000 idx_dev_ngnre
            ∷ [])
          0x40000 2 idx_dev_ngnre [] true refl (omega arith, omega arith) tt (omega arith)
          device_attribute)

  -- After `mmu_init`, each page below the end of the local peripherals is translated to itself, if the
  -- tables stand at a multiple of 4096 below 2^46 and the DMA memory lies below the peripherals. The page is Device-nGnRE memory if
  -- it is one of the DMA memory or of the peripherals, and normal write-back memory otherwise.
  pub mmu_init-MapsToItself :
      (s : MmuState) × (mmu_init base ds de w ≡ some s) × MapsToItself s (is_device_page ds de p) p
  mmu_init-MapsToItself = elim (Bool-cases (ltb p (ds / 4096))) [
    | inl normal ↦ in_normal (ground arith)
    | inr past_normal ↦ elim (Bool-cases (ltb p (de / 4096))) [
      | inl dma ↦ in_dma (ground arith) (ground arith)
      | inr past_dma ↦ elim (Bool-cases (ltb p 0x3f000)) [
        | inl ram ↦ in_normal2 (ground arith) (ground arith)
        | inr past_ram ↦ elim (Bool-cases (ltb p 0x40000)) [
          | inl device ↦ in_peripherals (ground arith) (ground arith)
          | inr past_device ↦ in_local (ground arith)
        ]
      ]
    ]
  ]
