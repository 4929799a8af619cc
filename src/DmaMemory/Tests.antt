-- ===== src/DmaMemory/Tests.antt =====
-- Two chunks of 64 bytes with their nodes in a table at 0x100, and the areas of the source.
use arm64_os.Base.Ints.{sign_extend_32}
use arm64_os.Base.{
  ℕ, ◌+◌, ◌*◌, ◌^◌, ◌≤◌, ◌<◌, ◌≡◌, ◌↔◌, refl, arith, List, [], ◌∷◌, suc, ◌==◌, if◌then◌else◌, some,
  inr,
}
use arm64_os.Kmalloc.{halve, get_biggest_log2}
use arm64_os.ListHead.{Links}
use arm64_os.DmaMemory.{
  ChunkArea, DmaMemory, chunk_at, area_index, chunk_area_get_by_sz, dma_alloc, area_by_addr,
  dma_free, init_area,
}
use arm64_os.DmaMemory.Sizes.{IsFitted, chunk_area_get_by_sz-IsFitted}
use arm64_os.DmaMemory.Alloc.{
  HasChunks, IsCleared, IsChunk, dma_alloc-HasChunks, dma_free-HasChunks,
}
use arm64_os.DmaMemory.Init.{init_area-HasChunks}

abbrev area : ℕ → ℕ → ChunkArea
area sz_log at_table = record {
  chunks_table = at_table;
  chunks_mem = 0x10000 + at_table;
  chunk_sz_log = sz_log;
  num_chunks = 2;
  free_list = at_table + 0x80;
  busy_list = at_table + 0x90;
}

abbrev no_links : Links
no_links = record { next = λ p. 0; prev = λ p. 0 }

abbrev start : DmaMemory
start = record {
  dma_chunk_areas = area 6 0x100 ∷ area 7 0x200 ∷ area 9 0x300 ∷ area 12 0x400 ∷ area 19 0x500 ∷ [];
  memory_start = 0x10100;
  memory_end = 0x20000;
  links = no_links;
  addr = λ c. 0;
  mem = λ p. 0xff;
}

init_area-HasChunks_example :
    HasChunks (init_area (area 6 0x100) start) (area 6 0x100) (0x108 ∷ 0x120 ∷ []) []
    × ((i : ℕ)
        → i < 2
        → (init_area (area 6 0x100) start).addr (chunk_at 0x100 i) ≡ 0x10100 + i * 2 ^ 6)
init_area-HasChunks_example =
    init_area-HasChunks (area 6 0x100) start (omega arith) (inr (omega arith)) (inr (omega arith))

chunk_area_get_by_sz-IsFitted_example :
    (k : ℕ) × (a : ChunkArea) × (2 ^ k < 100)
    × (100 ≤ 2 ^ suc k)
    × (chunk_area_get_by_sz 100 start ≡ some a)
    × ((100 ≤ 2 ^ a.chunk_sz_log) ↔ IsFitted k)
chunk_area_get_by_sz-IsFitted_example =
    chunk_area_get_by_sz-IsFitted 100 start refl (omega arith) (omega arith)

-- An area of 64 bytes is taken for 100 bytes.
too_small : chunk_area_get_by_sz 100 start ≡ some (area 6 0x100)
unfolding chunk_area_get_by_sz area_index get_biggest_log2 halve
too_small = refl

abbrev ready : DmaMemory
ready = record start {
  links = record {
    next = λ p.
        if p == 0x180 then 0x108 else if p == 0x108 then 0x120 else if p == 0x120 then 0x180 else p;
    prev = λ p.
        if p == 0x180 then 0x120 else if p == 0x120 then 0x108 else if p == 0x108 then 0x180 else p;
  };
  addr = λ c. if c == 0x100 then 0x10100 else 0x10140;
}

ready-HasChunks : HasChunks ready (area 6 0x100) (0x108 ∷ 0x120 ∷ []) []
ready-HasChunks = omega arith

found : chunk_area_get_by_sz 64 ready ≡ some (area 6 0x100)
unfolding chunk_area_get_by_sz area_index get_biggest_log2 halve
found = refl

dma_alloc-HasChunks_example :
    (s' : DmaMemory) × (dma_alloc 64 ready ≡ some (0x10100, s'))
    × HasChunks s' (area 6 0x100) (0x120 ∷ []) (0x108 ∷ [])
    × IsCleared 0x10100 64 ready.mem s'.mem
    × (s'.addr ≡ ready.addr)
dma_alloc-HasChunks_example =
    dma_alloc-HasChunks 64 ready (area 6 0x100) 0x108 (0x120 ∷ []) [] found ready-HasChunks

abbrev busy : DmaMemory
busy = record ready {
  links = record {
    next = λ p.
        if p == 0x190 then 0x108 else if p == 0x108 then 0x120 else if p == 0x120 then 0x190 else p;
    prev = λ p.
        if p == 0x190 then 0x120 else if p == 0x120 then 0x108 else if p == 0x108 then 0x190 else p;
  };
}

busy-HasChunks : HasChunks busy (area 6 0x100) [] (0x108 ∷ 0x120 ∷ [])
busy-HasChunks = omega arith

abbrev other_areas : List ChunkArea
other_areas = area 7 0x200 ∷ area 9 0x300 ∷ area 12 0x400 ∷ area 19 0x500 ∷ []

second-IsChunk : IsChunk busy (area 6 0x100) 1 0x10140
second-IsChunk = record {
  from_start = omega arith;
  before_end = omega arith;
  small = omega arith;
  fits = omega arith;
  at_index = refl;
}

in_first_area :
    area_by_addr 0x10140 0x10100 (area 6 0x100) (area 6 0x100 ∷ other_areas) ≡ area 6 0x100
unfolding area_by_addr sign_extend_32
in_first_area = refl

dma_free-HasChunks_example :
    (s' : DmaMemory) × (dma_free 0x10140 busy ≡ some s')
    × HasChunks s' (area 6 0x100) (0x120 ∷ []) (0x108 ∷ [])
    × (s'.mem ≡ busy.mem)
dma_free-HasChunks_example =
    dma_free-HasChunks busy (area 6 0x100) other_areas (area 6 0x100) 1 0x10140 [] (0x108 ∷ []) []
      refl in_first_area second-IsChunk busy-HasChunks
