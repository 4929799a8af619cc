-- ===== src/DmaMemory.antt =====
-- dma_memory.c and include/memory/chunk.h: areas of chunks of one size, on the lists of include/list.h.
-- A `struct chunk` is its address, with the list node 8 bytes in, and takes 24 bytes. `none` is a BUG,
-- an index out of bounds, or one that an `int` does not hold.
pub mod Sizes
pub mod Alloc
pub mod Init
mod Tests
use arm64_os.Base.Ints.{sign_extend_32}
use arm64_os.Base.Maps.{update}
use arm64_os.Base.{
  ℕ, zero, suc, ◌+◌, ◌-◌, ◌*◌, ◌/◌, ◌%◌, ◌^◌, List, [], ◌∷◌, get_elem?, Option, none, some, ltb,
  leb, ◌||◌, if◌then◌else◌, ◌>>=◌,
}
use arm64_os.Kmalloc.{get_biggest_log2}
use arm64_os.ListHead.{Links, init_list_head, list_add, list_add_tail, list_del}
use arm64_os.Strings.{Memory, memset}

pub record ChunkArea : Type 0 where
  pub chunks_table : ℕ
  pub chunks_mem : ℕ
  pub chunk_sz_log : ℕ
  pub num_chunks : ℕ
  pub free_list : ℕ
  pub busy_list : ℕ

-- `addr` is the field of each chunk; `memory_start` and `memory_end` are symbols of the linker.
pub record DmaMemory : Type 0 where
  pub dma_chunk_areas : List ChunkArea
  pub memory_start : ℕ
  pub memory_end : ℕ
  pub links : Links
  pub addr : ℕ → ℕ
  pub mem : Memory

-- `&c->list`
abbrev pub node_of : ℕ → ℕ
node_of c = c + 8

-- `container_of`
abbrev pub chunk_of : ℕ → ℕ
chunk_of node = node - 8

-- the entry of a table of chunks
abbrev pub chunk_at : ℕ → ℕ → ℕ
chunk_at table i = table + 24 * i

abbrev pub logsize_to_area_idx : List ℕ
logsize_to_area_idx = 0 ∷ 0 ∷ 1 ∷ 2 ∷ 2 ∷ 3 ∷ 3 ∷ 3 ∷ 4 ∷ 4 ∷ 4 ∷ 4 ∷ 4 ∷ 4 ∷ []

-- The comparison is one of unsigned words, so that it also fails below 5.
unfoldable pub area_index : ℕ → Option ℕ
area_index logsz =
    if ltb 14 ((logsz + 2 ^ 64 - 5) % 2 ^ 64)
    then none
    else if ltb logsz 6
    then none
    else get_elem? logsize_to_area_idx (logsz - 5 - 1)

unfoldable pub chunk_area_get_by_sz : ℕ → DmaMemory → Option ChunkArea
unfolding area_index
chunk_area_get_by_sz sz s =
    area_index (get_biggest_log2 sz) >>= (λ i. get_elem? s.dma_chunk_areas i)

-- There is no test for an empty list: the first entry then is the one that the head would stand in.
unfoldable pub take_chunk : ℕ → ChunkArea → DmaMemory → ℕ × DmaMemory
unfolding memset
take_chunk sz a s =
    let node = s.links.next a.free_list in
    let c = chunk_of node in
    (
      s.addr c,
      record s {
        links = list_add_tail node a.busy_list (list_del node s.links);
        mem = memset (s.addr c) 0 sz s.mem;
      },
    )

unfoldable pub dma_alloc : ℕ → DmaMemory → Option (ℕ × DmaMemory)
unfolding chunk_area_get_by_sz take_chunk
dma_alloc sz s = chunk_area_get_by_sz sz s >>= (λ a. some (take_chunk sz a s))

-- The loop that looks for the area: the first one whose end is not below the address, or the last.
-- The size of an area is an `int`, as it is added to the 64-bit address.
unfoldable pub area_by_addr : ℕ → ℕ → ChunkArea → List ChunkArea → ChunkArea
unfolding sign_extend_32
area_by_addr p base_addr d [] = d
area_by_addr p base_addr d (a ∷ areas) =
    let base = (base_addr + sign_extend_32 (a.num_chunks * 2 ^ a.chunk_sz_log)) % 2 ^ 64 in
    let rest = area_by_addr p base a areas in if leb p base then a else rest

-- the chunk by its distance from the first one of the area
unfoldable pub chunk_in_area : ℕ → (ℕ → ℕ) → ChunkArea → Option (ℕ × ChunkArea)
chunk_in_area p addr d =
    let i = (p + 2 ^ 64 - addr (chunk_at d.chunks_table 0)) % 2 ^ 64 / 2 ^ d.chunk_sz_log in
    if leb (2 ^ 31) i then none else some (chunk_at d.chunks_table i, d)

unfoldable pub chunk_get_by_addr : ℕ → DmaMemory → Option (ℕ × ChunkArea)
unfolding area_by_addr chunk_in_area
chunk_get_by_addr p s =
    if ltb p s.memory_start || leb s.memory_end p then none else elim s.dma_chunk_areas [
      | [] ↦ none
      | a ∷ areas ↦ chunk_in_area p s.addr (area_by_addr p s.memory_start a (a ∷ areas))
    ]

unfoldable pub give_chunk : ℕ → ChunkArea → DmaMemory → DmaMemory
give_chunk c a s = record s {
  links = list_add (node_of c) a.free_list (list_del (node_of c) s.links);
}

unfoldable pub dma_free : ℕ → DmaMemory → Option DmaMemory
unfolding chunk_get_by_addr give_chunk
dma_free p s = chunk_get_by_addr p s >>= (λ r. some (give_chunk r.0 r.1 s))

-- the loop over the chunks of an area, from `c` on, the next of which is for the memory at `chunk_mem`
unfoldable pub init_chunks : ChunkArea → ℕ → ℕ → ℕ → DmaMemory → DmaMemory
init_chunks ca c zero chunk_mem s = s
init_chunks ca c (suc n) chunk_mem s =
    init_chunks ca (c + 24) n (chunk_mem + 2 ^ ca.chunk_sz_log) (record s {
      links = list_add_tail (node_of c) ca.free_list (init_list_head (node_of c) s.links);
      addr = update s.addr c chunk_mem;
    })

unfoldable pub init_area : ChunkArea → DmaMemory → DmaMemory
unfolding init_chunks
init_area ca s =
    init_chunks ca ca.chunks_table ca.num_chunks ca.chunks_mem
      (record s { links = init_list_head ca.busy_list (init_list_head ca.free_list s.links) })

unfoldable pub init_areas : List ChunkArea → DmaMemory → DmaMemory
unfolding init_area
init_areas [] s = s
init_areas (ca ∷ areas) s = init_areas areas (init_area ca s)

unfoldable pub dma_memory_init : DmaMemory → DmaMemory
unfolding init_areas
dma_memory_init s = init_areas s.dma_chunk_areas s
