-- ===== src/DmaMemory/Alloc.antt =====
-- Chunks move from the free list of an area to its busy list, and back.
use arm64_os.Base.{
  ℕ, zero, suc, ◌+◌, ◌-◌, ◌≤◌, ◌<◌, ◌≡◌, refl, arith, List, [], ◌∷◌, ◌++◌, Option, some, ◌>>=◌, ◌⊎◌,
  inl, ◌*◌, ◌/◌, ◌%◌, ◌^◌, ltb, leb, ◌||◌, false, ◌∙◌, ap,
}
use native.Mathlib.Nat.{one-le-pow, mul-div_left}
use arm64_os.ListHead.{list_move_tail, list_move}
use arm64_os.ListHead.Apart.{Apart, Apart-comm}
use arm64_os.ListHead.Ring.{Ring}
use arm64_os.ListHead.Move.{
  list_move_tail-Ring, list_move-Ring, list_move-Apart, list_move_tail-Apart,
}
use arm64_os.Strings.{Memory, store, memset}
use arm64_os.Printing.Outside.{memset-Outside}
use arm64_os.DmaMemory.{
  ChunkArea, DmaMemory, chunk_of, node_of, chunk_area_get_by_sz, take_chunk, dma_alloc,
  chunk_get_by_addr, chunk_at, area_by_addr, chunk_in_area, give_chunk, dma_free,
}

-- the free and the busy chunks of an area, by their nodes
abbrev pub HasChunks : DmaMemory → ChunkArea → List ℕ → List ℕ → Type 0
HasChunks s a free busy =
    Ring s.links a.free_list free
    × Ring s.links a.busy_list busy
    × Apart (a.free_list ∷ free) (a.busy_list ∷ busy)

-- the bytes from `p` on are 0, and the others as they were
abbrev pub IsCleared : ℕ → ℕ → Memory → Memory → Type 0
IsCleared p n m m' =
    ((q : ℕ) → (q < p) ⊎ (p + n ≤ q) → m' q ≡ m q) × ((i : ℕ) → i < n → m' (p + i) ≡ 0)

memset-cleared : (p n : ℕ) (m : Memory) (i : ℕ) → i < n → memset p 0 n m (p + i) ≡ 0
unfolding memset
memset-cleared p zero m i h = absurd (omega arith)
memset-cleared p (suc n) m zero h =
    memset-Outside (suc p) 0 n (store p 0 m) (p + 0) (inl (omega arith)) ∙ ground arith
memset-cleared p (suc n) m (suc i) h =
    let place : p + suc i ≡ suc p + i = omega arith in
    ap (memset (suc p) 0 n (store p 0 m)) place
    ∙ memset-cleared (suc p) n (store p 0 m) i (omega arith)

-- Where the area for a size has a free chunk, `dma_alloc` returns the memory of its first one. That
-- chunk is the last busy one then, the first `sz` bytes from there on are 0, and all other memory is
-- as before.
pub dma_alloc-HasChunks :
    (sz : ℕ) (s : DmaMemory) (a : ChunkArea) (n : ℕ) (free busy : List ℕ)
    → chunk_area_get_by_sz sz s ≡ some a
    → HasChunks s a (n ∷ free) busy
    → (s' : DmaMemory) × (dma_alloc sz s ≡ some (s.addr (chunk_of n), s'))
      × HasChunks s' a free (busy ++ (n ∷ []))
      × IsCleared (s.addr (chunk_of n)) sz s.mem s'.mem
      × (s'.addr ≡ s.addr)
unfolding dma_alloc take_chunk list_move_tail
dma_alloc-HasChunks sz s a n free busy found (frees, busies, apart) =
    let (gone, there) =
      list_move_tail-Ring s.links a.free_list [] n free a.busy_list busy frees busies apart in
    let separate =
      list_move_tail-Apart s.links a.free_list [] n free a.busy_list busy frees apart in
    let p = s.addr (chunk_of n) in
    let s' : DmaMemory = record s {
      links = list_move_tail n a.busy_list s.links;
      mem = memset p 0 sz s.mem;
    } in
    (
      s',
      ap (λ (o : Option ChunkArea). o >>= (λ a. some (take_chunk sz a s))) found
          ∙ ap
              (λ (x : ℕ). some (
                s.addr (chunk_of x),
                record s {
                  links = list_move_tail x a.busy_list s.links;
                  mem = memset (s.addr (chunk_of x)) 0 sz s.mem;
                },
              ))
              frees.0.0,
      (gone, there, Apart-comm (a.busy_list ∷ (busy ++ (n ∷ []))) (a.free_list ∷ free) separate),
      (memset-Outside p 0 sz s.mem, memset-cleared p sz s.mem),
      refl,
    )

-- The chunk with index `i` of an area is busy, and its memory lies where the area has it.
pub record IsChunk (s : DmaMemory) (a : ChunkArea) (i p : ℕ) : Type 0 where
  pub from_start : s.memory_start ≤ p
  pub before_end : p < s.memory_end
  pub small : i < 2 ^ 31
  pub fits : p < 2 ^ 64
  pub at_index : p ≡ s.addr (chunk_at a.chunks_table 0) + i * 2 ^ a.chunk_sz_log

power_pos : (k : ℕ) → 0 < 2 ^ k
power_pos k = one-le-pow k 2 (omega arith)

chunk_found :
    (s : DmaMemory) (a : ChunkArea) (i p : ℕ)
    → IsChunk s a i p
    → chunk_in_area p s.addr a ≡ some (chunk_at a.chunks_table i, a)
unfolding chunk_in_area
chunk_found s a i p c =
    let base = s.addr (chunk_at a.chunks_table 0) in
    let distance : (p + 2 ^ 64 - base) % 2 ^ 64 ≡ i * 2 ^ a.chunk_sz_log =
      omega (arith, c.at_index, c.fits) in
    let index : i * 2 ^ a.chunk_sz_log / 2 ^ a.chunk_sz_log ≡ i =
      mul-div_left i (power_pos a.chunk_sz_log) in
    let fits : leb (2 ^ 31) i ≡ false = ground (arith, c.small) in rw (distance, index, fits) refl

-- `dma_free` of the memory of a busy chunk makes it the first free one of its area, where the search
-- for the area finds it.
pub dma_free-HasChunks :
    (s : DmaMemory) (first : ChunkArea) (areas : List ChunkArea) (a : ChunkArea) (i p : ℕ)
    (free before after : List ℕ)
    → s.dma_chunk_areas ≡ first ∷ areas
    → area_by_addr p s.memory_start first (first ∷ areas) ≡ a
    → IsChunk s a i p
    → HasChunks s a free (before ++ (node_of (chunk_at a.chunks_table i) ∷ after))
    → (s' : DmaMemory) × (dma_free p s ≡ some s')
      × HasChunks s' a (node_of (chunk_at a.chunks_table i) ∷ free) (before ++ after)
      × (s'.mem ≡ s.mem)
unfolding dma_free chunk_get_by_addr chunk_in_area give_chunk list_move
dma_free-HasChunks s first areas a i p free before after listed found c (frees, busies, apart) =
    let e = node_of (chunk_at a.chunks_table i) in
    let crossed = Apart-comm (a.free_list ∷ free) (a.busy_list ∷ (before ++ (e ∷ after))) apart in
    let (gone, there) =
      list_move-Ring s.links a.busy_list before e after a.free_list free busies frees crossed in
    let separate =
      list_move-Apart s.links a.busy_list before e after a.free_list free busies crossed in
    let s' : DmaMemory = record s { links = list_move e a.free_list s.links } in
    let in_memory : (ltb p s.memory_start || leb s.memory_end p) ≡ false =
      ground (arith, c.from_start, c.before_end) in
    let freed : dma_free p s ≡ some s' =
      rw (in_memory, listed, found, chunk_found s a i p c) refl in
    (s', freed, (there, gone, separate.1), refl)
