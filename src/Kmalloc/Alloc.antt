-- ===== src/Kmalloc/Alloc.antt =====
-- Allocation from the chunks of a class.
use arm64_os.Base.{
  ℕ, zero, suc, ◌+◌, ◌*◌, ◌%◌, ◌^◌, ◌≤◌, ◌<◌, ◌≡◌, refl, arith, List, [], ◌∷◌, false, some, leb,
  ◌==◌, inr, ◌∙◌, sym, ap, set, length, get_elem?, get_or, get_elem?-set_self,
}
use arm64_os.Kmalloc.{
  Descriptor, Heap, bitword_set_next_free, words_from, at_word, bitmap_set_next_free, found_chunk,
  next_free_from, kmalloc_common, kmalloc, kmalloc_class, classes, zeroed, get_biggest_log2,
}
use arm64_os.Kmalloc.Bitword.{bitword_set_next_free-SetsLowest}

-- The first word always has a place.
bitmap_first :
    (w : ℕ) (ws : List ℕ) (end_idx : ℕ)
    → bitmap_set_next_free (w ∷ ws) end_idx
      ≡ some ((bitword_set_next_free w 64).0 ∷ ws, (bitword_set_next_free w 64).1)
unfolding bitmap_set_next_free words_from at_word
bitmap_first w ws end_idx =
    let small : (bitword_set_next_free w 64).1 ≤ 8 = (bitword_set_next_free-SetsLowest w).0 in
    ground arith

-- the descriptor after an allocation, and the address
abbrev pub taken : Descriptor → ℕ → List ℕ → Descriptor
taken d w ws = record d { bitmap = (bitword_set_next_free w 64).0 ∷ ws }

abbrev pub chunk_addr : Descriptor → ℕ → ℕ
chunk_addr d w = d.offset + (bitword_set_next_free w 64).1 * 2 ^ d.chunk_size_log

kmalloc_common_lem :
    (d : Descriptor) (w : ℕ) (ws : List ℕ)
    → d.bitmap ≡ w ∷ ws
    → 64 ≤ d.num_entries
    → kmalloc_common d ≡ some (taken d w ws, inr (chunk_addr d w))
unfolding kmalloc_common found_chunk
kmalloc_common_lem d w ws e many =
    let small : (bitword_set_next_free w 64).1 ≤ 8 = (bitword_set_next_free-SetsLowest w).0 in
    let other : ((bitword_set_next_free w 64).1 == d.num_entries) ≡ false = ground arith in
    rw (e, bitmap_first w ws d.num_entries, other) refl

-- the chunks that serve requests of `size`, with the words of their bitmap
pub record Serves (h : Heap) (size : ℕ) (d : Descriptor) (w : ℕ) (ws : List ℕ) : Type 0 where
  pub small : get_biggest_log2 size < 20
  pub found : get_elem? h.descriptors (get_or classes (get_biggest_log2 size) 0) ≡ some d
  pub words : d.bitmap ≡ w ∷ ws
  pub many : 64 ≤ d.num_entries
  pub fits : size ≤ 2 ^ d.chunk_size_log

abbrev pub heap_after : Heap → ℕ → ℕ → Descriptor → ℕ → List ℕ → Heap
heap_after h size flags d w ws = record {
  descriptors = set h.descriptors (get_or classes (get_biggest_log2 size) 0) (taken d w ws);
  memory = zeroed size flags (inr (chunk_addr d w)) h.memory;
}

kmalloc-eq :
    (h : Heap) (size flags : ℕ) (d : Descriptor) (w : ℕ) (ws : List ℕ)
    → Serves h size d w ws
    → kmalloc size flags h ≡ some (heap_after h size flags d w ws, inr (chunk_addr d w))
unfolding kmalloc kmalloc_class
kmalloc-eq h size flags d w ws v =
    let in_table : leb 20 (get_biggest_log2 size) ≡ false = ground (arith, v.small) in
    rw (in_table, v.found, kmalloc_common_lem d w ws v.words v.many) refl

-- A request that chunks serve gets the whole of a chunk of the area.
pub kmalloc-chunk :
    (h : Heap) (size flags : ℕ) (d : Descriptor) (w : ℕ) (ws : List ℕ)
    → Serves h size d w ws
    → (h' : Heap) × (k : ℕ) × (kmalloc size flags h
        ≡ some (h', inr (d.offset + k * 2 ^ d.chunk_size_log)))
      × (k < d.num_entries)
kmalloc-chunk h size flags d w ws v =
    let small : (bitword_set_next_free w 64).1 ≤ 8 = (bitword_set_next_free-SetsLowest w).0 in
    (
      heap_after h size flags d w ws,
      (bitword_set_next_free w 64).1,
      kmalloc-eq h size flags d w ws v,
      omega (arith, v.many),
    )

full_byte : (w : ℕ) → w % 256 ≡ 255 → bitword_set_next_free w 64 ≡ (511, 8)
unfolding bitword_set_next_free next_free_from
full_byte w h = rw h refl

get_elem?-lt :
    (ds : List Descriptor) (i : ℕ) (d : Descriptor) → get_elem? ds i ≡ some d → i < length ds
get_elem?-lt [] i d h = cc
get_elem?-lt (x ∷ ds) zero d h = omega arith
get_elem?-lt (x ∷ ds) (suc i) d h = omega (arith, get_elem?-lt ds i d h)

after-Serves :
    (h : Heap) (size flags : ℕ) (d : Descriptor) (w : ℕ) (ws : List ℕ)
    → Serves h size d w ws
    → Serves (heap_after h size flags d w ws) size (taken d w ws) (bitword_set_next_free w 64).0 ws
after-Serves h size flags d w ws v = record {
  small = v.small;
  found =
      get_elem?-set_self h.descriptors (get_or classes (get_biggest_log2 size) 0) (taken d w ws)
        (get_elem?-lt h.descriptors (get_or classes (get_biggest_log2 size) 0) d v.found);
  words = refl;
  many = v.many;
  fits = v.fits;
}

-- Once the first eight chunks of a class are taken, every request that the class serves gets the
-- ninth chunk: two requests in a row get the same memory.
pub kmalloc_repeats :
    (h : Heap) (size flags : ℕ) (d : Descriptor) (w : ℕ) (ws : List ℕ)
    → Serves h size d w ws
    → w % 256 ≡ 255
    → (h1 h2 : Heap) × (addr : ℕ) × (kmalloc size flags h ≡ some (h1, inr addr))
      × (kmalloc size flags h1 ≡ some (h2, inr addr))
kmalloc_repeats h size flags d w ws v full =
    let h1 : Heap = heap_after h size flags d w ws in
    let w1 : ℕ = (bitword_set_next_free w 64).0 in
    let e : w1 ≡ 511 = ap (λ r. r.0) (full_byte w full) in
    let e1 : w1 % 256 ≡ 255 = omega arith in
    let same : chunk_addr (taken d w ws) w1 ≡ chunk_addr d w =
      ap (λ i. d.offset + i * 2 ^ d.chunk_size_log)
        (ap (λ r. r.1) (full_byte w1 e1) ∙ sym (ap (λ r. r.1) (full_byte w full))) in
    (
      h1,
      heap_after h1 size flags (taken d w ws) w1 ws,
      chunk_addr d w,
      kmalloc-eq h size flags d w ws v,
      kmalloc-eq h1 size flags (taken d w ws) w1 ws (after-Serves h size flags d w ws v)
          ∙ ap (λ a. some (heap_after h1 size flags (taken d w ws) w1 ws, inr a)) same,
    )
