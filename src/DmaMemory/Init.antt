-- ===== src/DmaMemory/Init.antt =====
-- What `dma_memory_init` makes of an area: all of its chunks are free, each with its own memory.
use arm64_os.Base.Maps.{update}
use arm64_os.Base.{
  ℕ, zero, suc, ◌+◌, ◌*◌, ◌^◌, ◌≤◌, ◌<◌, ◌≡◌, ◌≢◌, refl, arith, List, [], ◌∷◌, ◌++◌, append-nil,
  append_assoc, ◌⊎◌, inl, inr, ◌∙◌, ap, sym, subst,
}
use arm64_os.ListHead.{Links, init_list_head, list_add_tail}
use arm64_os.ListHead.Linked.{NotIn}
use arm64_os.ListHead.Apart.{Apart-one}
use arm64_os.ListHead.Ring.{Ring, list_add_tail-Ring}
use arm64_os.ListHead.Move.{Ring-set, list_add_tail-Ring_other}
use arm64_os.DmaMemory.{ChunkArea, DmaMemory, node_of, chunk_at, init_chunks, init_area}
use arm64_os.DmaMemory.Alloc.{HasChunks}

-- the nodes of the `n` chunks from `c` on
abbrev pub nodes_from : ℕ → ℕ → List ℕ
nodes_from c zero = []
nodes_from c (suc n) = node_of c ∷ nodes_from (c + 24) n

abbrev AllBelow : ℕ → List ℕ → Type 0
AllBelow b [] = Unit
AllBelow b (x ∷ xs) = (x < b) × AllBelow b xs

AllBelow-snoc :
    (b b' x : ℕ) (xs : List ℕ) → b ≤ b' → x < b' → AllBelow b xs → AllBelow b' (xs ++ (x ∷ []))
AllBelow-snoc b b' x [] le lt h = (lt, tt)
AllBelow-snoc b b' x (y ∷ ys) le lt h = (omega (arith, h.0), AllBelow-snoc b b' x ys le lt h.1)

NotIn-above : (b x : ℕ) (xs : List ℕ) → b ≤ x → AllBelow b xs → NotIn x xs
NotIn-above b x [] le h = tt
NotIn-above b x (y ∷ ys) le h = (omega (arith, h.0), NotIn-above b x ys le h.1)

-- a head that does not stand in the table
abbrev pub IsOutOf : ℕ → ℕ → ℕ → Type 0
IsOutOf head c n = (head < c) ⊎ (c + 24 * n ≤ head)

IsOutOf-rest : (head c n : ℕ) → IsOutOf head c (suc n) → IsOutOf head (c + 24) n
IsOutOf-rest head c n (inl lt) = inl (omega arith)
IsOutOf-rest head c n (inr le) = inr (omega arith)

node-ne : (head c n : ℕ) → IsOutOf head c (suc n) → node_of c ≢ head
node-ne head c n (inl lt) = omega arith
node-ne head c n (inr le) = omega arith

NotIn-snoc : (b x : ℕ) (xs : List ℕ) → NotIn b xs → b ≢ x → NotIn b (xs ++ (x ∷ []))
NotIn-snoc b x [] h n = (n, tt)
NotIn-snoc b x (y ∷ ys) h n = (h.0, NotIn-snoc b x ys h.1 n)

module _ (ca : ChunkArea) where
  -- the lists of an area while its chunks are added
  abbrev AreLists : Links → ℕ → List ℕ → Type 0
  AreLists h c fs =
      Ring h ca.free_list fs
      × Ring h ca.busy_list []
      × NotIn ca.busy_list (ca.free_list ∷ fs)
      × AllBelow c fs

  added :
      (h : Links) (c n : ℕ) (fs : List ℕ)
      → IsOutOf ca.free_list c (suc n)
      → IsOutOf ca.busy_list c (suc n)
      → AreLists h c fs
      → AreLists
          (list_add_tail (node_of c) ca.free_list (init_list_head (node_of c) h))
          (c + 24)
          (fs ++ (node_of c ∷ []))
  unfolding init_list_head
  added h c n fs free_out busy_out (frees, busies, apart, below) =
      let node = node_of c in
      let new_free : NotIn node (ca.free_list ∷ fs) =
        (node-ne ca.free_list c n free_out, NotIn-above c node fs (omega arith) below) in
      let new_busy : NotIn node (ca.busy_list ∷ []) = (node-ne ca.busy_list c n busy_out, tt) in
      let h1 = init_list_head node h in
      let frees1 : Ring h1 ca.free_list fs =
        Ring-set h node node node node ca.free_list fs new_free new_free frees in
      let busies1 : Ring h1 ca.busy_list [] =
        Ring-set h node node node node ca.busy_list [] new_busy new_busy busies in
      (
        list_add_tail-Ring h1 ca.free_list fs node new_free frees1,
        list_add_tail-Ring_other h1 node ca.free_list fs ca.busy_list [] frees1
            (Apart-one (ca.free_list ∷ fs) ca.busy_list apart) new_busy busies1,
        (
          apart.0,
          NotIn-snoc ca.busy_list node fs apart.1 (λ e. node-ne ca.busy_list c n busy_out (sym e)),
        ),
        AllBelow-snoc c (c + 24) node fs (omega arith) (omega arith) below,
      )

  -- the chunks from `c` on have the memory from `p` on, and those before are as they were
  abbrev HasMemory : ℕ → ℕ → ℕ → (ℕ → ℕ) → (ℕ → ℕ) → Type 0
  HasMemory c n p addr addr' =
      ((i : ℕ) → i < n → addr' (chunk_at c i) ≡ p + i * 2 ^ ca.chunk_sz_log)
      × ((q : ℕ) → q < c → addr' q ≡ addr q)

  one_more :
      (c n p : ℕ) (addr addr' : ℕ → ℕ)
      → HasMemory (c + 24) n (p + 2 ^ ca.chunk_sz_log) (update addr c p) addr'
      → HasMemory c (suc n) p addr addr'
  one_more c n p addr addr' (later, before) =
      (at_index, λ q lt. before q (omega arith) ∙ ground arith)
    where
      at_index : (i : ℕ) → i < suc n → addr' (chunk_at c i) ≡ p + i * 2 ^ ca.chunk_sz_log
      at_index zero lt = before (c + 24 * 0) (omega arith) ∙ ground arith
      at_index (suc i) lt =
          let place : chunk_at c (suc i) ≡ chunk_at (c + 24) i = omega arith in
          let more : suc i * 2 ^ ca.chunk_sz_log ≡ 2 ^ ca.chunk_sz_log + i * 2 ^ ca.chunk_sz_log =
            grind arith in
          ap addr' place ∙ later i (omega arith) ∙ omega (arith, more)

  two_heads :
      (h : Links)
      → ca.free_list ≢ ca.busy_list
      → AreLists (init_list_head ca.busy_list (init_list_head ca.free_list h)) ca.chunks_table []
  unfolding init_list_head
  two_heads h apart = (
    ((ground arith, ground arith), (tt, tt)),
    ((ground arith, ground arith), (tt, tt)),
    ((λ e. apart (sym e)), tt),
    tt,
  )

  init_chunks-AreLists :
      (n c p : ℕ) (s : DmaMemory) (fs : List ℕ)
      → IsOutOf ca.free_list c n
      → IsOutOf ca.busy_list c n
      → AreLists s.links c fs
      → AreLists (init_chunks ca c n p s).links (c + 24 * n) (fs ++ nodes_from c n)
        × HasMemory c n p s.addr (init_chunks ca c n p s).addr
  unfolding init_chunks
  init_chunks-AreLists zero c p s fs free_out busy_out h =
      let same : c + 24 * 0 ≡ c = omega arith in
      (rw (append-nil, same) h, (λ i lt. absurd (omega arith), λ q lt. refl))
  init_chunks-AreLists (suc n) c p s fs free_out busy_out h =
      let s1 : DmaMemory = record s {
        links = list_add_tail (node_of c) ca.free_list (init_list_head (node_of c) s.links);
        addr = update s.addr c p;
      } in
      let (lists, memory) =
        init_chunks-AreLists n (c + 24) (p + 2 ^ ca.chunk_sz_log) s1 (fs ++ (node_of c ∷ []))
          (IsOutOf-rest ca.free_list c n free_out) (IsOutOf-rest ca.busy_list c n busy_out)
          (added s.links c n fs free_out busy_out h) in
      let done = init_chunks ca (c + 24) n (p + 2 ^ ca.chunk_sz_log) s1 in
      let end : c + 24 + 24 * n ≡ c + 24 * suc n = omega arith in
      (
        subst (λ xs. AreLists done.links (c + 24 * suc n) xs)
            (append_assoc fs (node_of c ∷ []) (nodes_from (c + 24) n))
            (subst (λ b. AreLists done.links b ((fs ++ (node_of c ∷ [])) ++ nodes_from (c + 24) n))
              end lists),
        one_more c n p s.addr done.addr memory,
      )

  -- Whatever the links were, the initialisation of an area makes all of its chunks free, in their
  -- order, and none busy, and gives each its own memory, one behind the other, if the heads of the
  -- two lists are apart and do not stand in the table.
  pub init_area-HasChunks :
      (s : DmaMemory)
      → ca.free_list ≢ ca.busy_list
      → IsOutOf ca.free_list ca.chunks_table ca.num_chunks
      → IsOutOf ca.busy_list ca.chunks_table ca.num_chunks
      → HasChunks (init_area ca s) ca (nodes_from ca.chunks_table ca.num_chunks) []
        × ((i : ℕ)
            → i < ca.num_chunks
            → (init_area ca s).addr (chunk_at ca.chunks_table i)
              ≡ ca.chunks_mem + i * 2 ^ ca.chunk_sz_log)
  unfolding init_area
  init_area-HasChunks s apart free_out busy_out =
      let s1 : DmaMemory = record s {
        links = init_list_head ca.busy_list (init_list_head ca.free_list s.links);
      } in
      let ((frees, busies, beside, below), memory) =
        init_chunks-AreLists ca.num_chunks ca.chunks_table ca.chunks_mem s1 [] free_out busy_out
          (two_heads s.links apart) in
      (
        (
          frees,
          busies,
          Apart-one (ca.free_list ∷ nodes_from ca.chunks_table ca.num_chunks) ca.busy_list beside,
        ),
        memory.0,
      )
