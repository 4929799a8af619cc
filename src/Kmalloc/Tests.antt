-- ===== src/Kmalloc/Tests.antt =====
-- The heap after start-up, and one whose class of eight bytes has eight chunks taken.
use arm64_os.Base.{ℕ, ◌/◌, refl, arith, List, [], ◌∷◌, replicate}
use arm64_os.Kmalloc.{Descriptor, Heap, get_biggest_log2, halve}
use arm64_os.Kmalloc.Alloc.{Serves}
use arm64_os.Kmalloc.Classes.{declared}

abbrev descriptor : ℕ × ℕ → Descriptor
descriptor (log, n) = record {
  bitmap = replicate (n / 64) 0;
  num_entries = n;
  chunk_size_log = log;
  offset = 0;
}

abbrev with_first : ℕ → List (ℕ × ℕ) → List Descriptor
with_first w [] = []
with_first w (p ∷ ps) = record (descriptor p) { bitmap = w ∷ replicate 63 0 } ∷ rest ps
  where
    rest : List (ℕ × ℕ) → List Descriptor
    rest [] = []
    rest (p ∷ ps) = descriptor p ∷ rest ps

abbrev heap : ℕ → Heap
heap w = record { descriptors = with_first w declared; memory = λ a. 7 }

abbrev eights : ℕ → Descriptor
eights w = record {
  bitmap = w ∷ replicate 63 0;
  num_entries = 4096;
  chunk_size_log = 3;
  offset = 0;
}

eights-Serves : (w : ℕ) → Serves (heap w) 8 (eights w) w (replicate 63 0)
unfolding get_biggest_log2 halve
eights-Serves w = record {
  small = omega arith;
  found = refl;
  words = refl;
  many = omega arith;
  fits = omega arith;
}
