-- ===== src/Kmalloc/Classes.antt =====
-- The twelve descriptors that kmalloc.c declares, and the sizes that they serve.
use arm64_os.Base.{
  ℕ, zero, suc, ◌/◌, ◌^◌, ◌≤◌, ◌<◌, ◌≡◌, refl, arith, List, [], ◌∷◌, Bool, true, false, Option,
  none, some, ltb, leb, ◌&&◌, inl, ◌∙◌, ap, length, get_elem?, get_or, Bool-cases, inr, ◌+◌, ◌*◌,
}
use native.Mathlib.Nat.{pow-le-pow_right}
use arm64_os.Kmalloc.{Descriptor, Heap, classes, get_biggest_log2}
use arm64_os.Base.Tables.{all_below, all_below_lem}
use arm64_os.Kmalloc.Log.{get_biggest_log2_lem}
use arm64_os.Kmalloc.Alloc.{Serves}

-- `DECL_MALLOC_DESC`: the logarithm of the size of a chunk, and the number of chunks
abbrev pub declared : List (ℕ × ℕ)
declared =
    (3, 4096)
    ∷ (4, 2048)
    ∷ (5, 1024)
    ∷ (6, 512)
    ∷ (7, 256)
    ∷ (8, 256)
    ∷ (9, 256)
    ∷ (10, 256)
    ∷ (11, 256)
    ∷ (12, 256)
    ∷ (13, 64)
    ∷ (19, 32)
    ∷ []

abbrev pub AreDeclared : List Descriptor → List (ℕ × ℕ) → Type 0
AreDeclared [] [] = Unit
AreDeclared [] (p ∷ ps) = ⊥
AreDeclared (d ∷ ds) [] = ⊥
AreDeclared (d ∷ ds) (p ∷ ps) =
    ((d.chunk_size_log ≡ p.0) × (d.num_entries ≡ p.1) × (length d.bitmap ≡ p.1 / 64))
    × AreDeclared ds ps

descriptor_at :
    (ds : List Descriptor) (ps : List (ℕ × ℕ)) (i log n : ℕ)
    → AreDeclared ds ps
    → get_elem? ps i ≡ some (log, n)
    → (d : Descriptor) × (get_elem? ds i ≡ some d)
      × (d.chunk_size_log ≡ log)
      × (d.num_entries ≡ n)
      × (length d.bitmap ≡ n / 64)
descriptor_at [] [] i log n h e = cc
descriptor_at [] (p ∷ ps) i log n h e = absurd h
descriptor_at (d ∷ ds) [] i log n h e = absurd h
descriptor_at (d ∷ ds) (p ∷ ps) zero log n h e =
    let same : some p ≡ some (log, n) = e in
    let (a, b, c) = h.0 in (d, refl, ground arith, ground arith, ground arith)
descriptor_at (d ∷ ds) (p ∷ ps) (suc i) log n h e = descriptor_at ds ps i log n h.1 e

abbrev holds : ℕ → Option (ℕ × ℕ) → Bool
holds l none = false
holds l (some (log, n)) = leb l log && leb 64 n

class_table : all_below 14 (λ l. holds l (get_elem? declared (get_or classes l 0))) ≡ true
class_table = refl

entry_of :
    (l : ℕ) (o : Option (ℕ × ℕ))
    → holds l o ≡ true
    → (log : ℕ) × (n : ℕ) × (o ≡ some (log, n)) × (l ≤ log) × (64 ≤ n)
entry_of l none h = cc
entry_of l (some (log, n)) h = (log, n, refl, ground arith, ground arith)

log_bound : (size k : ℕ) → size ≤ 2 ^ 13 → 2 ^ k < size → k < 13
log_bound size k le lt = elim (Bool-cases (ltb k 13)) [
  | inl below ↦ ground arith
  | inr above ↦
      let far : 13 ≤ k = ground arith in
      absurd (omega (arith, pow-le-pow_right {n = 2} (omega arith) {i = 13} {j = k} far))
]

nonempty : (ws : List ℕ) → 1 ≤ length ws → (w : ℕ) × (rest : List ℕ) × (ws ≡ w ∷ rest)
nonempty [] h = absurd (omega arith)
nonempty (w ∷ ws) h = (w, ws, refl)

served :
    (h : Heap) (size k : ℕ)
    → AreDeclared h.descriptors declared
    → get_biggest_log2 size ≡ suc k
    → suc k < 14
    → size ≤ 2 ^ suc k
    → (d : Descriptor) × (w : ℕ) × (ws : List ℕ) × Serves h size d w ws
served h size k shape e small fits =
    let (log, n, at_class, le, many) = entry_of (suc k) _ (
      all_below_lem 14 (λ l. holds l (get_elem? declared (get_or classes l 0))) (suc k) class_table
        small) in
    let (d, at_d, same_log, same_n, words) =
      descriptor_at h.descriptors declared (get_or classes (suc k) 0) log n shape at_class in
    let (w, ws, bits) = nonempty d.bitmap (omega arith) in
    (
      d,
      w,
      ws,
      record {
        small = omega arith;
        found = ap (λ l. get_elem? h.descriptors (get_or classes l 0)) e ∙ at_d;
        words = bits;
        many = omega arith;
        fits = omega (
          arith,
          pow-le-pow_right {n = 2} (omega arith) {i = suc k} {j = d.chunk_size_log} (omega arith),
        );
      },
    )

-- With the descriptors of kmalloc.c, every size from 2 to 8192 has a class of at least 64 chunks that
-- are no smaller than the size.
pub kmalloc_classes :
    (h : Heap) (size : ℕ)
    → AreDeclared h.descriptors declared
    → 2 ≤ size
    → size ≤ 8192
    → (d : Descriptor) × (w : ℕ) × (ws : List ℕ) × Serves h size d w ws
kmalloc_classes h size shape lo hi =
    let (k, e, below, above) = get_biggest_log2_lem size lo in
    let small : k < 13 = log_bound size k hi below in served h size k shape e (omega arith) above

-- The address is that of a chunk of one of the classes, and the chunk has room for `size` bytes.
abbrev pub IsChunk : Heap → ℕ → ℕ → Type 0
IsChunk h size addr =
    (i : ℕ) × (d : Descriptor) × (k : ℕ) × (get_elem? h.descriptors i ≡ some d)
    × (addr ≡ d.offset + k * 2 ^ d.chunk_size_log)
    × (k < d.num_entries)
    × (size ≤ 2 ^ d.chunk_size_log)
