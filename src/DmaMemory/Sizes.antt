-- ===== src/DmaMemory/Sizes.antt =====
-- Which sizes get a chunk that is large enough for them.
use arm64_os.Base.Tables.{all_below, all_below_lem}
use arm64_os.Base.{
  ℕ, zero, suc, ◌^◌, ◌≤◌, ◌<◌, ◌≡◌, ◌≢◌, ◌↔◌, refl, arith, List, [], ◌∷◌, get_elem?, map, Option,
  none, some, Bool, true, false, ltb, leb, ◌==◌, ◌||◌, if◌then◌else◌, ◌>>=◌, inl, inr, ap, sym, ◌∙◌,
  subst, Bool-cases,
}
use native.Mathlib.Nat.{pow-le-pow_right}
use arm64_os.Kmalloc.Log.{get_biggest_log2_lem}
use arm64_os.DmaMemory.{ChunkArea, DmaMemory, area_index, chunk_area_get_by_sz}

-- the exponents of the five areas
abbrev pub area_logs : List ℕ
area_logs = 6 ∷ 7 ∷ 9 ∷ 12 ∷ 19 ∷ []

abbrev is_small : ℕ → Bool
is_small k = ((k == 6) || (k == 7)) || ((k == 9) || (k == 12))

-- Whether an area for the sizes up to 2 ^ (k + 1) is as the table says.
abbrev fits_as : ℕ → ℕ → Bool
fits_as k l = if is_small k then leb l k else leb (suc k) l

abbrev fits_log : ℕ → Option ℕ → Bool
fits_log k none = false
fits_log k (some l) = fits_as k l

abbrev fits_index : ℕ → Option ℕ → Bool
fits_index k none = false
fits_index k (some i) = fits_log k (get_elem? area_logs i)

area_table : all_below 19 (λ k. ltb k 5 || fits_index k (area_index (suc k))) ≡ true
unfolding area_index
area_table = refl

log_found :
    (k : ℕ) (o : Option ℕ) → fits_log k o ≡ true → (l : ℕ) × (o ≡ some l) × (fits_as k l ≡ true)
log_found k none h = cc
log_found k (some l) h = (l, refl, h)

index_found :
    (k : ℕ) (o : Option ℕ)
    → fits_index k o ≡ true
    → (i : ℕ) × (l : ℕ) × (o ≡ some i) × (get_elem? area_logs i ≡ some l) × (fits_as k l ≡ true)
index_found k none h = cc
index_found k (some i) h =
    let (l, e, fits) = log_found k (get_elem? area_logs i) h in (i, l, refl, e, fits)

area_found :
    (areas : List ChunkArea) (i l : ℕ)
    → get_elem? (map (λ (a : ChunkArea). a.chunk_sz_log) areas) i ≡ some l
    → (a : ChunkArea) × (get_elem? areas i ≡ some a) × (a.chunk_sz_log ≡ l)
area_found [] i l e = cc
area_found (a ∷ areas) zero l e = (a, refl, ground arith)
area_found (a ∷ areas) (suc i) l e = area_found areas i l e

-- the sizes for which the area is too small, by their logarithms rounded down
abbrev pub IsFitted : ℕ → Type 0
IsFitted k = (k ≢ 6) × (k ≢ 7) × (k ≢ 9) × (k ≢ 12)

IsFitted-iff :
    (sz k l : ℕ) → 2 ^ k < sz → sz ≤ 2 ^ suc k → fits_as k l ≡ true → (sz ≤ 2 ^ l) ↔ IsFitted k
IsFitted-iff sz k l lo hi fits = elim (Bool-cases (is_small k)) [
  | inl small ↦
      let below : l ≤ k = ground arith in
      let two : 2 ^ l ≤ 2 ^ k = pow-le-pow_right {n = 2} (omega arith) {i = l} {j = k} below in
      ((λ (h : sz ≤ 2 ^ l). absurd (omega arith)), (λ (h : IsFitted k). absurd (ground arith)))
  | inr large ↦
      let above : suc k ≤ l = ground arith in
      let two : 2 ^ suc k ≤ 2 ^ l =
        pow-le-pow_right {n = 2} (omega arith) {i = suc k} {j = l} above in
      ((λ (h : sz ≤ 2 ^ l). ground arith), (λ (h : IsFitted k). omega arith))
]

exponent_lt : (a b : ℕ) → 2 ^ a < 2 ^ b → a < b
exponent_lt a b h = elim (Bool-cases (ltb a b)) [
  | inl lt ↦ ground arith
  | inr ge ↦
      let le : b ≤ a = ground arith in
      let two : 2 ^ b ≤ 2 ^ a = pow-le-pow_right {n = 2} (omega arith) {i = b} {j = a} le in
      absurd (omega arith)
]

area_for :
    (k : ℕ) (areas : List ChunkArea)
    → map (λ (a : ChunkArea). a.chunk_sz_log) areas ≡ area_logs
    → 5 ≤ k
    → k < 19
    → (a : ChunkArea) × (area_index (suc k) >>= (λ i. get_elem? areas i) ≡ some a)
      × (fits_as k a.chunk_sz_log ≡ true)
area_for k areas logs lo hi =
    let at_least : ltb k 5 ≡ false = ground arith in
    let table : fits_index k (area_index (suc k)) ≡ true =
      rw at_least at
        (all_below_lem 19 (λ k. ltb k 5 || fits_index k (area_index (suc k))) k area_table hi) in
    let (i, l, index, entry, fits) = index_found k (area_index (suc k)) table in
    let (a, found, same) = area_found areas i l (ap (λ ls. get_elem? ls i) logs ∙ entry) in
    (
      a,
      ap (λ (o : Option ℕ). o >>= (λ i. get_elem? areas i)) index ∙ found,
      subst (λ l. fits_as k l ≡ true) (sym same) fits,
    )

-- Each size from 33 bytes to 512 KB gets an area, with the areas of the source. The chunks of the area
-- are large enough exactly if the logarithm of the size, rounded down for `sz - 1`, is none of 6, 7, 9
-- and 12: they are too small for 65 to 256, for 513 to 1024 and for 4097 to 8192 bytes.
pub chunk_area_get_by_sz-IsFitted :
    (sz : ℕ) (s : DmaMemory)
    → map (λ (a : ChunkArea). a.chunk_sz_log) s.dma_chunk_areas ≡ area_logs
    → 32 < sz
    → sz ≤ 2 ^ 19
    → (k : ℕ) × (a : ChunkArea) × (2 ^ k < sz)
      × (sz ≤ 2 ^ suc k)
      × (chunk_area_get_by_sz sz s ≡ some a)
      × ((sz ≤ 2 ^ a.chunk_sz_log) ↔ IsFitted k)
unfolding chunk_area_get_by_sz
chunk_area_get_by_sz-IsFitted sz s areas lo hi =
    let (k, log, below, above) = get_biggest_log2_lem sz (omega arith) in
    let more : 5 < suc k = exponent_lt 5 (suc k) (omega arith) in
    let (a, found, fits) =
      area_for k s.dma_chunk_areas areas (omega arith) (exponent_lt k 19 (omega arith)) in
    (
      k,
      a,
      below,
      above,
      ap (λ (n : ℕ). area_index n >>= (λ i. get_elem? s.dma_chunk_areas i)) log ∙ found,
      IsFitted-iff sz k a.chunk_sz_log below above fits,
    )
