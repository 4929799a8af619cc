-- ===== src/Kmalloc.antt =====
-- kmalloc.c with include/bitword.h, include/bitmap.h and include/math.h. Addresses are offsets from
-- `kernel_memory`; a bitmap is its words; `char` is unsigned on this target. A panic and an access
-- outside of a table are `none`.
pub mod Log
pub mod Bitword
pub mod Alloc
pub mod Classes
pub mod Free
mod Tests
use Prim.Native.Nat.{bit_and, bit_or}
use arm64_os.Base.{
  ℕ, zero, suc, ◌+◌, ◌-◌, ◌*◌, ◌/◌, ◌%◌, ◌^◌, List, [], ◌∷◌, Bool, true, false, Option, none, some,
  ltb, leb, ◌==◌, not, ◌&&◌, ◌||◌, if◌then◌else◌, set, length, get_elem?, get_or, drop, ◌>>=◌, ◌⊎◌,
  inl, inr,
}
use mathlib.Core.Option
use arm64_os.Base.Errors.{ErrorCode, err_no_resource}

-- the loop of `get_biggest_log2`, on fuel that is at least the number
unfoldable pub halve : ℕ → ℕ → ℕ → ℕ × ℕ
halve zero tmp res = (tmp, res)
halve (suc n) tmp res =
    let next = halve n (tmp / 2) (res + 1) in if ltb 1 tmp then next else (tmp, res)

-- for a positive `int`
unfoldable pub get_biggest_log2 : ℕ → ℕ
get_biggest_log2 num =
    let (tmp, res) = halve num (num - 1) 0 in if ltb (tmp * 2 ^ res) num then res + 1 else res

-- the loop of `bitword_set_next_free` from bit `i`, with `n` to go: the new word and the result
unfoldable pub next_free_from : ℕ → ℕ → ℕ → ℕ → ℕ × ℕ
next_free_from word b i zero = (word, i)
next_free_from word b i (suc n) =
    let later = next_free_from word b (suc i) n in
    if bit_and b (2 ^ i) == 0 then (bit_or b (2 ^ i), i) else later

-- `char b = *ptr`
unfoldable pub bitword_set_next_free : ℕ → ℕ → ℕ × ℕ
bitword_set_next_free word end_bit = next_free_from word (word % 256) 0 end_bit

-- the statements after the loop: the bits of a last word that is not whole
unfoldable pub last_word : ℕ → ℕ → List ℕ → Option ℕ → Option (List ℕ × ℕ)
last_word end_idx cur bitmap none = none
last_word end_idx cur bitmap (some word) =
    let (word', bit) = bitword_set_next_free word (end_idx % 64) in
    if leb bit (end_idx % 64)
    then some (set bitmap cur word', cur * 64 + bit)
    else some (bitmap, end_idx)

unfoldable pub after_words : ℕ → ℕ → List ℕ → Option (List ℕ × ℕ)
unfolding last_word
after_words end_idx cur bitmap =
    if end_idx % 64 == 0
    then some (bitmap, end_idx)
    else last_word end_idx cur bitmap (get_elem? bitmap cur)

-- one round of the loop, where `later` is what follows it
unfoldable pub at_word : ℕ → List ℕ → Option ℕ → Option (List ℕ × ℕ) → Option (List ℕ × ℕ)
at_word cur bitmap none later = none
at_word cur bitmap (some word) later =
    let (word', bit) = bitword_set_next_free word 64 in
    if leb bit 63 then some (set bitmap cur word', cur * 64 + bit) else later

-- The loop compares after it has moved on, so it does not stop at 0 words. It leaves the bitmap in
-- at most one round more than there are words.
unfoldable pub words_from : ℕ → ℕ → ℕ → List ℕ → Option (List ℕ × ℕ)
unfolding at_word
words_from zero end_idx cur bitmap = none
words_from (suc n) end_idx cur bitmap =
    let rest = words_from n end_idx (suc cur) bitmap in
    at_word cur bitmap (get_elem? bitmap cur)
      (if suc cur == end_idx / 64 then after_words end_idx (suc cur) bitmap else rest)

unfoldable pub bitmap_set_next_free : List ℕ → ℕ → Option (List ℕ × ℕ)
unfolding words_from
bitmap_set_next_free bitmap end_idx = words_from (suc (length bitmap)) end_idx 0 bitmap

pub record Descriptor : Type 0 where
  pub bitmap : List ℕ
  pub num_entries : ℕ
  pub chunk_size_log : ℕ
  pub offset : ℕ

-- `inl` is an `ERR_PTR`
unfoldable pub found_chunk : Descriptor → List ℕ × ℕ → Descriptor × (ErrorCode ⊎ ℕ)
found_chunk d (bitmap, idx) =
    let d' = record d { bitmap = bitmap } in
    if idx == d.num_entries
    then (d', inl err_no_resource)
    else (d', inr (d.offset + idx * 2 ^ d.chunk_size_log))

unfoldable pub kmalloc_common : Descriptor → Option (Descriptor × (ErrorCode ⊎ ℕ))
unfolding found_chunk
kmalloc_common d = Option.map (found_chunk d) (bitmap_set_next_free d.bitmap d.num_entries)

pub record Heap : Type 0 where
  pub descriptors : List Descriptor
  pub memory : ℕ → ℕ

-- `kmalloc_descriptors`, by the index in `kmalloc_all_descriptors`
abbrev pub classes : List ℕ
classes = 0 ∷ 0 ∷ 0 ∷ 0 ∷ 1 ∷ 2 ∷ 3 ∷ 4 ∷ 5 ∷ 6 ∷ 7 ∷ 8 ∷ 9 ∷ 10 ∷ 11 ∷ 11 ∷ 11 ∷ 11 ∷ 11 ∷ 11 ∷ []

-- `memset`
abbrev pub fill : ℕ → ℕ → (ℕ → ℕ) → ℕ → ℕ
fill from size memory a = if leb from a && ltb a (from + size) then 0 else memory a

unfoldable pub zeroed : ℕ → ℕ → ErrorCode ⊎ ℕ → (ℕ → ℕ) → ℕ → ℕ
zeroed size flags (inl code) memory = memory
zeroed size flags (inr addr) memory = if flags / 2 % 2 == 0 then memory else fill addr size memory

unfoldable pub kmalloc_class :
    ℕ → ℕ → ℕ → Heap → Option Descriptor → Option (Heap × (ErrorCode ⊎ ℕ))
kmalloc_class size flags i h none = none
kmalloc_class size flags i h (some d) = do
  (d', result) ← kmalloc_common d
  some (
    record { descriptors = set h.descriptors i d'; memory = zeroed size flags result h.memory },
    result,
  )

-- for a size that is a positive `int`
unfoldable pub kmalloc : ℕ → ℕ → Heap → Option (Heap × (ErrorCode ⊎ ℕ))
unfolding kmalloc_class
kmalloc size flags h =
    let logsz = get_biggest_log2 size in
    if leb 20 logsz
    then some (h, inl err_no_resource)
    else kmalloc_class size flags (get_or classes logsz 0) h
        (get_elem? h.descriptors (get_or classes logsz 0))

-- `kmalloc_init`, where `from` is the end of the descriptor before
unfoldable pub set_offsets : ℕ → List Descriptor → List Descriptor
set_offsets from [] = []
set_offsets from (d ∷ ds) =
    (record d { offset = from }) ∷ set_offsets (from + d.num_entries * 2 ^ d.chunk_size_log) ds

unfoldable pub kmalloc_init : Heap → Heap
kmalloc_init h = record h { descriptors = set_offsets 0 h.descriptors }

unfoldable pub bitword_clear_bit : ℕ → ℕ → ℕ
bitword_clear_bit word bit = if word / 2 ^ bit % 2 == 0 then word else word - 2 ^ bit

-- `1 << bit` is an `int`: at bit 31 it is negative, so the mask has all bits from there on, and from
-- bit 32 on it has no value.
unfoldable pub bitword_bit_is_set : ℕ → ℕ → Option Bool
bitword_bit_is_set word bit =
    if ltb bit 31
    then some (word / 2 ^ bit % 2 == 1)
    else if bit == 31
    then some (not (word / 2 ^ 31 == 0))
    else none

-- the word of a bit and the bit in it
unfoldable pub bitmap_bit_is_set : List ℕ → ℕ → Option Bool
unfolding bitword_bit_is_set
bitmap_bit_is_set bitmap idx =
    get_elem? bitmap (idx / 64) >>= (λ word. bitword_bit_is_set word (idx % 64))

unfoldable pub bitmap_clear : List ℕ → ℕ → List ℕ
unfolding bitword_clear_bit
bitmap_clear bitmap bit_idx =
    set bitmap (bit_idx / 64) (bitword_clear_bit (get_or bitmap (bit_idx / 64) 0) (bit_idx % 64))

-- The index is an `int`; a negative one is out of the bitmap.
unfoldable pub kfree_common : Descriptor → ℕ → Option Descriptor
unfolding bitmap_bit_is_set bitmap_clear
kfree_common d addr =
    let idx = (addr - d.offset) * 2 ^ d.chunk_size_log % 2 ^ 32 in
    if leb (2 ^ 31) idx
    then none
    else bitmap_bit_is_set d.bitmap idx >>= (λ is_set.
      if is_set then some (record d { bitmap = bitmap_clear d.bitmap idx }) else none)

-- the loop over the descriptors from index 1 on: the first that starts behind the address
unfoldable pub class_behind : ℕ → ℕ → List Descriptor → Option ℕ
class_behind addr i [] = none
class_behind addr i (d ∷ ds) =
    let rest = class_behind addr (suc i) ds in if ltb addr d.offset then some i else rest

-- `before i` is the descriptor that stands in memory before that of index `i`, where the compiler puts
-- it; `end` is the size of `kernel_memory`.
unfoldable pub kfree : (ℕ → ℕ) → ℕ → ℕ → Heap → Option Heap
unfolding class_behind kfree_common
kfree before end addr h =
    if not (ltb addr end)
    then none
    else class_behind addr 1 (drop 1 h.descriptors) >>= (λ i.
      get_elem? h.descriptors (before i) >>= (λ d.
        kfree_common d addr
        >>= (λ d'. some (record h { descriptors = set h.descriptors (before i) d' }))))
