-- ===== src/Kmalloc/Bitword.antt =====
-- What `bitword_set_next_free` does to a word, by a table of its low byte.
use arm64_os.Base.{ℕ, ◌+◌, ◌-◌, ◌/◌, ◌%◌, ◌^◌, ◌≤◌, ◌≡◌, refl, arith, Bool, true, leb, ◌==◌, ◌&&◌}
use arm64_os.Kmalloc.{next_free_from, bitword_set_next_free}
use arm64_os.Base.Tables.{all_below, all_below_lem}

-- bit `i` is the lowest clear bit of `b`, and `word'` is `b` with it set
abbrev sets_lowest : ℕ → ℕ × ℕ → Bool
sets_lowest b (word', i) =
    (leb i 8 && (word' == b + 2 ^ i)) && ((b % 2 ^ i == 2 ^ i - 1) && (b / 2 ^ i % 2 == 0))

byte_table : (word : ℕ) → all_below 256 (λ b. sets_lowest b (next_free_from word b 0 64)) ≡ true
unfolding next_free_from
byte_table word = refl

-- the same as propositions
abbrev pub SetsLowest : ℕ → ℕ × ℕ → Type 0
SetsLowest b (word', i) =
    (i ≤ 8) × (word' ≡ b + 2 ^ i) × (b % 2 ^ i ≡ 2 ^ i - 1) × (b / 2 ^ i % 2 ≡ 0)

sets_lowest-SetsLowest : (b : ℕ) (r : ℕ × ℕ) → sets_lowest b r ≡ true → SetsLowest b r
sets_lowest-SetsLowest b (word', i) h = (ground arith, ground arith, ground arith, ground arith)

-- On a whole word, the search finds the lowest clear bit of the low byte of the word, or bit 8 when
-- the low byte is full. It always finds one, whatever the higher bits are, and the new word is the
-- low byte with that bit set: the higher bits of the word are gone.
pub bitword_set_next_free-SetsLowest :
    (word : ℕ) → SetsLowest (word % 256) (bitword_set_next_free word 64)
unfolding bitword_set_next_free
bitword_set_next_free-SetsLowest word = sets_lowest-SetsLowest (word % 256) _ (
    all_below_lem 256 (λ b. sets_lowest b (next_free_from word b 0 64)) (word % 256)
      (byte_table word) (omega arith))
