-- ===== src/Tokens.antt =====
-- lib/parse_string.c: words of a text that ends at a pointer or at a zero byte. A pointer is an
-- address, and `k` is the number of bytes from it to `end`. A token is its start and its length.
pub mod Scans
pub mod Words
mod Tests
use arm64_os.Base.{
  ℕ, zero, suc, ◌-◌, List, [], ◌∷◌, Bool, true, false, Option, none, some, ◌==◌, if◌then◌else◌,
}
use arm64_os.Strings.{Memory, isspace}

-- `len` is an `int`: a word is shorter than 2 GiB.
pub record StringToken : Type 0 where
  pub s : ℕ
  pub len : ℕ

-- skip until the first word; `none` is the return
unfoldable pub skip_spaces : Memory → ℕ → ℕ → Option (ℕ × ℕ)
skip_spaces m zero ptr = none
skip_spaces m (suc k) ptr =
    let rest = skip_spaces m k (suc ptr) in
    if m ptr == 0 then none else if isspace (m ptr) then rest else some (suc k, ptr)

-- the length of the word that starts at `s`, and where to go on, if the text has not ended
unfoldable pub scan_word : Memory → ℕ → ℕ → ℕ → ℕ × Option (ℕ × ℕ)
scan_word m zero ptr s = (ptr - s, none)
scan_word m (suc k) ptr s =
    let rest = scan_word m k (suc ptr) s in
    if m ptr == 0
    then (ptr - s, none)
    else if isspace (m ptr)
    then (ptr - s, some (suc k, ptr))
    else rest

-- one round, from the start of a word
unfoldable pub token_at : Memory → ℕ → ℕ → StringToken × Option (ℕ × ℕ)
unfolding scan_word
token_at m k s = let (len, next) = scan_word m k s s in (record { s = s; len = len }, next)

-- the rounds that `max_tokens` allows; `none` is that the text has ended
unfoldable pub tokenize : Memory → ℕ → Option (ℕ × ℕ) → List StringToken
unfolding skip_spaces token_at
tokenize m zero at = []
tokenize m (suc n) none = []
tokenize m (suc n) (some (k, ptr)) = elim (skip_spaces m k ptr) [
  | none ↦ []
  | some w ↦ let (t, next) = token_at m w.0 w.1 in t ∷ tokenize m n next
]

unfoldable pub tokenize_string : Memory → ℕ → ℕ → ℕ → List StringToken
unfolding tokenize
tokenize_string m start end max_tokens = tokenize m max_tokens (some (end - start, start))
