-- ===== src/Tokens/Words.antt =====
-- The tokens of a text against its split into words.
use arm64_os.Base.{
  ℕ, zero, suc, ◌-◌, ◌≡◌, refl, arith, List, [], ◌∷◌, map, take, false, Option, none, some, ◌==◌,
  ◌∙◌, ap, ap₂, sym,
}
use arm64_os.Strings.{Memory}
use arm64_os.Tokens.{StringToken, skip_spaces, scan_word, token_at, tokenize, tokenize_string}
use arm64_os.Tokens.Scans.{
  bytes, text, push, words, token_text, rest_words, StartsWord, split_letter, text_step,
  scan_letter, skip_spaces-words, scan_word-split,
}

-- the first token of a text that starts with a word
first_token :
    (m : Memory) (k p : ℕ)
    → StartsWord m (some (k, p))
    → words (text m k p) ≡ token_text m (token_at m k p).0 ∷ rest_words m (token_at m k p).1
unfolding token_at
first_token m zero p h = absurd h
first_token m (suc k) p h =
    let more : (m p == 0) ≡ false = ground arith in
    let (j, len, same) = scan_word-split m k (suc p) p 1 (omega arith) in
    let scanned = scan_letter m k p p more h.1 in
    let size : (scan_word m (suc k) p p).0 ≡ suc j = ap (λ r. r.0) scanned ∙ len ∙ omega arith in
    ap words (text_step m k p more)
    ∙ ap (λ r. push r.0 r.1)
        (split_letter (m p) (text m k (suc p)) h.1 ∙ ap (λ r. (m p ∷ r.0, r.1)) same)
    ∙ ap₂ ◌∷◌ (ap (bytes m p) (sym size)) (ap (λ r. rest_words m r.1) (sym scanned))

-- the tokens from a start of a word on
abbrev tokens_after : Memory → ℕ → Option (ℕ × ℕ) → List StringToken
tokens_after m n none = []
tokens_after m n (some w) = (token_at m w.0 w.1).0 ∷ tokenize m n (token_at m w.0 w.1).1

tokenize_step :
    (m : Memory) (n k p : ℕ)
    → tokenize m (suc n) (some (k, p)) ≡ tokens_after m n (skip_spaces m k p)
unfolding tokenize
tokenize_step m n k p = go (skip_spaces m k p)
  where
    go :
        (o : Option (ℕ × ℕ))
        → elim o [
          | none ↦ []
          | some w ↦ let (t, next) = token_at m w.0 w.1 in t ∷ tokenize m n next
        ]
          ≡ tokens_after m n o
    go none = refl
    go (some w) = refl

after-words :
    (m : Memory) (n : ℕ) (o : Option (ℕ × ℕ))
    → StartsWord m o
    → ((next : Option (ℕ × ℕ))
        → map (token_text m) (tokenize m n next) ≡ take n (rest_words m next))
    → map (token_text m) (tokens_after m n o) ≡ take (suc n) (rest_words m o)
after-words m n none h ih = refl
after-words m n (some (k, p)) h ih =
    ap (λ ws. token_text m (token_at m k p).0 ∷ ws) (ih (token_at m k p).1)
    ∙ ap (take (suc n)) (sym (first_token m k p h))

tokenize_end : (m : Memory) (n : ℕ) → tokenize m (suc n) none ≡ []
unfolding tokenize
tokenize_end m n = refl

tokenize_none : (m : Memory) (o : Option (ℕ × ℕ)) → tokenize m zero o ≡ []
unfolding tokenize
tokenize_none m o = refl

tokenize-words :
    (m : Memory) (n : ℕ) (o : Option (ℕ × ℕ))
    → map (token_text m) (tokenize m n o) ≡ take n (rest_words m o)
tokenize-words m zero o = ap (map (token_text m)) (tokenize_none m o)
tokenize-words m (suc n) none = ap (map (token_text m)) (tokenize_end m n)
tokenize-words m (suc n) (some (k, p)) =
    let (same, starts) = skip_spaces-words m k p in
    ap (map (token_text m)) (tokenize_step m n k p)
    ∙ after-words m n (skip_spaces m k p) starts (tokenize-words m n)
    ∙ ap (take (suc n)) (sym same)

-- The texts of the tokens of a string are its first `max_tokens` words, where white space separates
-- words, and the text ends at its end or at a zero byte.
pub tokenize_string-words :
    (m : Memory) (start end max_tokens : ℕ)
    → map (token_text m) (tokenize_string m start end max_tokens)
      ≡ take max_tokens (words (text m (end - start) start))
unfolding tokenize_string
tokenize_string-words m start end max_tokens =
    tokenize-words m max_tokens (some (end - start, start))
