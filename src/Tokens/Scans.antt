-- ===== src/Tokens/Scans.antt =====
-- The two scans of a text against its split into words.
use arm64_os.Base.{
  ℕ, zero, suc, ◌+◌, ◌-◌, ◌≡◌, ◌≢◌, refl, arith, List, [], ◌∷◌, true, false, Option, none, some,
  ◌==◌, if◌then◌else◌, ◌∙◌, ap, sym, subst, Bool-cases, inl, inr,
}
use arm64_os.Strings.{Memory, isspace}
use arm64_os.Tokens.{StringToken, skip_spaces, scan_word}

-- `k` bytes at `p`
abbrev pub bytes : Memory → ℕ → ℕ → List ℕ
bytes m p zero = []
bytes m p (suc k) = m p ∷ bytes m (suc p) k

-- the text of `k` bytes at `p`, which a zero byte cuts off
abbrev pub text : Memory → ℕ → ℕ → List ℕ
text m zero p = []
text m (suc k) p = if m p == 0 then [] else m p ∷ text m k (suc p)

abbrev pub push : List ℕ → List (List ℕ) → List (List ℕ)
push [] ws = ws
push (c ∷ w) ws = (c ∷ w) ∷ ws

-- the word that a text starts with, which may be empty, and the words after it
abbrev pub split : List ℕ → List ℕ × List (List ℕ)
split [] = ([], [])
split (c ∷ cs) = let (w, ws) = split cs in if isspace c then ([], push w ws) else (c ∷ w, ws)

abbrev pub words : List ℕ → List (List ℕ)
words cs = let (w, ws) = split cs in push w ws

abbrev pub token_text : Memory → StringToken → List ℕ
token_text m t = bytes m t.s t.len

-- what is left of a text, if anything is
abbrev pub rest_words : Memory → Option (ℕ × ℕ) → List (List ℕ)
rest_words m none = []
rest_words m (some (k, p)) = words (text m k p)

-- where a word starts
abbrev pub StartsWord : Memory → Option (ℕ × ℕ) → Type 0
StartsWord m none = Unit
StartsWord m (some (zero, p)) = ⊥
StartsWord m (some (suc k, p)) = (m p ≢ 0) × (isspace (m p) ≡ false)

split_space : (c : ℕ) (cs : List ℕ) → isspace c ≡ true → split (c ∷ cs) ≡ ([], words cs)
split_space c cs h = rw h refl

pub split_letter :
    (c : ℕ) (cs : List ℕ) → isspace c ≡ false → split (c ∷ cs) ≡ (c ∷ (split cs).0, (split cs).1)
split_letter c cs h = rw h refl

pub text_step :
    (m : Memory) (k p : ℕ) → (m p == 0) ≡ false → text m (suc k) p ≡ m p ∷ text m k (suc p)
text_step m k p h = rw h refl

text_end : (m : Memory) (k p : ℕ) → (m p == 0) ≡ true → text m (suc k) p ≡ []
text_end m k p h = rw h refl

words_space :
    (m : Memory) (k p : ℕ)
    → (m p == 0) ≡ false
    → isspace (m p) ≡ true
    → words (text m (suc k) p) ≡ words (text m k (suc p))
words_space m k p h g =
    ap words (text_step m k p h) ∙ ap (λ r. push r.0 r.1) (split_space (m p) (text m k (suc p)) g)

-- what the two scans do at a byte
skip_end : (m : Memory) (k p : ℕ) → (m p == 0) ≡ true → skip_spaces m (suc k) p ≡ none
unfolding skip_spaces
skip_end m k p h = rw h refl

skip_space :
    (m : Memory) (k p : ℕ)
    → (m p == 0) ≡ false
    → isspace (m p) ≡ true
    → skip_spaces m (suc k) p ≡ skip_spaces m k (suc p)
unfolding skip_spaces
skip_space m k p h g = rw (h, g) refl

skip_letter :
    (m : Memory) (k p : ℕ)
    → (m p == 0) ≡ false
    → isspace (m p) ≡ false
    → skip_spaces m (suc k) p ≡ some (suc k, p)
unfolding skip_spaces
skip_letter m k p h g = rw (h, g) refl

scan_end : (m : Memory) (k p s : ℕ) → (m p == 0) ≡ true → scan_word m (suc k) p s ≡ (p - s, none)
unfolding scan_word
scan_end m k p s h = rw h refl

scan_space :
    (m : Memory) (k p s : ℕ)
    → (m p == 0) ≡ false
    → isspace (m p) ≡ true
    → scan_word m (suc k) p s ≡ (p - s, some (suc k, p))
unfolding scan_word
scan_space m k p s h g = rw (h, g) refl

pub scan_letter :
    (m : Memory) (k p s : ℕ)
    → (m p == 0) ≡ false
    → isspace (m p) ≡ false
    → scan_word m (suc k) p s ≡ scan_word m k (suc p) s
unfolding scan_word
scan_letter m k p s h g = rw (h, g) refl

-- what a skip leaves has the same words, and starts with one
abbrev pub Skips : Memory → ℕ → ℕ → Option (ℕ × ℕ) → Type 0
Skips m k p o = (words (text m k p) ≡ rest_words m o) × StartsWord m o

skip_nothing : (m : Memory) (p : ℕ) → Skips m zero p (skip_spaces m zero p)
unfolding skip_spaces
skip_nothing m p = (refl, tt)

pub skip_spaces-words : (m : Memory) (k p : ℕ) → Skips m k p (skip_spaces m k p)
skip_spaces-words m zero p = skip_nothing m p
skip_spaces-words m (suc k) p = elim (Bool-cases (m p == 0)) [
  | inl nul ↦
      subst (Skips m (suc k) p) (sym (skip_end m k p nul)) (ap words (text_end m k p nul), tt)
  | inr more ↦ elim (Bool-cases (isspace (m p))) [
    | inl space ↦
        let (same, starts) = skip_spaces-words m k (suc p) in
        subst (Skips m (suc k) p) (sym (skip_space m k p more space))
          (words_space m k p more space ∙ same, starts)
    | inr letter ↦
        subst (Skips m (suc k) p) (sym (skip_letter m k p more letter))
          (refl, (ground arith, letter))
  ]
]

-- the outcome of a scan: `j` letters follow the `l` that are read, and the rest follows them
abbrev pub Scans : Memory → ℕ → ℕ → ℕ → ℕ × Option (ℕ × ℕ) → Type 0
Scans m k p l r = (j : ℕ) × (r.0 ≡ l + j) × (split (text m k p) ≡ (bytes m p j, rest_words m r.1))

scan_nothing : (m : Memory) (p s l : ℕ) → p ≡ s + l → Scans m zero p l (scan_word m zero p s)
unfolding scan_word
scan_nothing m p s l e = (0, omega arith, refl)

pub scan_word-split : (m : Memory) (k p s l : ℕ) → p ≡ s + l → Scans m k p l (scan_word m k p s)
scan_word-split m zero p s l e = scan_nothing m p s l e
scan_word-split m (suc k) p s l e = elim (Bool-cases (m p == 0)) [
  | inl nul ↦
      subst (Scans m (suc k) p l) (sym (scan_end m k p s nul))
        (0, omega arith, ap split (text_end m k p nul))
  | inr more ↦ elim (Bool-cases (isspace (m p))) [
    | inl space ↦ subst (Scans m (suc k) p l) (sym (scan_space m k p s more space)) (
      0,
      omega arith,
      ap split (text_step m k p more)
          ∙ split_space (m p) (text m k (suc p)) space
          ∙ ap (λ ws. ([], ws)) (sym (words_space m k p more space)),
    )
    | inr letter ↦
        let (j, len, same) = scan_word-split m k (suc p) s (suc l) (omega arith) in
        subst (Scans m (suc k) p l) (sym (scan_letter m k p s more letter)) (
          suc j,
          omega arith,
          ap split (text_step m k p more)
              ∙ split_letter (m p) (text m k (suc p)) letter
              ∙ ap (λ r. (m p ∷ r.0, r.1)) same,
        )
  ]
]
