-- ===== src/Strings/Texts.antt =====
-- Copies of terminated strings.
use arm64_os.Base.{
  ℕ, zero, suc, ◌+◌, ◌<◌, ◌≡◌, arith, List, [], ◌∷◌, false, some, ◌==◌, ◌∙◌, length, ◌⊎◌, inl, inr,
}
use arm64_os.Strings.{Memory, store, strcpy}
use arm64_os.Strings.Scans.{HasString}

-- Writes below a string do not change it.
HasString-store :
    (s : List ℕ) (p q v : ℕ) (m : Memory)
    → HasString m p s
    → (q < p) ⊎ (p + length s < q)
    → HasString (store q v m) p s
HasString-store [] p q v m h out = ground arith
HasString-store (c ∷ s) p q v m h out =
    let (at_p, nonzero, small, rest) = h in
    (ground arith, nonzero, small, HasString-store s (suc p) q v m rest (apart out))
  where
    apart : (q < p) ⊎ (p + length (c ∷ s) < q) → (q < suc p) ⊎ (suc p + length s < q)
    apart (inl lt) = inl (omega arith)
    apart (inr lt) = inr (omega arith)

-- The target range of `n + 1` bytes does not meet the source from `src` on.
abbrev pub AreApart : ℕ → ℕ → ℕ → Type 0
AreApart dst src n = (dst + n < src) ⊎ (src + n < dst)

behind : (dst src n : ℕ) → AreApart dst src (suc n) → (dst < suc src) ⊎ (suc src + n < dst)
behind dst src n (inl lt) = inl (omega arith)
behind dst src n (inr lt) = inr (omega arith)

shifted : (dst src n : ℕ) → AreApart dst src (suc n) → AreApart (suc dst) (suc src) n
shifted dst src n (inl lt) = inl (omega arith)
shifted dst src n (inr lt) = inr (omega arith)

further : (dst q n : ℕ) → (q < dst) ⊎ (dst + suc n < q) → (q < suc dst) ⊎ (suc dst + n < q)
further dst q n (inl lt) = inl (omega arith)
further dst q n (inr lt) = inr (omega arith)

unwritten :
    (dst v n : ℕ) (m : Memory) (q : ℕ) → (q < dst) ⊎ (dst + suc n < q) → store dst v m q ≡ m q
unwritten dst v n m q (inl lt) = ground arith
unwritten dst v n m q (inr lt) = ground arith

-- A copy with `strcpy` ends. The string then stands at the target, and memory outside of the target
-- is as before, if the ranges of the two strings with their terminators do not overlap.
pub strcpy-HasString :
    (s : List ℕ) (fuel dst src : ℕ) (m : Memory)
    → HasString m src s
    → AreApart dst src (length s)
    → length s < fuel
    → (m' : Memory) × (strcpy fuel dst src m ≡ some m')
      × HasString m' dst s
      × ((q : ℕ) → (q < dst) ⊎ (dst + length s < q) → m' q ≡ m q)
unfolding strcpy
strcpy-HasString s zero dst src m h apart lt = absurd (omega arith)
strcpy-HasString [] (suc fuel) dst src m h apart lt =
    (store dst 0 m, ground arith, ground arith, λ q out. outside q out)
  where
    outside : (q : ℕ) → (q < dst) ⊎ (dst + length {A = ℕ} [] < q) → store dst 0 m q ≡ m q
    outside q (inl a) = ground arith
    outside q (inr a) = ground arith
strcpy-HasString (c ∷ s) (suc fuel) dst src m h apart lt =
    let (at_src, nonzero, small, rest) = h in
    let more : (m src == 0) ≡ false = ground arith in
    let m1 : Memory = store dst (m src) m in
    let kept : HasString m1 (suc src) s =
      HasString-store s (suc src) dst (m src) m rest (behind dst src (length s) apart) in
    let (m', e, copied, out) =
      strcpy-HasString s fuel (suc dst) (suc src) m1 kept (shifted dst src (length s) apart)
        (omega arith) in
    let here : m' dst ≡ m1 dst = out dst (inl (omega arith)) in
    (
      m',
      rw more e,
      (ground arith, nonzero, small, copied),
      λ q far. out q (further dst q (length s) far) ∙ unwritten dst (m src) (length s) m q far,
    )
