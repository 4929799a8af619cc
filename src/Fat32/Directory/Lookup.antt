-- ===== src/Fat32/Directory/Lookup.antt =====
-- What `fat32_lookup` makes of a path of several elements.
use arm64_os.Base.{
  ℕ, zero, suc, ◌+◌, ◌≤◌, ◌<◌, ◌≡◌, ◌≢◌, refl, arith, List, [], ◌∷◌, ◌++◌, length, length-append,
  false, Option, none, some, ◌==◌, if◌then◌else◌, ◌>>=◌, Bool-cases, inl, inr,
}
use arm64_os.Fat32.{Bytes, Fat32Fs}
use arm64_os.Fat32.Directory.{
  CompareArg, filepath_get_next_element, skip_slash, find_element, after_element, lookup_loop,
  fat32_lookup,
}

-- a name of an element: not empty, with no slash in it
abbrev pub HasNoSlash : List ℕ → Type 0
HasNoSlash [] = Unit
HasNoSlash (c ∷ cs) = (c ≢ 0x2f) × HasNoSlash cs

element-slash :
    (name rest : List ℕ)
    → HasNoSlash name
    → filepath_get_next_element (name ++ (0x2f ∷ rest)) ≡ (name, 0x2f ∷ rest)
unfolding filepath_get_next_element
element-slash [] rest h = refl
element-slash (c ∷ cs) rest (other, h) =
    let no_slash : (c == 0x2f) ≡ false = ground arith in rw (element-slash cs rest h, no_slash) refl

skip_slash_le : (path : List ℕ) → length (skip_slash path) ≤ length path
skip_slash_le [] = omega arith
skip_slash_le (c ∷ cs) = elim (Bool-cases (c == 0x2f)) [
  | inl slash ↦ rw slash (omega arith)
  | inr other ↦ rw other (omega arith)
]

element_length :
    (path : List ℕ)
    → length (filepath_get_next_element path).0 + length (filepath_get_next_element path).1
      ≡ length path
unfolding filepath_get_next_element
element_length [] = refl
element_length (c ∷ cs) =
    let rest = element_length cs in
    elim (Bool-cases (c == 0x2f)) [
      | inl slash ↦ rw slash (omega arith)
      | inr other ↦ rw other (omega arith)
    ]

-- The loop gives the same for every fuel that is more than the path is long.
lookup_loop_enough :
    (n m fuel : ℕ) (f : Fat32Fs) (path : List ℕ) (out dentry : Bytes)
    → length path < n
    → length path < m
    → lookup_loop n fuel f path out dentry ≡ lookup_loop m fuel f path out dentry
unfolding lookup_loop
lookup_loop_enough zero m fuel f path out dentry lt below = absurd (omega arith)
lookup_loop_enough (suc n) zero fuel f path out dentry lt below = absurd (omega arith)
lookup_loop_enough (suc n) (suc m) fuel f path out dentry lt below =
    elim (Bool-cases (length (filepath_get_next_element path).0 == 0)) [
      | inl last ↦ rw last refl
      | inr more ↦
          let total = element_length path in
          let shorter = skip_slash_le (filepath_get_next_element path).1 in
          let some_length : 0 < length (filepath_get_next_element path).0 = ground arith in
          rw more (
            same_bind (find_element fuel f (filepath_get_next_element path).0 dentry) out
              (lookup_loop n fuel f (skip_slash (filepath_get_next_element path).1) out)
              (lookup_loop m fuel f (skip_slash (filepath_get_next_element path).1) out)
              (λ d.
                lookup_loop_enough n m fuel f (skip_slash (filepath_get_next_element path).1) out d
                  (omega arith) (omega arith)))
    ]
  where
    same_after :
        (r : ℕ × CompareArg) (out : Bytes) (g h : Bytes → Option (ℕ × Bytes))
        → ((d : Bytes) → g d ≡ h d)
        → after_element out g r ≡ after_element out h r
    same_after (err, arg) out g h same = rw (same arg.dentry) refl

    same_bind :
        (r : Option (ℕ × CompareArg)) (out : Bytes) (g h : Bytes → Option (ℕ × Bytes))
        → ((d : Bytes) → g d ≡ h d)
        → (r >>= after_element out g) ≡ (r >>= after_element out h)
    same_bind none out g h same = refl
    same_bind (some r) out g h same = same_after r out g h same

-- Where the root directory is read without an error, the first element of a longer path only matters
-- by whether it is in the root directory. If it is, the rest of the path is looked up from the root
-- directory again, whatever the entry of the element says; if it is not, the status is 0, that of
-- success, and the caller's entry stays as it was.
pub fat32_lookup-slash :
    (fuel : ℕ) (f : Fat32Fs) (name path : List ℕ) (out stack : Bytes) (arg : CompareArg)
    → HasNoSlash name
    → 0 < length name
    → find_element fuel f name stack ≡ some (0, arg)
    → fat32_lookup fuel f (0x2f ∷ (name ++ (0x2f ∷ path))) out stack
      ≡ (if arg.found then fat32_lookup fuel f (0x2f ∷ path) out arg.dentry else some (0, out))
unfolding fat32_lookup lookup_loop
fat32_lookup-slash fuel f name path out stack arg no_slash lt e =
    let some_length : (length name == 0) ≡ false = ground arith in
    let total = length-append name (0x2f ∷ path) in
    rw (element-slash name path no_slash, some_length, e)
      (elim (Bool-cases arg.found) [
        | inl there ↦ rw there (
            lookup_loop_enough (length (name ++ (0x2f ∷ path))) (suc (length path)) fuel f path out
              arg.dentry (omega arith) (omega arith))
        | inr missing ↦ rw missing refl
      ])
