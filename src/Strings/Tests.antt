-- ===== src/Strings/Tests.antt =====
-- The text "hi" at 16 and "ho" at 24.
use arm64_os.Base.{ℕ, ◌<◌, ◌≡◌, refl, arith, List, [], ◌∷◌, some, inr, ◌⊎◌, ◌==◌, if◌then◌else◌}
use arm64_os.Strings.{Memory, copy_el, memcpy, strcpy}
use arm64_os.Strings.Copies.{Same, memcpy-eq}
use arm64_os.Strings.Scans.{HasString}
use arm64_os.Strings.Texts.{strcpy-HasString}

abbrev memory : Memory
memory q =
    if q == 16
    then 0x68
    else if q == 17
    then 0x69
    else if q == 24
    then 0x68
    else if q == 25
    then 0x6f
    else 0

abbrev hi : List ℕ
hi = 0x68 ∷ 0x69 ∷ []

abbrev ho : List ℕ
ho = 0x68 ∷ 0x6f ∷ []

hi-HasString : HasString memory 16 hi
hi-HasString = (refl, omega arith, omega arith, (refl, omega arith, omega arith, refl))

ho-HasString : HasString memory 24 ho
ho-HasString = (refl, omega arith, omega arith, (refl, omega arith, omega arith, refl))

memcpy-eq_example :
    (m' : Memory) × (memcpy 100 16 11 memory ≡ some m') × Same m' (copy_el 11 100 16 memory)
memcpy-eq_example = memcpy-eq 100 16 11 memory (inr (omega arith)) (omega arith)

strcpy-HasString_example :
    (m' : Memory) × (strcpy 9 40 16 memory ≡ some m')
    × HasString m' 40 hi
    × ((q : ℕ) → (q < 40) ⊎ (42 < q) → m' q ≡ memory q)
strcpy-HasString_example =
    strcpy-HasString hi 9 40 16 memory hi-HasString (inr (omega arith)) (omega arith)
