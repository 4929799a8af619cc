-- ===== src/Base/Count.antt =====
-- How often an address stands in a list, and taking it out.
use arm64_os.Base.Tests.{◌==◌, if◌then◌else◌}
use Prim.Native.Nat.{ℕ, suc, ◌+◌}
use mathlib.Core.Path.{◌≡◌, refl, ◌∙◌}
use mathlib.Core.List.{List, [], ◌∷◌, ◌++◌}
use native.Mathlib.Omega.{arith}

abbrev pub count : ℕ → List ℕ → ℕ
count a [] = 0
count a (x ∷ xs) = if x == a then suc (count a xs) else count a xs

pub remove : ℕ → List ℕ → List ℕ
remove a [] = []
remove a (x ∷ xs) = let rest = remove a xs in if x == a then rest else x ∷ rest

pub count-append : (a : ℕ) (xs ys : List ℕ) → count a (xs ++ ys) ≡ count a xs + count a ys
count-append a [] ys = omega arith
count-append a (x ∷ xs) ys = ground (arith, count-append a xs ys)

pub count-remove :
    (a b : ℕ) (xs : List ℕ) → count a (remove b xs) ≡ (if a == b then 0 else count a xs)
unfolding remove
count-remove a b [] = ground arith
count-remove a b (x ∷ xs) = ground (arith, count-remove a b xs)

-- Taking out what is not there changes nothing.
pub remove_none : (a : ℕ) (xs : List ℕ) → count a xs ≡ 0 → remove a xs ≡ xs
unfolding remove
remove_none a [] h = refl
remove_none a (x ∷ xs) h = ground (arith, remove_none a xs)

pub remove-append : (a : ℕ) (xs ys : List ℕ) → remove a (xs ++ ys) ≡ remove a xs ++ remove a ys
unfolding remove
remove-append a [] ys = refl
remove-append a (x ∷ xs) ys = ground (arith, remove-append a xs ys)

-- The one place of an address is closed.
pub remove_one :
    (a : ℕ) (xs ys : List ℕ)
    → count a xs ≡ 0
    → count a ys ≡ 0
    → remove a (xs ++ (a ∷ ys)) ≡ xs ++ ys
remove_one a xs ys h k =
    remove-append a xs (a ∷ ys) ∙ ground (arith, remove_none a xs h, remove_head a ys k)
  where
    remove_head : (a : ℕ) (ys : List ℕ) → count a ys ≡ 0 → remove a (a ∷ ys) ≡ ys
    remove_head a ys k = unfold remove in ground (arith, remove_none a ys k)
