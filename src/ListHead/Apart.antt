-- ===== src/ListHead/Apart.antt =====
-- Lists of addresses with no address twice, and lists with no address in common.
use arm64_os.Base.{ℕ, List, [], ◌∷◌, ◌++◌, sym}
use arm64_os.ListHead.Linked.{NotIn, Distinct}

-- no address of `xs` is in `ys`
abbrev pub Apart : List ℕ → List ℕ → Type 0
Apart [] ys = Unit
Apart (x ∷ xs) ys = NotIn x ys × Apart xs ys

pub NotIn-append : (a : ℕ) (xs ys : List ℕ) → NotIn a xs → NotIn a ys → NotIn a (xs ++ ys)
NotIn-append a [] ys m n = n
NotIn-append a (x ∷ xs) ys m n = (m.0, NotIn-append a xs ys m.1 n)

pub NotIn-append_split : (a : ℕ) (xs ys : List ℕ) → NotIn a (xs ++ ys) → NotIn a xs × NotIn a ys
NotIn-append_split a [] ys m = (tt, m)
NotIn-append_split a (x ∷ xs) ys m = let (l, r) = NotIn-append_split a xs ys m.1 in ((m.0, l), r)

pub Distinct-append :
    (xs ys : List ℕ) → Distinct xs → Distinct ys → Apart xs ys → Distinct (xs ++ ys)
Distinct-append [] ys dx dy ap = dy
Distinct-append (x ∷ xs) ys dx dy ap =
    (NotIn-append x xs ys dx.0 ap.0, Distinct-append xs ys dx.1 dy ap.1)

pub Distinct-append_split :
    (xs ys : List ℕ) → Distinct (xs ++ ys) → Distinct xs × Distinct ys × Apart xs ys
Distinct-append_split [] ys d = (tt, d, tt)
Distinct-append_split (x ∷ xs) ys d =
    let (l, r) = NotIn-append_split x xs ys d.0 in
    let (dx, dy, ap) = Distinct-append_split xs ys d.1 in ((l, dx), dy, (r, ap))

pub NotIn-of_Apart : (xs : List ℕ) (e : ℕ) (ys : List ℕ) → Apart xs (e ∷ ys) → NotIn e xs
NotIn-of_Apart [] e ys ap = tt
NotIn-of_Apart (x ∷ xs) e ys ap = ((λ q. ap.0.0 (sym q)), NotIn-of_Apart xs e ys ap.1)

pub Apart-tail : (xs : List ℕ) (e : ℕ) (ys : List ℕ) → Apart xs (e ∷ ys) → Apart xs ys
Apart-tail [] e ys ap = tt
Apart-tail (x ∷ xs) e ys ap = (ap.0.1, Apart-tail xs e ys ap.1)

pub Apart-one : (xs : List ℕ) (e : ℕ) → NotIn e xs → Apart xs (e ∷ [])
Apart-one [] e n = tt
Apart-one (x ∷ xs) e n = (((λ q. n.0 (sym q)), tt), Apart-one xs e n.1)

pub Apart-append : (xs ys zs : List ℕ) → Apart xs zs → Apart ys zs → Apart (xs ++ ys) zs
Apart-append [] ys zs a b = b
Apart-append (x ∷ xs) ys zs a b = (a.0, Apart-append xs ys zs a.1 b)

Apart-cons : (xs : List ℕ) (y : ℕ) (ys : List ℕ) → NotIn y xs → Apart xs ys → Apart xs (y ∷ ys)
Apart-cons [] y ys n a = tt
Apart-cons (x ∷ xs) y ys n a = (((λ q. n.0 (sym q)), a.0), Apart-cons xs y ys n.1 a.1)

Apart-nil : (xs : List ℕ) → Apart xs []
Apart-nil [] = tt
Apart-nil (x ∷ xs) = (tt, Apart-nil xs)

pub Apart-comm : (xs ys : List ℕ) → Apart xs ys → Apart ys xs
Apart-comm [] ys a = Apart-nil ys
Apart-comm (x ∷ xs) ys a = Apart-cons ys x xs a.0 (Apart-comm xs ys a.1)
