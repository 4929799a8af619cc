-- ===== src/ListHead/Linked.antt =====
-- Chains of linked nodes between two ends, and what a write of one link leaves alone.
use arm64_os.Base.{ℕ, ◌≡◌, ◌≢◌, List, [], ◌∷◌, ◌++◌, arith}
use arm64_os.ListHead.{Links, set_next, set_prev}

abbrev pub NotIn : ℕ → List ℕ → Type 0
NotIn a [] = Unit
NotIn a (x ∷ xs) = (a ≢ x) × NotIn a xs

abbrev pub Distinct : List ℕ → Type 0
Distinct [] = Unit
Distinct (x ∷ xs) = NotIn x xs × Distinct xs

-- The nodes `xs` stand in this order between `a` and `b`, with both links of each pair in place.
abbrev pub Linked : Links → ℕ → List ℕ → ℕ → Type 0
Linked h a [] b = (h.next a ≡ b) × (h.prev b ≡ a)
Linked h a (x ∷ xs) b = (h.next a ≡ x) × (h.prev x ≡ a) × Linked h x xs b

pub Linked-set_next :
    (h : Links) (a : ℕ) (xs : List ℕ) (b p v : ℕ)
    → p ≢ a
    → NotIn p xs
    → Linked h a xs b
    → Linked (set_next p v h) a xs b
Linked-set_next h a [] b p v n m l = ground arith
Linked-set_next h a (x ∷ xs) b p v n m l =
    (ground arith, l.1, Linked-set_next h x xs b p v m.0 m.1 l.2)

pub Linked-set_prev :
    (h : Links) (a : ℕ) (xs : List ℕ) (b p v : ℕ)
    → p ≢ b
    → NotIn p xs
    → Linked h a xs b
    → Linked (set_prev p v h) a xs b
Linked-set_prev h a [] b p v n m l = ground arith
Linked-set_prev h a (x ∷ xs) b p v n m l =
    (l.0, ground arith, Linked-set_prev h x xs b p v n m.1 l.2)

-- The node before the end of a chain is its start or one of its nodes.
pub prev-ne :
    (h : Links) (a : ℕ) (xs : List ℕ) (b c : ℕ)
    → c ≢ a
    → NotIn c xs
    → Linked h a xs b
    → h.prev b ≢ c
prev-ne h a [] b c n m l = ground arith
prev-ne h a (x ∷ xs) b c n m l = prev-ne h x xs b c m.0 m.1 l.2

-- The node after the start of a chain is its end or one of its nodes.
pub next-ne :
    (h : Links) (a : ℕ) (xs : List ℕ) (b c : ℕ)
    → c ≢ b
    → NotIn c xs
    → Linked h a xs b
    → h.next a ≢ c
next-ne h a [] b c n m l = ground arith
next-ne h a (x ∷ xs) b c n m l = ground arith

-- A chain is cut in two at any of its nodes, and joined again.
pub Linked-split :
    (h : Links) (a : ℕ) (xs : List ℕ) (e : ℕ) (ys : List ℕ) (b : ℕ)
    → Linked h a (xs ++ (e ∷ ys)) b
    → Linked h a xs e × Linked h e ys b
Linked-split h a [] e ys b l = ((l.0, l.1), l.2)
Linked-split h a (x ∷ xs) e ys b l =
    let (front, back) = Linked-split h x xs e ys b l.2 in ((l.0, l.1, front), back)

pub Linked-join :
    (h : Links) (a : ℕ) (xs : List ℕ) (e : ℕ) (ys : List ℕ) (b : ℕ)
    → Linked h a xs e
    → Linked h e ys b
    → Linked h a (xs ++ (e ∷ ys)) b
Linked-join h a [] e ys b l m = (l.0, l.1, m)
Linked-join h a (x ∷ xs) e ys b l m = (l.0, l.1, Linked-join h x xs e ys b l.2 m)
