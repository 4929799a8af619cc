-- ===== src/ListHead/Ring.antt =====
-- The operations on circular lists against those on the sequences of their nodes.
use arm64_os.Base.{
  ℕ, ◌≡◌, ◌≢◌, List, [], ◌∷◌, ◌++◌, arith, refl, sym, append-nil, ap, subst, ◌↔◌, true, Option,
  none, some,
}
use arm64_os.ListHead.{
  Links, set_next, set_prev, list_add_between, list_add, list_add_tail, list_del, list_empty,
  list_next_or_null,
}
use arm64_os.ListHead.Linked.{
  NotIn, Distinct, Linked, Linked-set_next, Linked-set_prev, prev-ne, Linked-split, Linked-join,
}
use arm64_os.ListHead.Apart.{
  Apart, NotIn-append, NotIn-append_split, Distinct-append, Distinct-append_split, NotIn-of_Apart,
  Apart-tail, Apart-one,
}

-- `head` is the head of a circular list of the distinct nodes `xs`.
abbrev pub Ring : Links → ℕ → List ℕ → Type 0
Ring h head xs = Linked h head xs head × Distinct (head ∷ xs)

abbrev pub first? : List ℕ → Option ℕ
first? [] = none
first? (x ∷ xs) = some x

-- The last node of a chain is led to another end.
Linked-close :
    (h : Links) (a : ℕ) (xs : List ℕ) (e n : ℕ)
    → NotIn n xs
    → Distinct (a ∷ xs)
    → Linked h a xs e
    → Linked (set_prev n (h.prev e) (set_next (h.prev e) n h)) a xs n
Linked-close h a [] e n out d l = ground arith
Linked-close h a (x ∷ xs) e n out d l =
    let apart : h.prev e ≢ a = prev-ne h x xs e a d.0.0 d.0.1 l.2 in
    (ground arith, ground arith, Linked-close h x xs e n out.1 d.1 l.2)

-- The node before the end of a chain is in no list that the chain does not meet.
pub NotIn-prev :
    (h : Links) (a : ℕ) (xs : List ℕ) (e : ℕ) (zs : List ℕ)
    → NotIn a zs
    → Apart xs zs
    → Linked h a xs e
    → NotIn (h.prev e) zs
NotIn-prev h a [] e zs n ap l = rw (l.1) n
NotIn-prev h a (x ∷ xs) e zs n ap l = NotIn-prev h x xs e zs ap.0 ap.1 l.2

Linked-forget :
    (h : Links) (a : ℕ) (xs : List ℕ) (b e v w : ℕ)
    → e ≢ a
    → e ≢ b
    → NotIn e xs
    → Linked h a xs b
    → Linked (set_prev e v (set_next e w h)) a xs b
Linked-forget h a xs b e v w na nb nx l =
    Linked-set_prev (set_next e w h) a xs b e v nb nx (Linked-set_next h a xs b e w na nx l)

-- The links that `list_del` reads after its first write are those from before it.
pub list_del_lem :
    (e : ℕ) (h : Links)
    → list_del e h
      ≡ set_prev e 0
          (set_next e 0 (set_prev (h.next e) (h.prev e) (set_next (h.prev e) (h.next e) h)))
unfolding list_del
list_del_lem e h =
    let same : (set_next (h.prev e) (h.next e) h).next e ≡ h.next e = ground arith in
    ap (λ n. set_prev e 0 (set_next e 0 (set_prev n (h.prev e) (set_next (h.prev e) (h.next e) h))))
      same

-- a node taken out of a chain
Linked-del :
    (h : Links) (a : ℕ) (xs : List ℕ) (e : ℕ) (ys : List ℕ) (b : ℕ)
    → Distinct (a ∷ xs)
    → Distinct (e ∷ ys)
    → Apart (a ∷ xs) (e ∷ ys)
    → NotIn b (xs ++ (e ∷ ys))
    → Linked h a (xs ++ (e ∷ ys)) b
    → Linked (list_del e h) a (xs ++ ys) b
Linked-del h a xs e [] b dx de ap be l =
    let (front, back) = Linked-split h a xs e [] b l in
    let (bx, bye) = NotIn-append_split b xs (e ∷ []) be in
    rw (append-nil, list_del_lem, back.0)
      (Linked-forget (set_prev b (h.prev e) (set_next (h.prev e) b h)) a xs b e 0 0
        (λ q. ap.0.0 (sym q)) (λ q. bye.0 (sym q)) (NotIn-of_Apart xs e [] ap.1)
        (Linked-close h a xs e b bx dx front))
Linked-del h a xs e (y ∷ ys) b dx de ap be l =
    let (front, back) = Linked-split h a xs e (y ∷ ys) b l in
    let (bx, bye) = NotIn-append_split b xs (e ∷ y ∷ ys) be in
    let far : NotIn (h.prev e) (y ∷ ys) =
      NotIn-prev h a xs e (y ∷ ys) ap.0.1 (Apart-tail xs e (y ∷ ys) ap.1) front in
    let rest =
      Linked-set_prev (set_next (h.prev e) y h) y ys b y (h.prev e) (λ q. bye.1.0 (sym q)) de.1.0
        (Linked-set_next h y ys b (h.prev e) y far.0 far.1 back.2) in
    let ends =
      Linked-close h a xs e y (NotIn-of_Apart xs y ys (Apart-tail xs e (y ∷ ys) ap.1)) dx front in
    rw (list_del_lem, back.0)
      (Linked-forget (set_prev y (h.prev e) (set_next (h.prev e) y h)) a (xs ++ (y ∷ ys)) b e 0 0
        (λ q. ap.0.0 (sym q)) (λ q. bye.0 (sym q))
        (NotIn-append e xs (y ∷ ys) (NotIn-of_Apart xs e (y ∷ ys) ap.1) de.0)
        (Linked-join (set_prev y (h.prev e) (set_next (h.prev e) y h)) a xs y ys b ends rest))

-- Taking a node out of a list leaves the others, in their order, and sets its own links to NULL.
pub list_del-Ring :
    (h : Links) (head : ℕ) (xs : List ℕ) (e : ℕ) (ys : List ℕ)
    → Ring h head (xs ++ (e ∷ ys))
    → Ring (list_del e h) head (xs ++ ys)
      × ((list_del e h).next e ≡ 0)
      × ((list_del e h).prev e ≡ 0)
list_del-Ring h head xs e ys r =
    let (out, d) = r.1 in
    let (dx, de, ap) = Distinct-append_split xs (e ∷ ys) d in
    let (hx, hye) = NotIn-append_split head xs (e ∷ ys) out in
    (
      (
        Linked-del h head xs e ys head (hx, dx) de (hye, ap) out r.0,
        (NotIn-append head xs ys hx hye.1, Distinct-append xs ys dx de.1 (Apart-tail xs e ys ap)),
      ),
      rw list_del_lem (ground arith),
      rw list_del_lem (ground arith),
    )

Linked-add :
    (h : Links) (a : ℕ) (xs : List ℕ) (b new : ℕ)
    → Distinct (a ∷ xs)
    → NotIn b xs
    → new ≢ a
    → new ≢ b
    → NotIn new xs
    → Linked h a xs b
    → Linked (list_add_between new (h.prev b) b h) a (xs ++ (new ∷ [])) b
unfolding list_add_between
Linked-add h a [] b new d bx na nb nx l = ground arith
Linked-add h a (x ∷ xs) b new d bx na nb nx l =
    let apart : h.prev b ≢ a = prev-ne h x xs b a d.0.0 d.0.1 l.2 in
    (ground arith, ground arith, Linked-add h x xs b new d.1 bx.1 (λ q. nx.0 q) nb nx.1 l.2)

-- `list_add_tail` of a node that is not in the list appends it.
pub list_add_tail-Ring :
    (h : Links) (head : ℕ) (xs : List ℕ) (new : ℕ)
    → NotIn new (head ∷ xs)
    → Ring h head xs
    → Ring (list_add_tail new head h) head (xs ++ (new ∷ []))
unfolding list_add_tail
list_add_tail-Ring h head xs new out r = (
  Linked-add h head xs head new r.1 r.1.0 out.0 out.0 out.1 r.0,
  (
    NotIn-append head xs (new ∷ []) r.1.0 ((λ q. out.0 (sym q)), tt),
    Distinct-append xs (new ∷ []) r.1.1 (tt, tt) (Apart-one xs new out.1),
  ),
)

-- the four writes in front of the first node `x`
Linked-push :
    (h : Links) (a x : ℕ) (xs : List ℕ) (b new : ℕ)
    → Distinct (a ∷ x ∷ xs)
    → b ≢ x
    → new ≢ a
    → new ≢ b
    → NotIn new (x ∷ xs)
    → Linked h x xs b
    → Linked (list_add_between new a x h) a (new ∷ x ∷ xs) b
unfolding list_add_between
Linked-push h a x xs b new d bx na nb nx l =
    let h1 = set_prev x new h in
    let h2 = set_next new x h1 in
    let h3 = set_prev new a h2 in
    let l1 = Linked-set_prev h x xs b x new (λ q. bx (sym q)) d.1.0 l in
    let l2 = Linked-set_next h1 x xs b new x nx.0 nx.1 l1 in
    let l3 = Linked-set_prev h2 x xs b new a nb nx.1 l2 in
    (
      ground arith,
      ground arith,
      (ground arith, ground arith, Linked-set_next h3 x xs b a new d.0.0 d.0.1 l3),
    )

-- `list_add` of a node that is not in the list puts it first.
pub list_add-Ring :
    (h : Links) (head : ℕ) (xs : List ℕ) (new : ℕ)
    → NotIn new (head ∷ xs)
    → Ring h head xs
    → Ring (list_add new head h) head (new ∷ xs)
unfolding list_add
list_add-Ring h head [] new out r = unfold list_add_between in (ground arith, ground arith)
list_add-Ring h head (x ∷ xs) new out r =
    let (l, d) = r in
    (
      subst (λ n. Linked (list_add_between new head n h) head (new ∷ x ∷ xs) head) (sym l.0)
          (Linked-push h head x xs head new d d.0.0 out.0 out.0 out.1 l.2),
      (((λ q. out.0 (sym q)), d.0), (out.1, d.1)),
    )

-- A list is empty for `list_empty` exactly when it has no nodes.
pub list_empty-Ring :
    (h : Links) (head : ℕ) (xs : List ℕ) → Ring h head xs → (list_empty head h ≡ true) ↔ (xs ≡ [])
unfolding list_empty
list_empty-Ring h head [] r = ((λ _. refl), (λ _. ground arith))
list_empty-Ring h head (x ∷ xs) r = ((λ e. ground arith), (λ e. cc))

-- `list_next_entry_or_null` gives the first node, or NULL for an empty list.
pub list_next_or_null-Ring :
    (h : Links) (head : ℕ) (xs : List ℕ) → Ring h head xs → list_next_or_null head h ≡ first? xs
unfolding list_next_or_null
list_next_or_null-Ring h head [] r = ground arith
list_next_or_null-Ring h head (x ∷ xs) r = ground arith
