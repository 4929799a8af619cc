-- ===== src/ListHead/Move.antt =====
-- Lists beside one another: what one operation leaves alone, and moves from list to list.
use arm64_os.Base.{ℕ, List, [], ◌∷◌, ◌++◌, sym}
use arm64_os.ListHead.{
  Links, set_next, set_prev, list_add_between, list_add_tail, list_del, list_move_tail, list_add,
  list_move,
}
use arm64_os.ListHead.Linked.{NotIn, Linked, Linked-set_next, Linked-set_prev, Linked-split}
use arm64_os.ListHead.Apart.{
  Apart, NotIn-append, NotIn-append_split, Distinct-append_split, NotIn-of_Apart, Apart-comm,
  Apart-append,
}
use arm64_os.ListHead.Ring.{
  Ring, NotIn-prev, list_del_lem, list_del-Ring, list_add_tail-Ring, list_add-Ring,
}

NotIn-next :
    (h : Links) (a : ℕ) (xs : List ℕ) (b : ℕ) (zs : List ℕ)
    → NotIn b zs
    → Apart xs zs
    → Linked h a xs b
    → NotIn (h.next a) zs
NotIn-next h a [] b zs n ap l = rw (l.0) n
NotIn-next h a (x ∷ xs) b zs n ap l = rw (l.0) ap.0

-- A write of the links of nodes that a ring does not have leaves the ring as it is.
pub Ring-set :
    (h : Links) (p q v w head : ℕ) (zs : List ℕ)
    → NotIn p (head ∷ zs)
    → NotIn q (head ∷ zs)
    → Ring h head zs
    → Ring (set_prev q w (set_next p v h)) head zs
Ring-set h p q v w head zs np nq r = (
  Linked-set_prev (set_next p v h) head zs head q w nq.0 nq.1
      (Linked-set_next h head zs head p v np.0 np.1 r.0),
  r.1,
)

Apart-split :
    (a : ℕ) (xs : List ℕ) (e : ℕ) (ys zs : List ℕ)
    → Apart (a ∷ (xs ++ (e ∷ ys))) zs
    → NotIn a zs × Apart xs zs × NotIn e zs × Apart ys zs
Apart-split a [] e ys zs ap = (ap.0, tt, ap.1.0, ap.1.1)
Apart-split a (x ∷ xs) e ys zs ap =
    let rest = Apart-split x xs e ys zs ap.1 in (ap.0, (ap.1.0, rest.1), rest.2, rest.3)

-- Taking a node out of one list leaves a list that shares no node with it as it is.
pub list_del-Ring_other :
    (h : Links) (head : ℕ) (xs : List ℕ) (e : ℕ) (ys : List ℕ) (other : ℕ) (zs : List ℕ)
    → Ring h head (xs ++ (e ∷ ys))
    → Apart (head ∷ (xs ++ (e ∷ ys))) (other ∷ zs)
    → Ring h other zs
    → Ring (list_del e h) other zs
list_del-Ring_other h head xs e ys other zs r ap o =
    let (front, back) = Linked-split h head xs e ys head r.0 in
    let (ah, ax, ae, ay) = Apart-split head xs e ys (other ∷ zs) ap in
    let before = NotIn-prev h head xs e (other ∷ zs) ah ax front in
    let after = NotIn-next h e ys head (other ∷ zs) ah ay back in
    let p = h.prev e in
    let n = h.next e in
    rw list_del_lem (
      Ring-set (set_prev n p (set_next p n h)) e e 0 0 other zs ae ae
        (Ring-set h p n n p other zs before after o))

-- Adding a node to one list leaves a list that has none of the nodes concerned as it is.
list_add_between-Ring_other :
    (h : Links) (new p n other : ℕ) (zs : List ℕ)
    → NotIn new (other ∷ zs)
    → NotIn p (other ∷ zs)
    → NotIn n (other ∷ zs)
    → Ring h other zs
    → Ring (list_add_between new p n h) other zs
unfolding list_add_between
list_add_between-Ring_other h new p n other zs a b c o =
    let h1 = set_prev n new h in
    let r1 : Ring h1 other zs = (Linked-set_prev h other zs other n new c.0 c.1 o.0, o.1) in
    let r2 : Ring (set_prev new p (set_next new n h1)) other zs =
      Ring-set h1 new new n p other zs a a r1 in
    let h3 = set_prev new p (set_next new n h1) in
    (Linked-set_next h3 other zs other p new b.0 b.1 r2.0, o.1)

pub list_add_tail-Ring_other :
    (h : Links) (new head : ℕ) (xs : List ℕ) (other : ℕ) (zs : List ℕ)
    → Ring h head xs
    → Apart (head ∷ xs) (other ∷ zs)
    → NotIn new (other ∷ zs)
    → Ring h other zs
    → Ring (list_add_tail new head h) other zs
unfolding list_add_tail
list_add_tail-Ring_other h new head xs other zs r ap n o =
    list_add_between-Ring_other h new (h.prev head) head other zs n
      (NotIn-prev h head xs head (other ∷ zs) ap.0 ap.1 r.0) ap.0 o

-- `list_move_tail` takes a node out of its list and appends it to another list.
pub list_move_tail-Ring :
    (h : Links) (a : ℕ) (xs : List ℕ) (e : ℕ) (ys : List ℕ) (b : ℕ) (zs : List ℕ)
    → Ring h a (xs ++ (e ∷ ys))
    → Ring h b zs
    → Apart (a ∷ (xs ++ (e ∷ ys))) (b ∷ zs)
    → Ring (list_move_tail e b h) a (xs ++ ys) × Ring (list_move_tail e b h) b (zs ++ (e ∷ []))
unfolding list_move_tail
list_move_tail-Ring h a xs e ys b zs r o ap =
    let (ah, ax, ae, ay) = Apart-split a xs e ys (b ∷ zs) ap in
    let (gone, _, _) = list_del-Ring h a xs e ys r in
    let there = list_del-Ring_other h a xs e ys b zs r ap o in
    let (out, d) = r.1 in
    let (dx, de, apx) = Distinct-append_split xs (e ∷ ys) d in
    let (hx, hye) = NotIn-append_split a xs (e ∷ ys) out in
    let e_out : NotIn e (a ∷ (xs ++ ys)) =
      ((λ q. hye.0 (sym q)), NotIn-append e xs ys (NotIn-of_Apart xs e ys apx) de.0) in
    (
      list_add_tail-Ring_other (list_del e h) e b zs a (xs ++ ys) there
          (Apart-comm (a ∷ (xs ++ ys)) (b ∷ zs) (ah, Apart-append xs ys (b ∷ zs) ax ay)) e_out gone,
      list_add_tail-Ring (list_del e h) b zs e ae there,
    )

-- `list_move_tail` within one list puts the node last.
pub list_move_tail-Ring_self :
    (h : Links) (a : ℕ) (xs : List ℕ) (e : ℕ) (ys : List ℕ)
    → Ring h a (xs ++ (e ∷ ys))
    → Ring (list_move_tail e a h) a ((xs ++ ys) ++ (e ∷ []))
unfolding list_move_tail
list_move_tail-Ring_self h a xs e ys r =
    let (gone, _, _) = list_del-Ring h a xs e ys r in
    let (out, d) = r.1 in
    let (dx, de, apx) = Distinct-append_split xs (e ∷ ys) d in
    let (hx, hye) = NotIn-append_split a xs (e ∷ ys) out in
    list_add_tail-Ring (list_del e h) a (xs ++ ys) e
      ((λ q. hye.0 (sym q)), NotIn-append e xs ys (NotIn-of_Apart xs e ys apx) de.0) gone

list_add-Ring_other :
    (h : Links) (new head : ℕ) (xs : List ℕ) (other : ℕ) (zs : List ℕ)
    → Ring h head xs
    → Apart (head ∷ xs) (other ∷ zs)
    → NotIn new (other ∷ zs)
    → Ring h other zs
    → Ring (list_add new head h) other zs
unfolding list_add
list_add-Ring_other h new head xs other zs r ap n o =
    list_add_between-Ring_other h new head (h.next head) other zs n ap.0
      (NotIn-next h head xs head (other ∷ zs) ap.0 ap.1 r.0) o

-- `list_move` takes a node out of its list and puts it first on another list.
pub list_move-Ring :
    (h : Links) (a : ℕ) (xs : List ℕ) (e : ℕ) (ys : List ℕ) (b : ℕ) (zs : List ℕ)
    → Ring h a (xs ++ (e ∷ ys))
    → Ring h b zs
    → Apart (a ∷ (xs ++ (e ∷ ys))) (b ∷ zs)
    → Ring (list_move e b h) a (xs ++ ys) × Ring (list_move e b h) b (e ∷ zs)
unfolding list_move
list_move-Ring h a xs e ys b zs r o ap =
    let (ah, ax, ae, ay) = Apart-split a xs e ys (b ∷ zs) ap in
    let (gone, _, _) = list_del-Ring h a xs e ys r in
    let there = list_del-Ring_other h a xs e ys b zs r ap o in
    let (out, d) = r.1 in
    let (dx, de, apx) = Distinct-append_split xs (e ∷ ys) d in
    let (hx, hye) = NotIn-append_split a xs (e ∷ ys) out in
    let e_out : NotIn e (a ∷ (xs ++ ys)) =
      ((λ q. hye.0 (sym q)), NotIn-append e xs ys (NotIn-of_Apart xs e ys apx) de.0) in
    (
      list_add-Ring_other (list_del e h) e b zs a (xs ++ ys) there
          (Apart-comm (a ∷ (xs ++ ys)) (b ∷ zs) (ah, Apart-append xs ys (b ∷ zs) ax ay)) e_out gone,
      list_add-Ring (list_del e h) b zs e ae there,
    )

-- The two lists still share no node after a move: to the front, and to the end.
pub list_move-Apart :
    (h : Links) (a : ℕ) (xs : List ℕ) (e : ℕ) (ys : List ℕ) (b : ℕ) (zs : List ℕ)
    → Ring h a (xs ++ (e ∷ ys))
    → Apart (a ∷ (xs ++ (e ∷ ys))) (b ∷ zs)
    → NotIn e (a ∷ (xs ++ ys)) × Apart (b ∷ e ∷ zs) (a ∷ (xs ++ ys))
list_move-Apart h a xs e ys b zs r ap =
    let (ah, ax, ae, ay) = Apart-split a xs e ys (b ∷ zs) ap in
    let (out, d) = r.1 in
    let (dx, de, apx) = Distinct-append_split xs (e ∷ ys) d in
    let (hx, hye) = NotIn-append_split a xs (e ∷ ys) out in
    let e_out : NotIn e (a ∷ (xs ++ ys)) =
      ((λ q. hye.0 (sym q)), NotIn-append e xs ys (NotIn-of_Apart xs e ys apx) de.0) in
    let (head, rest) =
      Apart-comm (a ∷ (xs ++ ys)) (b ∷ zs) (ah, Apart-append xs ys (b ∷ zs) ax ay) in
    (e_out, (head, (e_out, rest)))

pub list_move_tail-Apart :
    (h : Links) (a : ℕ) (xs : List ℕ) (e : ℕ) (ys : List ℕ) (b : ℕ) (zs : List ℕ)
    → Ring h a (xs ++ (e ∷ ys))
    → Apart (a ∷ (xs ++ (e ∷ ys))) (b ∷ zs)
    → Apart (b ∷ (zs ++ (e ∷ []))) (a ∷ (xs ++ ys))
list_move_tail-Apart h a xs e ys b zs r ap =
    let (e_out, (head, (n, rest))) = list_move-Apart h a xs e ys b zs r ap in
    (head, Apart-append zs (e ∷ []) (a ∷ (xs ++ ys)) rest (e_out, tt))
