-- ===== src/ListHead/Walk.antt =====
-- The loops over a list, and `list_del_init`.
use arm64_os.Base.{zero, ℕ, suc, ◌≡◌, ◌<◌, List, [], ◌∷◌, ◌++◌, some, arith, sym, length}
use arm64_os.ListHead.{Links, set_prev, list_del, list_del_init, init_list_head, list_for_each}
use arm64_os.ListHead.Linked.{NotIn, Linked, Linked-set_next, Linked-set_prev}
use arm64_os.ListHead.Apart.{
  NotIn-append, NotIn-append_split, Distinct-append_split, NotIn-of_Apart,
}
use arm64_os.ListHead.Ring.{Ring, list_del-Ring}

-- With a round for each node and one for the end test, the loop visits the nodes in their order.
visits :
    (fuel : ℕ) (h : Links) (head a : ℕ) (xs : List ℕ)
    → length xs < fuel
    → NotIn head xs
    → Linked h a xs head
    → list_for_each fuel head (h.next a) h ≡ some xs
unfolding list_for_each
visits zero h head a xs lt out l = elim lt [ ]
visits (suc f) h head a [] lt out l = ground arith
visits (suc f) h head a (x ∷ xs) lt out l =
    ground (arith, visits f h head x xs (omega arith) out.1 l.2)

-- `list_for_each` ends and visits the nodes of the list in their order.
pub list_for_each-Ring :
    (fuel : ℕ) (h : Links) (head : ℕ) (xs : List ℕ)
    → Ring h head xs
    → length xs < fuel
    → list_for_each fuel head (h.next head) h ≡ some xs
list_for_each-Ring fuel h head xs r lt = visits fuel h head head xs lt r.1.0 r.0

-- `INIT_LIST_HEAD` makes an empty list of any node.
pub init_list_head-Ring : (h : Links) (l : ℕ) → Ring (init_list_head l h) l []
unfolding init_list_head
init_list_head-Ring h l = ground arith

-- `list_del_init` takes a node out of its list, keeps the order of the others, and leaves the node
-- an empty list of its own.
pub list_del_init-Ring :
    (h : Links) (head : ℕ) (xs : List ℕ) (e : ℕ) (ys : List ℕ)
    → Ring h head (xs ++ (e ∷ ys))
    → Ring (list_del_init e h) head (xs ++ ys) × Ring (list_del_init e h) e []
unfolding list_del_init
list_del_init-Ring h head xs e ys r =
    let (gone, _, _) = list_del-Ring h head xs e ys r in
    let (out, d) = r.1 in
    let (dx, de, apx) = Distinct-append_split xs (e ∷ ys) d in
    let (hx, hye) = NotIn-append_split head xs (e ∷ ys) out in
    let clear : NotIn e (xs ++ ys) = NotIn-append e xs ys (NotIn-of_Apart xs e ys apx) de.0 in
    let apart : e ≡ head → ⊥ = λ q. hye.0 (sym q) in
    (
      (
        Linked-set_next (set_prev e e (list_del e h)) head (xs ++ ys) head e e apart clear
            (Linked-set_prev (list_del e h) head (xs ++ ys) head e e apart clear gone.0),
        gone.1,
      ),
      ((ground arith, ground arith), (tt, tt)),
    )
