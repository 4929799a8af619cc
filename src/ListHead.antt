-- ===== src/ListHead.antt =====
-- include/list.h: circular doubly linked lists of nodes that live inside other objects. A node is
-- its address, the links of all nodes are two maps, and 0 is NULL. The barriers order the writes
-- for other cores and change no value.
pub mod Linked
pub mod Apart
pub mod Ring
pub mod Move
pub mod Walk
mod Tests
use arm64_os.Base.Maps.{update}
use arm64_os.Base.{ℕ, Bool, ◌==◌, if◌then◌else◌, Option, none, some, zero, suc, List, [], ◌∷◌}

pub record Links : Type 0 where
  pub next : ℕ → ℕ
  pub prev : ℕ → ℕ

abbrev pub set_next : ℕ → ℕ → Links → Links
set_next p v h = record h { next = update h.next p v }

abbrev pub set_prev : ℕ → ℕ → Links → Links
set_prev p v h = record h { prev = update h.prev p v }

unfoldable pub init_list_head : ℕ → Links → Links
init_list_head l h = set_prev l l (set_next l l h)

unfoldable pub list_empty : ℕ → Links → Bool
list_empty head h = h.next head == head

-- The four writes in the order of the source, the last one publishes the node.
unfoldable pub list_add_between : ℕ → ℕ → ℕ → Links → Links
list_add_between new before after h =
    let h1 = set_prev after new h in
    let h2 = set_next new after h1 in let h3 = set_prev new before h2 in set_next before new h3

unfoldable pub list_add : ℕ → ℕ → Links → Links
unfolding list_add_between
list_add new head h = list_add_between new head (h.next head) h

unfoldable pub list_add_tail : ℕ → ℕ → Links → Links
unfolding list_add_between
list_add_tail new head h = list_add_between new (h.prev head) head h

-- Each link is read when its statement runs.
unfoldable pub list_del : ℕ → Links → Links
list_del entry h =
    let h1 = set_next (h.prev entry) (h.next entry) h in
    let h2 = set_prev (h1.next entry) (h1.prev entry) h1 in set_prev entry 0 (set_next entry 0 h2)

unfoldable pub list_del_init : ℕ → Links → Links
unfolding list_del
list_del_init entry h = set_next entry entry (set_prev entry entry (list_del entry h))

unfoldable pub list_move : ℕ → ℕ → Links → Links
unfolding list_del list_add
list_move node head h = list_add node head (list_del node h)

unfoldable pub list_move_tail : ℕ → ℕ → Links → Links
unfolding list_del list_add_tail
list_move_tail node head h = list_add_tail node head (list_del node h)

-- `list_next_entry_or_null`
unfoldable pub list_next_or_null : ℕ → Links → Option ℕ
list_next_or_null head h = let pos = h.next head in if pos == head then none else some pos

-- `for (pos = head->next; pos != head; pos = pos->next)`, with the positions that it visits; `none`
-- means that the rounds given ran out.
unfoldable pub list_for_each : ℕ → ℕ → ℕ → Links → Option (List ℕ)
list_for_each zero head pos h = none
list_for_each (suc f) head pos h =
    let rest = list_for_each f head (h.next pos) h in
    if pos == head then some [] else elim rest [ none ↦ none | some xs ↦ some (pos ∷ xs) ]
