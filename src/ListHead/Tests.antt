-- ===== src/ListHead/Tests.antt =====
-- Instances of the list theorems: 1 heads the list 2, 3, 4, and 5 heads the list 6.
use arm64_os.Base.{◌≡◌, [], ◌∷◌, arith, ◌==◌, if◌then◌else◌}
use arm64_os.ListHead.{Links, list_add_tail, list_del, list_move_tail}
use arm64_os.ListHead.Ring.{Ring, list_add_tail-Ring, list_del-Ring}
use arm64_os.ListHead.Move.{list_move_tail-Ring_self}

abbrev two_lists : Links
two_lists = record {
  next = λ p.
      if p == 1
      then 2
      else if p == 2
      then 3
      else if p == 3
      then 4
      else if p == 4
      then 1
      else if p == 5
      then 6
      else 5;
  prev = λ p.
      if p == 1
      then 4
      else if p == 2
      then 1
      else if p == 3
      then 2
      else if p == 4
      then 3
      else if p == 5
      then 6
      else 5;
}

first-Ring : Ring two_lists 1 (2 ∷ 3 ∷ 4 ∷ [])
first-Ring = omega arith

second-Ring : Ring two_lists 5 (6 ∷ [])
second-Ring = omega arith

list_add_tail-Ring_example : Ring (list_add_tail 7 5 two_lists) 5 (6 ∷ 7 ∷ [])
list_add_tail-Ring_example = list_add_tail-Ring two_lists 5 (6 ∷ []) 7 (omega arith) second-Ring

list_del-Ring_example :
    Ring (list_del 3 two_lists) 1 (2 ∷ 4 ∷ [])
    × ((list_del 3 two_lists).next 3 ≡ 0)
    × ((list_del 3 two_lists).prev 3 ≡ 0)
list_del-Ring_example = list_del-Ring two_lists 1 (2 ∷ []) 3 (4 ∷ []) first-Ring

rotated : Ring (list_move_tail 2 1 two_lists) 1 (3 ∷ 4 ∷ 2 ∷ [])
rotated = list_move_tail-Ring_self two_lists 1 [] 2 (3 ∷ 4 ∷ []) first-Ring
