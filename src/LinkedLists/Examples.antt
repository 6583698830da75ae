-- ===== src/LinkedLists/Examples.antt =====
-- Examples for the theorems on linked lists, and runs of the code.
use csci402_projects.Base.{◌≡◌, refl, Option, none, some, List, [], ◌∷◌, update, pos, ok, arith}
use csci402_projects.LinkedLists.Nodes.{
  Heap, LinkedList, Store, inserts, removes, perform, destroy, mapcar_from,
}
use csci402_projects.LinkedLists.Sequence.{Entry, apply}
use csci402_projects.LinkedLists.Chains.{Cell, entries, element_of, IsList}
use csci402_projects.LinkedLists.Effects.{Left}
use csci402_projects.LinkedLists.Refines.{perform-Left}
use csci402_projects.LinkedLists.Sorted.{Sorted, Least, perform-Sorted}

-- Two elements, at the addresses 5 and 6.
abbrev cell_five : Cell
cell_five = (5, (pos 1, some 7))

abbrev cell_six : Cell
cell_six = (6, (pos 3, none))

abbrev two_cells : List Cell
two_cells = cell_five ∷ (cell_six ∷ [])

abbrev heap_two : Heap
heap_two =
    update (update (λ a. none) 5 (some (element_of cell_five (some 6)))) 6
      (some (element_of cell_six none))

abbrev list_two : LinkedList
list_two = record { first = some 5; last = some 6 }

two-IsList : IsList heap_two list_two two_cells
two-IsList = record {
  first = refl;
  last = refl;
  chain = (refl, (refl, tt));
  distinct = (refl, (refl, tt));
}

perform-Left_example :
    (s : Store) × (perform 2 9 (inserts (some 8) (pos 2)) (heap_two, list_two)
      ≡ ok (some (s, (apply (inserts (some 8) (pos 2)) (entries two_cells)).1)))
    × Left 9 heap_two two_cells (apply (inserts (some 8) (pos 2)) (entries two_cells)).0 s
perform-Left_example =
    perform-Left 2 9 (inserts (some 8) (pos 2)) heap_two list_two two_cells two-IsList refl
      (omega arith)

inserted_run :
    (apply (inserts (some 8) (pos 2)) (entries two_cells)).0
    ≡ (pos 1, some 7) ∷ ((pos 2, some 8) ∷ ((pos 3, none) ∷ []))
unfolding apply
inserted_run = refl

perform-Sorted_example :
    (s : Store) × (taken : Option Entry) × (perform 2 9 removes (heap_two, list_two)
      ≡ ok (some (s, taken)))
    × ((ds : List Cell) × IsList s.0 s.1 ds × Sorted (entries ds) × Least taken (entries ds))
perform-Sorted_example =
    perform-Sorted 2 9 removes heap_two list_two two_cells two-IsList refl (omega arith)
      ((refl, tt), (tt, tt)) refl

mapcar_run : mapcar_from 3 heap_two (some 5) ≡ ok (some (some 7 ∷ (none ∷ [])))
unfolding mapcar_from
mapcar_run = refl

-- A list with a NULL item in front: the destructor takes this item for the end of the list.
abbrev heap_null : Heap
heap_null =
    update (update (λ a. none) 5 (some (element_of (5, (pos 0, none)) (some 6)))) 6
      (some (element_of (6, (pos 0, some 7)) none))

destroy_run :
    destroy 3 (heap_null, list_two)
    ≡ ok (some (update heap_null 5 none, record { first = some 6; last = some 6 }))
unfolding destroy
destroy_run = refl
