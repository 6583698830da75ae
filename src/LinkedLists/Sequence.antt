-- ===== src/LinkedLists/Sequence.antt =====
-- What a list stands for: the sequence of its keys and items, with the operations on it.
use csci402_projects.Base.{List, [], ◌∷◌, ◌++◌, ℤ, pos, Option, none, some, if◌then◌else◌}
use csci402_projects.LinkedLists.Nodes.{
  Pointer, key_less, Operation, appends, prepends, inserts, removes,
}

abbrev pub Entry : Type 0
Entry = ℤ × Pointer

-- An element goes before the first one with a greater key.
unfoldable pub insert_sorted : Entry → List Entry → List Entry
insert_sorted x [] = x ∷ []
insert_sorted x (y ∷ ys) = if key_less x.0 y.0 then x ∷ (y ∷ ys) else y ∷ insert_sorted x ys

-- The operations of a list on the sequence, with what SortedRemove gives.
unfoldable pub apply : Operation → List Entry → List Entry × Option Entry
unfolding insert_sorted
apply (appends item) xs = (xs ++ ((pos 0, item) ∷ []), none)
apply (prepends item) xs = ((pos 0, item) ∷ xs, none)
apply (inserts item key) xs = (insert_sorted (key, item) xs, none)
apply removes [] = ([], none)
apply removes (x ∷ xs) = (xs, some x)
