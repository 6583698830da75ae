-- ===== src/LinkedLists/Sorted.antt =====
-- The sorted lists of threads/list.cc: their order, and what SortedRemove takes.
use csci402_projects.Base.{
  ℕ, suc, ◌<◌, ◌≡◌, refl, sym, subst, Bool, true, false, Bool-cases, inl, inr, Option, none, some,
  List, [], ◌∷◌, length, ℤ, pos, negsuc, ok, arith,
}
use csci402_projects.LinkedLists.Nodes.{
  Heap, LinkedList, Store, key_less, Operation, appends, prepends, inserts, removes, perform,
}
use csci402_projects.LinkedLists.Sequence.{Entry, insert_sorted, apply}
use csci402_projects.LinkedLists.Chains.{Cell, entries, IsList}
use csci402_projects.LinkedLists.Refines.{perform-Left}

-- No key of the sequence is less than `k`.
abbrev pub AtLeast : ℤ → List Entry → Type 0
AtLeast k [] = Unit
AtLeast k (y ∷ ys) = (key_less y.0 k ≡ false) × AtLeast k ys

abbrev pub Sorted : List Entry → Type 0
Sorted [] = Unit
Sorted (x ∷ xs) = AtLeast x.0 xs × Sorted xs

key_less_trans : (a b c : ℤ) → key_less b a ≡ false → key_less c b ≡ false → key_less c a ≡ false
key_less_trans (pos a) (pos b) (pos c) h g = ground arith
key_less_trans (pos a) (pos b) (negsuc c) h g = cc
key_less_trans (pos a) (negsuc b) c h g = cc
key_less_trans (negsuc a) (pos b) (pos c) h g = refl
key_less_trans (negsuc a) (pos b) (negsuc c) h g = cc
key_less_trans (negsuc a) (negsuc b) (pos c) h g = refl
key_less_trans (negsuc a) (negsuc b) (negsuc c) h g = ground arith

key_less_asym : (a b : ℤ) → key_less a b ≡ true → key_less b a ≡ false
key_less_asym (pos a) (pos b) h = ground arith
key_less_asym (pos a) (negsuc b) h = cc
key_less_asym (negsuc a) (pos b) h = refl
key_less_asym (negsuc a) (negsuc b) h = ground arith

AtLeast-trans : (a b : ℤ) (ys : List Entry) → key_less b a ≡ false → AtLeast b ys → AtLeast a ys
AtLeast-trans a b [] h g = tt
AtLeast-trans a b (y ∷ ys) h g = (key_less_trans a b y.0 h g.0, AtLeast-trans a b ys h g.1)

insert_sorted-AtLeast :
    (k : ℤ) (x : Entry) (ys : List Entry)
    → key_less x.0 k ≡ false
    → AtLeast k ys
    → AtLeast k (insert_sorted x ys)
unfolding insert_sorted
insert_sorted-AtLeast k x [] h g = (h, tt)
insert_sorted-AtLeast k x (y ∷ ys) h g = elim (Bool-cases (key_less x.0 y.0)) [
  | inl less ↦ rw less (h, g)
  | inr more ↦ rw more (g.0, insert_sorted-AtLeast k x ys h g.1)
]

insert_sorted-Sorted : (x : Entry) (ys : List Entry) → Sorted ys → Sorted (insert_sorted x ys)
unfolding insert_sorted
insert_sorted-Sorted x [] s = (tt, tt)
insert_sorted-Sorted x (y ∷ ys) s = elim (Bool-cases (key_less x.0 y.0)) [
  | inl less ↦
      rw less (
        (
          (key_less_asym x.0 y.0 less, AtLeast-trans x.0 y.0 ys (key_less_asym x.0 y.0 less) s.0),
          s,
        ))
  | inr more ↦ rw more (insert_sorted-AtLeast y.0 x ys more s.0, insert_sorted-Sorted x ys s.1)
]

-- The operations of a list that is kept sorted.
abbrev pub keeps_order : Operation → Bool
keeps_order (appends item) = false
keeps_order (prepends item) = false
keeps_order (inserts item key) = true
keeps_order removes = true

-- What was taken has no greater key than what is left.
abbrev pub Least : Option Entry → List Entry → Type 0
Least none ys = Unit
Least (some x) ys = AtLeast x.0 ys

apply-Sorted :
    (op : Operation) (xs : List Entry)
    → keeps_order op ≡ true
    → Sorted xs
    → Sorted (apply op xs).0 × Least (apply op xs).1 (apply op xs).0
unfolding apply
apply-Sorted (appends item) xs k s = cc
apply-Sorted (prepends item) xs k s = cc
apply-Sorted (inserts item key) xs k s = (insert_sorted-Sorted (key, item) xs s, tt)
apply-Sorted removes [] k s = (tt, tt)
apply-Sorted removes (x ∷ xs) k s = (s.1, s.0)

-- A list that is sorted stays so under SortedInsert and SortedRemove, which come to their end as in a
-- sequence, and what SortedRemove takes has no greater key than anything that is left.
pub perform-Sorted :
    (rounds a : ℕ) (op : Operation) (h : Heap) (l : LinkedList) (cs : List Cell)
    → IsList h l cs
    → h a ≡ none
    → length cs < suc rounds
    → Sorted (entries cs)
    → keeps_order op ≡ true
    → (s : Store) × (taken : Option Entry) × (perform rounds a op (h, l) ≡ ok (some (s, taken)))
      × ((ds : List Cell) × IsList s.0 s.1 ds × Sorted (entries ds) × Least taken (entries ds))
perform-Sorted rounds a op h l cs i unused lt sorted k =
    let (s, ran, left) = perform-Left rounds a op h l cs i unused lt in
    let both = apply-Sorted op (entries cs) k sorted in
    (
      s,
      (apply op (entries cs)).1,
      ran,
      (
        left.cells,
        left.list,
        subst Sorted (sym left.stands_for) both.0,
        subst (Least (apply op (entries cs)).1) (sym left.stands_for) both.1,
      ),
    )
