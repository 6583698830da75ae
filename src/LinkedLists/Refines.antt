-- ===== src/LinkedLists/Refines.antt =====
-- The lists of threads/list.cc implement sequences.
use csci402_projects.Base.{
  ℕ, suc, ◌<◌, ◌≡◌, refl, sym, ap, subst, Option, none, some, List, [], ◌∷◌, length, pos, Result,
  ok, ◌>>=◌,
}
use csci402_projects.LinkedLists.Nodes.{
  Heap, LinkedList, Store, Operation, appends, prepends, inserts, removes, perform,
}
use csci402_projects.LinkedLists.Sequence.{Entry, apply}
use csci402_projects.LinkedLists.Chains.{Cell, entries, IsList}
use csci402_projects.LinkedLists.Effects.{
  Left, list_of, alone, put_last-Left, put_first-Left, sorted_insert-Left, sorted_remove-Left,
}

-- An operation on the list that these cells are.
perform-list_of :
    (rounds a : ℕ) (op : Operation) (h : Heap) (cs : List Cell)
    → IsList h (list_of cs) cs
    → h a ≡ none
    → length cs < suc rounds
    → (s : Store) × (perform rounds a op (h, list_of cs) ≡ ok (some (s, (apply op (entries cs)).1)))
      × Left a h cs (apply op (entries cs)).0 s
unfolding perform apply
perform-list_of rounds a (appends item) h [] i unused lt =
    (_, refl, alone h (a, (pos 0, item)) unused _ refl)
perform-list_of rounds a (appends item) h (d ∷ ds) i unused lt =
    let (s, put, left) = put_last-Left h (a, (pos 0, item)) unused d ds i in
    (s, ap (λ (r : Result Store). r >>= λ t. ok (some (t, none))) put, left)
perform-list_of rounds a (prepends item) h [] i unused lt =
    (_, refl, alone h (a, (pos 0, item)) unused _ refl)
perform-list_of rounds a (prepends item) h (d ∷ ds) i unused lt =
    let (s, put, left) = put_first-Left h (a, (pos 0, item)) unused d ds i in
    (s, ap (λ (r : Result Store). r >>= λ t. ok (some (t, none))) put, left)
perform-list_of rounds a (inserts item key) h cs i unused lt =
    let (s, put, left) = sorted_insert-Left h (a, (key, item)) unused rounds cs i lt in
    (
      s,
      ap
          (λ (r : Result (Option Store)).
            r >>= λ o. ok (elim o [ none ↦ none | some t ↦ some (t, none) ]))
          put,
      left,
    )
perform-list_of rounds a removes h [] i unused lt = (
  (h, list_of []),
  refl,
  record {
    cells = [];
    list = i;
    stands_for = refl;
    outside = λ x other o. refl;
    freed = λ x inside o. cc;
  },
)
perform-list_of rounds a removes h (d ∷ ds) i unused lt =
    let (s, put, left) = sorted_remove-Left a h d ds i in
    (s, ap (λ (r : Result (Store × Option Entry)). r >>= λ t. ok (some t)) put, left)

-- A list in the heap implements a sequence. Let the list stand for the sequence, let the address of a
-- new element be free, and let there be at least as many rounds as elements. Then Append, Prepend,
-- SortedInsert and SortedRemove come to their end without a fault, give what the operation on the
-- sequence gives, and leave a list that stands for the sequence after it. They change nothing in the
-- heap but the list and the new element, and an element that leaves the list is freed.
pub perform-Left :
    (rounds a : ℕ) (op : Operation) (h : Heap) (l : LinkedList) (cs : List Cell)
    → IsList h l cs
    → h a ≡ none
    → length cs < suc rounds
    → (s : Store) × (perform rounds a op (h, l) ≡ ok (some (s, (apply op (entries cs)).1)))
      × Left a h cs (apply op (entries cs)).0 s
perform-Left rounds a op h l cs i unused lt =
    let same : l ≡ list_of cs = λ k. record { first = i.first k; last = i.last k } in
    subst
      (λ m.
        (s : Store) × (perform rounds a op (h, m) ≡ ok (some (s, (apply op (entries cs)).1)))
        × Left a h cs (apply op (entries cs)).0 s)
      (sym same)
      (perform-list_of rounds a op h cs
        (record { first = refl; last = refl; chain = i.chain; distinct = i.distinct }) unused lt)
