-- ===== src/LinkedLists/Effects.antt =====
-- What each operation of threads/list.cc leaves in the heap.
use csci402_projects.Base.{
  ℕ, suc, ◌<◌, ◌≡◌, refl, sym, ap, ◌∙◌, true, false, ◌==◌, Bool-cases, inl, inr, none, some, List,
  [], ◌∷◌, ◌++◌, length, update, update_self, update_other, ==_iff, mem, Result, ok, ◌>>=◌, arith,
}
use csci402_projects.LinkedLists.Nodes.{
  Heap, LinkedList, Store, key_less, single, empty_list, same_pointer, put_last, put_first,
  sorted_insert, sorted_remove,
}
use csci402_projects.LinkedLists.Sequence.{Entry, insert_sorted}
use csci402_projects.LinkedLists.Chains.{
  Cell, addresses, entries, head_of, last_of, element_of, Chain, IsList, SameOutside, Chain-update,
  free_outside, set_next-ok, link_last, entries-append, last_of-append, last_of-mem, append-mem,
  append-distinct,
}
use csci402_projects.LinkedLists.Inserting.{
  insert_cell, insert_cell-entries, insert_cell-mem, insert_cell-distinct, insert_from-Inserted,
  element-ok, Inserted,
}

-- What an operation leaves: a list that stands for the sequence `xs`, no change of the heap but at
-- the list and the new element, and no element that is still in the heap but in no list.
pub record Left (a : ℕ) (h : Heap) (cs : List Cell) (xs : List Entry) (s : Store) : Type 0 where
  pub cells : List Cell
  pub list : IsList s.0 s.1 cells
  pub stands_for : entries cells ≡ xs
  pub outside : SameOutside a cs h s.0
  pub freed : (x : ℕ) → mem x (addresses cs) ≡ true → mem x (addresses cells) ≡ false → s.0 x ≡ none

-- The two pointers of a list of cells.
abbrev pub list_of : List Cell → LinkedList
list_of cs = record { first = head_of cs; last = last_of cs }

module _ (h : Heap) (c : Cell) (unused : h c.0 ≡ none) where
  abbrev with_new : Heap
  with_new = update h c.0 (some (element_of c none))

  new_there : with_new c.0 ≡ some (element_of c none)
  new_there = update_self h c.0 _

  module _ (cs : List Cell) (i : IsList h (list_of cs) cs) where
    out : mem c.0 (addresses cs) ≡ false
    out = free_outside h c.0 cs unused i.chain

    chain : Chain with_new cs
    chain = Chain-update h c.0 _ cs out i.chain

  -- The first element of an empty list.
  pub alone : (xs : List Entry) → c.1 ∷ [] ≡ xs → Left c.0 h [] xs (with_new, single c.0)
  alone xs e = record {
    cells = c ∷ [];
    list = record { first = refl; last = refl; chain = (new_there, tt); distinct = (refl, tt) };
    stands_for = e;
    outside = λ x other o. update_other h c.0 x _ (λ e. ground (arith, other, e));
    freed = λ x i o. cc;
  }

  kept : (x : ℕ) → (c.0 == x) ≡ false → with_new x ≡ h x
  kept x other = update_other h c.0 x _ (λ e. ground (arith, other, e))

  pub put_last-Left :
      (d : Cell) (ds : List Cell)
      → IsList h (list_of (d ∷ ds)) (d ∷ ds)
      → (s : Store) × (put_last with_new (list_of (d ∷ ds)) c.0 ≡ ok s)
        × Left c.0 h (d ∷ ds) (entries (d ∷ ds) ++ (c.1 ∷ [])) s
  unfolding put_last
  put_last-Left d ds i =
      let (g, linked, made, same) =
        link_last with_new c d ds (chain (d ∷ ds) i) i.distinct new_there (out (d ∷ ds) i) in
      (
        (g, record (list_of (d ∷ ds)) { last = some c.0 }),
        ap (λ (r : Result Heap). r >>= λ g'. ok (g', record (list_of (d ∷ ds)) { last = some c.0 }))
            linked,
        record {
          cells = (d ∷ ds) ++ (c ∷ []);
          list = record {
            first = i.first;
            last = sym (last_of-append (d ∷ ds) c);
            chain = made;
            distinct = append-distinct (d ∷ ds) c i.distinct (out (d ∷ ds) i);
          };
          stands_for = entries-append (d ∷ ds) c;
          outside = λ x other o. same x o ∙ kept x other;
          freed = λ x inside o. absurd (ground (arith, inside, o, append-mem x (d ∷ ds) c));
        },
      )

  pub put_first-Left :
      (d : Cell) (ds : List Cell)
      → IsList h (list_of (d ∷ ds)) (d ∷ ds)
      → (s : Store) × (put_first with_new (list_of (d ∷ ds)) c.0 ≡ ok s)
        × Left c.0 h (d ∷ ds) (c.1 ∷ entries (d ∷ ds)) s
  unfolding put_first
  put_first-Left d ds i =
      let g = update with_new c.0 (some (element_of c (some d.0))) in
      (
        (g, record (list_of (d ∷ ds)) { first = some c.0 }),
        rw (set_next-ok with_new c.0 (some d.0) _ new_there) refl,
        record {
          cells = c ∷ (d ∷ ds);
          list = record {
            first = refl;
            last = i.last;
            chain = (
              update_self with_new c.0 _,
              Chain-update with_new c.0 _ (d ∷ ds) (out (d ∷ ds) i) (chain (d ∷ ds) i),
            );
            distinct = (out (d ∷ ds) i, i.distinct);
          };
          stands_for = refl;
          outside = λ x other o.
              update_other with_new c.0 x _ (λ e. ground (arith, other, e)) ∙ kept x other;
          freed = λ x inside o. absurd (ground (arith, inside, o));
        },
      )

  pub sorted_insert-Left :
      (rounds : ℕ) (cs : List Cell)
      → IsList h (list_of cs) cs
      → length cs < suc rounds
      → (s : Store) × (sorted_insert rounds c.0 c.1.1 c.1.0 (h, list_of cs) ≡ ok (some s))
        × Left c.0 h cs (insert_sorted c.1 (entries cs)) s
  unfolding sorted_insert insert_sorted
  sorted_insert-Left rounds [] i lt = ((with_new, single c.0), refl, alone (c.1 ∷ []) refl)
  sorted_insert-Left rounds (d ∷ ds) i lt =
      let there = element-ok with_new d.0 _ (chain (d ∷ ds) i).0 in
      elim (Bool-cases (key_less c.1.0 d.1.0)) [
        | inl less ↦
            let (s, put, left) = put_first-Left d ds i in
            (
              s,
              rw (there, less) (ap (λ (r : Result Store). r >>= λ t. ok (some t)) put),
              rw less left,
            )
        | inr more ↦
            let (s, ran, done) =
              insert_from-Inserted (list_of (d ∷ ds)) c rounds with_new d ds (chain (d ∷ ds) i)
                i.distinct new_there (out (d ∷ ds) i) i.last (omega arith) in
            (s, rw (there, more) ran, rw more (inserted d ds i s done))
      ]
    where
      inserted :
          (d : Cell) (ds : List Cell)
          → IsList h (list_of (d ∷ ds)) (d ∷ ds)
          → (s : Store) → Inserted with_new (list_of (d ∷ ds)) c d ds s
          → Left c.0 h (d ∷ ds) (d.1 ∷ insert_sorted c.1 (entries ds)) s
      inserted d ds i s done = record {
        cells = d ∷ insert_cell c ds;
        list = record {
          first = done.first ∙ i.first;
          last = done.last;
          chain = done.chain;
          distinct = (
            ground (arith, insert_cell-mem d.0 c ds, i.distinct.0, out (d ∷ ds) i),
            insert_cell-distinct c ds i.distinct.1 (ground (arith, out (d ∷ ds) i)),
          );
        };
        stands_for = ap (λ (ys : List Entry). d.1 ∷ ys) (insert_cell-entries c ds);
        outside = λ x other o. done.outside x other o ∙ kept x other;
        freed = λ x inside o. absurd (ground (arith, inside, o, insert_cell-mem x c ds));
      }

-- The two pointers of a list with more than one element differ.
two_pointers :
    (d e : Cell) (es : List Cell)
    → mem d.0 (addresses (e ∷ es)) ≡ false
    → same_pointer (some d.0) (last_of (e ∷ es)) ≡ false
two_pointers d e es apart =
    let (y, at_y, inside) = last_of-mem e es in
    elim (Bool-cases (d.0 == y)) [
      | inl same ↦ absurd (
          ground (
            arith,
            inside,
            apart,
            ap (λ (z : ℕ). mem z (addresses (e ∷ es))) ((==_iff d.0 y).0 same),
          ))
      | inr other ↦ rw (at_y, other) refl
    ]

module _ (a : ℕ) (h : Heap) (d : Cell) (ds : List Cell)
    (i : IsList h (list_of (d ∷ ds)) (d ∷ ds)) where
  -- The heap without the first element.
  abbrev without : Heap
  without = update h d.0 none

  removed :
      (m : LinkedList)
      → m.first ≡ head_of ds
      → m.last ≡ last_of ds
      → Left a h (d ∷ ds) (entries ds) (without, m)
  removed m first last = record {
    cells = ds;
    list = record {
      first = first;
      last = last;
      chain = Chain-update h d.0 none ds i.distinct.0 i.chain.1;
      distinct = i.distinct.1;
    };
    stands_for = refl;
    outside = λ x other o. update_other h d.0 x none (λ e. ground (arith, o, e));
    freed = λ x inside o. ground (arith, inside, o);
  }

pub sorted_remove-Left :
    (a : ℕ) (h : Heap) (d : Cell) (ds : List Cell)
    → IsList h (list_of (d ∷ ds)) (d ∷ ds)
    → (s : Store) × (sorted_remove (h, list_of (d ∷ ds)) ≡ ok (s, some d.1))
      × Left a h (d ∷ ds) (entries ds) s
unfolding sorted_remove
sorted_remove-Left a h d [] i = (
  (without a h d [] i, empty_list),
  rw (element-ok h d.0 _ i.chain.0, (==_iff d.0 d.0).1 refl) refl,
  removed a h d [] i empty_list refl refl,
)
sorted_remove-Left a h d (e ∷ es) i = (
  (without a h d (e ∷ es) i, record (list_of (d ∷ (e ∷ es))) { first = some e.0 }),
  rw (element-ok h d.0 _ i.chain.0, two_pointers d e es i.distinct.0) refl,
  removed a h d (e ∷ es) i (record (list_of (d ∷ (e ∷ es))) { first = some e.0 }) refl i.last,
)
