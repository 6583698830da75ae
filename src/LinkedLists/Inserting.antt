-- ===== src/LinkedLists/Inserting.antt =====
-- SortedInsert of threads/list.cc: its loop finds the place, and the pointers around it are right.
use csci402_projects.Base.{
  ℕ, zero, suc, ◌<◌, ◌≡◌, ◌≢◌, refl, sym, ap, ◌∙◌, subst, true, false, ◌||◌, ◌==◌, Bool-cases, inl,
  inr, if◌then◌else◌, none, some, List, [], ◌∷◌, length, update, update_self, update_other, mem,
  Uniq, ok, arith,
}
use csci402_projects.LinkedLists.Nodes.{
  Element, Heap, LinkedList, Store, key_less, element, put_last, put_between, insert_from,
}
use csci402_projects.LinkedLists.Sequence.{Entry, insert_sorted}
use csci402_projects.LinkedLists.Chains.{
  Cell, addresses, entries, last_of, element_of, Chain, SameOutside, Chain-update, set_next-ok,
  link_last,
}

-- The cells after an insertion.
unfoldable pub insert_cell : Cell → List Cell → List Cell
insert_cell c [] = c ∷ []
insert_cell c (d ∷ ds) = if key_less c.1.0 d.1.0 then c ∷ (d ∷ ds) else d ∷ insert_cell c ds

pub insert_cell-entries :
    (c : Cell) (ds : List Cell) → entries (insert_cell c ds) ≡ insert_sorted c.1 (entries ds)
unfolding insert_cell insert_sorted
insert_cell-entries c [] = refl
insert_cell-entries c (d ∷ ds) = elim (Bool-cases (key_less c.1.0 d.1.0)) [
  | inl less ↦ rw less refl
  | inr more ↦ rw more (ap (λ (ys : List Entry). d.1 ∷ ys) (insert_cell-entries c ds))
]

pub insert_cell-mem :
    (x : ℕ) (c : Cell) (ds : List Cell)
    → mem x (addresses (insert_cell c ds)) ≡ ((c.0 == x) || mem x (addresses ds))
unfolding insert_cell
insert_cell-mem x c [] = ground arith
insert_cell-mem x c (d ∷ ds) = elim (Bool-cases (key_less c.1.0 d.1.0)) [
  | inl less ↦ rw less refl
  | inr more ↦ rw more (ground (arith, insert_cell-mem x c ds))
]

pub insert_cell-distinct :
    (c : Cell) (ds : List Cell)
    → Uniq (addresses ds)
    → mem c.0 (addresses ds) ≡ false
    → Uniq (addresses (insert_cell c ds))
unfolding insert_cell
insert_cell-distinct c [] u out = (refl, tt)
insert_cell-distinct c (d ∷ ds) u out = elim (Bool-cases (key_less c.1.0 d.1.0)) [
  | inl less ↦ rw less (out, u)
  | inr more ↦ rw more (
      (
        ground (arith, insert_cell-mem d.0 c ds, u.0, out),
        insert_cell-distinct c ds u.1 (ground (arith, out)),
      ))
]

insert_less :
    (c e : Cell) (es : List Cell)
    → key_less c.1.0 e.1.0 ≡ true
    → insert_cell c (e ∷ es) ≡ c ∷ (e ∷ es)
unfolding insert_cell
insert_less c e es less = rw less refl

insert_more :
    (c e : Cell) (es : List Cell)
    → key_less c.1.0 e.1.0 ≡ false
    → insert_cell c (e ∷ es) ≡ e ∷ insert_cell c es
unfolding insert_cell
insert_more c e es more = rw more refl

pub element-ok : (h : Heap) (a : ℕ) (e : Element) → h a ≡ some e → element h (some a) ≡ ok e
unfolding element
element-ok h a e there = rw (element, there) refl

-- What the loop leaves, from the element `d` on.
pub record Inserted (h : Heap) (l : LinkedList) (c d : Cell) (ds : List Cell) (s : Store)
    : Type 0 where
  pub chain : Chain s.0 (d ∷ insert_cell c ds)
  pub first : s.1.first ≡ l.first
  pub last : s.1.last ≡ last_of (d ∷ insert_cell c ds)
  pub outside : SameOutside c.0 (d ∷ ds) h s.0

module _ (l : LinkedList) (c : Cell) where
  -- Between `d` and `e`.
  between :
      (h : Heap) (d e : Cell) (es : List Cell)
      → Chain h (d ∷ (e ∷ es))
      → Uniq (addresses (d ∷ (e ∷ es)))
      → h c.0 ≡ some (element_of c none)
      → mem c.0 (addresses (d ∷ (e ∷ es))) ≡ false
      → l.last ≡ last_of (d ∷ (e ∷ es))
      → key_less c.1.0 e.1.0 ≡ true
      → (s : Store) × (put_between h l (some d.0) (some e.0) c.0 ≡ ok s)
        × Inserted h l c d (e ∷ es) s
  unfolding put_between
  between h d e es ch u new out last less =
      let ne : c.0 ≢ d.0 = λ same. ground (arith, out, same) in
      let ne' : d.0 ≢ c.0 = λ same. ground (arith, out, same) in
      let g = update h c.0 (some (element_of c (some e.0))) in
      let g' = update g d.0 (some (element_of d (some c.0))) in
      let at_d = update_other h c.0 d.0 (some (element_of c (some e.0))) ne ∙ ch.0 in
      let shape : insert_cell c (e ∷ es) ≡ c ∷ (e ∷ es) = insert_less c e es less in
      let rest =
        Chain-update g d.0 (some (element_of d (some c.0))) (e ∷ es) u.0 (
          Chain-update h c.0 (some (element_of c (some e.0))) (e ∷ es) (ground (arith, out))
            ch.1) in
      let chain : Chain g' (d ∷ (c ∷ (e ∷ es))) =
        (update_self g d.0 _, (update_other g d.0 c.0 _ ne' ∙ update_self h c.0 _, rest)) in
      (
        (g', l),
        rw (set_next-ok h c.0 (some e.0) _ new, set_next-ok g d.0 (some c.0) _ at_d) refl,
        record {
          chain = subst (λ xs. Chain g' (d ∷ xs)) (sym shape) chain;
          first = refl;
          last = subst (λ xs. l.last ≡ last_of (d ∷ xs)) (sym shape) last;
          outside = λ x other o. ground (arith, other, o);
        },
      )

  -- The loop ends in as many rounds as there are elements from `d` on.
  pub insert_from-Inserted :
      (rounds : ℕ) (h : Heap) (d : Cell) (ds : List Cell)
      → Chain h (d ∷ ds)
      → Uniq (addresses (d ∷ ds))
      → h c.0 ≡ some (element_of c none)
      → mem c.0 (addresses (d ∷ ds)) ≡ false
      → l.last ≡ last_of (d ∷ ds)
      → length ds < rounds
      → (s : Store) × (insert_from rounds h l (some d.0) c.0 c.1.0 ≡ ok (some s))
        × Inserted h l c d ds s
  unfolding insert_from put_last insert_cell
  insert_from-Inserted zero h d ds ch u new out last lt = absurd (omega arith)
  insert_from-Inserted (suc n) h d [] ch u new out last lt =
      let (g, linked, chain, same) = link_last h c d [] ch u new out in
      (
        (g, record l { last = some c.0 }),
        rw (element-ok h d.0 _ ch.0, last, linked) refl,
        record { chain = chain; first = refl; last = refl; outside = λ x other o. same x o },
      )
  insert_from-Inserted (suc n) h d (e ∷ es) ch u new out last lt =
      elim (Bool-cases (key_less c.1.0 e.1.0)) [
        | inl less ↦
            let (s, put, done) = between h d e es ch u new out last less in
            (s, rw (element-ok h d.0 _ ch.0, element-ok h e.0 _ ch.1.0, less, put) refl, done)
        | inr more ↦
            let (s, ran, done) =
              insert_from-Inserted n h e es ch.1 u.1 new (ground (arith, out)) last (omega arith) in
            let shape : insert_cell c (e ∷ es) ≡ e ∷ insert_cell c es = insert_more c e es more in
            let at_d = done.outside d.0 (ground (arith, out)) u.0 ∙ ch.0 in
            (
              s,
              rw (element-ok h d.0 _ ch.0, element-ok h e.0 _ ch.1.0, more, ran) refl,
              record {
                chain = subst (λ xs. Chain s.0 (d ∷ xs)) (sym shape) (at_d, done.chain);
                first = done.first;
                last = subst (λ xs. s.1.last ≡ last_of (d ∷ xs)) (sym shape) done.last;
                outside = λ x other o. done.outside x other (ground (arith, o));
              },
            )
      ]
