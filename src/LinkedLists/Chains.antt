-- ===== src/LinkedLists/Chains.antt =====
-- Chains of elements in the heap, and what a change of the heap leaves of them.
use csci402_projects.Base.{
  ℕ, ◌≡◌, ◌≢◌, refl, sym, ap, ◌∙◌, subst, true, false, ◌||◌, ◌==◌, Bool-cases, inl, inr, Option,
  none, some, List, [], ◌∷◌, ◌++◌, update, update_self, update_other, mem, mem-append, Uniq,
  Uniq-append, ==_iff, ok, arith,
}
use csci402_projects.LinkedLists.Nodes.{Pointer, Element, Heap, LinkedList, set_next}
use csci402_projects.LinkedLists.Sequence.{Entry}

-- The address of an element, with its key and item.
abbrev pub Cell : Type 0
Cell = ℕ × Entry

abbrev pub addresses : List Cell → List ℕ
addresses [] = []
addresses (c ∷ cs) = c.0 ∷ addresses cs

abbrev pub entries : List Cell → List Entry
entries [] = []
entries (c ∷ cs) = c.1 ∷ entries cs

abbrev pub head_of : List Cell → Pointer
head_of [] = none
head_of (c ∷ cs) = some c.0

abbrev pub last_of : List Cell → Pointer
last_of [] = none
last_of (c ∷ []) = some c.0
last_of (c ∷ (d ∷ ds)) = last_of (d ∷ ds)

abbrev pub element_of : Cell → Pointer → Element
element_of c next = record { next = next; key = c.1.0; item = c.1.1 }

-- The elements of the cells stand in the heap, each with a pointer to the one after it.
abbrev pub Chain : Heap → List Cell → Type 0
Chain h [] = Unit
Chain h (c ∷ cs) = (h c.0 ≡ some (element_of c (head_of cs))) × Chain h cs

-- The list in the heap is these cells.
pub record IsList (h : Heap) (l : LinkedList) (cs : List Cell) : Type 0 where
  pub first : l.first ≡ head_of cs
  pub last : l.last ≡ last_of cs
  pub chain : Chain h cs
  pub distinct : Uniq (addresses cs)

-- The heaps agree but at the cells, and at address `a`.
abbrev pub SameOutside : ℕ → List Cell → Heap → Heap → Type 0
SameOutside a cs h g = (x : ℕ) → (a == x) ≡ false → mem x (addresses cs) ≡ false → g x ≡ h x

pub Chain-same :
    (h g : Heap) (cs : List Cell)
    → ((x : ℕ) → mem x (addresses cs) ≡ true → g x ≡ h x)
    → Chain h cs
    → Chain g cs
Chain-same h g [] same c = tt
Chain-same h g (d ∷ ds) same c =
    (same d.0 (ground arith) ∙ c.0, Chain-same h g ds (λ x i. same x (ground (arith, i))) c.1)

pub Chain-update :
    (h : Heap) (a : ℕ) (e : Option Element) (cs : List Cell)
    → mem a (addresses cs) ≡ false
    → Chain h cs
    → Chain (update h a e) cs
Chain-update h a e cs out c =
    Chain-same h (update h a e) cs (λ x i. update_other h a x e (apart a x (addresses cs) out i)) c
  where
    apart : (a x : ℕ) (xs : List ℕ) → mem a xs ≡ false → mem x xs ≡ true → a ≢ x
    apart a x xs out i e = ground (arith, ap (λ (y : ℕ). mem y xs) e)

none-some : {e : Element} → none ≡ some e → ⊥
none-some e = cc

-- An address in a chain is not free.
pub free_outside :
    (h : Heap) (a : ℕ) (cs : List Cell) → h a ≡ none → Chain h cs → mem a (addresses cs) ≡ false
free_outside h a [] f c = refl
free_outside h a (d ∷ ds) f c = elim (Bool-cases (d.0 == a)) [
  | inl here ↦ absurd (none-some (sym f ∙ ap h (sym ((==_iff d.0 a).0 here)) ∙ c.0))
  | inr there ↦ rw there (free_outside h a ds f c.1)
]

addresses-append :
    (cs : List Cell) (c : Cell) → addresses (cs ++ (c ∷ [])) ≡ addresses cs ++ (c.0 ∷ [])
addresses-append [] c = refl
addresses-append (d ∷ ds) c = ap (λ (xs : List ℕ). d.0 ∷ xs) (addresses-append ds c)

pub entries-append :
    (cs : List Cell) (c : Cell) → entries (cs ++ (c ∷ [])) ≡ entries cs ++ (c.1 ∷ [])
entries-append [] c = refl
entries-append (d ∷ ds) c = ap (λ (xs : List Entry). d.1 ∷ xs) (entries-append ds c)

pub last_of-append : (cs : List Cell) (c : Cell) → last_of (cs ++ (c ∷ [])) ≡ some c.0
last_of-append [] c = refl
last_of-append (d ∷ []) c = refl
last_of-append (d ∷ (e ∷ es)) c = last_of-append (e ∷ es) c

pub append-distinct :
    (cs : List Cell) (c : Cell)
    → Uniq (addresses cs)
    → mem c.0 (addresses cs) ≡ false
    → Uniq (addresses (cs ++ (c ∷ [])))
append-distinct cs c u out =
    subst Uniq (sym (addresses-append cs c)) (Uniq-append (addresses cs) c.0 u out)

pub append-mem :
    (x : ℕ) (cs : List Cell) (c : Cell)
    → mem x (addresses (cs ++ (c ∷ []))) ≡ (mem x (addresses cs) || (c.0 == x))
append-mem x cs c =
    ap (λ (xs : List ℕ). mem x xs) (addresses-append cs c) ∙ mem-append x (addresses cs) c.0

-- The last address of a list is one of it.
pub last_of-mem :
    (c : Cell) (cs : List Cell)
    → (y : ℕ) × (last_of (c ∷ cs) ≡ some y) × (mem y (addresses (c ∷ cs)) ≡ true)
last_of-mem c [] = (c.0, refl, ground arith)
last_of-mem c (d ∷ ds) =
    let (y, at_y, inside) = last_of-mem d ds in (y, at_y, ground (arith, inside))

-- `p->next = q` at an element that is there.
pub set_next-ok :
    (h : Heap) (a : ℕ) (q : Pointer) (e : Element)
    → h a ≡ some e
    → set_next h (some a) q ≡ ok (update h a (some (record e { next = q })))
unfolding set_next
set_next-ok h a q e there = rw (set_next, there) refl

-- A new element goes behind the last one.
pub link_last :
    (h : Heap) (c d : Cell) (ds : List Cell)
    → Chain h (d ∷ ds)
    → Uniq (addresses (d ∷ ds))
    → h c.0 ≡ some (element_of c none)
    → mem c.0 (addresses (d ∷ ds)) ≡ false
    → (g : Heap) × (set_next h (last_of (d ∷ ds)) (some c.0) ≡ ok g)
      × Chain g ((d ∷ ds) ++ (c ∷ []))
      × ((x : ℕ) → mem x (addresses (d ∷ ds)) ≡ false → g x ≡ h x)
link_last h c d [] ch u new out =
    let g = update h d.0 (some (element_of d (some c.0))) in
    (
      g,
      set_next-ok h d.0 (some c.0) _ ch.0,
      (update_self h d.0 _, (update_other h d.0 c.0 _ (λ e. ground (arith, out, e)) ∙ new, tt)),
      λ x o. ground (arith, o),
    )
link_last h c d (e ∷ es) ch u new out =
    let (g, linked, chain, same) = link_last h c e es ch.1 u.1 new (ground (arith, out)) in
    (g, linked, (same d.0 u.0 ∙ ch.0, chain), λ x o. same x (ground (arith, o)))
