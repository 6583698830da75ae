-- ===== src/LinkedLists/Nodes.antt =====
-- `List` of threads/list.cc and list.h: the elements in a heap, by their address. A pointer is NULL
-- or an address; `new` gives the address, which is a parameter, and `delete` takes the element out of
-- the heap.
use csci402_projects.Base.{
  ℕ, zero, suc, Bool, true, false, ◌==◌, if◌then◌else◌, Option, none, some, List, [], ◌∷◌, update,
  ℤ, pos, negsuc, ltb, Result, ok, fault, null_pointer, dangling, ◌>>=◌,
}

abbrev pub Pointer : Type 0
Pointer = Option ℕ

-- ListElement; an item is a `void *`.
pub record Element : Type 0 where
  pub next : Pointer
  pub key : ℤ
  pub item : Pointer

abbrev pub Heap : Type 0
Heap = ℕ → Option Element

pub record LinkedList : Type 0 where
  pub first : Pointer
  pub last : Pointer

-- `x < y` on keys
abbrev pub key_less : ℤ → ℤ → Bool
key_less (pos a) (pos b) = ltb a b
key_less (pos a) (negsuc b) = false
key_less (negsuc a) (pos b) = true
key_less (negsuc a) (negsuc b) = ltb b a

abbrev pub same_pointer : Pointer → Pointer → Bool
same_pointer none none = true
same_pointer none (some b) = false
same_pointer (some a) none = false
same_pointer (some a) (some b) = a == b

-- The element behind a pointer.
unfoldable pub element : Heap → Pointer → Result Element
element h none = fault null_pointer
element h (some a) = elim (h a) [ none ↦ fault dangling | some e ↦ ok e ]

-- `p->next = q`
unfoldable pub set_next : Heap → Pointer → Pointer → Result Heap
set_next h none q = fault null_pointer
set_next h (some a) q = elim (h a) [
  | none ↦ fault dangling
  | some e ↦ ok (update h a (some (record e { next = q })))
]

-- `new ListElement(item, key)`
abbrev pub new_element : Heap → ℕ → ℤ → Pointer → Heap
new_element h a key item = update h a (some (record { next = none; key = key; item = item }))

abbrev pub free : Heap → Pointer → Heap
free h none = h
free h (some a) = update h a none

abbrev pub empty_list : LinkedList
empty_list = record { first = none; last = none }

-- The constructor gives the empty list.
abbrev pub is_empty : LinkedList → Bool
is_empty l = same_pointer l.first none

abbrev pub single : ℕ → LinkedList
single a = record { first = some a; last = some a }

abbrev pub Store : Type 0
Store = Heap × LinkedList

-- `last->next = element; last = element;`
unfoldable pub put_last : Heap → LinkedList → ℕ → Result Store
unfolding set_next
put_last h l a = set_next h l.last (some a) >>= λ g. ok (g, record l { last = some a })

-- `element->next = first; first = element;`
unfoldable pub put_first : Heap → LinkedList → ℕ → Result Store
unfolding set_next
put_first h l a = set_next h (some a) l.first >>= λ g. ok (g, record l { first = some a })

unfoldable pub append : ℕ → Pointer → Store → Result Store
unfolding put_last
append a item (h, l) =
    let g = new_element h a (pos 0) item in if is_empty l then ok (g, single a) else put_last g l a

unfoldable pub prepend : ℕ → Pointer → Store → Result Store
unfolding put_first
prepend a item (h, l) =
    let g = new_element h a (pos 0) item in if is_empty l then ok (g, single a) else put_first g l a

-- `element->next = ptr->next; ptr->next = element;`
unfoldable pub put_between : Heap → LinkedList → Pointer → Pointer → ℕ → Result Store
unfolding set_next
put_between h l p q a = set_next h (some a) q >>= λ g. set_next g p (some a) >>= λ g'. ok (g', l)

-- The loop of SortedInsert from `p` on; `none` says that it goes on after the given rounds.
unfoldable pub insert_from : ℕ → Heap → LinkedList → Pointer → ℕ → ℤ → Result (Option Store)
unfolding element put_last put_between
insert_from zero h l p a key = ok none
insert_from (suc rounds) h l p a key =
    (element h p >>= λ e. elim e.next [
      | none ↦ (put_last h l a >>= λ s. ok (some s))
      | some b ↦
          (element h (some b) >>= λ f.
          let rest = insert_from rounds h l (some b) a key in
          if key_less key f.key then (put_between h l p (some b) a >>= λ s. ok (some s)) else rest)
    ])

unfoldable pub sorted_insert : ℕ → ℕ → Pointer → ℤ → Store → Result (Option Store)
unfolding element put_first insert_from
sorted_insert rounds a item key (h, l) =
    let g = new_element h a key item in
    if is_empty l
    then ok (some (g, single a))
    else (element g l.first >>= λ e.
        let rest = insert_from rounds g l l.first a key in
        if key_less key e.key then (put_first g l a >>= λ s. ok (some s)) else rest)

-- SortedRemove: the key and the item of the first element, or NULL.
unfoldable pub sorted_remove : Store → Result (Store × Option (ℤ × Pointer))
unfolding element
sorted_remove (h, l) =
    if is_empty l
    then ok ((h, l), none)
    else (element h l.first >>= λ e. ok (
      (
        free h l.first,
        if same_pointer l.first l.last then empty_list else record l { first = e.next },
      ),
      some (e.key, e.item),
    ))

-- Remove gives the item alone, and NULL for an empty list.
abbrev pub item_of : Option (ℤ × Pointer) → Pointer
item_of none = none
item_of (some (key, item)) = item

unfoldable pub remove : Store → Result (Store × Pointer)
unfolding sorted_remove
remove s = sorted_remove s >>= λ r. ok (r.0, item_of r.1)

-- Mapcar: the items that the function is called with, from `p` on, where it leaves the list alone.
unfoldable pub mapcar_from : ℕ → Heap → Pointer → Result (Option (List Pointer))
unfolding element
mapcar_from zero h p = ok none
mapcar_from (suc rounds) h none = ok (some [])
mapcar_from (suc rounds) h (some a) =
    (element h (some a) >>= λ e. mapcar_from rounds h e.next >>= λ rest.
    ok (elim rest [ none ↦ none | some items ↦ some (e.item ∷ items) ]))

-- The destructor removes until it gets NULL.
unfoldable pub destroy : ℕ → Store → Result (Option Store)
unfolding remove
destroy zero s = ok none
destroy (suc rounds) s =
    (remove s >>= λ r. elim r.1 [ none ↦ ok (some r.0) | some item ↦ destroy rounds r.0 ])

-- A call that changes the list, with the address of a new element and the rounds of its loop, and what
-- SortedRemove returns.
pub data Operation : Type 0 where
  appends : (item : Pointer) → Operation
  prepends : (item : Pointer) → Operation
  inserts : (item : Pointer) (key : ℤ) → Operation
  removes : Operation

abbrev finished : Result Store → Result (Option (Store × Option (ℤ × Pointer)))
finished r = r >>= λ s. ok (some (s, none))

unfoldable pub perform : ℕ → ℕ → Operation → Store → Result (Option (Store × Option (ℤ × Pointer)))
unfolding append prepend sorted_insert sorted_remove
perform rounds a (appends item) s = finished (append a item s)
perform rounds a (prepends item) s = finished (prepend a item s)
perform rounds a (inserts item key) s =
    (sorted_insert rounds a item key s >>= λ o.
    ok (elim o [ none ↦ none | some t ↦ some (t, none) ]))
perform rounds a removes s = sorted_remove s >>= λ r. ok (some r)
