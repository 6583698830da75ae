-- ===== src/VirtualMemory/Lookup.antt =====
-- What `Translate` finds, and what it leaves of the tables.
use csci402_projects.Base.{
  ℕ, ◌+◌, ◌*◌, ◌/◌, ◌%◌, ◌≤◌, ◌≡◌, ◌≢◌, ◌&&◌, Bool, true, false, Bool-cases, leb, inl, inr, Option,
  none, some, ok, arith, refl, subst, sym, if◌then◌else◌,
}
use csci402_projects.VirtualMemory.State.{Vm, page_size, num_phys_pages, memory_size, set_tlb}
use csci402_projects.VirtualMemory.Translate.{
  Exception, Translation, translated, raised, page_fault, read_only_page, bus_error, address_error,
  search_for_tlb_entry, through_entry, misaligned, translate,
}
use csci402_projects.VirtualMemory.Coherent.{Shrinks, Shrinks-refl}

-- The entry after an access through it.
abbrev pub used : Vm → ℕ → Bool → Vm
used s i writing =
    set_tlb s i
      (record (s.tlb i) { use_bit = true; dirty = if writing then true else (s.tlb i).dirty })

used-Shrinks : (s : Vm) (i : ℕ) (writing : Bool) → Shrinks s (used s i writing)
used-Shrinks s i writing = record {
  frames = λ j. record { page = refl; place = refl; owner = refl; in_use = refl };
  entries = λ j on. (ground arith, ground arith, ground arith);
  turn = refl;
}

-- What a translation may give: a miss, a refusal, or an address through an entry.
pub data Outcome (s : Vm) (addr size : ℕ) (writing : Bool) (s' : Vm) (r : Translation)
    : Type 0 where
  missed :
      s' ≡ s
      → r ≡ raised page_fault
      → search_for_tlb_entry s (addr / page_size) ≡ none
      → misaligned addr size ≡ false
      → Outcome s addr size writing s' r
  refused :
      (e : Exception) → s' ≡ s → r ≡ raised e → e ≢ page_fault → Outcome s addr size writing s' r
  through :
      (i : ℕ)
      → search_for_tlb_entry s (addr / page_size) ≡ some i
      → s' ≡ used s i writing
      → r ≡ translated ((s.tlb i).physical_page * page_size + addr % page_size)
      → (s.tlb i).physical_page * page_size + addr % page_size + size ≤ memory_size
      → misaligned addr size ≡ false
      → Outcome s addr size writing s' r

through_entry-Outcome :
    (s s' : Vm) (r : Translation) (addr size i : ℕ) (writing : Bool)
    → misaligned addr size ≡ false
    → search_for_tlb_entry s (addr / page_size) ≡ some i
    → through_entry s i (addr % page_size) size writing ≡ ok (s', r)
    → Outcome s addr size writing s' r
unfolding through_entry
through_entry-Outcome s s' r addr size i writing straight found e =
    elim (Bool-cases ((s.tlb i).read_only && writing)) [
      | inl locked ↦ refused read_only_page (ground arith) (ground arith) (ground arith)
      | inr allowed ↦ elim (Bool-cases (leb num_phys_pages (s.tlb i).physical_page)) [
        | inl out ↦ refused bus_error (ground arith) (ground arith) (ground arith)
        | inr inside ↦
            elim (Bool-cases
              (leb ((s.tlb i).physical_page * page_size + addr % page_size + size) memory_size)) [
                | inl fits ↦ through i found (ground arith) (ground arith) (ground arith) straight
                | inr over ↦ absurd (ground arith)
              ]
      ]
    ]

pub translate-Outcome :
    (s s' : Vm) (r : Translation) (addr size : ℕ) (writing : Bool)
    → translate s addr size writing ≡ ok (s', r)
    → Outcome s addr size writing s' r
unfolding translate
translate-Outcome s s' r addr size writing e = elim (Bool-cases (misaligned addr size)) [
  | inl bent ↦ refused address_error (ground arith) (ground arith) (ground arith)
  | inr straight ↦ found straight (search_for_tlb_entry s (addr / page_size)) refl
]
  where
    found :
        misaligned addr size ≡ false
        → (o : Option ℕ) → search_for_tlb_entry s (addr / page_size) ≡ o
        → Outcome s addr size writing s' r
    found straight none f =
        missed (ground (arith, f, e, straight)) (ground (arith, f, e, straight)) f straight
    found straight (some i) f =
        through_entry-Outcome s s' r addr size i writing straight f (ground (arith, f, e, straight))

pub translate-Shrinks :
    (s s' : Vm) (r : Translation) (addr size : ℕ) (writing : Bool)
    → translate s addr size writing ≡ ok (s', r)
    → Shrinks s s'
translate-Shrinks s s' r addr size writing e = elim (translate-Outcome s s' r addr size writing e) [
  | missed same _ _ _ ↦ subst (Shrinks s) (sym same) (Shrinks-refl s)
  | refused _ same _ _ ↦ subst (Shrinks s) (sym same) (Shrinks-refl s)
  | through i _ same _ _ _ ↦ subst (Shrinks s) (sym same) (used-Shrinks s i writing)
]
