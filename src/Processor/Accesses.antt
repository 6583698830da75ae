-- ===== src/Processor/Accesses.antt =====
-- The accesses to memory of an instruction: those of one, two or four bytes do not fault, and a word
-- of memory is four bytes.
use csci402_projects.Base.{
  ℕ, ◌+◌, ◌*◌, ◌/◌, ◌%◌, ◌<◌, ◌≡◌, refl, sym, subst, Bool, true, false, ◌&&◌, ◌==◌, leb, if-cases,
  inl, inr, Option-cases, update, ok, Meets, Meets-next, Meets-value, ap, ◌∙◌, ◌>>=◌, arith,
}
use csci402_projects.VirtualMemory.State.{Vm, page_size, memory_size, num_phys_pages}
use csci402_projects.VirtualMemory.Translate.{
  Exception, page_fault, Translation, translated, raised, misaligned, search_for_tlb_entry,
  through_entry, translate, Access, value, trapped, sign_extend_byte, load, store, touch, read_mem,
  write_mem,
}
use csci402_projects.VirtualMemory.Retry.{IsSize, misaligned-bound}
use csci402_projects.VirtualMemory.Isolation.{raised-page_fault}
use csci402_projects.Processor.Words.{word_limit}

abbrev pub IsBytes : (ℕ → ℕ) → Type 0
IsBytes m = (p : ℕ) → m p < 256

-- A page fault is a translation that misses, and leaves the tables as they were.
abbrev pub Missed : Vm → Exception → ℕ → Type 0
Missed t e addr =
    e ≡ page_fault
    → (size : ℕ) × (writing : Bool) × IsSize size
      × (translate t addr size writing ≡ ok (t, raised page_fault))

-- A value that was read is a word.
abbrev pub IsRead : Vm → ℕ → Vm × Access → Type 0
IsRead s addr (t, value v) = (t.memory ≡ s.memory) × (v < word_limit)
IsRead s addr (t, trapped e) = (t.memory ≡ s.memory) × Missed t e addr

-- A write that traps has left the memory as it was.
abbrev pub IsWritten : Vm → ℕ → Vm × Access → Type 0
IsWritten s addr (t, value v) = IsBytes t.memory
IsWritten s addr (t, trapped e) = (t.memory ≡ s.memory) × Missed t e addr

abbrev Unchanged : Vm → Vm × Translation → Type 0
Unchanged s x = x.0.memory ≡ s.memory

module _ (s : Vm) (addr size : ℕ) (writing : Bool) (sized : IsSize size) where
  through_entry-Meets :
      (i : ℕ)
      → misaligned addr size ≡ false
      → Meets false (Unchanged s) (through_entry s i (addr % page_size) size writing)
  unfolding through_entry
  through_entry-Meets i straight =
      let goal = Meets false (Unchanged s) in
      let page = (s.tlb i).physical_page in
      if-cases goal ((s.tlb i).read_only && writing) (λ locked. (refl, refl))
        (λ free.
          if-cases goal (leb num_phys_pages page) (λ out. (refl, refl))
            (λ inside.
              if-cases goal (leb (page * page_size + addr % page_size + size) memory_size)
                (λ fits. (refl, refl))
                (λ over.
                  absurd
                    (ground (arith, over, inside, misaligned-bound addr size straight sized)))))

  translate-Meets : Meets false (Unchanged s) (translate s addr size writing)
  unfolding translate
  translate-Meets =
      if-cases (Meets false (Unchanged s)) (misaligned addr size) (λ e. (refl, refl))
        (λ straight. elim (Option-cases (search_for_tlb_entry s (addr / page_size))) [
          | inl miss ↦ rw miss (refl, refl)
          | inr (i, hit) ↦ rw hit (through_entry-Meets i straight)
        ])

translate-Missed :
    (s t : Vm) (addr size : ℕ) (writing : Bool) (e : Exception)
    → IsSize size
    → translate s addr size writing ≡ ok (t, raised e)
    → Missed t e addr
translate-Missed s t addr size writing e sized h is_fault =
    let h' : translate s addr size writing ≡ ok (t, raised page_fault) =
      h ∙ ap (λ (x : Exception). ok (t, raised x)) is_fault in
    let same = (raised-page_fault s t addr size writing h').0 in
    (
      size,
      writing,
      sized,
      subst (λ u. translate u addr size writing ≡ ok (t, raised page_fault)) (sym same) h',
    )

load-Meets :
    (m : ℕ → ℕ) (p size : ℕ)
    → IsBytes m
    → IsSize size
    → Meets false (λ v. v < word_limit) (load m p size)
unfolding load sign_extend_byte
load-Meets m p size bytes sized =
    let goal = Meets false (λ (v : ℕ). v < word_limit) in
    if-cases goal (size == 1) (λ one. (refl, ground (arith, bytes p)))
      (λ more.
        if-cases goal (size == 2) (λ two. (refl, omega (arith, bytes p, bytes (p + 1))))
          (λ most.
            if-cases goal (size == 4)
              (λ four. (refl, omega (arith, bytes p, bytes (p + 1), bytes (p + 2), bytes (p + 3))))
              (λ other. absurd (ground (arith, sized, more, most, other)))))

update-IsBytes : (m : ℕ → ℕ) (p v : ℕ) → IsBytes m → v < 256 → IsBytes (update m p v)
update-IsBytes m p v bytes small q = ground (arith, bytes q)

store-Meets :
    (m : ℕ → ℕ) (p size v : ℕ) → IsBytes m → IsSize size → Meets false IsBytes (store m p size v)
unfolding store
store-Meets m p size v bytes sized =
    let goal = Meets false IsBytes in
    let first = update-IsBytes m p (v % 256) bytes (omega arith) in
    let second = update-IsBytes _ (p + 1) (v / 256 % 256) first (omega arith) in
    let third = update-IsBytes _ (p + 2) (v / 65536 % 256) second (omega arith) in
    let fourth = update-IsBytes _ (p + 3) (v / 16777216 % 256) third (omega arith) in
    if-cases goal (size == 1) (λ one. (refl, first))
      (λ more.
        if-cases goal (size == 2) (λ two. (refl, second))
          (λ most.
            if-cases goal (size == 4) (λ four. (refl, fourth))
              (λ other. absurd (ground (arith, sized, more, most, other)))))

-- An access goes through a translation.
pub read_mem-Meets :
    (ticks : ℕ) (s : Vm) (addr size : ℕ)
    → IsBytes s.memory
    → IsSize size
    → Meets false (IsRead s addr) (read_mem ticks s addr size)
unfolding read_mem
read_mem-Meets ticks s addr size bytes sized =
    Meets-next false (IsRead s addr) (translate s addr size false) _
      (Meets-value false (Unchanged s) _ (translate-Meets s addr size false sized)) arrive
  where
    arrive :
        (x : Vm × Translation)
        → Unchanged s x × (translate s addr size false ≡ ok x)
        → Meets false (IsRead s addr) (elim x.1 [
          | raised e ↦ ok (x.0, trapped e)
          | translated p ↦ (load x.0.memory p size >>= λ v. ok (touch x.0 p ticks, value v))
        ])
    arrive (t, raised e) (same, h) = (refl, (same, translate-Missed s t addr size false e sized h))
    arrive (t, translated p) (same, h) =
        Meets-next false (IsRead s addr) (load t.memory p size) _
          (load-Meets t.memory p size (subst IsBytes (sym same) bytes) sized)
          (λ v small. (refl, (same, small)))

pub write_mem-Meets :
    (ticks : ℕ) (s : Vm) (addr size v : ℕ)
    → IsBytes s.memory
    → IsSize size
    → Meets false (IsWritten s addr) (write_mem ticks s addr size v)
unfolding write_mem
write_mem-Meets ticks s addr size v bytes sized =
    Meets-next false (IsWritten s addr) (translate s addr size true) _
      (Meets-value false (Unchanged s) _ (translate-Meets s addr size true sized)) arrive
  where
    arrive :
        (x : Vm × Translation)
        → Unchanged s x × (translate s addr size true ≡ ok x)
        → Meets false (IsWritten s addr) (elim x.1 [
          | raised e ↦ ok (x.0, trapped e)
          | translated p ↦
              (store x.0.memory p size v >>= λ m.
              ok (touch (record x.0 { memory = m }) p ticks, value v))
        ])
    arrive (t, raised e) (same, h) = (refl, (same, translate-Missed s t addr size true e sized h))
    arrive (t, translated p) (same, h) =
        Meets-next false (IsWritten s addr) (store t.memory p size v) _
          (store-Meets t.memory p size v (subst IsBytes (sym same) bytes) sized)
          (λ m good. (refl, good))
