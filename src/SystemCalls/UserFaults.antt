-- ===== src/SystemCalls/UserFaults.antt =====
-- What copyin and copyout do at a page fault.
use csci402_projects.Base.{
  ℕ, ◌/◌, ◌%◌, ◌+◌, ◌*◌, ◌≡◌, inl, false, true, none, List, ◌∷◌, ok, arith, refl,
}
use csci402_projects.VirtualMemory.State.{Vm, page_size}
use csci402_projects.VirtualMemory.Translate.{
  page_fault, translated, trapped, misaligned, search_for_tlb_entry, translate, touch,
  sign_extend_byte, load, read_mem, write_mem,
}
use csci402_projects.VirtualMemory.PageFault.{Policy, done, handle_page_fault}
use csci402_projects.VirtualMemory.Coherent.{Coherent}
use csci402_projects.VirtualMemory.Handling.{handle_page_fault-Served}
use csci402_projects.VirtualMemory.Retry.{Served-translate}
use csci402_projects.SystemCalls.UserCopy.{after_trap, got, read_byte, bad_pointer, copy_out}

aligned_byte : (addr : ℕ) → misaligned addr 1 ≡ false
unfolding misaligned
aligned_byte addr = ground arith

read_mem-missed :
    (ticks : ℕ) (s : Vm) (addr : ℕ)
    → search_for_tlb_entry s (addr / page_size) ≡ none
    → read_mem ticks s addr 1 ≡ ok (s, trapped page_fault)
unfolding read_mem translate
read_mem-missed ticks s addr e = ground (arith, e, aligned_byte addr)

write_mem-missed :
    (ticks : ℕ) (s : Vm) (addr b : ℕ)
    → search_for_tlb_entry s (addr / page_size) ≡ none
    → write_mem ticks s addr 1 b ≡ ok (s, trapped page_fault)
unfolding write_mem translate
write_mem-missed ticks s addr b e = ground (arith, e, aligned_byte addr)

-- A byte that is translated is read.
read_byte-translated :
    (policy : Policy) (policies : List Policy) (ticks : ℕ) (s s' : Vm) (running addr p : ℕ)
    → translate s addr 1 false ≡ ok (s', translated p)
    → (s'' : Vm) × (b : ℕ) × (read_byte (policy ∷ policies) ticks s running addr ≡ ok (got s'' b))
unfolding read_byte read_mem load
read_byte-translated policy policies ticks s s' running addr p e =
    (touch s' p ticks, sign_extend_byte (s'.memory p) % 256, ground (arith, e))

-- Let the TLB not show the page of an address, in a coherent state, and let the handler of the page fault
-- come to its end. Then copyin reads the byte in its second round, but copyout of one byte or more says
-- that the pointer is bad, although the handler has just made the address good.
pub copy-page_fault :
    (policy next : Policy) (policies : List Policy) (ticks : ℕ) (s s' : Vm) (running addr b : ℕ)
    (buffer : List ℕ)
    → Coherent s running
    → search_for_tlb_entry s (addr / page_size) ≡ none
    → handle_page_fault policy s running (addr / page_size) ≡ ok (done s')
    → ((s'' : Vm) × (w : ℕ) × (read_byte (policy ∷ next ∷ policies) ticks s running addr
          ≡ ok (got s'' w)))
      × (copy_out policy ticks s running addr (b ∷ buffer) ≡ ok (bad_pointer s'))
      × ((s'' : Vm) × (p : ℕ) × (translate s' addr 1 true ≡ ok (s'', translated p)))
unfolding read_byte copy_out after_trap
copy-page_fault policy next policies ticks s s' running addr b buffer c nothing e =
    let (frame, v) = handle_page_fault-Served policy s s' running (addr / page_size) c nothing e in
    let (s₁, reads) =
      Served-translate s' running (addr / page_size) frame addr 1 false v refl (aligned_byte addr)
        (inl refl) in
    let (s₂, writes) =
      Served-translate s' running (addr / page_size) frame addr 1 true v refl (aligned_byte addr)
        (inl refl) in
    let (s₃, w, again) =
      read_byte-translated next policies ticks s' s₁ running addr
        (frame * page_size + addr % page_size) reads in
    (
      (s₃, w, ground (arith, read_mem-missed ticks s addr nothing, e, again)),
      ground (arith, write_mem-missed ticks s addr b nothing, e),
      (s₂, frame * page_size + addr % page_size, writes),
    )
