-- ===== src/VirtualMemory/Isolation.antt =====
-- The tables are coherent in every state that the processes reach, so that no process reaches the
-- memory of another.
use csci402_projects.Base.{
  ℕ, zero, suc, ◌+◌, ◌*◌, ◌/◌, ◌%◌, ◌≤◌, ◌≡◌, Bool, true, false, none, ok, fault, Result, arith,
  refl, subst,
}
use csci402_projects.FileSystem.Bitmap.{BitMap}
use csci402_projects.VirtualMemory.State.{Vm, File, page_size, memory_size}
use csci402_projects.VirtualMemory.Translate.{
  Translation, Access, translated, raised, page_fault, search_for_tlb_entry, misaligned, translate,
  read_mem, write_mem, load, store, touch,
}
use csci402_projects.VirtualMemory.PageFault.{Policy, done, handle_page_fault}
use csci402_projects.VirtualMemory.Spaces.{
  new_address_space, add_page, add_pages, make_new_pt, initialize,
}
use csci402_projects.VirtualMemory.System.{
  Machine, Step, Steps, reads, writes, faults, switches, loads, forks, here, next,
}
use csci402_projects.VirtualMemory.Coherent.{Coherent, Holds, Shrinks-Coherent}
use csci402_projects.VirtualMemory.Switches.{restore_state-Coherent, initialize-Coherent}
use csci402_projects.VirtualMemory.Lookup.{
  missed, refused, through, translate-Outcome, translate-Shrinks,
}
use csci402_projects.VirtualMemory.Searches.{search_for_tlb_entry-some}
use csci402_projects.VirtualMemory.Handling.{handle_page_fault-Served}

-- New pages change neither the frames nor the TLB.
abbrev SameFrames : Vm → Vm → Type 0
SameFrames s s' = (s'.tlb ≡ s.tlb) × (s'.ipt ≡ s.ipt) × (s'.next_tlb ≡ s.next_tlb)

SameFrames-Coherent : (s s' : Vm) (p : ℕ) → SameFrames s s' → Coherent s p → Coherent s' p
SameFrames-Coherent s s' p (a, b, d) c =
    Shrinks-Coherent s s'
      (record {
        frames = λ i. rw b (record { page = refl; place = refl; owner = refl; in_use = refl });
        entries = λ i. rw a (λ on. (on, refl, refl));
        turn = d;
      })
      p c

add_pages-SameFrames : (s : Vm) (p i left : ℕ) → SameFrames s (add_pages s p i left)
unfolding add_pages
add_pages-SameFrames s p i zero = (refl, refl, refl)
add_pages-SameFrames s p i (suc left) = add_pages-SameFrames (add_page s p i) p (suc i) left

make_new_pt-SameFrames : (s : Vm) (p : ℕ) → SameFrames s (make_new_pt s p).0
unfolding make_new_pt
make_new_pt-SameFrames s p = add_pages-SameFrames s p (s.num_pages p) 8

new_address_space-SameFrames :
    (s : Vm) (p : ℕ) (executable : File) (size : ℕ)
    → SameFrames s (new_address_space s p executable size)
unfolding new_address_space
new_address_space-SameFrames s p executable size = (refl, refl, refl)

read_mem-Coherent :
    (s s' : Vm) (ticks addr size p : ℕ) (a : Access)
    → Coherent s p
    → read_mem ticks s addr size ≡ ok (s', a)
    → Coherent s' p
unfolding read_mem
read_mem-Coherent s s' ticks addr size p a c e = looked (translate s addr size false) refl
  where
    after : (s₁ : Vm) (r : Translation) → translate s addr size false ≡ ok (s₁, r) → Coherent s₁ p
    after s₁ r t = Shrinks-Coherent s s₁ (translate-Shrinks s s₁ r addr size false t) p c

    moved : (s₁ : Vm) → Coherent s₁ p → SameFrames s₁ s' → Coherent s' p
    moved s₁ c₁ same = SameFrames-Coherent s₁ s' p same c₁

    loaded :
        (s₁ : Vm) (phys : ℕ)
        → translate s addr size false ≡ ok (s₁, translated phys)
        → (r : Result ℕ) → load s₁.memory phys size ≡ r
        → Coherent s' p
    loaded s₁ phys t (fault reason) l = absurd (ground (arith, t, l, e))
    loaded s₁ phys t (ok v) l =
        subst (λ u. Coherent u p) (ground (arith, t, l, e))
          (SameFrames-Coherent s₁ (touch s₁ phys ticks) p (refl, refl, refl)
            (after s₁ (translated phys) t))

    looked : (r : Result (Vm × Translation)) → translate s addr size false ≡ r → Coherent s' p
    looked (fault reason) t = absurd (ground (arith, t, e))
    looked (ok (s₁, raised x)) t =
        subst (λ u. Coherent u p) (ground (arith, t, e)) (after s₁ (raised x) t)
    looked (ok (s₁, translated phys)) t = loaded s₁ phys t (load s₁.memory phys size) refl

write_mem-Coherent :
    (s s' : Vm) (ticks addr size v p : ℕ) (a : Access)
    → Coherent s p
    → write_mem ticks s addr size v ≡ ok (s', a)
    → Coherent s' p
unfolding write_mem
write_mem-Coherent s s' ticks addr size v p a c e = looked (translate s addr size true) refl
  where
    after : (s₁ : Vm) (r : Translation) → translate s addr size true ≡ ok (s₁, r) → Coherent s₁ p
    after s₁ r t = Shrinks-Coherent s s₁ (translate-Shrinks s s₁ r addr size true t) p c

    stored :
        (s₁ : Vm) (phys : ℕ)
        → translate s addr size true ≡ ok (s₁, translated phys)
        → (r : Result (ℕ → ℕ)) → store s₁.memory phys size v ≡ r
        → Coherent s' p
    stored s₁ phys t (fault reason) l = absurd (ground (arith, t, l, e))
    stored s₁ phys t (ok memory) l =
        subst (λ u. Coherent u p) (ground (arith, t, l, e))
          (SameFrames-Coherent s₁ (touch (record s₁ { memory = memory }) phys ticks) p
            (refl, refl, refl) (after s₁ (translated phys) t))

    looked : (r : Result (Vm × Translation)) → translate s addr size true ≡ r → Coherent s' p
    looked (fault reason) t = absurd (ground (arith, t, e))
    looked (ok (s₁, raised x)) t =
        subst (λ u. Coherent u p) (ground (arith, t, e)) (after s₁ (raised x) t)
    looked (ok (s₁, translated phys)) t = stored s₁ phys t (store s₁.memory phys size v) refl

-- A page fault is raised at a page that the TLB does not show.
pub raised-page_fault :
    (s s' : Vm) (addr size : ℕ) (writing : Bool)
    → translate s addr size writing ≡ ok (s', raised page_fault)
    → (s' ≡ s) × (search_for_tlb_entry s (addr / page_size) ≡ none) × (misaligned addr size ≡ false)
raised-page_fault s s' addr size writing e =
    elim (translate-Outcome s s' (raised page_fault) addr size writing e) [
      | missed same _ none_there straight ↦ (same, none_there, straight)
      | refused x _ is_x other ↦ absurd (ground (arith, is_x, other))
      | through i _ _ is_address _ _ ↦ absurd (ground (arith, is_address))
    ]

faults-Coherent :
    (policy : Policy) (s s₁ s' : Vm) (addr size p : ℕ) (writing : Bool)
    → Coherent s p
    → translate s addr size writing ≡ ok (s₁, raised page_fault)
    → handle_page_fault policy s₁ p (addr / page_size) ≡ ok (done s')
    → Coherent s' p
faults-Coherent policy s s₁ s' addr size p writing c t e =
    let (same, none_there, _) = raised-page_fault s s₁ addr size writing t in
    let (frame, served) =
      handle_page_fault-Served policy s s' p (addr / page_size) c none_there
        (subst (λ u. handle_page_fault policy u p (addr / page_size) ≡ ok (done s')) same e) in
    served.coherent

abbrev pub CoherentMachine : Machine → Type 0
CoherentMachine m = Coherent m.vm m.running

Step-Coherent : {m n : Machine} → Step m n → CoherentMachine m → CoherentMachine n
Step-Coherent {m} (reads ticks addr size s got e) c =
    read_mem-Coherent m.vm s ticks addr size m.running got c e
Step-Coherent {m} (writes ticks addr size v s got e) c =
    write_mem-Coherent m.vm s ticks addr size v m.running got c e
Step-Coherent {m} (faults policy addr size writing s s' t e) c =
    faults-Coherent policy m.vm s s' addr size m.running writing c t e
Step-Coherent {m} (switches process) c = restore_state-Coherent m.vm m.running process c
Step-Coherent {m} (loads p executable size) c =
    SameFrames-Coherent m.vm (new_address_space m.vm p executable size) m.running
      (new_address_space-SameFrames m.vm p executable size) c
Step-Coherent {m} forks c =
    SameFrames-Coherent m.vm (make_new_pt m.vm m.running).0 m.running
      (make_new_pt-SameFrames m.vm m.running) c

-- In every state that the processes reach from one where they hold, whatever they read, write, fault
-- at, switch to, load or fork: an entry of the IPT in use stands at its frame; no page of a process is
-- in two frames; each entry of the TLB in use gives the frame that the IPT says holds that page for
-- the process that runs; no page is in the TLB twice.
pub Steps-Coherent : {m n : Machine} → Steps m n → CoherentMachine m → CoherentMachine n
Steps-Coherent here c = c
Steps-Coherent (next steps step) c = Step-Coherent step (Steps-Coherent steps c)

-- An address in a frame, from the frame and the offset.
through_frame :
    (s : Vm) (vpn p frame addr size phys : ℕ)
    → phys ≡ frame * page_size + addr % page_size
    → frame * page_size + addr % page_size + size ≤ memory_size
    → Holds s frame vpn p
    → (phys + size ≤ memory_size)
      × (phys % page_size ≡ addr % page_size)
      × Holds s (phys / page_size) vpn p
through_frame s vpn p frame addr size phys at_phys fits held =
    (omega arith, omega arith, subst (λ f. Holds s f vpn p) (omega arith) held)

-- From the start of the system on, in every state that the processes reach: an address of the process
-- that runs is translated only to an address in memory, at the same offset, in a frame that the IPT
-- gives to this process for this very page.
pub isolation :
    (s₀ : Vm) (places : BitMap) (first : ℕ) (m : Machine)
    → Steps (record { vm = initialize s₀ places; running = first }) m
    → (addr size : ℕ) (writing : Bool) (s' : Vm) (phys : ℕ)
    → translate m.vm addr size writing ≡ ok (s', translated phys)
    → (phys + size ≤ memory_size)
      × (phys % page_size ≡ addr % page_size)
      × Holds m.vm (phys / page_size) (addr / page_size) m.running
isolation s₀ places first m steps addr size writing s' phys t =
    elim (translate-Outcome m.vm s' (translated phys) addr size writing t) [
      | missed _ is_raised _ _ ↦ absurd (ground (arith, is_raised))
      | refused x _ is_raised _ ↦ absurd (ground (arith, is_raised))
      | through i found _ is_there fits _ ↦
          let c = Steps-Coherent steps (initialize-Coherent s₀ places first) in
          let (lt, on, page) = search_for_tlb_entry-some m.vm (addr / page_size) i found in
          through_frame m.vm (addr / page_size) m.running (m.vm.tlb i).physical_page addr size phys
            (ground (arith, is_there)) (omega (arith, fits))
            (subst (λ v. Holds m.vm (m.vm.tlb i).physical_page v m.running) page (c.shown i lt on))
    ]
