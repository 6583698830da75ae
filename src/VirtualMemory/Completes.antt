-- ===== src/VirtualMemory/Completes.antt =====
-- The cases in which the handler of page faults comes to its end without an eviction.
use csci402_projects.Base.{
  ℕ, ◌<◌, ◌≡◌, ◌⊎◌, true, false, Bool-cases, ◌&&◌, inl, inr, Option, none, some, ok, arith, refl,
}
use csci402_projects.VirtualMemory.State.{Vm, num_phys_pages, set_ipt}
use csci402_projects.VirtualMemory.Translate.{search_for_tlb_entry}
use csci402_projects.VirtualMemory.PageFault.{
  Policy, done, handle_page_fault, search_for_entry, search_for_empty_entry, bring_in, load_page,
  refill_tlb, save_dirty, unuse, show_frame, install, fetch, update_entry,
}
use csci402_projects.VirtualMemory.Coherent.{Coherent, Holds, Holds-on, set_ipt-Shrinks}
use csci402_projects.VirtualMemory.Searches.{
  search_for_entry-hit, search_for_entry-none, search_for_empty_entry-some,
  search_for_empty_entry-none,
}
use csci402_projects.VirtualMemory.Handling.{
  Wanted, fetch-Wanted, fetch-SameTables, install-Coherent, empty-Wanted,
}

-- The state after `save_dirty` finds entry `j`.
abbrev saved_at : Vm → ℕ → Vm
saved_at s j = set_ipt s j (record (s.ipt j) { dirty = (s.tlb s.next_tlb).dirty })

-- `save_dirty` comes to its end, and the page of the next TLB entry stays in its frame.
save_dirty-ok :
    (s : Vm) (p i : ℕ)
    → Holds s i (s.tlb s.next_tlb).virtual_page p
    → (s' : Vm) × (save_dirty s p ≡ ok s')
      × (s'.tlb ≡ s.tlb)
      × (s'.next_tlb ≡ s.next_tlb)
      × Holds s' i (s.tlb s.next_tlb).virtual_page p
unfolding save_dirty
save_dirty-ok s p i held =
    let (j, found, _) = search_for_entry-hit s (s.tlb s.next_tlb).virtual_page p i held in
    elim (Bool-cases ((s.tlb s.next_tlb).valid && (s.tlb s.next_tlb).dirty)) [
      | inl stale ↦ (
        saved_at s j,
        ground (arith, stale, found),
        refl,
        refl,
        Holds-on s (saved_at s j)
            (set_ipt-Shrinks s j (record (s.ipt j) { dirty = (s.tlb s.next_tlb).dirty })
              (record { page = refl; place = refl; owner = refl; in_use = refl }))
            i (s.tlb s.next_tlb).virtual_page p held,
      )
      | inr clean ↦ (s, ground (arith, clean), refl, refl, held)
    ]

unuse-ok :
    (s : Vm) (p i : ℕ)
    → Holds s i (s.tlb s.next_tlb).virtual_page p
    → (s' : Vm) × (unuse s p ≡ ok s')
unfolding unuse
unuse-ok s p i held =
    let (j, found, _) = search_for_entry-hit s (s.tlb s.next_tlb).virtual_page p i held in
    (set_ipt s j (record (s.ipt j) { use_bit = false }), ground (arith, found))

refill_tlb-ok :
    (s : Vm) (p frame : ℕ)
    → Coherent s p
    → (s.tlb s.next_tlb).valid ≡ true
    → (s' : Vm) × (refill_tlb s p frame ≡ ok s')
unfolding refill_tlb
refill_tlb-ok s p frame c on =
    let held = c.shown s.next_tlb c.in_turn on in
    let (s₁, saved, same, turn, held₁) = save_dirty-ok s p (s.tlb s.next_tlb).physical_page held in
    let (s₂, done₂) = unuse-ok s₁ p (s.tlb s.next_tlb).physical_page (rw same (rw turn held₁)) in
    (show_frame s₂ frame, ground (arith, saved, done₂))

install-next :
    (s : Vm) (p vpn frame : ℕ)
    → (s.tlb s.next_tlb).valid ≡ true
    → ((install s p vpn frame).tlb (install s p vpn frame).next_tlb).valid ≡ true
unfolding install update_entry
install-next s p vpn frame on = on

bring_in-ok :
    (s : Vm) (p vpn frame : ℕ)
    → Wanted s p vpn frame
    → (s.tlb s.next_tlb).valid ≡ true
    → vpn < s.num_pages p
    → (s' : Vm) × (bring_in s p vpn frame ≡ ok (done s'))
unfolding bring_in load_page
bring_in-ok s p vpn frame w on small =
    let s₁ = fetch s p vpn frame in
    let w₁ = fetch-Wanted s p vpn frame w in
    let same = fetch-SameTables s p vpn frame in
    let (s₂, refilled) =
      refill_tlb-ok (install s₁ p vpn frame) p frame
        (install-Coherent s₁ p frame vpn w₁.coherent w₁.inside w₁.hidden w₁.absent)
        (install-next s₁ p vpn frame (rw same.tlb (rw same.turn on))) in
    (s₂, ground (arith, refilled))

-- Let the next TLB entry be in use, in a coherent state, and the page lie inside the page table of the
-- process. If some frame holds the page, or some frame is free, then the handler of the page fault
-- comes to its end, whatever the policy.
pub handle_page_fault-completes :
    (policy : Policy) (s : Vm) (running vpn i : ℕ)
    → Coherent s running
    → search_for_tlb_entry s vpn ≡ none
    → (s.tlb s.next_tlb).valid ≡ true
    → vpn < s.num_pages running
    → Holds s i vpn running ⊎ ((i < num_phys_pages) × ((s.ipt i).valid ≡ false))
    → (s' : Vm) × (handle_page_fault policy s running vpn ≡ ok (done s'))
unfolding handle_page_fault
handle_page_fault-completes policy s running vpn i c absent on small room =
    searched (search_for_entry s vpn running) refl
  where
    emptied :
        search_for_entry s vpn running ≡ none
        → (o : Option ℕ) → search_for_empty_entry s ≡ o
        → (s' : Vm) × (handle_page_fault policy s running vpn ≡ ok (done s'))
    emptied f none o = absurd (full room)
      where
        full : Holds s i vpn running ⊎ ((i < num_phys_pages) × ((s.ipt i).valid ≡ false)) → ⊥
        full (inl held) = search_for_entry-none s vpn running i f held
        full (inr (lt, free)) = search_for_empty_entry-none s i o lt free
    emptied f (some frame) o =
        let (lt, unused) = search_for_empty_entry-some s frame o in
        let (s', e) =
          bring_in-ok s running vpn frame (empty-Wanted s running vpn frame c absent f lt unused) on
            small in
        (s', ground (arith, f, o, e))

    searched :
        (o : Option ℕ)
        → search_for_entry s vpn running ≡ o
        → (s' : Vm) × (handle_page_fault policy s running vpn ≡ ok (done s'))
    searched none f = emptied f (search_for_empty_entry s) refl
    searched (some frame) f =
        let (s', e) = refill_tlb-ok s running frame c on in (s', ground (arith, f, e))
