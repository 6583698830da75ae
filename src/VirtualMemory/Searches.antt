-- ===== src/VirtualMemory/Searches.antt =====
-- What the searches of the TLB and of the inverted page table find.
use csci402_projects.Base.{
  ℕ, ◌≡◌, ◌<◌, true, false, none, some, arith, first_below-some, first_below-none, first_below-hit,
  first_from-ext,
}
use csci402_projects.VirtualMemory.State.{Vm, num_phys_pages, tlb_size}
use csci402_projects.VirtualMemory.Translate.{shows, search_for_tlb_entry}
use csci402_projects.VirtualMemory.PageFault.{
  entry_is, is_free, search_for_entry, search_for_empty_entry,
}
use csci402_projects.VirtualMemory.Coherent.{Holds}

module _ (s : Vm) where
  pub search_for_tlb_entry-some :
      (vpn i : ℕ)
      → search_for_tlb_entry s vpn ≡ some i
      → (i < tlb_size) × ((s.tlb i).valid ≡ true) × ((s.tlb i).virtual_page ≡ vpn)
  unfolding search_for_tlb_entry
  search_for_tlb_entry-some vpn i e =
      let (lt, hit, _) = first_below-some (shows s vpn) tlb_size i e in
      (lt, ground arith, ground arith)

  pub search_for_tlb_entry-none :
      (vpn i : ℕ)
      → search_for_tlb_entry s vpn ≡ none
      → i < tlb_size
      → (s.tlb i).valid ≡ true
      → (s.tlb i).virtual_page ≡ vpn
      → ⊥
  unfolding search_for_tlb_entry
  search_for_tlb_entry-none vpn i e lt on page =
      ground (arith, first_below-none (shows s vpn) tlb_size i e lt)

  pub search_for_tlb_entry-hit :
      (vpn i : ℕ)
      → i < tlb_size
      → (s.tlb i).valid ≡ true
      → (s.tlb i).virtual_page ≡ vpn
      → (j : ℕ) × (search_for_tlb_entry s vpn ≡ some j)
        × (j < tlb_size)
        × ((s.tlb j).valid ≡ true)
        × ((s.tlb j).virtual_page ≡ vpn)
  unfolding search_for_tlb_entry
  search_for_tlb_entry-hit vpn i lt on page =
      let (j, e, lt', hit) = first_below-hit (shows s vpn) tlb_size i lt (ground arith) in
      (j, e, lt', ground arith, ground arith)

  pub search_for_entry-some :
      (vpn process_id i : ℕ) → search_for_entry s vpn process_id ≡ some i → Holds s i vpn process_id
  unfolding search_for_entry
  search_for_entry-some vpn process_id i e =
      let (lt, hit, _) = first_below-some (entry_is s vpn process_id) num_phys_pages i e in
      record { inside = lt; loaded = ground arith; page = ground arith; owner = ground arith }

  pub search_for_entry-none :
      (vpn process_id i : ℕ)
      → search_for_entry s vpn process_id ≡ none
      → Holds s i vpn process_id
      → ⊥
  unfolding search_for_entry
  search_for_entry-none vpn process_id i e held = ground (
    arith,
    first_below-none (entry_is s vpn process_id) num_phys_pages i e held.inside,
    held.loaded,
    held.page,
    held.owner,
  )

  pub search_for_entry-hit :
      (vpn process_id i : ℕ)
      → Holds s i vpn process_id
      → (j : ℕ) × (search_for_entry s vpn process_id ≡ some j) × Holds s j vpn process_id
  unfolding search_for_entry
  search_for_entry-hit vpn process_id i held =
      let (j, e, lt, hit) =
        first_below-hit (entry_is s vpn process_id) num_phys_pages i held.inside
          (ground (arith, held.loaded, held.page, held.owner)) in
      (j, e, search_for_entry-some vpn process_id j e)

  pub search_for_empty_entry-some :
      (i : ℕ) → search_for_empty_entry s ≡ some i → (i < num_phys_pages) × ((s.ipt i).valid ≡ false)
  unfolding search_for_empty_entry
  search_for_empty_entry-some i e =
      let (lt, hit, _) = first_below-some (is_free s) num_phys_pages i e in (lt, ground arith)

  pub search_for_empty_entry-none :
      (i : ℕ) → search_for_empty_entry s ≡ none → i < num_phys_pages → (s.ipt i).valid ≡ false → ⊥
  unfolding search_for_empty_entry
  search_for_empty_entry-none i e lt unused =
      ground (arith, first_below-none (is_free s) num_phys_pages i e lt)

-- Two states with the same pages in the TLB.
pub search_for_tlb_entry-ext :
    (s s' : Vm) (vpn : ℕ)
    → ((i : ℕ) → shows s vpn i ≡ shows s' vpn i)
    → search_for_tlb_entry s vpn ≡ search_for_tlb_entry s' vpn
unfolding search_for_tlb_entry
search_for_tlb_entry-ext s s' vpn same = first_from-ext (shows s vpn) (shows s' vpn) 0 tlb_size same
