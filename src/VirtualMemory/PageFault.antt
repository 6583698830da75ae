-- ===== src/VirtualMemory/PageFault.antt =====
-- The inverted page table (threads/system.cc), the TLB functions of userprog/addrspace.cc, and
-- `HandlePageFault` of userprog/exception.cc, which runs under `iptLock`.
use csci402_projects.Base.{
  ℕ, zero, suc, ◌+◌, ◌*◌, ◌%◌, Bool, true, false, ◌&&◌, not, ◌==◌, leb, if◌then◌else◌, Option, none,
  some, List, [], ◌∷◌, ◌++◌, update, Result, ok, fault, out_of_bounds, ◌>>=◌, first_from,
  first_below,
}
use csci402_projects.FileSystem.Bitmap.{BitMap, find}
use csci402_projects.VirtualMemory.State.{
  Vm, page_size, num_phys_pages, tlb_size, set_tlb, set_ipt, update_two, read_at, write_at,
}
use csci402_projects.VirtualMemory.Translate.{search_for_tlb_entry}

abbrev pub entry_is : Vm → ℕ → ℕ → ℕ → Bool
entry_is s vpn process_id i =
    ((s.ipt i).virtual_page == vpn) && ((s.ipt i).process_id == process_id) && (s.ipt i).valid

abbrev pub is_free : Vm → ℕ → Bool
is_free s i = not (s.ipt i).valid

unfoldable pub search_for_entry : Vm → ℕ → ℕ → Option ℕ
unfolding first_from
search_for_entry s vpn process_id = first_below (entry_is s vpn process_id) num_phys_pages

unfoldable pub search_for_empty_entry : Vm → Option ℕ
unfolding first_from
search_for_empty_entry s = first_below (is_free s) num_phys_pages

unfoldable pub update_entry : Vm → ℕ → ℕ → ℕ → Bool → Vm
update_entry s index vaddr process valid_bit = record s {
  ipt = update s.ipt index (record {
    virtual_page = vaddr;
    physical_page = index;
    process_id = process;
    valid = valid_bit;
    read_only = false;
    use_bit = true;
    dirty = false;
  });
  ipt_queue = s.ipt_queue ++ (index ∷ []);
}

-- `pageReplacementPolicy`; with RAND, the numbers that `rand` gives.
pub data Policy : Type 0 where
  fifo : Policy
  rand : (draws : List ℕ) → Policy

-- The loop of chooseEvictionPageRandom; `none` says that it goes on after the given draws.
unfoldable pub choose_random : Vm → List ℕ → Option ℕ
choose_random s [] = none
choose_random s (r ∷ draws) =
    let rest = choose_random s draws in
    if (s.ipt (r % num_phys_pages)).use_bit then rest else some (r % num_phys_pages)

-- chooseEvictionPageLRU takes the frame that was loaded first; an empty queue gives a null pointer,
-- which is frame 0.
unfoldable pub remove_queue : Vm → List ℕ → Vm × ℕ
remove_queue s [] = (s, 0)
remove_queue s (i ∷ rest) = (record s { ipt_queue = rest }, i)

unfoldable pub choose_eviction_page : Policy → Vm → Option (Vm × ℕ)
unfolding remove_queue choose_random
choose_eviction_page fifo s = some (remove_queue s s.ipt_queue)
choose_eviction_page (rand draws) s = elim (choose_random s draws) [
  | none ↦ none
  | some i ↦ some (s, i)
]

-- The handler is done, the machine was halted, or the draws ran out in the loop of the random choice.
pub data Handled : Type 0 where
  done : Vm → Handled
  halted : Handled
  choosing : Handled

-- The evicted page leaves the TLB, which knows better whether it is dirty. The search is by the number
-- of the page alone.
unfoldable pub take_from_tlb : Vm → ℕ → ℕ → Vm
take_from_tlb s frame i =
    set_tlb (set_ipt s frame (record (s.ipt frame) { dirty = (s.tlb i).dirty })) i
      (record (s.tlb i) { valid = false })

unfoldable pub drop_from_tlb : Vm → ℕ → Vm
unfolding search_for_tlb_entry take_from_tlb
drop_from_tlb s frame = elim (search_for_tlb_entry s (s.ipt frame).virtual_page) [
  | none ↦ s
  | some i ↦ take_from_tlb s frame i
]

-- The page goes to place `slot` of the swap file; `used` is the map of its places.
unfoldable pub swap_out : Vm → ℕ → BitMap → ℕ → Vm
swap_out s frame used slot =
    let e = s.ipt frame in
    record s {
      swap_file_map = used;
      swap_array = update_two s.swap_array e.process_id e.virtual_page (slot * page_size);
      swap_file = write_at s.swap_file s.memory (frame * page_size) (slot * page_size) page_size;
      page_location = update_two s.page_location e.process_id e.virtual_page 1;
    }

-- A dirty page goes to a new place in the swap file; if that is full, the machine halts.
unfoldable pub write_out : Vm → ℕ → Result Handled
unfolding swap_out
write_out s frame = find s.swap_file_map >>= λ r. elim r.1 [
  | none ↦ ok halted
  | some slot ↦ ok (done (swap_out s frame r.0 slot))
]

unfoldable pub evict : Vm → ℕ → Result Handled
unfolding drop_from_tlb write_out
evict s frame =
    if leb num_phys_pages frame
    then fault out_of_bounds
    else (let s₁ = drop_from_tlb s frame in
        if (s₁.ipt frame).dirty then write_out s₁ frame else ok (done s₁))

-- The page comes into the frame, from where it is. A page that was never written is left as the frame
-- holds it: the branch that clears it tests for the swap file a second time.
unfoldable pub fetch : Vm → ℕ → ℕ → ℕ → Vm
fetch s process_id vpn frame =
    let location = s.page_location process_id vpn in
    if location == 0
    then record s {
      memory =
          read_at (s.executable process_id) s.memory (frame * page_size) (40 + vpn * page_size)
            page_size;
    }
    else if location == 1
    then record s {
      memory =
          read_at s.swap_file s.memory (frame * page_size) (s.swap_array process_id vpn) page_size;
    }
    else s

-- The page is in the frame: the page table and the IPT say so.
unfoldable pub install : Vm → ℕ → ℕ → ℕ → Vm
unfolding update_entry
install s process_id vpn frame =
    update_entry
      (record s {
        page_table =
            update_two s.page_table process_id vpn (record { valid = true; dirty = false });
      })
      frame vpn process_id true

unfoldable pub load_page : Vm → ℕ → ℕ → ℕ → Result Vm
unfolding fetch install
load_page s process_id vpn frame =
    let s₁ = fetch s process_id vpn frame in
    if leb (s.num_pages process_id) vpn
    then fault out_of_bounds
    else ok (install s₁ process_id vpn frame)

-- The entry of the IPT for what the next TLB entry held loses its use bit. With no such entry the
-- index is -1.
unfoldable pub unuse : Vm → ℕ → Result Vm
unfolding search_for_entry
unuse s process_id = elim (search_for_entry s (s.tlb s.next_tlb).virtual_page process_id) [
  | none ↦ fault out_of_bounds
  | some i ↦ ok (set_ipt s i (record (s.ipt i) { use_bit = false }))
]

-- Its dirty bit goes to the IPT, if it is valid.
unfoldable pub save_dirty : Vm → ℕ → Result Vm
unfolding search_for_entry
save_dirty s process_id =
    let old = s.tlb s.next_tlb in
    if old.valid && old.dirty
    then elim (search_for_entry s old.virtual_page process_id) [
      | none ↦ fault out_of_bounds
      | some i ↦ ok (set_ipt s i (record (s.ipt i) { dirty = old.dirty }))
    ]
    else ok s

unfoldable pub update_tlb_entry : Vm → ℕ → ℕ → ℕ → Bool → Bool → Bool → Bool → Vm
update_tlb_entry s index paddr vaddr dirty_bit used read_only_bit valid_bit =
    set_tlb s index (record {
      virtual_page = vaddr;
      physical_page = paddr;
      valid = valid_bit;
      read_only = read_only_bit;
      use_bit = used;
      dirty = dirty_bit;
    })

-- The page of the frame goes into the next TLB entry.
unfoldable pub show_frame : Vm → ℕ → Vm
unfolding update_tlb_entry
show_frame s frame =
    let e = s.ipt frame in
    record (update_tlb_entry s s.next_tlb e.physical_page e.virtual_page e.dirty false false true) {
      next_tlb = (s.next_tlb + 1) % tlb_size;
    }

unfoldable pub refill_tlb : Vm → ℕ → ℕ → Result Vm
unfolding save_dirty unuse show_frame
refill_tlb s process_id frame =
    save_dirty s process_id >>= λ s₁. unuse s₁ process_id >>= λ s₂. ok (show_frame s₂ frame)

-- With the page in the frame: the IPT, and the TLB.
unfoldable pub bring_in : Vm → ℕ → ℕ → ℕ → Result Handled
unfolding load_page refill_tlb
bring_in s process_id vpn frame =
    (load_page s process_id vpn frame >>= λ s₁.
    refill_tlb s₁ process_id frame >>= λ s₂. ok (done s₂))

-- The page in the frame is evicted, and the needed page takes its place.
unfoldable pub replace : Vm → ℕ → ℕ → ℕ → Result Handled
unfolding evict bring_in
replace s process_id vpn frame = evict s frame >>= λ h. elim h [
  | done s₁ ↦ bring_in s₁ process_id vpn frame
  | halted ↦ ok halted
  | choosing ↦ ok choosing
]

-- No frame is free: one is chosen.
unfoldable pub make_room : Policy → Vm → ℕ → ℕ → Result Handled
unfolding choose_eviction_page replace
make_room policy s process_id vpn = elim (choose_eviction_page policy s) [
  | none ↦ ok choosing
  | some c ↦ replace c.0 process_id vpn c.1
]

unfoldable pub handle_page_fault : Policy → Vm → ℕ → ℕ → Result Handled
unfolding search_for_entry search_for_empty_entry make_room bring_in refill_tlb
handle_page_fault policy s process_id vpn = elim (search_for_entry s vpn process_id) [
  | some frame ↦ (refill_tlb s process_id frame >>= λ s₁. ok (done s₁))
  | none ↦ elim (search_for_empty_entry s) [
    | some frame ↦ bring_in s process_id vpn frame
    | none ↦ make_room policy s process_id vpn
  ]
]

-- InvalidateAllTLB, from entry `i` on: it runs at each switch to another process.
unfoldable pub invalidate_from : Vm → ℕ → ℕ → Vm
invalidate_from s i zero = s
invalidate_from s i (suc left) =
    let e = s.tlb i in
    let s₁ =
      if e.valid
      then set_ipt s e.physical_page (record (s.ipt e.physical_page) { dirty = e.dirty })
      else s in
    invalidate_from (set_tlb s₁ i (record e { valid = false })) (suc i) left

unfoldable pub invalidate_all_tlb : Vm → Vm
unfolding invalidate_from
invalidate_all_tlb s = invalidate_from s 0 tlb_size
