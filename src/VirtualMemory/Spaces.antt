-- ===== src/VirtualMemory/Spaces.antt =====
-- Address spaces (userprog/addrspace.cc) as far as the tables of the virtual memory go, and the
-- start of these tables (threads/system.cc).
use csci402_projects.Base.{ℕ, zero, suc, ◌+◌, ◌*◌, ◌-◌, false, [], ltb, if◌then◌else◌, update}
use csci402_projects.FileSystem.Bitmap.{BitMap}
use csci402_projects.VirtualMemory.State.{
  Vm, File, PageEntry, num_phys_pages, tlb_size, page_size, user_stack_size, div_round_up, set_tlb,
  set_ipt, update_two,
}
use csci402_projects.VirtualMemory.PageFault.{invalidate_all_tlb}

abbrev pub blank_page : PageEntry
blank_page = record { valid = false; dirty = false }

-- The constructor. `size` is what the header of the executable says of its three segments together.
unfoldable pub new_address_space : Vm → ℕ → File → ℕ → Vm
new_address_space s process_id executable size =
    let pages = div_round_up size page_size + div_round_up user_stack_size page_size in
    record s {
      executable = update s.executable process_id executable;
      num_pages = update s.num_pages process_id pages;
      page_table =
          update s.page_table process_id
            (λ i. if ltb i pages then blank_page else s.page_table process_id i);
    }

abbrev pub add_page : Vm → ℕ → ℕ → Vm
add_page s process_id i = record s {
  page_table = update_two s.page_table process_id i blank_page;
  page_location = update_two s.page_location process_id i 2;
}

-- The second loop of MakeNewPT: `left` new pages from page `i` on, for a stack.
unfoldable pub add_pages : Vm → ℕ → ℕ → ℕ → Vm
add_pages s process_id i zero = s
add_pages s process_id i (suc left) = add_pages (add_page s process_id i) process_id (suc i) left

-- MakeNewPT: eight more pages, and where the stack begins.
unfoldable pub make_new_pt : Vm → ℕ → Vm × ℕ
unfolding add_pages
make_new_pt s process_id =
    let n = s.num_pages process_id in
    let s₁ = add_pages s process_id n 8 in
    (record s₁ { num_pages = update s₁.num_pages process_id (n + 8) }, (n + 8) * page_size - 16)

-- RestoreState, at each switch to a thread with an address space.
abbrev pub restore_state : Vm → Vm
restore_state s = invalidate_all_tlb s

-- The loop that makes the entries of the TLB invalid, and the one of InvertedPageTable's constructor.
unfoldable pub clear_tlb : Vm → ℕ → ℕ → Vm
clear_tlb s i zero = s
clear_tlb s i (suc left) =
    clear_tlb
      (set_tlb s i (record (s.tlb i) { virtual_page = 0; physical_page = 0; valid = false }))
      (suc i) left

unfoldable pub clear_ipt : Vm → ℕ → ℕ → Vm
clear_ipt s i zero = s
clear_ipt s i (suc left) =
    clear_ipt
      (set_ipt s i (record (s.ipt i) { virtual_page = 0; physical_page = 0; valid = false }))
      (suc i) left

-- The part of Initialize for the virtual memory, with the new map of the swap file's places.
unfoldable pub initialize : Vm → BitMap → Vm
unfolding clear_tlb clear_ipt
initialize s places =
    let s₁ = clear_ipt (clear_tlb s 0 tlb_size) 0 num_phys_pages in
    record s₁ {
      ipt_queue = [];
      swap_file_map = places;
      next_tlb = 0;
      page_location = λ a b.
          if ltb a 10 then (if ltb b 1000 then 0 else s.page_location a b) else s.page_location a b;
    }
