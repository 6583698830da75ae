-- ===== src/VirtualMemory/Examples.antt =====
-- Examples for the theorems on the virtual memory, and runs of the code.
use csci402_projects.Base.{
  ℕ, ◌+◌, ◌*◌, ◌/◌, ◌%◌, ◌≤◌, ◌<◌, ◌≡◌, ◌≢◌, true, false, none, [], ok, arith, refl, inr, Result,
  fault, if◌then◌else◌, ◌==◌,
}
use csci402_projects.FileSystem.Bitmap.{BitMap, find, find_from, test, mark, bit}
use csci402_projects.VirtualMemory.State.{
  Vm, page_size, memory_size, num_phys_pages, blank_tlb, blank_ipt,
}
use csci402_projects.VirtualMemory.Translate.{
  translated, raised, page_fault, search_for_tlb_entry, translate, value, write_mem, read_mem,
}
use csci402_projects.VirtualMemory.PageFault.{
  fifo, done, handle_page_fault, evict, write_out, fetch, Handled, halted, choosing,
}
use csci402_projects.VirtualMemory.Spaces.{initialize}
use csci402_projects.VirtualMemory.System.{Machine, Steps, faults, here, next}
use csci402_projects.VirtualMemory.Coherent.{Coherent, Holds}
use csci402_projects.VirtualMemory.Isolation.{CoherentMachine, Steps-Coherent, isolation}
use csci402_projects.VirtualMemory.Switches.{initialize-Coherent}
use csci402_projects.VirtualMemory.Retry.{retry}
use csci402_projects.VirtualMemory.Completes.{handle_page_fault-completes}
use csci402_projects.VirtualMemory.Swap.{Meanwhile, swap_round_trip}
use csci402_projects.VirtualMemory.Memory.{narrow, read_mem-write_mem}
use csci402_projects.VirtualMemory.Evictions.{evict-wrong_entry}

abbrev pub places : BitMap
places = record { num_bits = 2; map = λ w b. false }

-- Every process has ten pages, none of them written yet.
abbrev pub blank : Vm
blank = record {
  memory = λ a. 0;
  last_used = λ f. 0;
  tlb = λ i. blank_tlb;
  next_tlb = 0;
  ipt = λ i. blank_ipt;
  ipt_queue = [];
  page_table = λ p v. record { valid = false; dirty = false };
  num_pages = λ p. 10;
  page_location = λ p v. 2;
  swap_array = λ p v. 0;
  swap_file = λ o. none;
  swap_file_map = places;
  executable = λ p o. none;
}

booted : Vm
booted = initialize blank places

abbrev pub vm_of : Vm → Result Handled → Vm
vm_of s (ok (done s')) = s'
vm_of s (ok halted) = s
vm_of s (ok choosing) = s
vm_of s (fault reason) = s

abbrev state_of {ℓ} : {A : Type ℓ} → Vm → Result (Vm × A) → Vm
state_of s (ok r) = r.0
state_of s (fault reason) = s

-- Process 0 after a fault at each of the pages 0 to 3.
one : Vm
one = vm_of booted (handle_page_fault fifo booted 0 0)

two : Vm
two = vm_of one (handle_page_fault fifo one 0 1)

three : Vm
three = vm_of two (handle_page_fault fifo two 0 2)

four : Vm
four = vm_of three (handle_page_fault fifo three 0 3)

one-done : handle_page_fault fifo booted 0 0 ≡ ok (done one)
unfolding handle_page_fault fetch initialize booted one
one-done = refl

two-done : handle_page_fault fifo one 0 1 ≡ ok (done two)
unfolding handle_page_fault fetch initialize booted one two
two-done = refl

three-done : handle_page_fault fifo two 0 2 ≡ ok (done three)
unfolding handle_page_fault fetch initialize booted one two three
three-done = refl

four-done : handle_page_fault fifo three 0 3 ≡ ok (done four)
unfolding handle_page_fault fetch initialize booted one two three four
four-done = refl

-- The accesses that raise these faults.
abbrev RaisedAt : Vm → ℕ → Type 0
RaisedAt s addr = translate s addr 4 false ≡ ok (s, raised page_fault)

fault_one : RaisedAt booted 8
unfolding translate initialize booted
fault_one = refl

fault_two : RaisedAt one 132
unfolding translate handle_page_fault fetch initialize booted one
fault_two = refl

fault_three : RaisedAt two 260
unfolding translate handle_page_fault fetch initialize booted one two
fault_three = refl

fault_four : RaisedAt three 388
unfolding translate handle_page_fault fetch initialize booted one two three
fault_four = refl

-- The machine with process 0.
abbrev with_zero : Vm → Machine
with_zero s = record { vm = s; running = 0 }

abbrev start : Machine
start = record { vm = initialize blank places; running = 0 }

to_four : Steps start (with_zero four)
unfolding booted
to_four =
    next
      (next
        (next (next here (faults fifo 8 4 false booted one fault_one one-done))
          (faults fifo 132 4 false one two fault_two two-done))
        (faults fifo 260 4 false two three fault_three three-done))
      (faults fifo 388 4 false three four fault_four four-done)

start-Coherent : CoherentMachine start
start-Coherent = initialize-Coherent blank places 0

four-Coherent : CoherentMachine (with_zero four)
four-Coherent = Steps-Coherent to_four start-Coherent

-- Page 0 of process 0 is in frame 0.
one_used : Vm
one_used = state_of one (translate one 8 4 true)

translate-one : translate one 8 4 true ≡ ok (one_used, translated 8)
unfolding translate handle_page_fault fetch initialize booted one one_used
translate-one = refl

to_one : Steps start (with_zero one)
unfolding booted
to_one = next here (faults fifo 8 4 false booted one fault_one one-done)

isolation_example :
    (8 + 4 ≤ memory_size)
    × (8 % page_size ≡ 8 % page_size)
    × Holds one (8 / page_size) (8 / page_size) 0
isolation_example =
    isolation blank places 0 (with_zero one) to_one 8 4 true one_used 8 translate-one

booted-Coherent : Coherent booted 0
unfolding booted
booted-Coherent = start-Coherent

retry_example :
    (frame : ℕ) × Holds one frame (8 / page_size) 0
    × ((s'' : Vm) × (translate one 8 4 false
          ≡ ok (s'', translated (frame * page_size + 8 % page_size))))
retry_example =
    retry fifo booted one 0 8 4 false booted-Coherent (inr (inr refl)) fault_one one-done

four_misses : search_for_tlb_entry four 5 ≡ none
unfolding search_for_tlb_entry handle_page_fault fetch initialize booted one two three four
four_misses = refl

four_next : (four.tlb four.next_tlb).valid ≡ true
unfolding handle_page_fault fetch initialize booted one two three four
four_next = refl

four_size : 5 < four.num_pages 0
unfolding handle_page_fault fetch initialize booted one two three four
four_size = omega arith

four_free : (4 < num_phys_pages) × ((four.ipt 4).valid ≡ false)
unfolding handle_page_fault fetch initialize booted one two three four
four_free = (omega arith, refl)

handle_page_fault-completes_example : (s' : Vm) × (handle_page_fault fifo four 0 5 ≡ ok (done s'))
handle_page_fault-completes_example =
    handle_page_fault-completes fifo four 0 5 4 four-Coherent four_misses four_next four_size
      (inr four_free)

-- A word of four bytes.
one_written : Vm
one_written = state_of one (write_mem 7 one 8 4 1000000)

written_one : write_mem 7 one 8 4 1000000 ≡ ok (one_written, value 1000000)
unfolding write_mem translate handle_page_fault fetch initialize booted one one_written
written_one = refl

read_mem-write_mem_example :
    (s₂ : Vm) × (read_mem 8 one_written 8 4 ≡ ok (s₂, value (narrow 4 1000000)))
read_mem-write_mem_example =
    read_mem-write_mem one one_written 7 8 8 4 1000000 1000000 (inr (inr refl)) (omega arith)
      written_one

-- Page 3 of process 1 is in frame 0, changed; process 0 has its page 3 in frame 5, unchanged.
abbrev shared_number : Vm
shared_number = record blank {
  ipt = λ i.
      if i == 0
      then record {
        virtual_page = 3;
        physical_page = 0;
        process_id = 1;
        valid = true;
        read_only = false;
        use_bit = false;
        dirty = true;
      }
      else if i == 5
      then record {
        virtual_page = 3;
        physical_page = 5;
        process_id = 0;
        valid = true;
        read_only = false;
        use_bit = false;
        dirty = false;
      }
      else blank_ipt;
  tlb = λ i.
      if i == 2
      then record {
        virtual_page = 3;
        physical_page = 5;
        valid = true;
        read_only = false;
        use_bit = false;
        dirty = false;
      }
      else blank_tlb;
}

shared_number-Coherent : Coherent shared_number 0
shared_number-Coherent = record {
  framed = λ i lt on. ground arith;
  single = λ i j v p a b. ground (arith, a.loaded, b.loaded, a.owner, b.owner);
  shown = λ i lt on. record {
    inside = ground arith;
    loaded = ground arith;
    page = ground arith;
    owner = ground arith;
  };
  once = λ i j lt lt' on on' same. ground arith;
  in_turn = omega arith;
}

evict-wrong_entry_example :
    (s' : Vm) × (evict shared_number 0 ≡ ok (done s'))
    × (s'.swap_file ≡ (λ o. none))
    × (s'.page_location ≡ (λ p v. 2))
    × ((shared_number.tlb 2).physical_page ≢ 0)
    × ((s'.tlb 2).valid ≡ false)
unfolding search_for_tlb_entry
evict-wrong_entry_example =
    evict-wrong_entry shared_number 0 0 3 1 2 shared_number-Coherent
      (record { inside = omega arith; loaded = refl; page = refl; owner = refl }) (ground arith)
      refl refl

-- Frame 0 of that state is written out.
shared_out : Vm
shared_out = vm_of shared_number (write_out shared_number 0)

written_shared : write_out shared_number 0 ≡ ok (done shared_out)
unfolding write_out find find_from test mark bit shared_out
written_shared = refl

swap_round_trip_example : (fetch shared_out 1 3 9).memory (9 * page_size + 5) ≡ 0
swap_round_trip_example =
    swap_round_trip shared_number shared_out shared_out 0 9 5 written_shared Meanwhile.here
      (omega arith)
