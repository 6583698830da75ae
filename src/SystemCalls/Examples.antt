-- ===== src/SystemCalls/Examples.antt =====
-- Examples for the theorems on the system calls.
use csci402_projects.Base.{
  ℕ, pos, minus_one, ◌≡◌, ◌≢◌, ◌≤◌, false, true, none, some, [], ◌∷◌, Result, ok, fault, dangling,
  arith, refl, inr, ◌==◌, if◌then◌else◌,
}
use csci402_projects.FileSystem.Bitmap.{BitMap}
use csci402_projects.VirtualMemory.State.{Vm, blank_tlb, blank_ipt}
use csci402_projects.VirtualMemory.Translate.{search_for_tlb_entry, translate, translated}
use csci402_projects.VirtualMemory.PageFault.{
  fifo, Handled, done, halted, choosing, fetch, handle_page_fault,
}
use csci402_projects.VirtualMemory.Spaces.{initialize}
use csci402_projects.VirtualMemory.Coherent.{Coherent}
use csci402_projects.VirtualMemory.Switches.{initialize-Coherent}
use csci402_projects.SystemCalls.UserCopy.{got, read_byte, bad_pointer, copy_out}
use csci402_projects.SystemCalls.UserFaults.{copy-page_fault}
use csci402_projects.Threads.Kernel.{
  Kernel, running, user, in_wait, new_semaphore, new_lock, new_condition,
}
use csci402_projects.SystemCalls.Objects.{Sys, Entry, max_locks, entry_at}
use csci402_projects.SystemCalls.Locks.{create_lock, acquire_syscall, acquire_entry}
use csci402_projects.SystemCalls.Conditions.{returned, wait_woken}
use csci402_projects.SystemCalls.Calls.{
  acquires, releases, destroys_lock, perform, here, next, calls,
}
use csci402_projects.SystemCalls.Keeps.{Sounds}
use csci402_projects.SystemCalls.Reachable.{Steps-Sounds}
use csci402_projects.SystemCalls.Foreign.{perform-Denied}
use csci402_projects.SystemCalls.Creating.{create_lock_lem}
use csci402_projects.SystemCalls.Dangling.{release-destroyed, wait-destroyed}

-- Thread 1 of process 7 holds lock 0, which entry 0 names; threads 2 and 3 are of the processes 7 and 8.
abbrev entry_zero : Entry
entry_zero = record { is_to_be_deleted = false; is_deleted = false; object = 0; process_owner = 7 }

abbrev kernel : Kernel
kernel = record {
  current = some 1;
  ready_list = [];
  status = λ t. running;
  stage = λ t. user;
  semaphores = λ i. new_semaphore 0;
  locks =
      λ l. if l == 0 then record { free = false; owner_thread = some 1; queue = [] } else new_lock;
  conditions = λ c. new_condition;
}

abbrev one_lock : Sys
one_lock = record {
  kernel = kernel;
  locks = record {
    entries = λ i. if i == 0 then some entry_zero else none;
    alive = λ l. l == 0;
    fresh = 1;
  };
  conditions = record { entries = λ i. none; alive = λ c. false; fresh = 0 };
  space = λ t. if t == 3 then 8 else 7;
  condition_lock = 100;
}

one_lock-Sounds : Sounds one_lock
one_lock-Sounds = record {
  locks = record {
    live = λ i e at_i kept. ground arith;
    old = λ i e at_i. ground arith;
    single = λ i j e f at_i at_j same. ground arith;
  };
  conditions = record {
    live = λ i e at_i kept. ground arith;
    old = λ i e at_i. ground arith;
    single = λ i j e f at_i at_j same. ground arith;
  };
}

perform-Denied_example : perform one_lock 3 (acquires (pos 0)) ≡ ok (returned one_lock minus_one)
unfolding entry_at
perform-Denied_example =
    perform-Denied one_lock 3 (acquires (pos 0)) (inr (entry_zero, entry_is, λ e. omega (arith, e)))
  where
    entry_is : entry_at max_locks one_lock.locks (pos 0) ≡ some entry_zero
    entry_is = refl

refused_call : perform one_lock 3 (acquires (pos 0)) ≡ ok (returned one_lock minus_one)
unfolding perform acquire_syscall acquire_entry entry_at
refused_call = refl

Steps-Sounds_example : Sounds one_lock
Steps-Sounds_example =
    Steps-Sounds (next here (calls 3 (acquires (pos 0)) one_lock minus_one refused_call))
      one_lock-Sounds

create_lock_lem_example :
    (i : ℕ) × (e : Entry) × (s' : Sys) × (create_lock one_lock 3 (pos 4) ≡ (s', pos i))
    × (i ≤ 1)
    × (one_lock.locks.entries i ≡ none)
    × (entry_at max_locks s'.locks (pos i) ≡ some e)
    × (e.process_owner ≡ 8)
    × (e.is_to_be_deleted ≡ false)
    × (e.is_deleted ≡ false)
    × (s'.kernel.locks e.object ≡ new_lock)
    × ((j : ℕ) (f : Entry)
        → one_lock.locks.entries j ≡ some f
        → (s'.locks.entries j ≡ some f)
          × (e.object ≢ f.object)
          × (s'.kernel.locks f.object ≡ one_lock.kernel.locks f.object))
create_lock_lem_example =
    create_lock_lem one_lock 3 1 (pos 4) one_lock-Sounds refl (omega arith) refl

release-destroyed_example :
    (s₁ : Sys) × (s₂ : Sys) × (perform one_lock 2 (destroys_lock (pos 0))
      ≡ ok (returned s₁ (pos 0)))
    × (perform s₁ 2 (acquires (pos 0)) ≡ ok (returned s₂ minus_one))
    × ((s₂.kernel.locks 0).owner_thread ≡ some 1)
    × (perform s₂ 1 (releases (pos 0)) ≡ fault dangling)
unfolding entry_at
release-destroyed_example =
    release-destroyed one_lock 1 2 0 entry_zero refl refl refl (λ e. omega (arith, e)) refl refl
      refl

-- Thread 4, of the process of thread 1, is in Wait with the lock.
abbrev one_waits : Sys
one_waits = record one_lock {
  kernel = record kernel { stage = λ t. if t == 4 then in_wait 0 0 else user };
}

wait-destroyed_run :
    (s₁ : Sys) × (s₂ : Sys) × (perform one_waits 2 (destroys_lock (pos 0))
      ≡ ok (returned s₁ (pos 0)))
    × (perform s₁ 1 (releases (pos 0)) ≡ ok (returned s₂ (pos 0)))
    × (s₂.kernel.stage 4 ≡ in_wait 0 0)
    × (wait_woken s₂ 4 entry_zero ≡ fault dangling)
unfolding entry_at
wait-destroyed_run =
    wait-destroyed one_waits 1 2 0 entry_zero refl refl 4 0 refl refl (λ e. omega (arith, e)) refl
      refl refl refl

-- Process 0 has ten pages, and nothing is loaded.
abbrev places : BitMap
places = record { num_bits = 2; map = λ w b. false }

abbrev blank : Vm
blank = record {
  memory = λ a. 0;
  last_used = λ f. 0;
  tlb = λ i. blank_tlb;
  next_tlb = 0;
  ipt = λ i. blank_ipt;
  ipt_queue = [];
  page_table = λ p v. record { valid = false; dirty = false };
  num_pages = λ p. 10;
  page_location = λ p v. 2;
  swap_array = λ p v. 0;
  swap_file = λ o. none;
  swap_file_map = places;
  executable = λ p o. none;
}

booted : Vm
booted = initialize blank places

abbrev vm_of : Vm → Result Handled → Vm
vm_of s (ok (done s')) = s'
vm_of s (ok halted) = s
vm_of s (ok choosing) = s
vm_of s (fault reason) = s

loaded : Vm
loaded = vm_of booted (handle_page_fault fifo booted 0 0)

handled-loaded : handle_page_fault fifo booted 0 0 ≡ ok (done loaded)
unfolding handle_page_fault fetch initialize booted loaded
handled-loaded = refl

missed-booted : search_for_tlb_entry booted 0 ≡ none
unfolding search_for_tlb_entry initialize booted
missed-booted = refl

booted-Coherent : Coherent booted 0
unfolding booted
booted-Coherent = initialize-Coherent blank places 0

copy-page_fault_example :
    ((s'' : Vm) × (w : ℕ) × (read_byte (fifo ∷ fifo ∷ []) 3 booted 0 8 ≡ ok (got s'' w)))
    × (copy_out fifo 3 booted 0 8 (65 ∷ []) ≡ ok (bad_pointer loaded))
    × ((s'' : Vm) × (p : ℕ) × (translate loaded 8 1 true ≡ ok (s'', translated p)))
copy-page_fault_example =
    copy-page_fault fifo fifo [] 3 booted loaded 0 8 65 [] booted-Coherent missed-booted
      handled-loaded
