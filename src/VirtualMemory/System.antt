-- ===== src/VirtualMemory/System.antt =====
-- What happens to the tables of the virtual memory while processes run: accesses to memory, page
-- faults, switches to another process, new address spaces and new stacks.
use csci402_projects.Base.{ℕ, ◌/◌, ◌≡◌, Bool, ok}
use csci402_projects.VirtualMemory.State.{Vm, File, page_size}
use csci402_projects.VirtualMemory.Translate.{
  Access, page_fault, raised, translate, read_mem, write_mem,
}
use csci402_projects.VirtualMemory.PageFault.{Policy, done, handle_page_fault}
use csci402_projects.VirtualMemory.Spaces.{new_address_space, make_new_pt, restore_state}

-- The tables, and the process that runs.
pub record Machine : Type 0 where
  pub vm : Vm
  pub running : ℕ

abbrev pub with_vm : Machine → Vm → Machine
with_vm m s = record m { vm = s }

pub data Step (m : Machine) : Machine → Type 0 where
  reads :
      (ticks addr size : ℕ) (s : Vm) (got : Access)
      → read_mem ticks m.vm addr size ≡ ok (s, got)
      → Step m (with_vm m s)
  writes :
      (ticks addr size v : ℕ) (s : Vm) (got : Access)
      → write_mem ticks m.vm addr size v ≡ ok (s, got)
      → Step m (with_vm m s)
  -- An access raises a page fault, which is handled.
  faults :
      (policy : Policy) (addr size : ℕ) (writing : Bool) (s s' : Vm)
      → translate m.vm addr size writing ≡ ok (s, raised page_fault)
      → handle_page_fault policy s m.running (addr / page_size) ≡ ok (done s')
      → Step m (with_vm m s')
  switches : (process : ℕ) → Step m (record { vm = restore_state m.vm; running = process })
  loads :
      (process_id : ℕ) (executable : File) (size : ℕ)
      → Step m (with_vm m (new_address_space m.vm process_id executable size))
  forks : Step m (with_vm m (make_new_pt m.vm m.running).0)

pub data Steps (m : Machine) : Machine → Type 0 where
  here : Steps m m
  next : {l n : Machine} → Steps m l → Step l n → Steps m n
