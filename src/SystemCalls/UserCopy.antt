-- ===== src/SystemCalls/UserCopy.antt =====
-- `copyin` and `copyout` of userprog/exception.cc: bytes between the kernel and the memory of the process
-- that runs. An access that raises an exception runs ExceptionHandler before ReadMem or WriteMem
-- returns FALSE.
use csci402_projects.Base.{ℕ, zero, suc, ◌/◌, ◌%◌, List, [], ◌∷◌, Result, ok, ◌>>=◌}
use csci402_projects.VirtualMemory.State.{Vm, page_size}
use csci402_projects.VirtualMemory.Translate.{
  Exception, page_fault, read_only_page, bus_error, address_error, value, trapped, read_mem,
  write_mem,
}
use csci402_projects.VirtualMemory.PageFault.{
  Policy, Handled, done, halted, choosing, handle_page_fault,
}

-- The branches of ExceptionHandler for these exceptions: any other than a page fault halts the machine.
unfoldable pub after_trap : Policy → Vm → ℕ → ℕ → Exception → Result Handled
after_trap policy s running addr page_fault = handle_page_fault policy s running (addr / page_size)
after_trap policy s running addr read_only_page = ok halted
after_trap policy s running addr bus_error = ok halted
after_trap policy s running addr address_error = ok halted

-- A byte came; or the machine halted; or the handler still chooses a frame; or there were as many faults
-- as the list has policies.
pub data Fetched : Type 0 where
  got : Vm → (byte : ℕ) → Fetched
  stopped undecided unfinished : Fetched

-- The loop of copyin for one byte, with a policy for each fault.
unfoldable pub read_byte : List Policy → ℕ → Vm → ℕ → ℕ → Result Fetched
unfolding after_trap
read_byte [] ticks s running addr = ok unfinished
read_byte (policy ∷ policies) ticks s running addr = read_mem ticks s addr 1 >>= λ r. elim r.1 [
  | value w ↦ ok (got r.0 (w % 256))
  | trapped x ↦
      (after_trap policy r.0 running addr x >>= λ h. elim h [
        | done s' ↦ read_byte policies ticks s' running addr
        | halted ↦ ok stopped
        | choosing ↦ ok undecided
      ])
]

-- The bytes that copyin has put into the buffer, with the memory after it.
pub data Copied : Type 0 where
  copied : Vm → (buffer : List ℕ) → Copied
  bad_pointer : Vm → Copied
  gave_up : Copied

abbrev pub in_front : ℕ → Copied → Copied
in_front b (copied s buffer) = copied s (b ∷ buffer)
in_front b (bad_pointer s) = bad_pointer s
in_front b gave_up = gave_up

-- copyin of `len` bytes.
unfoldable pub copy_in : List Policy → ℕ → Vm → ℕ → ℕ → ℕ → Result Copied
unfolding read_byte
copy_in policies ticks s running vaddr zero = ok (copied s [])
copy_in policies ticks s running vaddr (suc len) = read_byte policies ticks s running vaddr >>= λ f.
    elim f [
      | got s' b ↦ (copy_in policies ticks s' running (suc vaddr) len >>= λ c. ok (in_front b c))
      | stopped ↦ ok gave_up
      | undecided ↦ ok gave_up
      | unfinished ↦ ok gave_up
    ]

-- copyout of the bytes of a buffer: it does not try again.
unfoldable pub copy_out : Policy → ℕ → Vm → ℕ → ℕ → List ℕ → Result Copied
unfolding after_trap
copy_out policy ticks s running vaddr [] = ok (copied s [])
copy_out policy ticks s running vaddr (b ∷ buffer) = write_mem ticks s vaddr 1 b >>= λ r. elim r.1 [
  | value w ↦ (copy_out policy ticks r.0 running (suc vaddr) buffer >>= λ c. ok (in_front b c))
  | trapped x ↦
      (after_trap policy r.0 running vaddr x >>= λ h. elim h [
        | done s' ↦ ok (bad_pointer s')
        | halted ↦ ok gave_up
        | choosing ↦ ok gave_up
      ])
]
