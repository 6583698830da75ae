-- ===== src/Processor/Examples.antt =====
-- Examples for the theorems on the processor, and runs of the code.
use csci402_projects.Base.{
  ℕ, ◌+◌, ◌*◌, ◌/◌, ◌%◌, ◌≤◌, ◌≡◌, Bool, true, false, ok, fault, overflow, arith, refl, update,
  Meets,
}
use csci402_projects.VirtualMemory.State.{Vm, page_size, memory_size, blank_tlb}
use csci402_projects.VirtualMemory.Translate.{page_fault, translated, raised, translate, read_mem}
use csci402_projects.VirtualMemory.PageFault.{fifo, done, fetch, handle_page_fault}
use csci402_projects.VirtualMemory.Spaces.{initialize}
use csci402_projects.VirtualMemory.Coherent.{Holds}
use csci402_projects.VirtualMemory.Switches.{initialize-Coherent}
use csci402_projects.VirtualMemory.System.{here}
use csci402_projects.VirtualMemory.Examples.{blank, places, vm_of}
use csci402_projects.Processor.Words.{sign_bit}
use csci402_projects.Processor.Registers.{
  Registers, pc_reg, next_pc_reg, bad_vaddr_reg, delayed_load, Instruction, op_add, op_addi, op_sub,
  op_or, op_srl, op_jalr, op_div,
}
use csci402_projects.Processor.Tables.{decode}
use csci402_projects.Processor.Multiply.{mult}
use csci402_projects.Processor.Rounds.{value, wide_limit}
use csci402_projects.Processor.Products.{extended, mult-product}
use csci402_projects.Processor.Execute.{access_exception, sets, breaks, compute}
use csci402_projects.Processor.Overflow.{to_int, ◌+ℤ◌, ◌-ℤ◌, exactly, compute-exactly}
use csci402_projects.Processor.Accesses.{IsBytes}
use csci402_projects.Processor.Sound.{IsRegisters}
use csci402_projects.Processor.Decoding.{IsDecoded, decode-Meets}
use csci402_projects.Processor.Fair.{machine_of}
use csci402_projects.Processor.Step.{one_instruction, trapped_into, finish}
use csci402_projects.Processor.Performing.{Performed, instruction_crashes, one_instruction-Meets}
use csci402_projects.Processor.Running.{
  Computer, IsComputer, start, turn, traps, program-isolation, page_fault-restarts,
}

-- -3 times 5, as double words.
mult-product_example :
    value (mult 4294967293 5 true) ≡ extended true 4294967293 * extended true 5 % wide_limit
mult-product_example = mult-product 4294967293 5 true (omega arith) (omega arith)

minus_fifteen : mult 4294967293 5 true ≡ record { hi = 4294967295; lo = 4294967281 }
unfolding mult
minus_fifteen = refl

-- `add r1, r2, r3` with the greatest `int` in R2 and 7 in R3; the program counter is 0.
abbrev registers : Registers
registers = update (update (update (λ k. 0) 2 2147483647) 3 7) next_pc_reg 4

abbrev add_instruction : Instruction
add_instruction = record { op_code = op_add; rs = 2; rt = 3; rd = 1; extra = 5 }

compute-exactly_example :
    (compute op_add registers add_instruction ≡ exactly registers 1 (to_int 2147483647 +ℤ to_int 7))
    × (compute op_addi registers add_instruction
        ≡ exactly registers 3 (to_int 2147483647 +ℤ to_int 5))
    × (compute op_sub registers add_instruction
        ≡ exactly registers 1 (to_int 2147483647 -ℤ to_int 7))
compute-exactly_example =
    compute-exactly registers add_instruction (omega arith) (omega arith) (omega arith)

registers-IsRegisters : IsRegisters registers
registers-IsRegisters = record { words = λ k. ground arith; target = omega arith; zero = refl }

-- The word of `add r1, r2, r3` at address 0, in a page that the TLB shows.
abbrev program : ℕ → ℕ
program = update (update (update (λ a. 0) 0 32) 1 8) 2 67

program-IsBytes : IsBytes program
program-IsBytes a = ground arith

abbrev loaded : Vm
loaded = record blank { memory = program; tlb = λ i. record blank_tlb { valid = true } }

one_instruction-Meets_example :
    Meets
      (instruction_crashes 0 loaded registers)
      (Performed loaded registers)
      (one_instruction 0 loaded registers)
one_instruction-Meets_example =
    one_instruction-Meets 0 loaded registers program-IsBytes registers-IsRegisters

decoded : decode 4392992 ≡ ok (record { op_code = op_add; rs = 2; rt = 3; rd = 1; extra = 0 })
unfolding decode
decoded = refl

-- The system at its start: the fetch of the first instruction raises a page fault.
booted : Vm
booted = initialize (record blank { memory = program }) places

abbrev at_fault : Registers
at_fault = update (update (update (update (update registers bad_vaddr_reg 0) 0 0) 37 0) 38 0) 0 0

first_fault :
    one_instruction 0 booted registers
    ≡ ok (booted, trapped_into (access_exception page_fault) at_fault)
unfolding one_instruction initialize booted translate finish delayed_load read_mem
first_fault = refl

started-IsComputer : IsComputer (record { machine = machine_of booted 0; registers = registers })
unfolding booted initialize
started-IsComputer = record { bytes = program-IsBytes; registers = registers-IsRegisters }

at_fault-IsRegisters : IsRegisters at_fault
at_fault-IsRegisters = record { words = λ k. ground arith; target = omega arith; zero = refl }

-- The thread before the fault, and when the kernel lets it go on.
abbrev started : Computer
started = record { machine = machine_of booted 0; registers = registers }

abbrev resumed : Computer
resumed = record { machine = machine_of booted 0; registers = at_fault }

booted-IsBytes : IsBytes booted.memory
unfolding booted initialize
booted-IsBytes = program-IsBytes

program-isolation_example :
    IsComputer resumed
    × ((addr size : ℕ) (writing : Bool) (s : Vm) (phys : ℕ)
        → translate booted addr size writing ≡ ok (s, translated phys)
        → (phys + size ≤ memory_size)
          × (phys % page_size ≡ addr % page_size)
          × Holds booted (phys / page_size) (addr / page_size) 0)
unfolding booted
program-isolation_example =
    program-isolation (record blank { memory = program }) places 0 registers resumed
      (record { bytes = booted-IsBytes; registers = registers-IsRegisters })
      (turn start (
        traps 0 booted (access_exception page_fault) at_fault resumed first_fault here
          (record { bytes = booted-IsBytes; registers = at_fault-IsRegisters })))

handled : Vm
handled = vm_of booted (handle_page_fault fifo booted 0 0)

handled-done : handle_page_fault fifo booted 0 0 ≡ ok (done handled)
unfolding handle_page_fault fetch initialize booted handled
handled-done = refl

page_fault-restarts_example :
    (at_fault pc_reg ≡ registers pc_reg)
    × (at_fault next_pc_reg ≡ registers next_pc_reg)
    × (booted.memory ≡ booted.memory)
    × ((size : ℕ) × (writing : Bool) × (frame : ℕ) × (translate booted 0 size writing
          ≡ ok (booted, raised page_fault))
        × Holds handled frame (0 / page_size) 0
        × ((s'' : Vm) × (translate handled 0 size writing
              ≡ ok (s'', translated (frame * page_size + 0 % page_size)))))
unfolding booted initialize
page_fault-restarts_example =
    page_fault-restarts 0 booted booted registers at_fault 0 fifo handled booted-IsBytes
      registers-IsRegisters (initialize-Coherent (record blank { memory = program }) places 0)
      first_fault (omega arith) handled-done

-- OR computes R2 | R2, not R2 | R3, and SRL keeps the sign.
or_run :
    compute op_or registers (record add_instruction { op_code = op_or })
    ≡ ok (sets registers 1 2147483647)
unfolding compute
or_run = refl

srl_run :
    compute op_srl
      (update registers 3 sign_bit)
      (record add_instruction { op_code = op_srl; extra = 1 })
    ≡ ok (sets (update registers 3 sign_bit) 1 3221225472)
unfolding compute
srl_run = refl

-- `jalr r2, r2` jumps to the address after it, and not to the one that R2 held.
jalr_run :
    compute op_jalr registers (record { op_code = op_jalr; rs = 2; rt = 0; rd = 2; extra = 0 })
    ≡ ok (breaks (update registers 2 8) 8 0 0)
unfolding compute
jalr_run = refl

div_run :
    compute op_div
      (update (update registers 2 sign_bit) 3 4294967295)
      (record add_instruction { op_code = op_div })
    ≡ fault overflow
unfolding compute
div_run = refl

decode-Meets_example : Meets false IsDecoded (decode 4392992)
decode-Meets_example = decode-Meets 4392992
