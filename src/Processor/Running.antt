-- ===== src/Processor/Running.antt =====
-- A user program that runs on the processor of machine/mipssim.cc, with the kernel of the virtual
-- memory behind its traps.
use csci402_projects.Base.{ℕ, ◌+◌, ◌*◌, ◌/◌, ◌%◌, ◌≤◌, ◌<◌, ◌≡◌, refl, subst, Bool, ok, Meets}
use csci402_projects.FileSystem.Bitmap.{BitMap}
use csci402_projects.VirtualMemory.State.{Vm, page_size, memory_size}
use csci402_projects.VirtualMemory.Translate.{page_fault, raised, translated, translate}
use csci402_projects.VirtualMemory.PageFault.{Policy, done, handle_page_fault}
use csci402_projects.VirtualMemory.Coherent.{Coherent, Holds}
use csci402_projects.VirtualMemory.Spaces.{initialize}
use csci402_projects.VirtualMemory.System.{Machine, Steps, here}
use csci402_projects.VirtualMemory.Isolation.{Steps-Coherent, isolation}
use csci402_projects.VirtualMemory.Retry.{retry}
use csci402_projects.Processor.Words.{sign_bit}
use csci402_projects.Processor.Registers.{Registers, pc_reg, next_pc_reg, bad_vaddr_reg}
use csci402_projects.Processor.Execute.{Cause, access_exception}
use csci402_projects.Processor.Accesses.{IsBytes}
use csci402_projects.Processor.Sound.{IsRegisters}
use csci402_projects.Processor.Fair.{machine_of, Steps-trans}
use csci402_projects.Processor.Performing.{Performed, instruction_crashes, one_instruction-Meets}
use csci402_projects.Processor.Step.{Outcome, completed, trapped_into, one_instruction}

-- An instruction that gave an outcome performed.
pub performed :
    (ticks : ℕ) (s : Vm) (r : Registers) (x : Vm × Outcome)
    → IsBytes s.memory
    → IsRegisters r
    → one_instruction ticks s r ≡ ok x
    → Performed s r x
performed ticks s r x bytes h e =
    (subst (Meets (instruction_crashes ticks s r) (Performed s r)) e
      (one_instruction-Meets ticks s r bytes h)).1

-- The machine of the virtual memory, and the registers of the thread that runs.
pub record Computer : Type 0 where
  pub machine : Machine
  pub registers : Registers

-- What the machine's `char` and `int` arrays hold, R0, and a pending load.
pub record IsComputer (c : Computer) : Type 0 where
  pub bytes : IsBytes c.machine.vm.memory
  pub registers : IsRegisters c.registers

-- An instruction that completes; or one that traps, after which the kernel has run and lets a process
-- go on.
pub data Turn (c : Computer) : Computer → Type 0 where
  completes :
      (ticks : ℕ) (s : Vm) (r : Registers)
      → one_instruction ticks c.machine.vm c.registers ≡ ok (s, completed r)
      → Turn c (record { machine = machine_of s c.machine.running; registers = r })
  traps :
      (ticks : ℕ) (s : Vm) (cause : Cause) (r : Registers) (d : Computer)
      → one_instruction ticks c.machine.vm c.registers ≡ ok (s, trapped_into cause r)
      → Steps (machine_of s c.machine.running) d.machine
      → IsComputer d
      → Turn c d

pub data Turns (c : Computer) : Computer → Type 0 where
  start : Turns c c
  turn : {d e : Computer} → Turns c d → Turn d e → Turns c e

Turn-Steps : {c d : Computer} → Turn c d → IsComputer c → Steps c.machine d.machine × IsComputer d
Turn-Steps {c} (completes ticks s r e) h =
    let p = performed ticks c.machine.vm c.registers (s, completed r) h.bytes h.registers e in
    (p.accessed c.machine.running, record { bytes = p.bytes; registers = p.ended.registers })
Turn-Steps {c} (traps ticks s cause r d e steps g) h =
    let p =
      performed ticks c.machine.vm c.registers (s, trapped_into cause r) h.bytes h.registers e in
    (Steps-trans (p.accessed c.machine.running) steps, g)

Turns-Steps : {c d : Computer} → Turns c d → IsComputer c → Steps c.machine d.machine × IsComputer d
Turns-Steps start h = (here, h)
Turns-Steps (turn ts t) h =
    let (steps, g) = Turns-Steps ts h in
    let (more, k) = Turn-Steps t g in (Steps-trans steps more, k)

-- From the start of the system on, let programs execute any instructions, and let the kernel at their
-- traps access memory, handle page faults, switch, load and fork in any order, as long as it leaves
-- bytes in the memory, words in the registers, zero in R0 and a pending load into a general register.
-- Then all this holds in every state, and an address of the process that runs is translated only to
-- memory, at the same offset, in a frame that the IPT gives to this process for this page.
pub program-isolation :
    (s₀ : Vm) (places : BitMap) (first : ℕ) (r₀ : Registers) (c : Computer)
    → IsComputer (record { machine = machine_of (initialize s₀ places) first; registers = r₀ })
    → Turns (record { machine = machine_of (initialize s₀ places) first; registers = r₀ }) c
    → IsComputer c
      × ((addr size : ℕ) (writing : Bool) (s : Vm) (phys : ℕ)
          → translate c.machine.vm addr size writing ≡ ok (s, translated phys)
          → (phys + size ≤ memory_size)
            × (phys % page_size ≡ addr % page_size)
            × Holds c.machine.vm (phys / page_size) (addr / page_size) c.machine.running)
program-isolation s₀ places first r₀ c h ts =
    let (steps, g) = Turns-Steps ts h in (g, isolation s₀ places first c.machine steps)

-- Let an instruction raise a page fault at an address below 2^31, in a coherent state, and let the
-- kernel's handler come to its end. Then the instruction can be started again: the program counters
-- are those of the instruction, it has not written the memory, and the access that missed is now
-- translated to the frame that holds the page for this process.
pub page_fault-restarts :
    (ticks : ℕ) (s t : Vm) (r r' : Registers) (running : ℕ) (policy : Policy) (s' : Vm)
    → IsBytes s.memory
    → IsRegisters r
    → Coherent s running
    → one_instruction ticks s r ≡ ok (t, trapped_into (access_exception page_fault) r')
    → r' bad_vaddr_reg < sign_bit
    → handle_page_fault policy t running (r' bad_vaddr_reg / page_size) ≡ ok (done s')
    → (r' pc_reg ≡ r pc_reg)
      × (r' next_pc_reg ≡ r next_pc_reg)
      × (t.memory ≡ s.memory)
      × ((size : ℕ) × (writing : Bool) × (frame : ℕ) × (translate t (r' bad_vaddr_reg) size writing
            ≡ ok (t, raised page_fault))
          × Holds s' frame (r' bad_vaddr_reg / page_size) running
          × ((s'' : Vm) × (translate s' (r' bad_vaddr_reg) size writing
                ≡ ok (s'', translated (frame * page_size + r' bad_vaddr_reg % page_size)))))
page_fault-restarts ticks s t r r' running policy s' bytes h c e low handled =
    let p = performed ticks s r (t, trapped_into (access_exception page_fault) r') bytes h e in
    let (precise, same, missed) = p.ended in
    let (size, writing, sized, miss) = missed refl in
    let (frame, held, hit) =
      retry policy t s' running (r' bad_vaddr_reg) size writing
        (Steps-Coherent (p.accessed running) c) sized miss handled in
    (precise.pc, precise.next_pc, same, (size, writing, frame, miss, held, hit))
