-- ===== src/Processor/Performing.antt =====
-- `Machine::OneInstruction` of machine/mipssim.cc as a whole: when it faults, what it does to the
-- registers and to the virtual memory, and what the kernel finds at a trap.
use csci402_projects.Base.{
  ℕ, ◌≡◌, refl, sym, subst, Bool, true, false, Result, ok, fault, Meets, Meets-value, Meets-next,
  Meets-before, inr, ◌>>=◌,
}
use csci402_projects.VirtualMemory.State.{Vm}
use csci402_projects.VirtualMemory.Translate.{Access, value, trapped, read_mem}
use csci402_projects.VirtualMemory.System.{here, next, reads}
use csci402_projects.Processor.Registers.{Registers, Instruction, pc_reg}
use csci402_projects.Processor.Tables.{decode}
use csci402_projects.Processor.Execute.{raises, access_exception}
use csci402_projects.Processor.Accesses.{IsBytes, IsRead, read_mem-Meets}
use csci402_projects.Processor.Sound.{IsRegisters}
use csci402_projects.Processor.Decoding.{IsDecoded, decode-Meets}
use csci402_projects.Processor.Fair.{Fair, Accessed, Fair-after}
use csci402_projects.Processor.Executing.{crashes, execute-Meets}
use csci402_projects.Processor.Finishing.{Ended, finish-Meets}
use csci402_projects.Processor.Step.{
  Ending, Outcome, reading, run_fetched, finish, execute, one_instruction,
}

-- What an instruction leaves: memory of bytes, tables that accesses to the memory reach, and the
-- registers of an instruction that completes or of a precise trap.
pub record Performed (s : Vm) (r : Registers) (x : Vm × Outcome) : Type 0 where
  pub bytes : IsBytes x.0.memory
  pub accessed : Accessed s x.0
  pub ended : Ended s r x.0 x.1

abbrev decoded_crashes : Registers → Result Instruction → Bool
decoded_crashes r (ok i) = crashes i.op_code r i
decoded_crashes r (fault reason) = true

-- The word that was fetched is an instruction that faults.
abbrev word_crashes : Registers → Result (Vm × Access) → Bool
word_crashes r (ok (t, value w)) = decoded_crashes r (decode w)
word_crashes r (ok (t, trapped e)) = false
word_crashes r (fault reason) = true

-- The instruction at the program counter faults.
abbrev pub instruction_crashes : ℕ → Vm → Registers → Bool
instruction_crashes ticks s r = word_crashes r (read_mem ticks s (r pc_reg) 4)

module _ (ticks : ℕ) (s : Vm) (r : Registers) (bytes : IsBytes s.memory) (h : IsRegisters r) where
  abbrev ends : Ending → Result (Vm × Outcome)
  ends x = finish x.1 >>= λ o. ok (x.0, o)

  ends-Meets : (x : Ending) → Fair s r x → Meets false (Performed s r) (ends x)
  ends-Meets x f =
      Meets-next false (Performed s r) (finish x.1) _
        (finish-Meets s x.0 r x.1 h f.sound f.still f.missed)
        (λ o done. (refl, record { bytes = f.bytes; accessed = f.accessed; ended = done }))

  -- After the fetch: the word is decoded and executed.
  decoded-Meets :
      (t : Vm) (w : ℕ)
      → IsBytes t.memory
      → t.memory ≡ s.memory
      → Accessed s t
      → (d : Result Instruction) → Meets false IsDecoded d
      → Meets
          (decoded_crashes r d)
          (Performed s r)
          ((d >>= λ i. execute ticks t i.op_code r i) >>= ends)
  decoded-Meets t w b same path (ok i) m =
      Meets-before (crashes i.op_code r i) (Performed s r) (execute ticks t i.op_code r i) ends
        (execute-Meets ticks t r i b h m.1.fields i.op_code)
        (λ x f. ends-Meets x (Fair-after s r bytes t same path x f))
  decoded-Meets t w b same path (fault reason) m = cc

  fetched-Meets :
      (x : Result (Vm × Access))
      → Meets false (λ got. IsRead s (r pc_reg) got × (read_mem ticks s (r pc_reg) 4 ≡ ok got)) x
      → Meets (word_crashes r x) (Performed s r) (
          (x >>= λ got. elim got.1 [
            | trapped e ↦ ok (got.0, raises r (access_exception e) (r pc_reg))
            | value w ↦ run_fetched ticks r got.0 w
          ])
          >>= ends)
  unfolding run_fetched
  fetched-Meets (fault reason) m = cc
  fetched-Meets (ok (t, trapped e)) m =
      ends-Meets (t, raises r (access_exception e) (r pc_reg))
        (record {
          bytes = subst IsBytes (sym m.1.0.0) bytes;
          sound = (refl, h.words pc_reg);
          still = m.1.0.0;
          accessed = λ running. next here (reads ticks (r pc_reg) 4 t (trapped e) m.1.1);
          missed = m.1.0.1;
        })
  fetched-Meets (ok (t, value w)) m =
      decoded-Meets t w (subst IsBytes (sym m.1.0.0) bytes) m.1.0.0
        (λ running. next here (reads ticks (r pc_reg) 4 t (value w) m.1.1)) (decode w)
        (decode-Meets w)

  -- Start from words in the registers, zero in R0, a pending load into a general register, and bytes
  -- in the memory. An instruction faults exactly when its fetch gives a word that is a LWL, LWR, SWL
  -- or SWR at an address that is not a multiple of four, a DIV of the least int by -1, or an operation
  -- without a case. Otherwise it ends, what held at the start holds again, and the virtual memory has
  -- only gone through reads and writes. If it completes, the program counters have moved on. If it
  -- traps, the memory, the program counters and the general registers are as before, but for the
  -- pending load, which has been done; a page fault is raised at the address that missed.
  pub one_instruction-Meets :
      Meets (instruction_crashes ticks s r) (Performed s r) (one_instruction ticks s r)
  unfolding one_instruction reading
  one_instruction-Meets = fetched-Meets (read_mem ticks s (r pc_reg) 4) (
      Meets-value false (IsRead s (r pc_reg)) _
        (read_mem-Meets ticks s (r pc_reg) 4 bytes (inr (inr refl))))
