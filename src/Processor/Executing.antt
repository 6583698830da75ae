-- ===== src/Processor/Executing.antt =====
-- Every instruction of machine/mipssim.cc keeps to `Fair`, and which of them fault.
use csci402_projects.Base.{
  ℕ, ◌%◌, ◌<◌, refl, Bool, true, false, not, ◌==◌, if◌then◌else◌, if-cases, inl, inr, Result, ok,
  fault, assertion, Meets, arith,
}
use csci402_projects.VirtualMemory.State.{Vm}
use csci402_projects.VirtualMemory.Translate.{address_error}
use csci402_projects.VirtualMemory.Retry.{IsSize}
use csci402_projects.Processor.Words.{word_limit}
use csci402_projects.Processor.Registers.{
  Registers, load_value_reg, OpCode, Instruction, op_lb, op_lbu, op_lh, op_lhu, op_lw, op_lwl,
  op_lwr, op_sb, op_sh, op_sw, op_swl, op_swr,
}
use csci402_projects.Processor.Execute.{
  Effect, breaks, raises, access_exception, syscall_exception, overflow_exception,
  illegal_instr_exception, loads, compute,
}
use csci402_projects.Processor.Accesses.{IsBytes}
use csci402_projects.Processor.Sound.{IsRegisters, IsInstruction, Plain, Plain-Sound, loads-Sound}
use csci402_projects.Processor.Computing.{has_no_result, compute-Meets}
use csci402_projects.Processor.Fair.{Fair, AtMiss, alone, reading-Meets, storing-Meets}
use csci402_projects.Processor.Step.{
  Ending, reading, address, load_byte, load_half, load_word, load_word_left, load_word_right,
  store_word_left, store_word_right, with_memory, execute,
}

-- The instruction faults: an ASSERT on the address fails, a division has no quotient, or the
-- operation has no case.
unfoldable pub crashes : OpCode → Registers → Instruction → Bool
unfolding has_no_result
crashes op_lb r i = false
crashes op_lbu r i = false
crashes op_lh r i = false
crashes op_lhu r i = false
crashes op_lw r i = false
crashes op_sb r i = false
crashes op_sh r i = false
crashes op_sw r i = false
crashes op_lwl r i = not (address r i % 4 == 0)
crashes op_lwr r i = not (address r i % 4 == 0)
crashes op_swl r i = not (address r i % 4 == 0)
crashes op_swr r i = not (address r i % 4 == 0)
crashes op r i = has_no_result op r i

one_byte : IsSize 1
one_byte = inl refl

two_bytes : IsSize 2
two_bytes = inr (inl refl)

four_bytes : IsSize 4
four_bytes = inr (inr refl)

Plain-AtMiss : (s : Vm) (r : Registers) (e : Effect) → Plain r e → AtMiss (s, e)
Plain-AtMiss s r (breaks r' pc_after reg v) h = tt
Plain-AtMiss s r (raises r' (access_exception e) bad_vaddr) h = absurd h
Plain-AtMiss s r (raises r' syscall_exception bad_vaddr) h = tt
Plain-AtMiss s r (raises r' overflow_exception bad_vaddr) h = tt
Plain-AtMiss s r (raises r' illegal_instr_exception bad_vaddr) h = tt

module _ (ticks : ℕ) (s : Vm) (r : Registers) (i : Instruction) (bytes : IsBytes s.memory)
    (h : IsRegisters r) (k : IsInstruction i) where
  with_memory-Meets :
      (test : Bool) (c : Result Effect)
      → Meets test (Plain r) c
      → Meets test (Fair s r) (with_memory s c)
  with_memory-Meets test (ok e) m =
      (m.0, alone s r bytes e (Plain-Sound r e m.1) (Plain-AtMiss s r e m.1))
  with_memory-Meets test (fault reason) m = m

  address_lt : address r i < word_limit
  address_lt = omega arith

  -- A value that is loaded, after a read.
  loaded :
      (t : Vm) (v : ℕ)
      → IsBytes t.memory
      → v < word_limit
      → Meets false (Fair t r) (ok (t, loads r i.rt v))
  loaded t v b small = (refl, alone t r b _ (loads-Sound r h i.rt v k.rt small) tt)

  unaligned :
      Meets false (Fair s r) (ok (s, raises r (access_exception address_error) (address r i)))
  unaligned = (refl, alone s r bytes _ (refl, address_lt) (λ e. cc))

  load_byte-Meets : (signed : Bool) → Meets false (Fair s r) (load_byte ticks s r i signed)
  unfolding load_byte
  load_byte-Meets signed =
      reading-Meets s r bytes ticks (address r i) 1 _ one_byte address_lt
        (λ t v b small. loaded t _ b (ground arith))

  load_half-Meets : (signed : Bool) → Meets false (Fair s r) (load_half ticks s r i signed)
  unfolding load_half
  load_half-Meets signed =
      if-cases (Meets false (Fair s r)) (address r i % 2 == 0)
        (λ even.
          reading-Meets s r bytes ticks (address r i) 2 _ two_bytes address_lt
            (λ t v b small. loaded t _ b (ground arith)))
        (λ odd. unaligned)

  load_word-Meets : Meets false (Fair s r) (load_word ticks s r i)
  unfolding load_word
  load_word-Meets =
      if-cases (Meets false (Fair s r)) (address r i % 4 == 0)
        (λ even. reading-Meets s r bytes ticks (address r i) 4 _ four_bytes address_lt loaded)
        (λ odd. unaligned)

  -- The instructions with an ASSERT on the address.
  asserted :
      (x : Result Ending)
      → Meets false (Fair s r) x
      → Meets
          (not (address r i % 4 == 0))
          (Fair s r)
          (if address r i % 4 == 0 then x else fault assertion)
  asserted x m = go (address r i % 4 == 0)
    where
      go : (b : Bool) → Meets (not b) (Fair s r) (if b then x else fault assertion)
      go true = m
      go false = refl

  four :
      (after : Vm → ℕ → Result Ending)
      → ((t : Vm) (v : ℕ) → IsBytes t.memory → v < word_limit → Meets false (Fair t r) (after t v))
      → Meets (not (address r i % 4 == 0)) (Fair s r) (
          if address r i % 4 == 0 then reading ticks s r (address r i) 4 after else fault assertion)
  four after each =
      asserted _ (reading-Meets s r bytes ticks (address r i) 4 after four_bytes address_lt each)

  pub execute-Meets : (op : OpCode) → Meets (crashes op r i) (Fair s r) (execute ticks s op r i)
  unfolding crashes execute load_word_left load_word_right store_word_left store_word_right
  execute-Meets op_lb = load_byte-Meets true
  execute-Meets op_lbu = load_byte-Meets false
  execute-Meets op_lh = load_half-Meets true
  execute-Meets op_lhu = load_half-Meets false
  execute-Meets op_lw = load_word-Meets
  execute-Meets op_lwl = four _ loaded
  execute-Meets op_lwr =
      four _ (λ t v b small. loaded t _ b (ground (arith, h.words i.rt, h.words load_value_reg)))
  execute-Meets op_swl =
      four _ (λ t v b small. storing-Meets t r b ticks (address r i) 4 _ h four_bytes address_lt)
  execute-Meets op_swr =
      four _ (λ t v b small. storing-Meets t r b ticks (address r i) 4 _ h four_bytes address_lt)
  execute-Meets op_sb = storing-Meets s r bytes ticks (address r i) 1 _ h one_byte address_lt
  execute-Meets op_sh = storing-Meets s r bytes ticks (address r i) 2 _ h two_bytes address_lt
  execute-Meets op_sw = storing-Meets s r bytes ticks (address r i) 4 _ h four_bytes address_lt
  execute-Meets op =
      with_memory-Meets (has_no_result op r i) (compute op r i) (compute-Meets r i h k op)
