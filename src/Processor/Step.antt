-- ===== src/Processor/Step.antt =====
-- The instructions of machine/mipssim.cc that use memory, and the whole of
-- `Machine::OneInstruction` with `Machine::RaiseException` of machine/machine.cc, up to the call of
-- the kernel's handler.
use csci402_projects.Base.{
  ℕ, ◌+◌, ◌*◌, ◌/◌, ◌%◌, Bool, true, false, ◌==◌, if◌then◌else◌, update, Result, ok, fault,
  assertion, ◌>>=◌,
}
use csci402_projects.VirtualMemory.State.{Vm}
use csci402_projects.VirtualMemory.Translate.{address_error, value, trapped, read_mem, write_mem}
use csci402_projects.Processor.Words.{add, extend_half, extend_byte}
use csci402_projects.Processor.Registers.{
  Registers, pc_reg, next_pc_reg, prev_pc_reg, load_reg, load_value_reg, bad_vaddr_reg,
  delayed_load, OpCode, Instruction, op_lb, op_lbu, op_lh, op_lhu, op_lw, op_lwl, op_lwr, op_sb,
  op_sh, op_sw, op_swl, op_swr,
}
use csci402_projects.Processor.Tables.{decode}
use csci402_projects.Processor.Execute.{
  Cause, access_exception, Effect, breaks, raises, next_instruction, loads, compute,
}

-- The tables of the virtual memory after the instruction, and how it ended.
abbrev pub Ending : Type 0
Ending = Vm × Effect

-- `if (!machine->ReadMem(addr, size, &value)) return;`: ReadMem has raised the exception.
unfoldable pub reading : ℕ → Vm → Registers → ℕ → ℕ → (Vm → ℕ → Result Ending) → Result Ending
reading ticks s r addr size next =
    (read_mem ticks s addr size >>= λ got. elim got.1 [
      | trapped e ↦ ok (got.0, raises r (access_exception e) addr)
      | value v ↦ next got.0 v
    ])

-- `if (!machine->WriteMem(addr, size, v)) return; break;`
unfoldable pub storing : ℕ → Vm → Registers → ℕ → ℕ → ℕ → Result Ending
storing ticks s r addr size v =
    (write_mem ticks s addr size v >>= λ done. elim done.1 [
      | trapped e ↦ ok (done.0, raises r (access_exception e) addr)
      | value w ↦ ok (done.0, breaks r (next_instruction r) 0 0)
    ])

abbrev pub address : Registers → Instruction → ℕ
address r i = add (r i.rs) i.extra

-- LB and LBU
unfoldable pub load_byte : ℕ → Vm → Registers → Instruction → Bool → Result Ending
unfolding reading
load_byte ticks s r i signed =
    reading ticks s r (address r i) 1
      (λ s' v. ok (s', loads r i.rt (if signed then extend_byte (v % 256) else v % 256)))

-- LH and LHU
unfoldable pub load_half : ℕ → Vm → Registers → Instruction → Bool → Result Ending
unfolding reading
load_half ticks s r i signed =
    if address r i % 2 == 0
    then reading ticks s r (address r i) 2
        (λ s' v. ok (s', loads r i.rt (if signed then extend_half (v % 65536) else v % 65536)))
    else ok (s, raises r (access_exception address_error) (address r i))

unfoldable pub load_word : ℕ → Vm → Registers → Instruction → Result Ending
unfolding reading
load_word ticks s r i =
    if address r i % 4 == 0
    then reading ticks s r (address r i) 4 (λ s' v. ok (s', loads r i.rt v))
    else ok (s, raises r (access_exception address_error) (address r i))

-- The value that LWR merges the loaded one with.
abbrev pub pending : Registers → ℕ → ℕ
pending r reg = if r load_reg == reg then r load_value_reg else r reg

-- LWL, LWR, SWL and SWR have an ASSERT that the address is a multiple of four, which leaves one
-- case of each switch.
unfoldable pub load_word_left : ℕ → Vm → Registers → Instruction → Result Ending
unfolding reading
load_word_left ticks s r i =
    if address r i % 4 == 0
    then reading ticks s r (address r i) 4 (λ s' v. ok (s', loads r i.rt v))
    else fault assertion

unfoldable pub load_word_right : ℕ → Vm → Registers → Instruction → Result Ending
unfolding reading
load_word_right ticks s r i =
    if address r i % 4 == 0
    then reading ticks s r (address r i) 4
        (λ s' v. ok (s', loads r i.rt (pending r i.rt / 256 * 256 + v / 16777216)))
    else fault assertion

unfoldable pub store_word_left : ℕ → Vm → Registers → Instruction → Result Ending
unfolding reading storing
store_word_left ticks s r i =
    if address r i % 4 == 0
    then reading ticks s r (address r i) 4 (λ s' v. storing ticks s' r (address r i) 4 (r i.rt))
    else fault assertion

unfoldable pub store_word_right : ℕ → Vm → Registers → Instruction → Result Ending
unfolding reading storing
store_word_right ticks s r i =
    if address r i % 4 == 0
    then reading ticks s r (address r i) 4
        (λ s' v. storing ticks s' r (address r i) 4 (v % 16777216 + r i.rt % 256 * 16777216))
    else fault assertion

abbrev pub with_memory : Vm → Result Effect → Result Ending
with_memory s e = e >>= λ x. ok (s, x)

-- The switch of OneInstruction.
unfoldable pub execute : ℕ → Vm → OpCode → Registers → Instruction → Result Ending
unfolding storing load_byte load_half load_word load_word_left load_word_right store_word_left
    store_word_right compute
execute ticks s op_lb r i = load_byte ticks s r i true
execute ticks s op_lbu r i = load_byte ticks s r i false
execute ticks s op_lh r i = load_half ticks s r i true
execute ticks s op_lhu r i = load_half ticks s r i false
execute ticks s op_lw r i = load_word ticks s r i
execute ticks s op_lwl r i = load_word_left ticks s r i
execute ticks s op_lwr r i = load_word_right ticks s r i
execute ticks s op_sb r i = storing ticks s r (address r i) 1 (r i.rt)
execute ticks s op_sh r i = storing ticks s r (address r i) 2 (r i.rt)
execute ticks s op_sw r i = storing ticks s r (address r i) 4 (r i.rt)
execute ticks s op_swl r i = store_word_left ticks s r i
execute ticks s op_swr r i = store_word_right ticks s r i
execute ticks s op r i = with_memory s (compute op r i)

-- The registers when the instruction is over, or when the kernel's handler starts.
pub data Outcome : Type 0 where
  completed : Registers → Outcome
  trapped_into : Cause → Registers → Outcome

-- The end of OneInstruction, and RaiseException.
unfoldable pub finish : Effect → Result Outcome
unfolding delayed_load
finish (breaks r pc_after next_load_reg next_load_value) =
    (delayed_load r next_load_reg next_load_value >>= λ l. ok (
      completed (
        update (update (update l prev_pc_reg (l pc_reg)) pc_reg (l next_pc_reg)) next_pc_reg
          pc_after)))
finish (raises r cause bad_vaddr) =
    (delayed_load (update r bad_vaddr_reg bad_vaddr) 0 0 >>= λ l. ok (trapped_into cause l))

unfoldable pub run_fetched : ℕ → Registers → Vm → ℕ → Result Ending
unfolding decode execute
run_fetched ticks r s word = decode word >>= λ i. execute ticks s i.op_code r i

-- `Machine::OneInstruction`
unfoldable pub one_instruction : ℕ → Vm → Registers → Result (Vm × Outcome)
unfolding reading run_fetched finish
one_instruction ticks s r =
    (reading ticks s r (r pc_reg) 4 (run_fetched ticks r) >>= λ x.
    (finish x.1 >>= λ o. ok (x.0, o)))
