-- ===== src/Processor/Execute.antt =====
-- `Machine::OneInstruction` of machine/mipssim.cc and `Machine::RaiseException` of
-- machine/machine.cc, up to the call of the kernel's handler. Overflow of a C `int` is taken to
-- wrap, as the code relies on.
use Prim.Native.Nat.{bit_and, bit_or, bit_xor}
use csci402_projects.Base.{
  ℕ, ◌/◌, ◌%◌, Bool, true, false, ◌&&◌, not, ◌==◌, ltb, if◌then◌else◌, update, Result, ok, fault,
  assertion, overflow,
}
use csci402_projects.VirtualMemory.Translate.{Exception}
use csci402_projects.Processor.Words.{
  sign_bit, negative, signs_differ, add, subtract, complement, less_signed, shift_left, shift_right,
  quotient, remainder, index_to_addr,
}
use csci402_projects.Processor.Registers.{
  Registers, r31, hi_reg, lo_reg, next_pc_reg, OpCode, Instruction, op_add, op_addi, op_addiu,
  op_addu, op_and, op_andi, op_beq, op_bgez, op_bgezal, op_bgtz, op_blez, op_bltz, op_bltzal,
  op_bne, op_div, op_divu, op_j, op_jal, op_jalr, op_jr, op_lui, op_mfhi, op_mflo, op_mthi, op_mtlo,
  op_mult, op_multu, op_nor, op_or, op_ori, op_sll, op_sllv, op_slt, op_slti, op_sltiu, op_sltu,
  op_sra, op_srav, op_srl, op_srlv, op_sub, op_subu, op_xor, op_xori, op_syscall, op_unimp, op_res,
}
use csci402_projects.Processor.Multiply.{mult}

-- ExceptionType of machine/machine.h
pub data Cause : Type 0 where
  access_exception : Exception → Cause
  syscall_exception overflow_exception illegal_instr_exception : Cause

-- How the switch of OneInstruction ends: at its `break`, with the registers, `pcAfter`,
-- `nextLoadReg` and `nextLoadValue`, or with a call of RaiseException.
pub data Effect : Type 0 where
  breaks : (r : Registers) (pc_after next_load_reg next_load_value : ℕ) → Effect
  raises : (r : Registers) (cause : Cause) (bad_vaddr : ℕ) → Effect

-- `pcAfter` before the switch
abbrev pub next_instruction : Registers → ℕ
next_instruction r = add (r next_pc_reg) 4

-- `registers[reg] = v; break;`
abbrev pub sets : Registers → ℕ → ℕ → Effect
sets r reg v = breaks (update r reg v) (next_instruction r) 0 0

abbrev pub sets_pair : Registers → ℕ → ℕ → Effect
sets_pair r hi lo = breaks (update (update r lo_reg lo) hi_reg hi) (next_instruction r) 0 0

-- A branch that is taken when the test holds.
abbrev pub branches : Registers → Bool → ℕ → Effect
branches r test extra =
    breaks r (if test then add (r next_pc_reg) (index_to_addr extra) else next_instruction r) 0 0

-- `registers[reg] = registers[NextPCReg] + 4`
abbrev pub link : Registers → ℕ → Registers
link r reg = update r reg (add (r next_pc_reg) 4)

abbrev pub jump_target : Registers → ℕ → ℕ
jump_target r extra = bit_or (bit_and (next_instruction r) 4026531840) (index_to_addr extra)

abbrev pub flag : Bool → ℕ
flag test = if test then 1 else 0

-- `!((x ^ y) & SIGN_BIT) && ((x ^ sum) & SIGN_BIT)`
abbrev pub sum_overflows : ℕ → ℕ → Bool
sum_overflows x y = not (signs_differ x y) && signs_differ x (add x y)

-- `((x ^ y) & SIGN_BIT) && ((x ^ diff) & SIGN_BIT)`
abbrev pub difference_overflows : ℕ → ℕ → Bool
difference_overflows x y = signs_differ x y && signs_differ x (subtract x y)

-- The least `int` by -1 has no quotient.
abbrev pub divide : Registers → ℕ → ℕ → Result Effect
divide r x y =
    if y == 0
    then ok (sets_pair r 0 0)
    else if x == sign_bit && y == 4294967295
    then fault overflow
    else ok (sets_pair r (remainder x y) (quotient x y))

abbrev pub divide_unsigned : Registers → ℕ → ℕ → Effect
divide_unsigned r x y = if y == 0 then sets_pair r 0 0 else sets_pair r (x % y) (x / y)

-- A value that is loaded reaches its register after the next instruction.
abbrev pub loads : Registers → ℕ → ℕ → Effect
loads r reg v = breaks r (next_instruction r) reg v

-- The instructions that do not use memory.
unfoldable pub compute : OpCode → Registers → Instruction → Result Effect
unfolding shift_left shift_right mult
compute op_add r i =
    if sum_overflows (r i.rs) (r i.rt)
    then ok (raises r overflow_exception 0)
    else ok (sets r i.rd (add (r i.rs) (r i.rt)))
compute op_addi r i =
    if not (signs_differ (r i.rs) i.extra) && signs_differ i.extra (add (r i.rs) i.extra)
    then ok (raises r overflow_exception 0)
    else ok (sets r i.rt (add (r i.rs) i.extra))
compute op_addiu r i = ok (sets r i.rt (add (r i.rs) i.extra))
compute op_addu r i = ok (sets r i.rd (add (r i.rs) (r i.rt)))
compute op_and r i = ok (sets r i.rd (bit_and (r i.rs) (r i.rt)))
compute op_andi r i = ok (sets r i.rt (bit_and (r i.rs) (i.extra % 65536)))
compute op_beq r i = ok (branches r (r i.rs == r i.rt) i.extra)
compute op_bgezal r i = let r' = link r r31 in ok (branches r' (not (negative (r' i.rs))) i.extra)
compute op_bgez r i = ok (branches r (not (negative (r i.rs))) i.extra)
compute op_bgtz r i = ok (branches r (less_signed 0 (r i.rs)) i.extra)
compute op_blez r i = ok (branches r (not (less_signed 0 (r i.rs))) i.extra)
compute op_bltzal r i = let r' = link r r31 in ok (branches r' (negative (r' i.rs)) i.extra)
compute op_bltz r i = ok (branches r (negative (r i.rs)) i.extra)
compute op_bne r i = ok (branches r (not (r i.rs == r i.rt)) i.extra)
compute op_div r i = divide r (r i.rs) (r i.rt)
compute op_divu r i = ok (divide_unsigned r (r i.rs) (r i.rt))
compute op_jal r i = ok (breaks (link r r31) (jump_target r i.extra) 0 0)
compute op_j r i = ok (breaks r (jump_target r i.extra) 0 0)
compute op_jalr r i = let r' = link r i.rd in ok (breaks r' (r' i.rs) 0 0)
compute op_jr r i = ok (breaks r (r i.rs) 0 0)
compute op_lui r i = ok (sets r i.rt (shift_left i.extra 16))
compute op_mfhi r i = ok (sets r i.rd (r hi_reg))
compute op_mflo r i = ok (sets r i.rd (r lo_reg))
compute op_mthi r i = ok (sets r hi_reg (r i.rs))
compute op_mtlo r i = ok (sets r lo_reg (r i.rs))
compute op_mult r i = let p = mult (r i.rs) (r i.rt) true in ok (sets_pair r p.hi p.lo)
compute op_multu r i = let p = mult (r i.rs) (r i.rt) false in ok (sets_pair r p.hi p.lo)
compute op_nor r i = ok (sets r i.rd (complement (bit_or (r i.rs) (r i.rt))))
compute op_or r i = ok (sets r i.rd (bit_or (r i.rs) (r i.rs)))
compute op_ori r i = ok (sets r i.rt (bit_or (r i.rs) (i.extra % 65536)))
compute op_sll r i = ok (sets r i.rd (shift_left (r i.rt) i.extra))
compute op_sllv r i = ok (sets r i.rd (shift_left (r i.rt) (r i.rs % 32)))
compute op_slt r i = ok (sets r i.rd (flag (less_signed (r i.rs) (r i.rt))))
compute op_slti r i = ok (sets r i.rt (flag (less_signed (r i.rs) i.extra)))
compute op_sltiu r i = ok (sets r i.rt (flag (ltb (r i.rs) i.extra)))
compute op_sltu r i = ok (sets r i.rd (flag (ltb (r i.rs) (r i.rt))))
compute op_sra r i = ok (sets r i.rd (shift_right (r i.rt) i.extra))
compute op_srav r i = ok (sets r i.rd (shift_right (r i.rt) (r i.rs % 32)))
compute op_srl r i = ok (sets r i.rd (shift_right (r i.rt) i.extra))
compute op_srlv r i = ok (sets r i.rd (shift_right (r i.rt) (r i.rs % 32)))
compute op_sub r i =
    if difference_overflows (r i.rs) (r i.rt)
    then ok (raises r overflow_exception 0)
    else ok (sets r i.rd (subtract (r i.rs) (r i.rt)))
compute op_subu r i = ok (sets r i.rd (subtract (r i.rs) (r i.rt)))
compute op_syscall r i = ok (raises r syscall_exception 0)
compute op_xor r i = ok (sets r i.rd (bit_xor (r i.rs) (r i.rt)))
compute op_xori r i = ok (sets r i.rt (bit_xor (r i.rs) (i.extra % 65536)))
compute op_res r i = ok (raises r illegal_instr_exception 0)
compute op_unimp r i = ok (raises r illegal_instr_exception 0)
compute op r i = fault assertion
