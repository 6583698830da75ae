-- ===== src/Processor/Registers.antt =====
-- The registers of machine/machine.h and the operations of machine/mipssim.h.
use csci402_projects.Base.{ℕ, ltb, if◌then◌else◌, update, Result, ok, fault, out_of_bounds}

-- The registers by number: 32 general ones, and those named below.
abbrev pub Registers : Type 0
Registers = ℕ → ℕ

abbrev pub r31 : ℕ
r31 = 31

abbrev pub hi_reg : ℕ
hi_reg = 32

abbrev pub lo_reg : ℕ
lo_reg = 33

abbrev pub pc_reg : ℕ
pc_reg = 34

abbrev pub next_pc_reg : ℕ
next_pc_reg = 35

abbrev pub prev_pc_reg : ℕ
prev_pc_reg = 36

abbrev pub load_reg : ℕ
load_reg = 37

abbrev pub load_value_reg : ℕ
load_value_reg = 38

abbrev pub bad_vaddr_reg : ℕ
bad_vaddr_reg = 39

-- `op_special` and `op_bcond` are the table's marks for a second lookup.
pub data OpCode : Type 0 where
  op_add op_addi op_addiu op_addu op_and op_andi op_beq op_bgez op_bgezal op_bgtz op_blez : OpCode
  op_bltz op_bltzal op_bne op_div op_divu op_j op_jal op_jalr op_jr op_lb op_lbu op_lh : OpCode
  op_lhu op_lui op_lw op_lwl op_lwr op_mfhi op_mflo op_mthi op_mtlo op_mult op_multu : OpCode
  op_nor op_or op_ori op_rfe op_sb op_sh op_sll op_sllv op_slt op_slti op_sltiu op_sltu : OpCode
  op_sra op_srav op_srl op_srlv op_sub op_subu op_sw op_swl op_swr op_xor op_xori : OpCode
  op_syscall op_unimp op_res op_special op_bcond : OpCode

pub record Instruction : Type 0 where
  pub op_code : OpCode
  pub rs : ℕ
  pub rt : ℕ
  pub rd : ℕ
  pub extra : ℕ

-- NumTotalRegs
abbrev pub num_total_regs : ℕ
num_total_regs = 40

-- `Machine::DelayedLoad`
unfoldable pub delayed_load : Registers → ℕ → ℕ → Result Registers
delayed_load r next_reg next_value =
    if ltb (r load_reg) num_total_regs
    then (let loaded = update r (r load_reg) (r load_value_reg) in
        ok (update (update (update loaded load_reg next_reg) load_value_reg next_value) 0 0))
    else fault out_of_bounds
