-- ===== src/Processor/Tables.antt =====
-- The decoding of an instruction: the tables of machine/mipssim.h and `Instruction::Decode` of
-- machine/mipssim.cc.
use csci402_projects.Base.{
  ℕ, ◌/◌, ◌%◌, ◌==◌, if◌then◌else◌, none, some, List, [], ◌∷◌, get_elem?, Result, ok, fault,
  out_of_bounds, ◌>>=◌,
}
use csci402_projects.Processor.Words.{extend_half}
use csci402_projects.Processor.Registers.{
  OpCode, Instruction, op_add, op_addi, op_addiu, op_addu, op_and, op_andi, op_beq, op_bgez,
  op_bgezal, op_bgtz, op_blez, op_bltz, op_bltzal, op_bne, op_div, op_divu, op_j, op_jal, op_jalr,
  op_jr, op_lb, op_lbu, op_lh, op_lhu, op_lui, op_lw, op_lwl, op_lwr, op_mfhi, op_mflo, op_mthi,
  op_mtlo, op_mult, op_multu, op_nor, op_or, op_ori, op_sb, op_sh, op_sll, op_sllv, op_slt, op_slti,
  op_sltiu, op_sltu, op_sra, op_srav, op_srl, op_srlv, op_sub, op_subu, op_sw, op_swl, op_swr,
  op_xor, op_xori, op_syscall, op_unimp, op_res, op_special, op_bcond,
}

pub data Format : Type 0 where
  ifmt jfmt rfmt : Format

pub record OpInfo : Type 0 where
  pub op_code : OpCode
  pub format : Format

abbrev info : OpCode → Format → OpInfo
info o f = record { op_code = o; format = f }

abbrev pub op_table : List OpInfo
op_table =
    info op_special rfmt
    ∷ info op_bcond ifmt
    ∷ info op_j jfmt
    ∷ info op_jal jfmt
    ∷ info op_beq ifmt
    ∷ info op_bne ifmt
    ∷ info op_blez ifmt
    ∷ info op_bgtz ifmt
    ∷ info op_addi ifmt
    ∷ info op_addiu ifmt
    ∷ info op_slti ifmt
    ∷ info op_sltiu ifmt
    ∷ info op_andi ifmt
    ∷ info op_ori ifmt
    ∷ info op_xori ifmt
    ∷ info op_lui ifmt
    ∷ info op_unimp ifmt
    ∷ info op_unimp ifmt
    ∷ info op_unimp ifmt
    ∷ info op_unimp ifmt
    ∷ info op_res ifmt
    ∷ info op_res ifmt
    ∷ info op_res ifmt
    ∷ info op_res ifmt
    ∷ info op_res ifmt
    ∷ info op_res ifmt
    ∷ info op_res ifmt
    ∷ info op_res ifmt
    ∷ info op_res ifmt
    ∷ info op_res ifmt
    ∷ info op_res ifmt
    ∷ info op_res ifmt
    ∷ info op_lb ifmt
    ∷ info op_lh ifmt
    ∷ info op_lwl ifmt
    ∷ info op_lw ifmt
    ∷ info op_lbu ifmt
    ∷ info op_lhu ifmt
    ∷ info op_lwr ifmt
    ∷ info op_res ifmt
    ∷ info op_sb ifmt
    ∷ info op_sh ifmt
    ∷ info op_swl ifmt
    ∷ info op_sw ifmt
    ∷ info op_res ifmt
    ∷ info op_res ifmt
    ∷ info op_swr ifmt
    ∷ info op_res ifmt
    ∷ info op_unimp ifmt
    ∷ info op_unimp ifmt
    ∷ info op_unimp ifmt
    ∷ info op_unimp ifmt
    ∷ info op_res ifmt
    ∷ info op_res ifmt
    ∷ info op_res ifmt
    ∷ info op_res ifmt
    ∷ info op_unimp ifmt
    ∷ info op_unimp ifmt
    ∷ info op_unimp ifmt
    ∷ info op_unimp ifmt
    ∷ info op_res ifmt
    ∷ info op_res ifmt
    ∷ info op_res ifmt
    ∷ info op_res ifmt
    ∷ []

abbrev pub special_table : List OpCode
special_table =
    op_sll ∷ op_res ∷ op_srl ∷ op_sra ∷ op_sllv ∷ op_res ∷ op_srlv ∷ op_srav ∷ op_jr ∷ op_jalr
    ∷ op_res ∷ op_res ∷ op_syscall ∷ op_unimp ∷ op_res ∷ op_res ∷ op_mfhi ∷ op_mthi ∷ op_mflo
    ∷ op_mtlo ∷ op_res ∷ op_res ∷ op_res ∷ op_res ∷ op_mult ∷ op_multu ∷ op_div ∷ op_divu ∷ op_res
    ∷ op_res ∷ op_res ∷ op_res ∷ op_add ∷ op_addu ∷ op_sub ∷ op_subu ∷ op_and ∷ op_or ∷ op_xor
    ∷ op_nor ∷ op_res ∷ op_res ∷ op_slt ∷ op_sltu ∷ op_res ∷ op_res ∷ op_res ∷ op_res ∷ op_res
    ∷ op_res ∷ op_res ∷ op_res ∷ op_res ∷ op_res ∷ op_res ∷ op_res ∷ op_res ∷ op_res ∷ op_res
    ∷ op_res ∷ op_res ∷ op_res ∷ op_res ∷ op_res ∷ []

-- An entry of a table, which an index past its end is not.
unfoldable pub entry {ℓ} : {A : Type ℓ} → List A → ℕ → Result A
entry t i = elim (get_elem? t i) [ none ↦ fault out_of_bounds | some x ↦ ok x ]

-- The second lookup of a branch on a comparison with zero: the bits 16 to 20.
unfoldable pub bcond : ℕ → OpCode
bcond i =
    if i == 0
    then op_bltz
    else if i == 1
    then op_bgez
    else if i == 16
    then op_bltzal
    else if i == 17
    then op_bgezal
    else op_unimp

unfoldable pub extra_of : Format → ℕ → ℕ
extra_of ifmt value = extend_half (value % 65536)
extra_of rfmt value = value / 64 % 32
extra_of jfmt value = value % 67108864

unfoldable pub final_op : OpCode → ℕ → Result OpCode
unfolding entry bcond
final_op op_special value = entry special_table (value % 64)
final_op op_bcond value = ok (bcond (value / 65536 % 32))
final_op op value = ok op

-- `Instruction::Decode`
unfoldable pub decode : ℕ → Result Instruction
unfolding entry extra_of final_op
decode value =
    (entry op_table (value / 67108864 % 64) >>= λ row.
    (final_op row.op_code value >>= λ op. ok (record {
      op_code = op;
      rs = value / 2097152 % 32;
      rt = value / 65536 % 32;
      rd = value / 2048 % 32;
      extra = extra_of row.format value;
    })))
