-- ===== src/Processor/Computing.antt =====
-- The instructions of machine/mipssim.cc that do not use memory: each respects `Plain`, and only a
-- division without a quotient and the codes that no instruction has fault.
use native.Mathlib.Nat.{div-le_self, mod-le}
use csci402_projects.Base.{
  Meets, if-cases, ℕ, ◌/◌, ◌%◌, ◌<◌, ◌≡◌, zero, suc, refl, Bool, true, false, ◌&&◌, ◌==◌,
  if◌then◌else◌, ok, fault, overflow, arith,
}
use csci402_projects.Processor.Words.{
  word_limit, sign_bit, shift_left, shift_right, quotient, remainder, magnitude, negate, negative,
  signs_differ,
}
use csci402_projects.Processor.Registers.{
  Registers, r31, hi_reg, lo_reg, OpCode, Instruction, op_add, op_addi, op_addiu, op_addu, op_and,
  op_andi, op_bcond, op_beq, op_bgez, op_bgezal, op_bgtz, op_blez, op_bltz, op_bltzal, op_bne,
  op_div, op_divu, op_j, op_jal, op_jalr, op_jr, op_lb, op_lbu, op_lh, op_lhu, op_lui, op_lw,
  op_lwl, op_lwr, op_mfhi, op_mflo, op_mthi, op_mtlo, op_mult, op_multu, op_nor, op_or, op_ori,
  op_res, op_rfe, op_sb, op_sh, op_sll, op_sllv, op_slt, op_slti, op_sltiu, op_sltu, op_special,
  op_sra, op_srav, op_srl, op_srlv, op_sub, op_subu, op_sw, op_swl, op_swr, op_syscall, op_unimp,
  op_xor, op_xori,
}
use csci402_projects.Processor.Products.{mult-IsProduct}
use csci402_projects.Processor.Bits.{bit_and_lt, bit_or_lt, bit_xor_lt}
use csci402_projects.Processor.Execute.{
  Effect, breaks, raises, sets, sets_pair, branches, link, flag, jump_target, divide,
  divide_unsigned, overflow_exception, compute,
}
use csci402_projects.Processor.Sound.{
  IsRegisters, IsInstruction, Plain, sets-Sound, sets_pair-Sound, link-Continues, jump-Continues,
  branch_lt,
}

-- The operations without a case of the switch here, and a division that has no quotient.
unfoldable pub has_no_result : OpCode → Registers → Instruction → Bool
has_no_result op_div r i = r i.rs == sign_bit && r i.rt == 4294967295
has_no_result op_rfe r i = true
has_no_result op_special r i = true
has_no_result op_bcond r i = true
has_no_result op_lb r i = true
has_no_result op_lbu r i = true
has_no_result op_lh r i = true
has_no_result op_lhu r i = true
has_no_result op_lw r i = true
has_no_result op_lwl r i = true
has_no_result op_lwr r i = true
has_no_result op_sb r i = true
has_no_result op_sh r i = true
has_no_result op_sw r i = true
has_no_result op_swl r i = true
has_no_result op_swr r i = true
has_no_result op r i = false

shift_left_lt : (x n : ℕ) → x < word_limit → shift_left x n < word_limit
unfolding shift_left
shift_left_lt x zero h = h
shift_left_lt x (suc n) h = omega arith

shift_right_lt : (x n : ℕ) → x < word_limit → shift_right x n < word_limit
unfolding shift_right
shift_right_lt x zero h = h
shift_right_lt x (suc n) h = ground (arith, shift_right_lt x n h)

magnitude_lt : (x : ℕ) → x < word_limit → magnitude x < word_limit
magnitude_lt x h = ground arith

signed_lt : (b : Bool) (n : ℕ) → n < word_limit → (if b then negate n else n) < word_limit
signed_lt b n h = ground arith

-- A test before the one that faults.
guarded :
    (P : Effect → Type 0) (first bad : Bool) (x y : Effect)
    → (first ≡ true → bad ≡ false)
    → P x
    → P y
    → Meets bad P (if first then ok x else if bad then fault overflow else ok y)
guarded P true bad x y e px py = (e refl, px)
guarded P false true x y e px py = refl
guarded P false false x y e px py = (refl, py)

module _ (r : Registers) (i : Instruction) (h : IsRegisters r) (k : IsInstruction i) where
  to_rd : (v : ℕ) → v < word_limit → Meets false (Plain r) (ok (sets r i.rd v))
  to_rd v hv = (refl, sets-Sound r h i.rd v (omega (arith, k.rd)) hv)

  to_rt : (v : ℕ) → v < word_limit → Meets false (Plain r) (ok (sets r i.rt v))
  to_rt v hv = (refl, sets-Sound r h i.rt v (omega (arith, k.rt)) hv)

  traps :
      (over : Bool) (reg v : ℕ)
      → reg < 34
      → v < word_limit
      → Meets false
          (Plain r)
          (if over then ok (raises r overflow_exception 0) else ok (sets r reg v))
  traps true reg v hr hv = (refl, (refl, omega arith))
  traps false reg v hr hv = (refl, sets-Sound r h reg v hr hv)

  -- A branch, and one that links first.
  on : (test : Bool) → Meets false (Plain r) (ok (branches r test i.extra))
  on test = (refl, jump-Continues r h _ (branch_lt r test i.extra))

  linked :
      (reg pc : ℕ)
      → reg < 34
      → pc < word_limit
      → Meets false (Plain r) (ok (breaks (link r reg) pc 0 0))
  linked reg pc hr hp = (refl, link-Continues r h reg _ pc hr (omega arith) hp)

  flag_lt : (test : Bool) → flag test < word_limit
  flag_lt test = ground arith

  target_lt : jump_target r i.extra < word_limit
  target_lt = bit_or_lt _ _ (bit_and_lt _ _ (omega arith) (omega arith)) (omega arith)

  low : i.extra % 65536 < word_limit
  low = omega arith

  rs_of : r i.rs < word_limit
  rs_of = h.words i.rs

  rt_of : r i.rt < word_limit
  rt_of = h.words i.rt

  quotient_lt : quotient (r i.rs) (r i.rt) < word_limit
  quotient_lt =
      let m = magnitude_lt (r i.rs) rs_of in
      signed_lt (signs_differ (r i.rs) (r i.rt)) (magnitude (r i.rs) / magnitude (r i.rt))
        (omega (arith, m, div-le_self (magnitude (r i.rs)) (magnitude (r i.rt))))

  remainder_lt : remainder (r i.rs) (r i.rt) < word_limit
  remainder_lt =
      let m = magnitude_lt (r i.rs) rs_of in
      signed_lt (negative (r i.rs)) (magnitude (r i.rs) % magnitude (r i.rt))
        (omega (arith, m, mod-le (magnitude (r i.rs)) (magnitude (r i.rt))))

  zeros-Plain : Plain r (sets_pair r 0 0)
  zeros-Plain = sets_pair-Sound r h 0 0 (omega arith) (omega arith)

  divide-Meets : Meets (has_no_result op_div r i) (Plain r) (divide r (r i.rs) (r i.rt))
  unfolding has_no_result
  divide-Meets =
      guarded (Plain r) (r i.rt == 0) (r i.rs == sign_bit && r i.rt == 4294967295) _ _
        (λ e. ground arith) zeros-Plain (sets_pair-Sound r h _ _ remainder_lt quotient_lt)

  divide_unsigned-Plain : Plain r (divide_unsigned r (r i.rs) (r i.rt))
  divide_unsigned-Plain =
      if-cases (Plain r) (r i.rt == 0) (λ e. zeros-Plain)
        (λ e.
          sets_pair-Sound r h _ _ (omega (arith, rs_of, mod-le (r i.rs) (r i.rt)))
            (omega (arith, rs_of, div-le_self (r i.rs) (r i.rt))))

  pub compute-Meets : (op : OpCode) → Meets (has_no_result op r i) (Plain r) (compute op r i)
  unfolding has_no_result compute
  compute-Meets op_add = traps _ i.rd _ (omega (arith, k.rd)) (omega arith)
  compute-Meets op_addi = traps _ i.rt _ (omega (arith, k.rt)) (omega arith)
  compute-Meets op_sub = traps _ i.rd _ (omega (arith, k.rd)) (omega arith)
  compute-Meets op_addiu = to_rt _ (omega arith)
  compute-Meets op_addu = to_rd _ (omega arith)
  compute-Meets op_subu = to_rd _ (omega arith)
  compute-Meets op_and = to_rd _ (bit_and_lt _ _ rs_of rt_of)
  compute-Meets op_andi = to_rt _ (bit_and_lt _ _ rs_of low)
  compute-Meets op_or = to_rd _ (bit_or_lt _ _ rs_of rs_of)
  compute-Meets op_ori = to_rt _ (bit_or_lt _ _ rs_of low)
  compute-Meets op_xor = to_rd _ (bit_xor_lt _ _ rs_of rt_of)
  compute-Meets op_xori = to_rt _ (bit_xor_lt _ _ rs_of low)
  compute-Meets op_nor = to_rd _ (omega arith)
  compute-Meets op_beq = on _
  compute-Meets op_bne = on _
  compute-Meets op_bgez = on _
  compute-Meets op_bgtz = on _
  compute-Meets op_blez = on _
  compute-Meets op_bltz = on _
  compute-Meets op_bgezal = linked r31 _ (omega arith) (branch_lt (link r r31) _ i.extra)
  compute-Meets op_bltzal = linked r31 _ (omega arith) (branch_lt (link r r31) _ i.extra)
  compute-Meets op_jal = linked r31 _ (omega arith) target_lt
  compute-Meets op_j = (refl, jump-Continues r h _ target_lt)
  compute-Meets op_jalr = linked i.rd _ (omega (arith, k.rd)) (ground (arith, rs_of))
  compute-Meets op_jr = (refl, jump-Continues r h _ rs_of)
  compute-Meets op_div = divide-Meets
  compute-Meets op_divu = (refl, divide_unsigned-Plain)
  compute-Meets op_mult =
      let p = mult-IsProduct (r i.rs) (r i.rt) true rs_of rt_of in
      (refl, sets_pair-Sound r h _ _ p.high p.low)
  compute-Meets op_multu =
      let p = mult-IsProduct (r i.rs) (r i.rt) false rs_of rt_of in
      (refl, sets_pair-Sound r h _ _ p.high p.low)
  compute-Meets op_mfhi = to_rd _ (h.words hi_reg)
  compute-Meets op_mflo = to_rd _ (h.words lo_reg)
  compute-Meets op_mthi = (refl, sets-Sound r h hi_reg _ (omega arith) rs_of)
  compute-Meets op_mtlo = (refl, sets-Sound r h lo_reg _ (omega arith) rs_of)
  compute-Meets op_lui = to_rt _ (shift_left_lt i.extra 16 k.extra)
  compute-Meets op_sll = to_rd _ (shift_left_lt _ i.extra rt_of)
  compute-Meets op_sllv = to_rd _ (shift_left_lt _ (r i.rs % 32) rt_of)
  compute-Meets op_sra = to_rd _ (shift_right_lt _ i.extra rt_of)
  compute-Meets op_srav = to_rd _ (shift_right_lt _ (r i.rs % 32) rt_of)
  compute-Meets op_srl = to_rd _ (shift_right_lt _ i.extra rt_of)
  compute-Meets op_srlv = to_rd _ (shift_right_lt _ (r i.rs % 32) rt_of)
  compute-Meets op_slt = to_rd _ (flag_lt _)
  compute-Meets op_sltu = to_rd _ (flag_lt _)
  compute-Meets op_slti = to_rt _ (flag_lt _)
  compute-Meets op_sltiu = to_rt _ (flag_lt _)
  compute-Meets op_syscall = (refl, (refl, omega arith))
  compute-Meets op_res = (refl, (refl, omega arith))
  compute-Meets op_unimp = (refl, (refl, omega arith))
  compute-Meets op_rfe = refl
  compute-Meets op = refl
