-- ===== src/Processor/Sound.antt =====
-- What every instruction of machine/mipssim.cc respects: words stay words, the program counters are
-- only moved at the end, and an instruction that raises an exception has set no register.
use csci402_projects.Base.{ℕ, ◌<◌, ◌≡◌, refl, Bool, if◌then◌else◌, update, arith}
use csci402_projects.Processor.Words.{word_limit, add, index_to_addr}
use csci402_projects.Processor.Registers.{Registers, next_pc_reg, load_reg, Instruction}
use csci402_projects.Processor.Execute.{
  Effect, breaks, raises, access_exception, syscall_exception, overflow_exception,
  illegal_instr_exception, next_instruction, sets, sets_pair, loads,
}

-- The registers of the machine: words, a delayed load into a general register, and R0 zero.
pub record IsRegisters (r : Registers) : Type 0 where
  pub words : (k : ℕ) → r k < word_limit
  pub target : r load_reg < 32
  pub zero : r 0 ≡ 0

-- A decoded instruction names general registers.
pub record IsInstruction (i : Instruction) : Type 0 where
  pub rs : i.rs < 32
  pub rt : i.rt < 32
  pub rd : i.rd < 32
  pub extra : i.extra < word_limit

-- At the end of the switch the program counters and the pending load are as before.
pub record Continues (r r' : Registers) (pc_after next_load_reg next_load_value : ℕ) : Type 0 where
  pub words : (k : ℕ) → r' k < word_limit
  pub specials : (k : ℕ) → 33 < k → r' k ≡ r k
  pub next_pc : pc_after < word_limit
  pub load : next_load_reg < 32
  pub load_value : next_load_value < word_limit

abbrev pub Sound : Registers → Effect → Type 0
Sound r (breaks r' pc_after reg v) = Continues r r' pc_after reg v
Sound r (raises r' cause bad_vaddr) = (r' ≡ r) × (bad_vaddr < word_limit)

-- The same of an instruction that does not use memory, which raises no exception of an access.
abbrev pub Plain : Registers → Effect → Type 0
Plain r (breaks r' pc_after reg v) = Continues r r' pc_after reg v
Plain r (raises r' (access_exception e) bad_vaddr) = ⊥
Plain r (raises r' cause bad_vaddr) = (r' ≡ r) × (bad_vaddr < word_limit)

pub Plain-Sound : (r : Registers) (e : Effect) → Plain r e → Sound r e
Plain-Sound r (breaks r' pc_after reg v) h = h
Plain-Sound r (raises r' (access_exception e) bad_vaddr) h = absurd h
Plain-Sound r (raises r' syscall_exception bad_vaddr) h = h
Plain-Sound r (raises r' overflow_exception bad_vaddr) h = h
Plain-Sound r (raises r' illegal_instr_exception bad_vaddr) h = h

module _ (r : Registers) (h : IsRegisters r) where
  update-words : (k v : ℕ) → v < word_limit → (j : ℕ) → update r k v j < word_limit
  update-words k v hv j = ground (arith, h.words j)

  pub sets-Sound : (k v : ℕ) → k < 34 → v < word_limit → Sound r (sets r k v)
  sets-Sound k v hk hv = record {
    words = update-words k v hv;
    specials = λ j hj. ground arith;
    next_pc = omega arith;
    load = omega arith;
    load_value = omega arith;
  }

  pub sets_pair-Sound : (x y : ℕ) → x < word_limit → y < word_limit → Sound r (sets_pair r x y)
  sets_pair-Sound x y hx hy = record {
    words = λ j. ground (arith, h.words j);
    specials = λ j hj. ground arith;
    next_pc = omega arith;
    load = omega arith;
    load_value = omega arith;
  }

  -- With or without a link.
  pub link-Continues :
      (k v pc : ℕ) → k < 34 → v < word_limit → pc < word_limit → Continues r (update r k v) pc 0 0
  link-Continues k v pc hk hv hp = record {
    words = update-words k v hv;
    specials = λ j hj. ground arith;
    next_pc = hp;
    load = omega arith;
    load_value = omega arith;
  }

  pub loads-Sound : (k v : ℕ) → k < 32 → v < word_limit → Sound r (loads r k v)
  loads-Sound k v hk hv = record {
    words = h.words;
    specials = λ j hj. refl;
    next_pc = omega arith;
    load = hk;
    load_value = hv;
  }

  pub jump-Continues : (pc : ℕ) → pc < word_limit → Continues r r pc 0 0
  jump-Continues pc hp = record {
    words = h.words;
    specials = λ j hj. refl;
    next_pc = hp;
    load = omega arith;
    load_value = omega arith;
  }

pub branch_lt :
    (r : Registers) (test : Bool) (extra : ℕ)
    → (if test then add (r next_pc_reg) (index_to_addr extra) else next_instruction r) < word_limit
branch_lt r test extra = ground arith
