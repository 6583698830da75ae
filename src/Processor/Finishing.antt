-- ===== src/Processor/Finishing.antt =====
-- The end of OneInstruction of machine/mipssim.cc, and RaiseException of machine/machine.cc: the
-- pending load, and the program counters.
use csci402_projects.Base.{
  ℕ, ◌<◌, ◌≡◌, ◌≢◌, refl, sym, ◌∙◌, false, ◌==◌, lt→ltb, update, update_other, ok, Meets, subst,
  arith,
}
use csci402_projects.VirtualMemory.State.{Vm}
use csci402_projects.Processor.Words.{word_limit}
use csci402_projects.Processor.Registers.{
  Registers, pc_reg, next_pc_reg, prev_pc_reg, load_reg, load_value_reg, bad_vaddr_reg,
  num_total_regs, delayed_load,
}
use csci402_projects.Processor.Execute.{
  Effect, breaks, raises, Cause, access_exception, syscall_exception, overflow_exception,
  illegal_instr_exception,
}
use csci402_projects.Processor.Sound.{IsRegisters, Continues, Sound}
use csci402_projects.Processor.Accesses.{Missed}
use csci402_projects.Processor.Fair.{AtMiss, Still}
use csci402_projects.Processor.Step.{Outcome, completed, trapped_into, finish}

-- After an instruction that completes, the program counters have moved on.
pub record Completes (r r' : Registers) : Type 0 where
  pub registers : IsRegisters r'
  pub pc : r' pc_reg ≡ r next_pc_reg
  pub prev_pc : r' prev_pc_reg ≡ r pc_reg

-- At a trap the program counters and all general registers are as before the instruction, but for a
-- pending load, which has been done.
pub record Precise (r r' : Registers) (bad_vaddr : ℕ) : Type 0 where
  pub registers : IsRegisters r'
  pub pc : r' pc_reg ≡ r pc_reg
  pub next_pc : r' next_pc_reg ≡ r next_pc_reg
  pub same : (k : ℕ) → k < 34 → k ≢ r load_reg → r' k ≡ r k
  pub loaded : r load_reg ≢ 0 → r' (r load_reg) ≡ r load_value_reg
  pub idle : r' load_reg ≡ 0
  pub address : r' bad_vaddr_reg ≡ bad_vaddr

-- The page fault is raised at the address in the register for it.
abbrev pub AtAddress : Vm → Cause → ℕ → Type 0
AtAddress t (access_exception e) bad_vaddr = Missed t e bad_vaddr
AtAddress t cause bad_vaddr = Unit

abbrev pub Ended : Vm → Registers → Vm → Outcome → Type 0
Ended s r t (completed r') = Completes r r'
Ended s r t (trapped_into cause r') =
    Precise r r' (r' bad_vaddr_reg) × (t.memory ≡ s.memory) × AtAddress t cause (r' bad_vaddr_reg)

abbrev after_load : Registers → ℕ → ℕ → Registers
after_load r next_reg next_value =
    let loaded = update r (r load_reg) (r load_value_reg) in
    update (update (update loaded load_reg next_reg) load_value_reg next_value) 0 0

delayed_load-ok :
    (r : Registers) (reg v : ℕ) → r load_reg < 32 → delayed_load r reg v ≡ ok (after_load r reg v)
unfolding delayed_load
delayed_load-ok r reg v h = rw (lt→ltb (r load_reg) num_total_regs (omega arith)) refl

update-words :
    (r : Registers) (k v : ℕ)
    → ((j : ℕ) → r j < word_limit)
    → v < word_limit
    → (j : ℕ) → update r k v j < word_limit
update-words r k v h hv j = ground (arith, h j)

after_load-words :
    (r : Registers) (reg v : ℕ)
    → ((j : ℕ) → r j < word_limit)
    → reg < 32
    → v < word_limit
    → (j : ℕ) → after_load r reg v j < word_limit
after_load-words r reg v h hr hv =
    update-words _ 0 0
      (update-words _ load_value_reg v
        (update-words _ load_reg reg (update-words r _ _ h (h load_value_reg)) (omega arith)) hv)
      (omega arith)

module _ (s t : Vm) (r : Registers) (h : IsRegisters r) where
  module _ (r' : Registers) (pc reg v : ℕ) (c : Continues r r' pc reg v) where
    target_lt : r' load_reg < 32
    target_lt = subst (λ (n : ℕ). n < 32) (sym (c.specials load_reg (omega arith))) h.target

    moved : Registers
    moved =
        let l = after_load r' reg v in
        update (update (update l prev_pc_reg (l pc_reg)) pc_reg (l next_pc_reg)) next_pc_reg pc

    moved-IsRegisters : IsRegisters moved
    unfolding moved
    moved-IsRegisters =
        let words = after_load-words r' reg v c.words c.load c.load_value in
        record {
          words =
              update-words _ next_pc_reg pc
                (update-words _ pc_reg _ (update-words _ prev_pc_reg _ words (words pc_reg))
                  (words next_pc_reg))
                c.next_pc;
          target = c.load;
          zero = refl;
        }

    kept : (k : ℕ) → 33 < k → update r' (r' load_reg) (r' load_value_reg) k ≡ r k
    kept k hk =
        update_other r' (r' load_reg) k _ (λ e. absurd (omega (arith, target_lt, e)))
        ∙ c.specials k hk

    breaks-Meets : Meets false (Ended s r t) (finish (breaks r' pc reg v))
    unfolding finish moved
    breaks-Meets = rw (delayed_load-ok r' reg v target_lt) (
      refl,
      record {
        registers = moved-IsRegisters;
        pc = kept next_pc_reg (omega arith);
        prev_pc = kept pc_reg (omega arith);
      },
    )

  module _ (cause : Cause) (bad : ℕ) (small : bad < word_limit) where
    stopped : Registers
    stopped = after_load (update r bad_vaddr_reg bad) 0 0

    target_ne : (k : ℕ) → 33 < k → (r load_reg == k) ≡ false
    target_ne k hk = ground (arith, h.target)

    stopped-Precise : Precise r stopped bad
    unfolding stopped
    stopped-Precise = record {
      registers = record {
        words =
            after_load-words _ 0 0 (update-words r bad_vaddr_reg bad h.words small) (omega arith)
              (omega arith);
        target = omega arith;
        zero = refl;
      };
      pc = rw (target_ne pc_reg (omega arith)) refl;
      next_pc = rw (target_ne next_pc_reg (omega arith)) refl;
      same = λ k hk other. ground (arith, other, h.zero);
      loaded = λ other. ground (arith, other, h.target);
      idle = refl;
      address = rw (target_ne bad_vaddr_reg (omega arith)) refl;
    }

    raises-Meets :
        t.memory ≡ s.memory
        → AtAddress t cause bad
        → Meets false (Ended s r t) (finish (raises r cause bad))
    unfolding finish stopped
    raises-Meets same missed =
        let p = stopped-Precise in
        rw (delayed_load-ok (update r bad_vaddr_reg bad) 0 0 h.target) (
          refl,
          (
            subst (Precise r stopped) (sym p.address) p,
            same,
            subst (AtAddress t cause) (sym p.address) missed,
          ),
        )

at_address :
    (t : Vm) (r : Registers) (cause : Cause) (bad : ℕ)
    → AtMiss (t, raises r cause bad)
    → AtAddress t cause bad
at_address t r (access_exception e) bad h = h
at_address t r syscall_exception bad h = tt
at_address t r overflow_exception bad h = tt
at_address t r illegal_instr_exception bad h = tt

-- The end of an instruction that keeps to `Fair`.
pub finish-Meets :
    (s t : Vm) (r : Registers) (e : Effect)
    → IsRegisters r
    → Sound r e
    → Still s (t, e)
    → AtMiss (t, e)
    → Meets false (Ended s r t) (finish e)
finish-Meets s t r (breaks r' pc reg v) h c same missed = breaks-Meets s t r h r' pc reg v c
finish-Meets s t r (raises r' cause bad) h c same missed =
    subst (λ q. Meets false (Ended s r t) (finish (raises q cause bad))) (sym c.0)
      (raises-Meets s t r h cause bad c.1 same (at_address t r' cause bad missed))
