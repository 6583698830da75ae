-- ===== src/Processor/Fair.antt =====
-- What one instruction of machine/mipssim.cc may do to the registers and to the tables of the virtual
-- memory, and that each instruction keeps to it.
use csci402_projects.Base.{
  ℕ, ◌<◌, ◌≡◌, refl, sym, subst, ◌∙◌, false, Result, ok, Meets, Meets-value, Meets-next,
  Meets-weaken, arith,
}
use csci402_projects.VirtualMemory.State.{Vm}
use csci402_projects.VirtualMemory.Translate.{Access, value, trapped, read_mem, write_mem}
use csci402_projects.VirtualMemory.Retry.{IsSize}
use csci402_projects.VirtualMemory.System.{Machine, Steps, reads, writes, here, next}
use csci402_projects.Processor.Words.{word_limit}
use csci402_projects.Processor.Registers.{Registers}
use csci402_projects.Processor.Execute.{Effect, breaks, raises, access_exception, next_instruction}
use csci402_projects.Processor.Accesses.{
  IsBytes, IsRead, IsWritten, Missed, read_mem-Meets, write_mem-Meets,
}
use csci402_projects.Processor.Sound.{IsRegisters, Sound, jump-Continues}
use csci402_projects.Processor.Step.{Ending, reading, storing}

-- The machine of the virtual memory, with a process.
abbrev pub machine_of : Vm → ℕ → Machine
machine_of s running = record { vm = s; running = running }

-- The tables `t` are reached from `s` by reads and writes of the memory.
abbrev pub Accessed : Vm → Vm → Type 0
Accessed s t = (running : ℕ) → Steps (machine_of s running) (machine_of t running)

-- An instruction that raises an exception has not written the memory.
abbrev pub Still : Vm → Ending → Type 0
Still s (t, breaks r pc_after reg v) = Unit
Still s (t, raises r cause bad_vaddr) = t.memory ≡ s.memory

-- A page fault is raised at the address that missed.
abbrev pub AtMiss : Ending → Type 0
AtMiss (t, raises r (access_exception e) bad_vaddr) = Missed t e bad_vaddr
AtMiss x = Unit

pub record Fair (s : Vm) (r : Registers) (x : Ending) : Type 0 where
  pub bytes : IsBytes x.0.memory
  pub sound : Sound r x.1
  pub still : Still s x
  pub accessed : Accessed s x.0
  pub missed : AtMiss x

pub Steps-trans : {l m n : Machine} → Steps l m → Steps m n → Steps l n
Steps-trans a here = a
Steps-trans a (next b step) = next (Steps-trans a b) step

Still-after : (s t : Vm) → t.memory ≡ s.memory → (x : Ending) → Still t x → Still s x
Still-after s t same (u, breaks r pc reg v) h = tt
Still-after s t same (u, raises r cause bad) h = h ∙ same

module _ (s : Vm) (r : Registers) (bytes : IsBytes s.memory) where
  -- An instruction that leaves the tables alone.
  pub alone : (e : Effect) → Sound r e → AtMiss (s, e) → Fair s r (s, e)
  alone (breaks r' pc reg v) h m = record {
    bytes = bytes;
    sound = h;
    still = tt;
    accessed = λ running. here;
    missed = m;
  }
  alone (raises r' cause bad) h m = record {
    bytes = bytes;
    sound = h;
    still = refl;
    accessed = λ running. here;
    missed = m;
  }

  -- What is fair after a read is fair before it.
  pub Fair-after :
      (t : Vm) → t.memory ≡ s.memory → Accessed s t → (x : Ending) → Fair t r x → Fair s r x
  Fair-after t same path x f = record {
    bytes = f.bytes;
    sound = f.sound;
    still = Still-after s t same x f.still;
    accessed = λ running. Steps-trans (path running) (f.accessed running);
    missed = f.missed;
  }

  pub reading-Meets :
      (ticks addr size : ℕ) (after : Vm → ℕ → Result Ending)
      → IsSize size
      → addr < word_limit
      → ((t : Vm) (v : ℕ) → IsBytes t.memory → v < word_limit → Meets false (Fair t r) (after t v))
      → Meets false (Fair s r) (reading ticks s r addr size after)
  unfolding reading
  reading-Meets ticks addr size after sized small each =
      Meets-next false (Fair s r) (read_mem ticks s addr size) _
        (Meets-value false (IsRead s addr) _ (read_mem-Meets ticks s addr size bytes sized)) arrive
    where
      arrive :
          (x : Vm × Access)
          → IsRead s addr x × (read_mem ticks s addr size ≡ ok x)
          → Meets false (Fair s r) (elim x.1 [
            | trapped e ↦ ok (x.0, raises r (access_exception e) addr)
            | value v ↦ after x.0 v
          ])
      arrive (t, trapped e) h = (
        refl,
        record {
          bytes = subst IsBytes (sym h.0.0) bytes;
          sound = (refl, small);
          still = h.0.0;
          accessed = λ running. next here (reads ticks addr size t (trapped e) h.1);
          missed = h.0.1;
        },
      )
      arrive (t, value v) h =
          let path : Accessed s t = λ running. next here (reads ticks addr size t (value v) h.1) in
          Meets-weaken false (Fair s r) (after t v) (Fair-after t h.0.0 path)
            (each t v (subst IsBytes (sym h.0.0) bytes) h.0.1)

  pub storing-Meets :
      (ticks addr size v : ℕ)
      → IsRegisters r
      → IsSize size
      → addr < word_limit
      → Meets false (Fair s r) (storing ticks s r addr size v)
  unfolding storing
  storing-Meets ticks addr size v h sized small =
      Meets-next false (Fair s r) (write_mem ticks s addr size v) _
        (Meets-value false (IsWritten s addr) _ (write_mem-Meets ticks s addr size v bytes sized))
        arrive
    where
      arrive :
          (x : Vm × Access)
          → IsWritten s addr x × (write_mem ticks s addr size v ≡ ok x)
          → Meets false (Fair s r) (elim x.1 [
            | trapped e ↦ ok (x.0, raises r (access_exception e) addr)
            | value w ↦ ok (x.0, breaks r (next_instruction r) 0 0)
          ])
      arrive (t, trapped e) f = (
        refl,
        record {
          bytes = subst IsBytes (sym f.0.0) bytes;
          sound = (refl, small);
          still = f.0.0;
          accessed = λ running. next here (writes ticks addr size v t (trapped e) f.1);
          missed = f.0.1;
        },
      )
      arrive (t, value w) f = (
        refl,
        record {
          bytes = f.0;
          sound = jump-Continues r h (next_instruction r) (omega arith);
          still = tt;
          accessed = λ running. next here (writes ticks addr size v t (value w) f.1);
          missed = tt;
        },
      )
