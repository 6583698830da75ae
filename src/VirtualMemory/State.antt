-- ===== src/VirtualMemory/State.antt =====
-- The tables of the virtual memory: the TLB of machine/machine.h, the inverted page table of
-- threads/system.h, the page tables of the processes, and the swap file. A page number and an address
-- are not negative.
use csci402_projects.Base.{
  ℕ, zero, suc, ◌+◌, ◌/◌, ◌%◌, ltb, Bool, false, Option, none, some, List, if◌then◌else◌, update,
}
use csci402_projects.FileSystem.Bitmap.{BitMap}

-- PageSize, NumPhysPages, MemorySize, TLBSize and NumSwapPages
abbrev pub page_size : ℕ
page_size = 128

abbrev pub num_phys_pages : ℕ
num_phys_pages = 32

abbrev pub memory_size : ℕ
memory_size = 4096

abbrev pub tlb_size : ℕ
tlb_size = 4

abbrev pub num_swap_pages : ℕ
num_swap_pages = 10000

pub record TranslationEntry : Type 0 where
  pub virtual_page : ℕ
  pub physical_page : ℕ
  pub valid : Bool
  pub read_only : Bool
  pub use_bit : Bool
  pub dirty : Bool

-- IPTTranslationEntry; no code sets its time stamp.
pub record IptEntry : Type 0 where
  pub virtual_page : ℕ
  pub physical_page : ℕ
  pub process_id : ℕ
  pub valid : Bool
  pub read_only : Bool
  pub use_bit : Bool
  pub dirty : Bool

-- What the handler of a page fault writes of a page table's entry.
pub record PageEntry : Type 0 where
  pub valid : Bool
  pub dirty : Bool

-- A file is a function of the offset; `none` is past its end.
abbrev pub File : Type 0
File = ℕ → Option ℕ

-- `ipt_queue` is the queue of the frames in the order of their loading. The page table of process p
-- has `num_pages p` entries, and `page_location` says whether a page is in the executable (0), in the
-- swap file (1), or was never written (2).
pub record Vm : Type 0 where
  pub memory : ℕ → ℕ
  pub last_used : ℕ → ℕ
  pub tlb : ℕ → TranslationEntry
  pub next_tlb : ℕ
  pub ipt : ℕ → IptEntry
  pub ipt_queue : List ℕ
  pub page_table : ℕ → ℕ → PageEntry
  pub num_pages : ℕ → ℕ
  pub page_location : ℕ → ℕ → ℕ
  pub swap_array : ℕ → ℕ → ℕ
  pub swap_file : File
  pub swap_file_map : BitMap
  pub executable : ℕ → File

abbrev pub blank_tlb : TranslationEntry
blank_tlb = record {
  virtual_page = 0;
  physical_page = 0;
  valid = false;
  read_only = false;
  use_bit = false;
  dirty = false;
}

abbrev pub blank_ipt : IptEntry
blank_ipt = record {
  virtual_page = 0;
  physical_page = 0;
  process_id = 0;
  valid = false;
  read_only = false;
  use_bit = false;
  dirty = false;
}

abbrev pub set_tlb : Vm → ℕ → TranslationEntry → Vm
set_tlb s i e = record s { tlb = update s.tlb i e }

abbrev pub set_ipt : Vm → ℕ → IptEntry → Vm
set_ipt s i e = record s { ipt = update s.ipt i e }

-- An entry of a table with two indices.
abbrev pub update_two {ℓ} : {A : Type ℓ} → (ℕ → ℕ → A) → ℕ → ℕ → A → ℕ → ℕ → A
update_two f p v a = update f p (update (f p) v a)

-- `ReadAt` of `len` bytes from `offset` to `start` in memory; past the end of the file nothing is read.
unfoldable pub read_at : File → (ℕ → ℕ) → ℕ → ℕ → ℕ → ℕ → ℕ
read_at f memory start offset zero = memory
read_at f memory start offset (suc len) =
    let later = λ (m : ℕ → ℕ). read_at f m (suc start) (suc offset) len in
    elim (f offset) [ none ↦ memory | some b ↦ later (update memory start b) ]

-- `WriteAt` of `len` bytes at `start` in memory to `offset`.
unfoldable pub write_at : File → (ℕ → ℕ) → ℕ → ℕ → ℕ → File
write_at f memory start offset zero = f
write_at f memory start offset (suc len) =
    write_at (update f offset (some (memory start))) memory (suc start) (suc offset) len

-- UserStackSize
abbrev pub user_stack_size : ℕ
user_stack_size = 1024

-- divRoundUp
abbrev pub div_round_up : ℕ → ℕ → ℕ
div_round_up n d = n / d + (if ltb 0 (n % d) then 1 else 0)
