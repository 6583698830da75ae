-- ===== src/VirtualMemory/Memory.antt =====
-- Reads and writes of the memory of a process.
use csci402_projects.Base.{
  ℕ, ◌+◌, ◌*◌, ◌/◌, ◌%◌, ◌≤◌, ◌<◌, ◌≡◌, Bool, true, false, ◌==◌, if◌then◌else◌, inl, inr, some, ok,
  fault, Result, arith, refl, subst, sym, ◌∙◌, update,
}
use csci402_projects.VirtualMemory.State.{Vm, page_size, memory_size}
use csci402_projects.VirtualMemory.Translate.{
  Translation, translated, search_for_tlb_entry, misaligned, through_entry, translate,
  sign_extend_byte, load, store, touch, value, read_mem, write_mem, shows,
}
use csci402_projects.VirtualMemory.Lookup.{
  used, Outcome, missed, refused, through, translate-Outcome,
}
use csci402_projects.VirtualMemory.Searches.{search_for_tlb_entry-ext}
use csci402_projects.VirtualMemory.Retry.{IsSize}

-- What a word of 32 bits leaves in memory: a byte is read as a signed number.
abbrev pub narrow : ℕ → ℕ → ℕ
narrow size v = if size == 1 then sign_extend_byte (v % 256) else if size == 2 then v % 65536 else v

-- The bytes of a word give the word.
word :
    (v : ℕ)
    → v < 4294967296
    → v % 256 + 256 * (v / 256 % 256) + 65536 * (v / 65536 % 256) + 16777216 * (v / 16777216 % 256)
      ≡ v
word v small = omega arith

half : (v : ℕ) → v % 256 + 256 * (v / 256 % 256) ≡ v % 65536
half v = omega arith

load-store :
    (m : ℕ → ℕ) (p size v : ℕ)
    → IsSize size
    → v < 4294967296
    → (m' : ℕ → ℕ) × (store m p size v ≡ ok m') × (load m' p size ≡ ok (narrow size v))
unfolding load store
load-store m p size v (inl e) small = (update m p (v % 256), ground (arith, e), ground (arith, e))
load-store m p size v (inr (inl e)) small = (
  update (update m p (v % 256)) (p + 1) (v / 256 % 256),
  ground (arith, e),
  ground (arith, e, half v),
)
load-store m p size v (inr (inr e)) small = (
  update (update (update (update m p (v % 256)) (p + 1) (v / 256 % 256)) (p + 2) (v / 65536 % 256))
      (p + 3) (v / 16777216 % 256),
  ground (arith, e),
  ground (arith, e, word v small),
)

-- After an access through an entry the TLB shows the same pages.
used-shows :
    (s : Vm) (i vpn k : ℕ) (writing : Bool) → shows s vpn k ≡ shows (used s i writing) vpn k
used-shows s i vpn k writing = ground arith

-- A second access through the entry of a first one, to read.
translate-again :
    (s : Vm) (addr size i : ℕ) (m : ℕ → ℕ) (p ticks : ℕ)
    → search_for_tlb_entry s (addr / page_size) ≡ some i
    → (s.tlb i).physical_page * page_size + addr % page_size + size ≤ memory_size
    → misaligned addr size ≡ false
    → IsSize size
    → translate (touch (record (used s i true) { memory = m }) p ticks) addr size false
      ≡ ok (
        touch (record (used (used s i true) i false) { memory = m }) p ticks,
        translated ((s.tlb i).physical_page * page_size + addr % page_size),
      )
unfolding translate through_entry
translate-again s addr size i m p ticks found fits straight sized =
    let same =
      search_for_tlb_entry-ext s (touch (record (used s i true) { memory = m }) p ticks)
        (addr / page_size) (λ k. used-shows s i (addr / page_size) k true) in
    ground (arith, straight, sym same ∙ found, fits, sized)

-- A word that is written to an address is read back from it: all of it with four bytes, its low half
-- with two, and its low byte, taken as a signed number, with one. The write is translated, and the
-- read that follows it cannot fail.
pub read_mem-write_mem :
    (s s₁ : Vm) (ticks ticks' addr size v w : ℕ)
    → IsSize size
    → v < 4294967296
    → write_mem ticks s addr size v ≡ ok (s₁, value w)
    → (s₂ : Vm) × (read_mem ticks' s₁ addr size ≡ ok (s₂, value (narrow size v)))
unfolding read_mem write_mem
read_mem-write_mem s s₁ ticks ticks' addr size v w sized small e =
    written (translate s addr size true) refl
  where
    at_entry :
        (t : Vm) (r : Translation)
        → translate s addr size true ≡ ok (t, r)
        → Outcome s addr size true t r
        → (s₂ : Vm) × (read_mem ticks' s₁ addr size ≡ ok (s₂, value (narrow size v)))
    at_entry t r h (missed _ is_raised _ _) = absurd (ground (arith, h, is_raised, e))
    at_entry t r h (refused x _ is_raised _) = absurd (ground (arith, h, is_raised, e))
    at_entry t r h (through i found same is_there fits straight) =
        let p = (s.tlb i).physical_page * page_size + addr % page_size in
        let (m', stored, loaded) = load-store s.memory p size v sized small in
        let again = translate-again s addr size i m' p ticks found fits straight sized in
        (
          touch (touch (record (used (used s i true) i false) { memory = m' }) p ticks) p ticks',
          subst
              (λ u.
                read_mem ticks' u addr size
                ≡ ok (
                  touch (touch (record (used (used s i true) i false) { memory = m' }) p ticks) p
                      ticks',
                  value (narrow size v),
                ))
              {x = touch (record (used s i true) { memory = m' }) p ticks}
              (ground (arith, h, same, is_there, stored, e)) (ground (arith, again, loaded)),
        )

    written :
        (r : Result (Vm × Translation))
        → translate s addr size true ≡ r
        → (s₂ : Vm) × (read_mem ticks' s₁ addr size ≡ ok (s₂, value (narrow size v)))
    written (fault reason) h = absurd (ground (arith, h, e))
    written (ok (t, r)) h = at_entry t r h (translate-Outcome s t r addr size true h)
